-- ===== src/IsaEmul/Tests.antt =====
-- Runs of isa_emul.c on a word LDADDAL X1, X2, [X3], a BCAX and an LDAPR.
use machismo_sword.Base.{
  ℕ, ◌+◌, ◌-◌, ◌/◌, ◌%◌, ◌^◌, ◌≡◌, ◌≢◌, ◌⊎◌, inl, refl, false, none, some, arith, ltb, leb, ◌==◌,
  ◌&&◌, if◌then◌else◌,
}
use machismo_sword.Base.Int.{pos, sub_ℕ}
use machismo_sword.IsaEmul.Encode.{enc_b, word_of}
use machismo_sword.IsaEmul.Decode.{LseOp, Decoded, decode_lse, lse_op, decode_bcax}
use machismo_sword.IsaEmul.Island.{lse_mask, second_mask, pick_scratch}
use machismo_sword.IsaEmul.Patch.{isa_emul_patch, out_of_range}
use machismo_sword.IsaEmul.Branch.{branch_target}
use machismo_sword.IsaEmul.Scratch.{Fresh, lse_scratches}
use machismo_sword.IsaEmul.Fields.{InRange, decode_lse-InRange}
use machismo_sword.IsaEmul.Redirect.{Spared, Patched}
use machismo_sword.IsaEmul.Redirect.Run.{isa_emul_patch-Patched}
use machismo_sword.IsaEmul.Detour.{Detour, isa_emul_patch-Detour}
use machismo_sword.IsaEmul.Downgrade.{
  is_rcpc, rcpc_word, rcpc_word_lem, downgrade_from, downgraded, downgrade_from_lem,
}

abbrev ldaddal : ℕ
ldaddal = 0xF8E10062

abbrev ldapr : ℕ
ldapr = 0xB8BFC062

-- Code of two words at 8, an atomic first; a pool of 100 words at 64.
abbrev code : ℕ → ℕ
code j = if j == 8 then ldaddal else 0xD503201F

abbrev atomic : Decoded
atomic = record { op = LseOp.ldadd; size = 3; acquire = 1; release = 1; rs = 1; rt = 2; rn = 16 }

abbrev cas_word : Decoded
cas_word = record { op = LseOp.cas; size = 3; acquire = 1; release = 0; rs = 1; rt = 2; rn = 3 }

isa_emul_patch-Patched_example : Patched code 8 2 64 164 (isa_emul_patch code 8 2 64 164)
isa_emul_patch-Patched_example =
    isa_emul_patch-Patched code 8 2 64 164 (inl (omega arith)) (omega arith)

isa_emul_patch-Detour_example :
    let p = isa_emul_patch code 8 2 64 164 in
    ((p.memory 8 ≡ code 8) × Spared (code 8) 64 164 p.island 8) ⊎ Detour code p.memory 64 p.island 8
isa_emul_patch-Detour_example =
    isa_emul_patch-Detour code 8 2 64 164 8 (inl (omega arith)) (omega arith) (omega arith)
      (omega arith) (omega arith)

lse_scratches_example :
    let m1 = lse_mask atomic in
    let s1 = pick_scratch m1 in
    let s2 = pick_scratch (second_mask m1) in
    let s3 = pick_scratch (second_mask (second_mask m1)) in
    Fresh atomic s1 × Fresh atomic s2 × Fresh atomic s3 × (s1 ≢ s2) × (s1 ≢ s3) × (s2 ≢ s3)
lse_scratches_example = lse_scratches atomic

rcpc_word_example :
    let v = rcpc_word ldapr in
    (v / 2 ^ 30 ≡ ldapr / 2 ^ 30)
    × (v % 2 ^ 10 ≡ ldapr % 2 ^ 10)
    × (is_rcpc v ≡ false)
    × (decode_lse v ≡ none)
    × (decode_bcax v ≡ none)
    × ((d : Decoded) × (decode_lse ldapr ≡ some d) × (d.op ≡ LseOp.swp) × (d.rs ≡ 31))
unfolding is_rcpc
rcpc_word_example = rcpc_word_lem ldapr (omega arith) refl

downgrade_from_example :
    (downgrade_from 2 8 (code, 0)).0 9
    ≡ (if leb 8 9 && ltb 9 (8 + 2) then downgraded (code 9) else code 9)
downgrade_from_example = downgrade_from_lem 2 8 (code, 0) 9

-- The decoder reads LDADDAL with its registers.
decodes : decode_lse ldaddal ≡ some (record atomic { rn = 3 })
unfolding decode_lse lse_op
decodes = refl

-- An atomic at word 0 with its island of 19 words at 2^25 - 1 passes the range test, and the branch
-- back to word 1 from the last word comes out at 2^26 + 1.
far_island : out_of_range (2 ^ 25 - 1) 0 ≡ false
unfolding out_of_range
far_island = refl

wrong_return : branch_target (2 ^ 25 + 17) (enc_b (sub_ℕ 1 (2 ^ 25 + 17))) ≡ pos (2 ^ 26 + 1)
unfolding enc_b word_of
wrong_return = refl

decode_lse-InRange_example : InRange cas_word
unfolding decode_lse
decode_lse-InRange_example = decode_lse-InRange 0xC8E17C62 cas_word refl
