-- ===== src/IsaEmul/Island.antt =====
-- `pick_scratch`, `emit_island` and `emit_bcax_island` of isa_emul.c. An island is the list of its
-- words, and the number of words is the length of the list.
use machismo_sword.Base.{
  ℕ, zero, suc, ◌+◌, Bool, false, List, [], ◌∷◌, ◌++◌, bit_and, bit_or, length, ltb, ◌==◌,
  if◌then◌else◌,
}
use machismo_sword.Base.Bits.{◌<<<◌}
use machismo_sword.Base.Int.{sub_ℕ}
use machismo_sword.IsaEmul.Encode.{
  enc_b, enc_cbnz_w, enc_str_pre, enc_ldr_post, enc_mrs_nzcv, enc_msr_nzcv, enc_ldxr, enc_stxr,
  enc_add, enc_bic, enc_eor, enc_orr, enc_cmp, enc_csel, enc_mov, enc_sxtb, enc_sxth, cond_gt,
  cond_lt, cond_hi, cond_lo, cond_ne, enc_neon_bic, enc_neon_eor, enc_str_q_pre, enc_ldr_q_post,
}
use machismo_sword.IsaEmul.Decode.{LseOp, Decoded, Bcax}

-- The registers that the first loop of `pick_scratch` tries, in its order, and those of the second.
abbrev pub first_scratches : List ℕ
first_scratches = 16 ∷ 15 ∷ 14 ∷ 13 ∷ 12 ∷ 11 ∷ 10 ∷ 9 ∷ []

abbrev pub later_scratches : List ℕ
later_scratches = 17 ∷ 18 ∷ 19 ∷ 20 ∷ 21 ∷ 22 ∷ 23 ∷ 24 ∷ 25 ∷ 26 ∷ 27 ∷ 28 ∷ []

-- The first register of a list whose bit is not in the mask, with the fallback.
unfoldable pub pick_from : List ℕ → ℕ → ℕ
pick_from [] exclude_mask = 8
pick_from (r ∷ rs) exclude_mask =
    if bit_and exclude_mask (1 <<< r) == 0 then r else pick_from rs exclude_mask

unfoldable pub pick_scratch : ℕ → ℕ
unfolding pick_from
pick_scratch exclude_mask = pick_from (first_scratches ++ later_scratches) exclude_mask

-- The masks of `emit_island`: for CAS, and for the others, where XZR as Rt takes no bit.
abbrev pub cas_mask : Decoded → ℕ
cas_mask d = bit_or (bit_or (bit_or (1 <<< 31) (1 <<< d.rs)) (1 <<< d.rt)) (1 <<< d.rn)

abbrev pub lse_mask : Decoded → ℕ
lse_mask d =
    let mask = bit_or (bit_or (1 <<< 31) (1 <<< d.rs)) (1 <<< d.rn) in
    if d.rt == 31 then mask else bit_or mask (1 <<< d.rt)

abbrev pub is_x : Decoded → Bool
is_x d = d.size == 3

-- `if (condition) island[n++] = word;`
abbrev pub word_if : Bool → ℕ → List ℕ
word_if b w = if b then w ∷ [] else []

abbrev pub is_zr : ℕ → Bool
is_zr r = r == 31

-- The words of a CAS island before the branch back. Its loop starts at word 4.
unfoldable pub cas_words : Decoded → ℕ → ℕ → List ℕ
cas_words d s1 s2 =
    (enc_str_pre s1 ∷ enc_str_pre s2 ∷ enc_mrs_nzcv s1 ∷ enc_str_pre s1 ∷ [])
    ++ (enc_ldxr d.size d.acquire s2 d.rn
        ∷ enc_cmp (is_x d) s2 d.rs
        ∷ bit_or (bit_or 0x54000000 (3 <<< 5)) cond_ne
        ∷ enc_stxr d.size d.release s1 d.rt d.rn
        ∷ enc_cbnz_w s1 (sub_ℕ 4 8)
        ∷ 0xD5033F5F
        ∷ [])
    ++ (if is_zr d.rs then [] else enc_mov (is_x d) d.rs s2 ∷ [])
    ++ (enc_ldr_post s1 ∷ enc_msr_nzcv s1 ∷ enc_ldr_post s2 ∷ enc_ldr_post s1 ∷ [])

-- The comparison and the selection of a signed maximum or minimum.
unfoldable pub signed_words : Decoded → ℕ → ℕ → ℕ → ℕ → List ℕ
signed_words d load new status cond =
    (if ltb d.size 2
      then (if d.size == 0 then enc_sxtb new load else enc_sxth new load)
        ∷ (if d.size == 0 then enc_sxtb status d.rs else enc_sxth status d.rs)
        ∷ enc_cmp false new status
        ∷ []
      else enc_cmp (is_x d) load d.rs ∷ [])
    ++ (enc_csel (is_x d) new d.rs load cond ∷ [])

unfoldable pub unsigned_words : Decoded → ℕ → ℕ → ℕ → List ℕ
unsigned_words d load new cond =
    enc_cmp (is_x d) load d.rs ∷ enc_csel (is_x d) new d.rs load cond ∷ []

-- The switch of `emit_island`: the new value out of the loaded one.
unfoldable pub op_words : LseOp → Decoded → ℕ → ℕ → ℕ → List ℕ
op_words LseOp.ldadd d load new status = enc_add (is_x d) new load d.rs ∷ []
op_words LseOp.ldclr d load new status = enc_bic (is_x d) new load d.rs ∷ []
op_words LseOp.ldeor d load new status = enc_eor (is_x d) new load d.rs ∷ []
op_words LseOp.ldset d load new status = enc_orr (is_x d) new load d.rs ∷ []
op_words LseOp.ldsmax d load new status = signed_words d load new status cond_lt
op_words LseOp.ldsmin d load new status = signed_words d load new status cond_gt
op_words LseOp.ldumax d load new status = unsigned_words d load new cond_lo
op_words LseOp.ldumin d load new status = unsigned_words d load new cond_hi
op_words LseOp.swp d load new status = enc_mov (is_x d) new d.rs ∷ []
op_words LseOp.cas d load new status = []
op_words LseOp.nothing d load new status = []

-- The words of the other islands before the branch back. Their loop starts at word 5.
unfoldable pub lse_words : Decoded → ℕ → ℕ → ℕ → List ℕ
lse_words d s1 s2 s3 =
    let ops = op_words d.op d s1 s2 s3 in
    (enc_str_pre s1
      ∷ enc_str_pre s2
      ∷ enc_str_pre s3
      ∷ enc_mrs_nzcv s1
      ∷ enc_str_pre s1
      ∷ enc_ldxr d.size d.acquire s1 d.rn
      ∷ [])
    ++ ops
    ++ (enc_stxr d.size d.release s3 s2 d.rn ∷ enc_cbnz_w s3 (sub_ℕ 5 (7 + length ops)) ∷ [])
    ++ (if is_zr d.rt then [] else enc_mov (is_x d) d.rt s1 ∷ [])
    ++ (enc_ldr_post s1
        ∷ enc_msr_nzcv s1
        ∷ enc_ldr_post s3
        ∷ enc_ldr_post s2
        ∷ enc_ldr_post s1
        ∷ [])

-- The scratches of `emit_island`: each one is put into the mask of the next.
abbrev pub second_mask : ℕ → ℕ
second_mask mask = bit_or mask (1 <<< pick_scratch mask)

-- The words of an island before its last: the two halves of `emit_island`.
unfoldable pub words_for : LseOp → Decoded → List ℕ
words_for LseOp.cas d =
    let m1 = cas_mask d in cas_words d (pick_scratch m1) (pick_scratch (second_mask m1))
words_for _ d =
    let m1 = lse_mask d in
    let m2 = second_mask m1 in
    lse_words d (pick_scratch m1) (pick_scratch m2) (pick_scratch (second_mask m2))

-- Words followed by `enc_b` to the word after `orig_addr`; the first word is at `island`.
unfoldable pub with_return : List ℕ → ℕ → ℕ → List ℕ
with_return words island orig_addr =
    words ++ (enc_b (sub_ℕ (orig_addr + 1) (island + length words)) ∷ [])

unfoldable pub emit_island : Decoded → ℕ → ℕ → List ℕ
unfolding with_return
emit_island d island orig_addr = with_return (words_for d.op d) island orig_addr

-- The loop over the vector registers from 31 down; four of them at most are used.
unfoldable pub pick_vector : ℕ → ℕ → ℕ
pick_vector zero used = 31
pick_vector (suc r) used =
    let rest = pick_vector r used in if bit_and used (1 <<< r) == 0 then r else rest

unfoldable pub bcax_words : Bcax → List ℕ
bcax_words b =
    let used = bit_or (bit_or (bit_or (1 <<< b.vd) (1 <<< b.vn)) (1 <<< b.vm)) (1 <<< b.va) in
    let vtmp = pick_vector 32 used in
    if b.va == b.vd
    then enc_neon_bic b.vd b.vm b.vd ∷ enc_neon_eor b.vd b.vn b.vd ∷ []
    else enc_str_q_pre vtmp
      ∷ enc_neon_bic vtmp b.vm b.va
      ∷ enc_neon_eor b.vd b.vn vtmp
      ∷ enc_ldr_q_post vtmp
      ∷ []

unfoldable pub emit_bcax_island : Bcax → ℕ → ℕ → List ℕ
unfolding with_return
emit_bcax_island b island orig_addr = with_return (bcax_words b) island orig_addr
