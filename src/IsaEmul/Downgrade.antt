-- ===== src/IsaEmul/Downgrade.antt =====
-- The downgrade of acquire loads in src/machismo.c, which runs over a section of code before
-- `isa_emul_patch`: LDAPR becomes LDAR in place.
use machismo_sword.Base.{
  ℕ, zero, suc, ◌+◌, ◌*◌, ◌/◌, ◌%◌, ◌^◌, ◌<◌, ◌≡◌, refl, ap, ◌∙◌, inl, inr, subst, Bool, true,
  false, none, some, arith, bit_and, bit_or, ◌==◌, ==_iff, ltb, leb, ◌&&◌, if◌then◌else◌,
  Bool-cases,
}
use machismo_sword.Base.Bits.{◌>>>◌, and-split, and-mask, and-zero, or-parts, or-field, or-zero}
use machismo_sword.IsaEmul.Decode.{LseOp, Decoded, decode_lse, decode_bcax}
use machismo_sword.IsaEmul.Patch.{store}

-- The test for LDAPR, and the word that replaces it.
unfoldable pub is_rcpc : ℕ → Bool
is_rcpc word = bit_and word 0x3FFFFC00 == 0x38BFC000

unfoldable pub rcpc_word : ℕ → ℕ
rcpc_word word = bit_or (bit_and word 0xC00003FF) 0x08DFFC00

-- One round of the loop at the word `at`, on the memory and the count of the words fixed.
unfoldable pub downgrade_at : ℕ → (ℕ → ℕ) × ℕ → (ℕ → ℕ) × ℕ
downgrade_at at s =
    let word = s.0 at in if is_rcpc word then (store s.0 at (rcpc_word word), s.1 + 1) else s

-- The loop over a number of words from `at` on.
unfoldable pub downgrade_from : ℕ → ℕ → (ℕ → ℕ) × ℕ → (ℕ → ℕ) × ℕ
downgrade_from zero at s = s
downgrade_from (suc n) at s = downgrade_from n (at + 1) (downgrade_at at s)

-- The 20 bits between the size and the registers.
abbrev pub middle : ℕ → ℕ
middle word = word / 2 ^ 10 % 2 ^ 20

-- A mask of those bits sees only them.
and-middle :
    (word c : ℕ) → c < 2 ^ 20 → bit_and word (c * 2 ^ 10) ≡ bit_and (middle word) c * 2 ^ 10
and-middle word c h =
    ap (bit_and word) {x = c * 2 ^ 10} {y = c * 2 ^ 10 + 0} (omega arith)
    ∙ and-split 10 word c 0 (omega arith)
    ∙ omega (
      arith,
      and-zero (word % 2 ^ 10),
      ap (bit_and (word / 2 ^ 10)) {x = c} {y = 0 * 2 ^ 20 + c} (omega arith),
      and-split 20 (word / 2 ^ 10) 0 c h,
      and-zero (word / 2 ^ 10 / 2 ^ 20),
    )

rcpc-middle : (word : ℕ) → is_rcpc word ≡ (middle word == 0xE2FF0)
unfolding is_rcpc
rcpc-middle word = ground (arith, and-middle word 0xFFFFF (omega arith), and-mask 20 (middle word))

-- The replacing word, by its fields.
rcpc_word_sum :
    (word : ℕ) → rcpc_word word ≡ word / 2 ^ 30 % 4 * 2 ^ 30 + 0x08DFFC00 + word % 2 ^ 10
unfolding rcpc_word
rcpc_word_sum word =
    let q = word / 2 ^ 30 % 4 in
    let r = word % 2 ^ 10 in
    let kept : bit_and word 0xC00003FF ≡ q * 2 ^ 20 * 2 ^ 10 + r =
      and-split 30 word 3 0x3FF (omega arith)
      ∙ omega (arith, and-mask 2 (word / 2 ^ 30), and-mask 10 (word % 2 ^ 30)) in
    ap (λ (t : ℕ). bit_or t (0x237FF * 2 ^ 10 + 0)) kept
    ∙ or-parts 10 (q * 2 ^ 20) r 0x237FF 0 (omega arith) (omega arith)
    ∙ omega (arith, or-field 20 q 0x237FF (omega arith), or-zero r)

-- A downgraded word keeps the size and both registers, and its other bits are those of LDAR.
rcpc_word-fields :
    (word : ℕ)
    → word < 2 ^ 32
    → let v = rcpc_word word in
      (v / 2 ^ 30 ≡ word / 2 ^ 30) × (v % 2 ^ 10 ≡ word % 2 ^ 10) × (middle v ≡ 0x237FF)
rcpc_word-fields word h =
    let sum = rcpc_word_sum word in (omega (arith, sum), omega (arith, sum), omega (arith, sum))

masked :
    (word c m : ℕ) → c < 2 ^ 20 → middle word ≡ m → bit_and word (c * 2 ^ 10) ≡ bit_and m c * 2 ^ 10
masked word c m h e = and-middle word c h ∙ ap (λ (t : ℕ). bit_and t c * 2 ^ 10) e

decode_lse-ldar : (word : ℕ) → middle word ≡ 0x237FF → decode_lse word ≡ none
unfolding decode_lse
decode_lse-ldar word e =
    let first : (bit_and word 0x3F200C00 == 0x38200000) ≡ false =
      ground (arith, masked word 0xFC803 0x237FF (omega arith) e) in
    let second : (bit_and word 0x3FA07C00 == 0x08A07C00) ≡ false =
      ground (arith, masked word 0xFE81F 0x237FF (omega arith) e) in
    rw (first, second) refl

decode_bcax-ldar : (word : ℕ) → middle word ≡ 0x237FF → decode_bcax word ≡ none
unfolding decode_bcax
decode_bcax-ldar word e =
    let high = bit_and (word / 2 ^ 10 / 2 ^ 20) 3 in
    let split : bit_and word 0xFFE08000 ≡ (high * 2 ^ 20 + 0x23020) * 2 ^ 10 =
      and-split 10 word 0x3FF820 0 (omega arith)
      ∙ omega (
        arith,
        and-zero (word % 2 ^ 10),
        and-split 20 (word / 2 ^ 10) 3 0xFF820 (omega arith),
        ap (λ (t : ℕ). bit_and t 0xFF820) e,
      ) in
    let test : (bit_and word 0xFFE08000 == 0xCE200000) ≡ false = ground (arith, split) in
    rw test refl

-- An LDAPR that is not downgraded first would be taken for a swap.
decode_lse-ldapr :
    (word : ℕ)
    → middle word ≡ 0xE2FF0
    → (d : Decoded) × (decode_lse word ≡ some d) × (d.op ≡ LseOp.swp) × (d.rs ≡ 31)
unfolding decode_lse
decode_lse-ldapr word e =
    let test : (bit_and word 0x3F200C00 == 0x38200000) ≡ true =
      ground (arith, masked word 0xFC803 0xE2FF0 (omega arith) e) in
    let swap : (bit_and (word >>> 15) 1 == 1) ≡ true = ground (arith, and-mask 1 (word >>> 15)) in
    rw (test, swap) (_, refl, refl, omega (arith, and-mask 5 (word >>> 16)))

-- For a 32-bit word that is an LDAPR: the downgraded word keeps its size and both registers, is
-- an LDAPR no more and is left alone by isa_emul_patch, while the word itself would be decoded as
-- a swap with XZR.
pub rcpc_word_lem :
    (word : ℕ)
    → word < 2 ^ 32
    → is_rcpc word ≡ true
    → let v = rcpc_word word in
      (v / 2 ^ 30 ≡ word / 2 ^ 30)
      × (v % 2 ^ 10 ≡ word % 2 ^ 10)
      × (is_rcpc v ≡ false)
      × (decode_lse v ≡ none)
      × (decode_bcax v ≡ none)
      × ((d : Decoded) × (decode_lse word ≡ some d) × (d.op ≡ LseOp.swp) × (d.rs ≡ 31))
rcpc_word_lem word h is =
    let fields = rcpc_word-fields word h in
    let ldapr : middle word ≡ 0xE2FF0 = ground (arith, rcpc-middle word, is) in
    (
      fields.0,
      fields.1,
      rcpc-middle (rcpc_word word) ∙ ground (arith, fields.2),
      decode_lse-ldar (rcpc_word word) fields.2,
      decode_bcax-ldar (rcpc_word word) fields.2,
      decode_lse-ldapr word ldapr,
    )

-- What the pass makes of one word.
abbrev pub downgraded : ℕ → ℕ
downgraded word = if is_rcpc word then rcpc_word word else word

downgrade_at_lem :
    (at : ℕ) (s : (ℕ → ℕ) × ℕ) (j : ℕ)
    → (downgrade_at at s).0 j ≡ (if at == j then downgraded (s.0 j) else s.0 j)
unfolding downgrade_at
downgrade_at_lem at s j = elim (Bool-cases (at == j)) [
  | inl here ↦
      let same : at ≡ j = (==_iff at j).0 here in
      rw here (
        subst (λ (t : ℕ). (downgrade_at at s).0 t ≡ downgraded (s.0 t)) same
          (elim (Bool-cases (is_rcpc (s.0 at))) [
            | inl is ↦ rw is (ground arith)
            | inr other ↦ rw other refl
          ]))
  | inr away ↦ rw away (elim (Bool-cases (is_rcpc (s.0 at))) [
    | inl is ↦ rw is (ground (arith, away))
    | inr other ↦ rw other refl
  ])
]

-- After the pass over n words, each of them is downgraded and every other word of the memory is
-- as it was.
pub downgrade_from_lem :
    (n at : ℕ) (s : (ℕ → ℕ) × ℕ) (j : ℕ)
    → (downgrade_from n at s).0 j
      ≡ (if leb at j && ltb j (at + n) then downgraded (s.0 j) else s.0 j)
unfolding downgrade_from
downgrade_from_lem zero at s j = ground arith
downgrade_from_lem (suc n) at s j =
    ground (arith, downgrade_from_lem n (at + 1) (downgrade_at at s) j, downgrade_at_lem at s j)
