-- ===== src/IsaEmul/Branch.antt =====
-- The branches that `enc_b` makes: what the core reads back from the word.
use machismo_sword.Base.{
  ℕ, ◌+◌, ◌*◌, ◌/◌, ◌%◌, ◌^◌, ◌<◌, ◌≡◌, ap, ◌∙◌, arith, bit_or, ltb, if◌then◌else◌,
}
use machismo_sword.Base.Bits.{or-field, and-mask}
use machismo_sword.Base.Int.{ℤ, pos, negsuc, sub_ℕ, ◌+ℤ◌}
use machismo_sword.IsaEmul.Encode.{word_of, enc_b}

-- Offsets that the 26 bits of a branch can say.
abbrev pub Near : ℤ → Type 0
Near (pos n) = n < 2 ^ 25
Near (negsuc n) = n < 2 ^ 25

-- A word is an unconditional branch: its top six bits are 000101.
abbrev pub IsBranch : ℕ → Type 0
IsBranch word = word / 2 ^ 26 ≡ 5

-- The signed offset in the low 26 bits.
abbrev pub branch_offset : ℕ → ℤ
branch_offset word =
    let field = word % 2 ^ 26 in if ltb field (2 ^ 25) then pos field else sub_ℕ field (2 ^ 26)

-- The word that a branch at a word goes to.
abbrev pub branch_target : ℕ → ℕ → ℤ
branch_target at word = pos at +ℤ branch_offset word

enc_b_sum : (off : ℤ) → enc_b off ≡ 5 * 2 ^ 26 + word_of off % 2 ^ 26
unfolding enc_b
enc_b_sum off =
    ap (bit_or 0x14000000) (and-mask 26 (word_of off))
    ∙ or-field 26 5 (word_of off % 2 ^ 26) (omega arith)

word_field : (off : ℤ) → Near off → branch_offset (5 * 2 ^ 26 + word_of off % 2 ^ 26) ≡ off
unfolding word_of
word_field (pos n) h = ground arith
word_field (negsuc n) h = ground arith

pub enc_b_lem : (off : ℤ) → Near off → IsBranch (enc_b off) × (branch_offset (enc_b off) ≡ off)
enc_b_lem off h = rw enc_b_sum (omega arith, word_field off h)

sum_difference : (at k : ℕ) → pos at +ℤ sub_ℕ k at ≡ pos k
sum_difference at k = ground arith

-- A branch made at a word for the distance to another, within 26 bits, is read back as a branch
-- to it.
pub enc_b-target :
    (at k : ℕ)
    → Near (sub_ℕ k at)
    → IsBranch (enc_b (sub_ℕ k at)) × (branch_target at (enc_b (sub_ℕ k at)) ≡ pos k)
enc_b-target at k h =
    let b = enc_b_lem (sub_ℕ k at) h in (b.0, ap (λ (x : ℤ). pos at +ℤ x) b.1 ∙ sum_difference at k)
