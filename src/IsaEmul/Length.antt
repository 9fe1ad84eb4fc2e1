-- ===== src/IsaEmul/Length.antt =====
-- How long the islands are, against what the patch loop asks of the pool.
use machismo_sword.Base.{
  ℕ, ◌+◌, ◌≤◌, ◌≡◌, Bool, true, false, Bool-cases, inl, inr, List, [], ◌∷◌, arith, length,
  length-append, ltb, ◌==◌, if◌then◌else◌,
}
use machismo_sword.IsaEmul.Decode.{LseOp, Decoded, Bcax}
use machismo_sword.IsaEmul.Encode.{enc_mov}
use machismo_sword.IsaEmul.Island.{
  cas_words, lse_words, op_words, signed_words, unsigned_words, words_for, with_return, emit_island,
  bcax_words, emit_bcax_island, is_zr, is_x,
}

length-with_return :
    (words : List ℕ) (island at : ℕ) → length (with_return words island at) ≡ length words + 1
unfolding with_return
length-with_return words island at = length-append words _

length-signed_words : (d : Decoded) (a b c cond : ℕ) → length (signed_words d a b c cond) ≤ 4
unfolding signed_words
length-signed_words d a b c cond = elim (Bool-cases (ltb d.size 2)) [
  | inl e ↦ rw e (omega arith)
  | inr e ↦ rw e (omega arith)
]

length-op_words : (op : LseOp) (d : Decoded) (a b c : ℕ) → length (op_words op d a b c) ≤ 4
unfolding op_words unsigned_words
length-op_words LseOp.ldsmax d a b c = length-signed_words d a b c _
length-op_words LseOp.ldsmin d a b c = length-signed_words d a b c _
length-op_words _ d a b c = omega arith

word_if_cases : (b : Bool) (w : ℕ) → length (if b then [] else (w ∷ [])) ≤ 1
word_if_cases true w = omega arith
word_if_cases false w = omega arith

length-lse_words :
    (d : Decoded) (a b c : ℕ) → (2 ≤ length (lse_words d a b c)) × (length (lse_words d a b c) ≤ 18)
unfolding lse_words
length-lse_words d a b c =
    rw (length-append, length-append, length-append, length-append)
      (
        omega arith,
        omega (
          arith,
          length-op_words d.op d a b c,
          word_if_cases (is_zr d.rt) (enc_mov (is_x d) d.rt a),
        ),
      )

length-cas_words :
    (d : Decoded) (a b : ℕ) → (2 ≤ length (cas_words d a b)) × (length (cas_words d a b) ≤ 15)
unfolding cas_words
length-cas_words d a b =
    rw (length-append, length-append, length-append)
      (omega arith, omega (arith, word_if_cases (is_zr d.rs) (enc_mov (is_x d) d.rs b)))

length-words_for :
    (op : LseOp) (d : Decoded) → (2 ≤ length (words_for op d)) × (length (words_for op d) ≤ 18)
unfolding words_for
length-words_for LseOp.cas d = omega (arith, length-cas_words d _ _)
length-words_for _ d = length-lse_words d _ _ _

-- An LSE island has three to 19 words, fewer than the 24 that the patch loop checks for.
pub length-emit_island :
    (d : Decoded) (island at : ℕ) → let n = length (emit_island d island at) in (3 ≤ n) × (n ≤ 19)
unfolding emit_island
length-emit_island d island at =
    omega (arith, length-with_return (words_for d.op d) island at, length-words_for d.op d)

length-bcax_words : (b : Bcax) → (2 ≤ length (bcax_words b)) × (length (bcax_words b) ≤ 4)
unfolding bcax_words
length-bcax_words b = elim (Bool-cases (b.va == b.vd)) [
  | inl e ↦ rw e (omega arith, omega arith)
  | inr e ↦ rw e (omega arith, omega arith)
]

pub length-emit_bcax_island :
    (b : Bcax) (island at : ℕ) → let n = length (emit_bcax_island b island at) in (3 ≤ n) × (n ≤ 5)
unfolding emit_bcax_island
length-emit_bcax_island b island at =
    omega (arith, length-with_return (bcax_words b) island at, length-bcax_words b)
