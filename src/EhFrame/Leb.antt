-- ===== src/EhFrame/Leb.antt =====
-- Numbers of variable length in src/eh_frame.c are read back as they were written.
use native.Mathlib.Nat.{pow-suc}
use machismo_sword.Base.{
  ℕ, zero, suc, ◌+◌, ◌-◌, ◌*◌, ◌/◌, ◌%◌, ◌^◌, ◌<◌, ◌≡◌, refl, ap, ◌∙◌, inl, inr, true, false,
  bit_and, bit_or, List, [], ◌∷◌, ◌++◌, ◌==◌, arith, Bool-cases,
}
use machismo_sword.Base.Bits.{and-mask, and-pow, or-field}
use machismo_sword.EhFrame.{uleb128_from, ehf_uleb128, uleb128_read, eh_read_uleb128}

pub pow_seven : (k : ℕ) → 2 ^ (k + 7) ≡ 2 ^ k * 128
pow_seven k = omega (
  arith,
  pow-suc 2 k,
  pow-suc 2 (suc k),
  pow-suc 2 (suc (suc k)),
  pow-suc 2 (suc (suc (suc k))),
  pow-suc 2 (suc (suc (suc (suc k)))),
  pow-suc 2 (suc (suc (suc (suc (suc k))))),
  pow-suc 2 (suc (suc (suc (suc (suc (suc k)))))),
  ap (λ (t : ℕ). 2 ^ t) {x = k + 7} {y = suc (suc (suc (suc (suc (suc (suc k))))))} (omega arith),
)

-- The bytes of a number that goes on, and of its last one.
more_byte : (r : ℕ) → r < 128 → bit_or 0x80 r ≡ 128 + r
more_byte r h = or-field 7 1 r h

low-more : (r : ℕ) → r < 128 → bit_and (128 + r) 0x7F ≡ r
low-more r h = and-mask 7 (128 + r) ∙ omega arith

low-last : (r : ℕ) → r < 128 → bit_and r 0x7F ≡ r
low-last r h = and-mask 7 r ∙ omega arith

high-more : (r : ℕ) → r < 128 → (bit_and (128 + r) 0x80 == 0) ≡ false
high-more r h = rw (and-pow 7 (128 + r)) (ground arith)

high-last : (r : ℕ) → r < 128 → (bit_and r 0x80 == 0) ≡ true
high-last r h = rw (and-pow 7 r) (ground arith)

-- A field in front of the bits that are there.
put_field :
    (r k result : ℕ)
    → result < 2 ^ k
    → r * 2 ^ k < 2 ^ 64
    → bit_or (r * 2 ^ k % 2 ^ 64) result ≡ r * 2 ^ k + result
put_field r k result h small =
    ap (λ (t : ℕ). bit_or t result) {x = r * 2 ^ k % 2 ^ 64} {y = r * 2 ^ k} (omega arith)
    ∙ or-field k r result h

split_seven : (v p : ℕ) → v * p ≡ v % 128 * p + v / 128 * (p * 128)
split_seven v p =
    let e : v ≡ v % 128 + v / 128 * 128 = omega arith in omega (arith, ap (λ (t : ℕ). t * p) e)

field_bound : (r k p result : ℕ) → r + k ≡ 127 → result < p → r * p + result < p * 128
field_bound r k p result e low = omega (arith, ap (λ (t : ℕ). t * p) e)

-- One byte.
read_last :
    (v shift result : ℕ) (s : List ℕ)
    → v < 128
    → result < 2 ^ shift
    → v * 2 ^ shift < 2 ^ 64
    → uleb128_read result shift (v ∷ s) ≡ (result + v * 2 ^ shift, s)
unfolding uleb128_read
read_last v shift result s small low room =
    rw (high-last v small, low-last v small, put_field v shift result low room)
      (ap (λ (t : ℕ). (t, s)) (omega arith))

read_more :
    (r shift result : ℕ) (s : List ℕ)
    → r < 128
    → result < 2 ^ shift
    → r * 2 ^ shift < 2 ^ 64
    → uleb128_read result shift (bit_or 0x80 r ∷ s)
      ≡ uleb128_read (r * 2 ^ shift + result) (shift + 7) s
unfolding uleb128_read
read_more r shift result s small low room =
    rw (more_byte r small, high-more r small, low-more r small, put_field r shift result low room)
      refl

uleb128_lem :
    (fuel v shift result : ℕ) (s : List ℕ)
    → v < 2 ^ (fuel * 7 + 7)
    → result < 2 ^ shift
    → v * 2 ^ shift < 2 ^ 64
    → uleb128_read result shift (uleb128_from (suc fuel) v ++ s) ≡ (result + v * 2 ^ shift, s)
unfolding uleb128_from
uleb128_lem zero v shift result s small low room =
    let high : (v / 128 == 0) ≡ true = ground arith in
    let same : v % 128 ≡ v = omega arith in
    rw (high, same) (read_last v shift result s small low room)
uleb128_lem (suc fuel) v shift result s small low room = elim (Bool-cases (v / 128 == 0)) [
  | inl high ↦
      let under : v < 128 = ground arith in
      let same : v % 128 ≡ v = omega arith in
      rw (high, same) (read_last v shift result s under low room)
  | inr high ↦
      let parts = split_seven v (2 ^ shift) in
      let next = pow_seven shift in
      let size = pow_seven (fuel * 7 + 7) in
      let top : 2 ^ (suc fuel * 7 + 7) ≡ 2 ^ (fuel * 7 + 7 + 7) =
        ap (λ (t : ℕ). 2 ^ t) (omega arith) in
      let rest : v / 128 < 2 ^ (fuel * 7 + 7) = omega arith in
      let field : v % 128 * 2 ^ shift + result < 2 ^ (shift + 7) =
        omega (arith, field_bound (v % 128) (127 - v % 128) (2 ^ shift) result (omega arith) low) in
      let deep : v / 128 * 2 ^ (shift + 7) ≡ v / 128 * (2 ^ shift * 128) =
        ap (λ (t : ℕ). v / 128 * t) next in
      rw
        (
          high,
          read_more (v % 128) shift result (uleb128_from (suc fuel) (v / 128) ++ s) (omega arith)
              low (omega arith),
          uleb128_lem fuel (v / 128) (shift + 7) (v % 128 * 2 ^ shift + result) s rest field
              (omega arith),
        )
        (ap (λ (t : ℕ). (t, s)) (omega arith))
]

-- The reader gives a written number of 64 bits back, and what stands behind it.
pub uleb128-read : (v : ℕ) (s : List ℕ) → v < 2 ^ 64 → eh_read_uleb128 (ehf_uleb128 v ++ s) ≡ (v, s)
uleb128-read v s h =
    uleb128_lem 9 v 0 0 s (omega arith) (omega arith) (omega arith)
    ∙ ap (λ (t : ℕ). (t, s)) (omega arith)

-- The length of a number of one byte.
pub uleb128_short : (v : ℕ) → v < 128 → ehf_uleb128 v ≡ v ∷ []
unfolding uleb128_from
uleb128_short v h =
    let high : (v / 128 == 0) ≡ true = ground arith in
    let same : v % 128 ≡ v = omega arith in rw (high, same) refl
