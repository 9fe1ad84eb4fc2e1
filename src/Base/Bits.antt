-- ===== src/Base/Bits.antt =====
-- The C operators `&`, `|`, `<<` and `>>` on unsigned words, and their laws at variables:
-- the bit at an index of a result, masks of low bits, and words put together from fields.
use Prim.Native.Nat.{
  ℕ, zero, suc, ◌+◌, ◌-◌, ◌*◌, ◌/◌, ◌%◌, ◌^◌, ◌≤◌, ◌<◌, min, max, bit_and, bit_or, digits,
  bit_and-bitwise, bit_or-bitwise,
}
use mathlib.Core.Path.{◌≡◌, refl, ap, ap₂, ◌∙◌}
use mathlib.Core.Logic.{◌≢◌}
use mathlib.Core.Logic.{inl, inr}
use mathlib.Core.Bool.{not, ◌||◌}
use native.Mathlib.Omega.{arith}
use native.Mathlib.Nat.{pow-suc, one-le-pow}
use machismo_sword.Base.Tests.{◌==◌, ==_iff, Bool-cases, if◌then◌else◌}

infixl 60 ◌<<<◌ ◌>>>◌
abbrev pub ◌<<<◌ : ℕ → ℕ → ℕ
x <<< k = x * 2 ^ k

abbrev pub ◌>>>◌ : ℕ → ℕ → ℕ
x >>> k = x / 2 ^ k

-- The native operations recur on binary digits with fuel; any fuel that covers the first operand
-- serves.
module _ (rest : ℕ → ℕ) (bit : ℕ → ℕ → ℕ) where
  digits-irrelevant :
      (fuel fuel' a b : ℕ)
      → a ≤ fuel
      → a ≤ fuel'
      → digits rest bit fuel a b ≡ digits rest bit fuel' a b
  digits-irrelevant zero zero a b h h' = refl
  digits-irrelevant zero (suc fuel') zero b h h' = refl
  digits-irrelevant (suc fuel) zero zero b h h' = refl
  digits-irrelevant (suc fuel) (suc fuel') zero b h h' = refl
  digits-irrelevant zero fuel' (suc a) b h h' = absurd (omega arith)
  digits-irrelevant (suc fuel) zero (suc a) b h h' = absurd (omega arith)
  digits-irrelevant (suc fuel) (suc fuel') (suc a) b h h' =
      ap (λ (t : ℕ). t * 2 + bit (suc a % 2) (b % 2))
        (digits-irrelevant fuel fuel' (suc a / 2) (b / 2) (omega arith) (omega arith))

and-lowest : (a b : ℕ) → bit_and a b ≡ bit_and (a / 2) (b / 2) * 2 + min (a % 2) (b % 2)
and-lowest zero b = omega (arith, bit_and-bitwise 0 b, bit_and-bitwise 0 (b / 2))
and-lowest (suc a) b = omega (
  arith,
  bit_and-bitwise (suc a) b,
  bit_and-bitwise (suc a / 2) (b / 2),
  digits-irrelevant (λ y. 0) min a (suc a / 2) (suc a / 2) (b / 2) (omega arith) (omega arith),
)

or-lowest : (a b : ℕ) → bit_or a b ≡ bit_or (a / 2) (b / 2) * 2 + max (a % 2) (b % 2)
or-lowest zero b = omega (arith, bit_or-bitwise 0 b, bit_or-bitwise 0 (b / 2))
or-lowest (suc a) b = omega (
  arith,
  bit_or-bitwise (suc a) b,
  bit_or-bitwise (suc a / 2) (b / 2),
  digits-irrelevant (λ y. y) max a (suc a / 2) (suc a / 2) (b / 2) (omega arith) (omega arith),
)

-- The bit of `x` at index `i`.
abbrev pub bit_at : ℕ → ℕ → ℕ
bit_at zero x = x % 2
bit_at (suc i) x = bit_at i (x / 2)

pub bit_at-and : (i a b : ℕ) → bit_at i (bit_and a b) ≡ min (bit_at i a) (bit_at i b)
bit_at-and zero a b = omega (arith, and-lowest a b)
bit_at-and (suc i) a b =
    ap (bit_at i) (omega (arith, and-lowest a b)) ∙ bit_at-and i (a / 2) (b / 2)

pub bit_at-or : (i a b : ℕ) → bit_at i (bit_or a b) ≡ max (bit_at i a) (bit_at i b)
bit_at-or zero a b = omega (arith, or-lowest a b)
bit_at-or (suc i) a b = ap (bit_at i) (omega (arith, or-lowest a b)) ∙ bit_at-or i (a / 2) (b / 2)

pub bit_at-le : (i x : ℕ) → bit_at i x ≤ 1
bit_at-le zero x = omega arith
bit_at-le (suc i) x = bit_at-le i (x / 2)

pub bit_at-zero : (i : ℕ) → bit_at i 0 ≡ 0
bit_at-zero zero = refl
bit_at-zero (suc i) = bit_at-zero i

pow_half : (k : ℕ) → 2 ^ suc k / 2 ≡ 2 ^ k
pow_half k = omega (arith, pow-suc 2 k)

pub bit_at-pow_self : (i : ℕ) → bit_at i (2 ^ i) ≡ 1
bit_at-pow_self zero = refl
bit_at-pow_self (suc i) = ap (bit_at i) (pow_half i) ∙ bit_at-pow_self i

pub bit_at-pow_ne : (i j : ℕ) → i ≢ j → bit_at i (2 ^ j) ≡ 0
bit_at-pow_ne zero zero h = absurd (h refl)
bit_at-pow_ne zero (suc j) h = omega (arith, pow-suc 2 j)
bit_at-pow_ne (suc i) zero h = bit_at-zero i
bit_at-pow_ne (suc i) (suc j) h = ap (bit_at i) (pow_half j) ∙ bit_at-pow_ne i j (λ e. h (ap suc e))

-- Setting one bit: `x | (1 << n)`.
pub bit_at-or_pow : (i c n : ℕ) → bit_at i (bit_or c (1 <<< n)) ≡ (if n == i then 1 else bit_at i c)
bit_at-or_pow i c n = elim (Bool-cases (n == i)) [
  | inl e ↦
      rw (e, bit_at-or i c (1 <<< n))
        (omega (
          arith,
          bit_at-le i c,
          ap (λ (t : ℕ). bit_at i (1 <<< t)) ((==_iff n i).0 e),
          ap (bit_at i) {x = 1 * 2 ^ i} {y = 2 ^ i} (omega arith),
          bit_at-pow_self i,
        ))
  | inr e ↦
      rw (e, bit_at-or i c (1 <<< n))
        (omega (
          arith,
          ap (bit_at i) {x = 1 * 2 ^ n} {y = 2 ^ n} (omega arith),
          bit_at-pow_ne i n (λ h. ground (arith, h)),
        ))
]

-- Induction on the number of digits of `a`.
and-zero_below : (k a : ℕ) → a ≤ k → bit_and a 0 ≡ 0
and-zero_below k zero h = refl
and-zero_below zero (suc a) h = absurd (omega arith)
and-zero_below (suc k) (suc a) h =
    omega (arith, and-lowest (suc a) 0, and-zero_below k (suc a / 2) (omega arith))

pub and-zero : (a : ℕ) → bit_and a 0 ≡ 0
and-zero a = and-zero_below a a (omega arith)

or-zero_below : (k a : ℕ) → a ≤ k → bit_or a 0 ≡ a
or-zero_below k zero h = refl
or-zero_below zero (suc a) h = absurd (omega arith)
or-zero_below (suc k) (suc a) h =
    omega (arith, or-lowest (suc a) 0, or-zero_below k (suc a / 2) (omega arith))

pub or-zero : (a : ℕ) → bit_or a 0 ≡ a
or-zero a = or-zero_below a a (omega arith)

-- Testing one bit: `x & (1 << i)`.
pub and-pow : (i x : ℕ) → bit_and x (2 ^ i) ≡ bit_at i x * 2 ^ i
and-pow zero x = omega (arith, and-lowest x 1, and-zero (x / 2))
and-pow (suc i) x = omega (
  arith,
  and-lowest x (2 ^ suc i),
  pow-suc 2 i,
  ap (bit_and (x / 2)) (pow_half i),
  and-pow i (x / 2),
  ap (λ (t : ℕ). bit_at i (x / 2) * t) (pow-suc 2 i),
)

bit_of_product : (b w x : ℕ) → b ≤ 1 → 1 ≤ w → x ≡ b * w → not (x == 0) ≡ (b == 1)
bit_of_product zero w x h pos e = ground arith
bit_of_product (suc zero) w x h pos e = ground arith
bit_of_product (suc (suc b)) w x h pos e = absurd (omega arith)

pub any-bit_at : (i x : ℕ) → not (bit_and x (1 <<< i) == 0) ≡ (bit_at i x == 1)
any-bit_at i x =
    bit_of_product (bit_at i x) (2 ^ i) (bit_and x (1 <<< i)) (bit_at-le i x)
      (one-le-pow i 2 (omega arith))
      (ap (bit_and x) {x = 1 * 2 ^ i} {y = 2 ^ i} (omega arith) ∙ and-pow i x)

shift_suc : (q k : ℕ) → q * 2 ^ suc k ≡ q * 2 ^ k * 2
shift_suc q k = omega (arith, ap (λ (t : ℕ). q * t) (pow-suc 2 k))

-- `(q << k) | r` is a sum where `r` fits in the low `k` bits.
pub or-field : (k q r : ℕ) → r < 2 ^ k → bit_or (q * 2 ^ k) r ≡ q * 2 ^ k + r
or-field zero q r h = ground (arith, or-zero q)
or-field (suc k) q r h = omega (
  arith,
  or-lowest (q * 2 ^ suc k) r,
  shift_suc q k,
  pow-suc 2 k,
  ap (λ (t : ℕ). bit_or t (r / 2)) {x = q * 2 ^ suc k / 2} {y = q * 2 ^ k}
      (omega (arith, shift_suc q k)),
  or-field k q (r / 2) (omega (arith, pow-suc 2 k)),
)

-- `&` works on the high and the low part of a word apart.
and-parts :
    (k p r c d : ℕ)
    → r < 2 ^ k
    → d < 2 ^ k
    → bit_and (p * 2 ^ k + r) (c * 2 ^ k + d) ≡ bit_and p c * 2 ^ k + bit_and r d
and-parts zero p r c d h h' =
    let low : r ≡ 0 = omega arith in
    let low' : d ≡ 0 = omega arith in
    rw (low, low')
      (omega (
        arith,
        ap₂ bit_and {x = p * 2 ^ 0 + 0} {y = p} {u = c * 2 ^ 0 + 0} {v = c} (omega arith)
            (omega arith),
      ))
and-parts (suc k) p r c d h h' = omega (
  arith,
  and-lowest (p * 2 ^ suc k + r) (c * 2 ^ suc k + d),
  and-lowest r d,
  shift_suc p k,
  shift_suc c k,
  shift_suc (bit_and p c) k,
  ap₂ bit_and {x = (p * 2 ^ suc k + r) / 2} {y = p * 2 ^ k + r / 2} {u = (c * 2 ^ suc k + d) / 2}
      {v = c * 2 ^ k + d / 2} (omega (arith, shift_suc p k)) (omega (arith, shift_suc c k)),
  and-parts k p (r / 2) c (d / 2) (omega (arith, pow-suc 2 k)) (omega (arith, pow-suc 2 k)),
)

pub and-split :
    (k a c d : ℕ)
    → d < 2 ^ k
    → bit_and a (c * 2 ^ k + d) ≡ bit_and (a / 2 ^ k) c * 2 ^ k + bit_and (a % 2 ^ k) d
and-split k a c d h =
    let pos : 1 ≤ 2 ^ k = one-le-pow k 2 (omega arith) in
    ap (λ (t : ℕ). bit_and t (c * 2 ^ k + d)) {x = a} {y = a / 2 ^ k * 2 ^ k + a % 2 ^ k}
      (grind arith)
    ∙ and-parts k (a / 2 ^ k) (a % 2 ^ k) c d (omega arith) h

-- So does `|`.
pub or-parts :
    (k p r c d : ℕ)
    → r < 2 ^ k
    → d < 2 ^ k
    → bit_or (p * 2 ^ k + r) (c * 2 ^ k + d) ≡ bit_or p c * 2 ^ k + bit_or r d
or-parts zero p r c d h h' =
    let low : r ≡ 0 = omega arith in
    let low' : d ≡ 0 = omega arith in
    rw (low, low')
      (omega (
        arith,
        ap₂ bit_or {x = p * 2 ^ 0 + 0} {y = p} {u = c * 2 ^ 0 + 0} {v = c} (omega arith)
            (omega arith),
      ))
or-parts (suc k) p r c d h h' = omega (
  arith,
  or-lowest (p * 2 ^ suc k + r) (c * 2 ^ suc k + d),
  or-lowest r d,
  shift_suc p k,
  shift_suc c k,
  shift_suc (bit_or p c) k,
  ap₂ bit_or {x = (p * 2 ^ suc k + r) / 2} {y = p * 2 ^ k + r / 2} {u = (c * 2 ^ suc k + d) / 2}
      {v = c * 2 ^ k + d / 2} (omega (arith, shift_suc p k)) (omega (arith, shift_suc c k)),
  or-parts k p (r / 2) c (d / 2) (omega (arith, pow-suc 2 k)) (omega (arith, pow-suc 2 k)),
)

and-ones : (k r : ℕ) → r < 2 ^ k → bit_and r (2 ^ k - 1) ≡ r
and-ones zero r h = omega (arith, and-zero r)
and-ones (suc k) r h = omega (
  arith,
  one-le-pow k 2,
  pow-suc 2 k,
  and-lowest r (2 ^ suc k - 1),
  ap (bit_and (r / 2)) {x = (2 ^ suc k - 1) / 2} {y = 2 ^ k - 1} (omega (arith, pow-suc 2 k)),
  and-ones k (r / 2) (omega (arith, pow-suc 2 k)),
)

-- The mask of the low `k` bits is the remainder by `2 ^ k`.
pub and-mask : (k a : ℕ) → bit_and a (2 ^ k - 1) ≡ a % 2 ^ k
and-mask k a =
    let pos : 1 ≤ 2 ^ k = one-le-pow k 2 (omega arith) in
    ap (bit_and a) {x = 2 ^ k - 1} {y = 0 * 2 ^ k + (2 ^ k - 1)} (omega arith)
    ∙ and-split k a 0 (2 ^ k - 1) (omega arith)
    ∙ omega (
      arith,
      ap (λ (t : ℕ). t * 2 ^ k) (and-zero (a / 2 ^ k)),
      and-ones k (a % 2 ^ k) (omega arith),
    )

-- `&` distributes over `|`, digit by digit.
and-or_below : (k c a b : ℕ) → c ≤ k → bit_and c (bit_or a b) ≡ bit_or (bit_and c a) (bit_and c b)
and-or_below k zero a b h = zero_case a b
  where
    zero_case : (x y : ℕ) → bit_and 0 (bit_or x y) ≡ bit_or (bit_and 0 x) (bit_and 0 y)
    zero_case x y = rw (bit_and-bitwise 0 (bit_or x y), bit_and-bitwise 0 x, bit_and-bitwise 0 y)
and-or_below zero (suc c) a b h = absurd (omega arith)
and-or_below (suc k) (suc c) a b h = omega (
  arith,
  and-lowest (suc c) (bit_or a b),
  or-lowest a b,
  and-lowest (suc c) a,
  and-lowest (suc c) b,
  or-lowest (bit_and (suc c) a) (bit_and (suc c) b),
  ap (bit_and (suc c / 2)) {x = bit_or a b / 2} {y = bit_or (a / 2) (b / 2)}
      (omega (arith, or-lowest a b)),
  ap₂ bit_or {x = bit_and (suc c) a / 2} {y = bit_and (suc c / 2) (a / 2)}
      {u = bit_and (suc c) b / 2} {v = bit_and (suc c / 2) (b / 2)}
      (omega (arith, and-lowest (suc c) a)) (omega (arith, and-lowest (suc c) b)),
  and-or_below k (suc c / 2) (a / 2) (b / 2) (omega arith),
)

or-is_zero_below : (k a b : ℕ) → a + b ≤ k → bit_or a b ≡ 0 → (a ≡ 0) × (b ≡ 0)
or-is_zero_below zero a b h e = omega arith
or-is_zero_below (suc k) zero b h e = omega (arith, or-lowest 0 b, bit_or-bitwise 0 b)
or-is_zero_below (suc k) (suc a) b h e = omega (
  arith,
  or-lowest (suc a) b,
  or-is_zero_below k (suc a / 2) (b / 2) (omega arith) (omega (arith, or-lowest (suc a) b)),
)

-- `c & (a | b)` is nonzero exactly when `c & a` or `c & b` is.
pub any-or :
    (c a b : ℕ)
    → not (bit_and c (bit_or a b) == 0) ≡ not (bit_and c a == 0) || not (bit_and c b == 0)
any-or c a b = ground (
  arith,
  and-or_below c c a b (omega arith),
  or-is_zero_below (bit_and c a + bit_and c b) (bit_and c a) (bit_and c b) (omega arith),
  ap₂ bit_or {x = bit_and c a} {y = 0} {u = bit_and c b} {v = 0},
)
