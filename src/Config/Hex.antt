-- ===== src/Config/Hex.antt =====
-- `parse_hex_address` of config.c reads back what is printed in base 16.
use native.Mathlib.Nat.{pow-suc}
use machismo_sword.Base.{
  ℕ, zero, suc, ◌+◌, ◌-◌, ◌*◌, ◌/◌, ◌%◌, ◌^◌, ◌<◌, ◌≡◌, refl, ap, ◌∙◌, true, false, some, [], ◌∷◌,
  arith, ltb, leb, ◌==◌, if◌then◌else◌, Bool-cases, inl, inr,
}
use machismo_sword.Config.{
  Text, is_space, skip_spaces, hex_value, take_hex, starts_hex, drop_0x, drop_sign,
  parse_hex_address,
}

-- The digit for a value below 16.
abbrev pub hex_digit : ℕ → ℕ
hex_digit d = if ltb d 10 then b'0' + d else b'a' + (d - 10)

-- A number in base 16 in front of a text, with fuel for its digits.
abbrev pub print_hex : ℕ → ℕ → Text → Text
print_hex zero n acc = acc
print_hex (suc fuel) n acc =
    let rest = print_hex fuel (n / 16) (hex_digit (n % 16) ∷ acc) in
    if ltb n 16 then hex_digit n ∷ acc else rest

hex_value-digit : (d : ℕ) → d < 16 → hex_value (hex_digit d) ≡ some d
unfolding hex_value
hex_value-digit d h = ground arith

take_hex-digit :
    (v d : ℕ) (s : Text) → d < 16 → take_hex v (hex_digit d ∷ s) ≡ take_hex (v * 16 + d) s
unfolding take_hex
take_hex-digit v d s h = rw (hex_value-digit d h, take_hex) refl

take_hex-print :
    (fuel n : ℕ) (acc : Text)
    → n < 16 ^ suc fuel
    → take_hex 0 (print_hex (suc fuel) n acc) ≡ take_hex n acc
take_hex-print zero n acc h =
    let small : ltb n 16 ≡ true = ground arith in
    rw small (take_hex-digit 0 n acc h ∙ ap (λ (v : ℕ). take_hex v acc) (omega arith))
take_hex-print (suc fuel) n acc h = elim (Bool-cases (ltb n 16)) [
  | inl small ↦
      rw small
        (take_hex-digit 0 n acc (ground arith) ∙ ap (λ (v : ℕ). take_hex v acc) (omega arith))
  | inr large ↦ rw large (
      take_hex-print fuel (n / 16) (hex_digit (n % 16) ∷ acc) (omega (arith, pow-suc 16 (suc fuel)))
      ∙ take_hex-digit (n / 16) (n % 16) acc (omega arith)
      ∙ ap (λ (v : ℕ). take_hex v acc) (omega arith))
]

-- A text of digits.
abbrev Digits : Text → Type 0
Digits [] = Unit {0}
Digits (c ∷ s) = ((d : ℕ) × (d < 16) × (c ≡ hex_digit d)) × Digits s

abbrev Nonempty : Text → Type 0
Nonempty [] = ⊥
Nonempty (c ∷ s) = Unit {0}

Digits-print :
    (fuel n : ℕ) (acc : Text)
    → n < 16 ^ suc fuel
    → Digits acc
    → Digits (print_hex (suc fuel) n acc) × Nonempty (print_hex (suc fuel) n acc)
Digits-print zero n acc h v =
    let small : ltb n 16 ≡ true = ground arith in rw small (((n, h, refl), v), tt)
Digits-print (suc fuel) n acc h v = elim (Bool-cases (ltb n 16)) [
  | inl small ↦ rw small (((n, ground arith, refl), v), tt)
  | inr large ↦ rw large (
      Digits-print fuel (n / 16) (hex_digit (n % 16) ∷ acc) (omega (arith, pow-suc 16 (suc fuel)))
        ((n % 16, omega arith, refl), v))
]

digit_plain :
    (d : ℕ)
    → d < 16
    → let c = hex_digit d in
      (is_space c ≡ false)
      × ((c == b'-') ≡ false)
      × ((c == b'+') ≡ false)
      × ((c == b'x') ≡ false)
      × ((c == b'X') ≡ false)
unfolding is_space
digit_plain d h = (ground arith, ground arith, ground arith, ground arith, ground arith)

module _ (c : ℕ) (s : Text) (v : Digits (c ∷ s)) where
  skip_spaces-Digits : skip_spaces (c ∷ s) ≡ c ∷ s
  unfolding skip_spaces
  skip_spaces-Digits =
      let ((d, h, e), rest) = v in
      let plain : is_space c ≡ false = ap is_space e ∙ (digit_plain d h).0 in rw plain refl

  drop_sign-Digits : drop_sign (c ∷ s) ≡ (false, c ∷ s)
  drop_sign-Digits =
      let ((d, h, e), rest) = v in
      let (space, minus, plus, x, x') = digit_plain d h in
      let minus' : (c == b'-') ≡ false = rw e minus in
      let plus' : (c == b'+') ≡ false = rw e plus in rw (minus', plus') refl

  starts_hex-Digits : starts_hex (c ∷ s) ≡ true
  starts_hex-Digits =
      let ((d, h, e), rest) = v in
      let value : hex_value c ≡ some d = ap hex_value e ∙ hex_value-digit d h in
      rw (value, starts_hex) refl

drop_0x-Digits : (s : Text) → Digits s → drop_0x s ≡ s
unfolding drop_0x
drop_0x-Digits [] v = refl
drop_0x-Digits (a ∷ []) v = refl
drop_0x-Digits (a ∷ x ∷ s) (first, ((d, h, e), rest)) =
    let (space, minus, plus, lower, upper) = digit_plain d h in
    let lower' : (x == b'x') ≡ false = rw e lower in
    let upper' : (x == b'X') ≡ false = rw e upper in
    rw (lower', upper') (elim (Bool-cases (a == b'0')) [ inl z ↦ rw z refl | inr z ↦ rw z refl ])

parse-Digits :
    (s : Text) (n : ℕ)
    → Digits s
    → Nonempty s
    → take_hex 0 s ≡ (n, [])
    → n < 2 ^ 64
    → parse_hex_address s ≡ some n
unfolding parse_hex_address
parse-Digits [] n v some_digit taken h = absurd some_digit
parse-Digits (c ∷ s) n v some_digit taken h =
    let small : leb (2 ^ 64) n ≡ false = ground arith in
    rw
      (
        skip_spaces-Digits c s v,
        drop_sign-Digits c s v,
        drop_0x-Digits (c ∷ s) v,
        starts_hex-Digits c s v,
        taken,
        small,
      )
      refl

parse-prefixed :
    (s : Text) (n : ℕ)
    → Digits s
    → Nonempty s
    → take_hex 0 s ≡ (n, [])
    → n < 2 ^ 64
    → parse_hex_address (b'0' ∷ b'x' ∷ s) ≡ some n
unfolding parse_hex_address skip_spaces is_space drop_0x
parse-prefixed [] n v some_digit taken h = absurd some_digit
parse-prefixed (c ∷ s) n v some_digit taken h =
    let small : leb (2 ^ 64) n ≡ false = ground arith in
    let starts = starts_hex-Digits c s v in rw (starts, taken, small, starts) refl

taken_all : (n : ℕ) → n < 2 ^ 64 → take_hex 0 (print_hex 16 n []) ≡ (n, [])
unfolding take_hex
taken_all n h = take_hex-print 15 n [] (omega arith)

-- For a number of 64 bits, parse_hex_address reads back what is printed in base 16, with or
-- without the prefix 0x.
pub parse-print :
    (n : ℕ)
    → n < 2 ^ 64
    → (parse_hex_address (print_hex 16 n []) ≡ some n)
      × (parse_hex_address (b'0' ∷ b'x' ∷ print_hex 16 n []) ≡ some n)
parse-print n h =
    let (digits, nonempty) = Digits-print 15 n [] (omega arith) tt in
    let taken = taken_all n h in
    (
      parse-Digits (print_hex 16 n []) n digits nonempty taken h,
      parse-prefixed (print_hex 16 n []) n digits nonempty taken h,
    )
