-- ===== src/IsaEmul/Scratch.antt =====
-- The scratch registers of an island: all different, and none of those of the instruction.
use machismo_sword.Base.{
  ℕ, subst, sym, ◌+◌, ◌*◌, ◌^◌, ◌≤◌, ◌<◌, ◌≡◌, ◌≢◌, ap, ◌∙◌, Bool-cases, ==_iff, true, false, inl,
  inr, List, [], ◌∷◌, ◌++◌, arith, bit_and, bit_or, length, ◌==◌, if◌then◌else◌,
}
use machismo_sword.Base.Bits.{
  ◌<<<◌, bit_at, bit_at-le, bit_at-or_pow, bit_at-pow_self, bit_at-pow_ne, any-bit_at,
}
use machismo_sword.IsaEmul.Decode.{Decoded}
use machismo_sword.IsaEmul.Island.{
  first_scratches, later_scratches, pick_from, pick_scratch, cas_mask, lse_mask, second_mask,
}

-- How many registers of a list are in a mask.
abbrev taken : List ℕ → ℕ → ℕ
taken [] mask = 0
taken (r ∷ rs) mask = bit_at r mask + taken rs mask

-- How often a register occurs in a list.
abbrev occurs : ℕ → List ℕ → ℕ
occurs x [] = 0
occurs x (r ∷ rs) = (if x == r then 1 else 0) + occurs x rs

taken-or_pow :
    (rs : List ℕ) (mask x : ℕ) → taken rs (bit_or mask (1 <<< x)) ≤ taken rs mask + occurs x rs
taken-or_pow [] mask x = omega arith
taken-or_pow (r ∷ rs) mask x = ground (arith, bit_at-or_pow r mask x, taken-or_pow rs mask x)

occurs_once : (x : ℕ) → occurs x first_scratches ≤ 1
occurs_once x = ground arith

-- One more register in a mask takes one scratch at most.
pub taken-more :
    (mask x : ℕ) → taken first_scratches (bit_or mask (1 <<< x)) ≤ taken first_scratches mask + 1
taken-more mask x = omega (arith, taken-or_pow first_scratches mask x, occurs_once x)

free_bit : (r mask : ℕ) → (bit_and mask (1 <<< r) == 0) ≡ (bit_at r mask == 0)
free_bit r mask = ground (arith, any-bit_at r mask, bit_at-le r mask)

pick_from-here :
    (r : ℕ) (rs : List ℕ) (mask : ℕ)
    → (bit_and mask (1 <<< r) == 0) ≡ true
    → pick_from (r ∷ rs) mask ≡ r
unfolding pick_from
pick_from-here r rs mask h = rw h

pick_from-busy :
    (r : ℕ) (rs : List ℕ) (mask : ℕ)
    → (bit_and mask (1 <<< r) == 0) ≡ false
    → pick_from (r ∷ rs) mask ≡ pick_from rs mask
unfolding pick_from
pick_from-busy r rs mask h = rw h

-- While a list has registers out of the mask, the choice falls on one of them.
pick_from-free :
    (rs rest : List ℕ) (mask : ℕ)
    → taken rs mask < length rs
    → (bit_at (pick_from (rs ++ rest) mask) mask ≡ 0)
      × (1 ≤ occurs (pick_from (rs ++ rest) mask) rs)
pick_from-free [] rest mask h = absurd (omega arith)
pick_from-free (r ∷ rs) rest mask h =
    let free = free_bit r mask in
    let small = bit_at-le r mask in
    elim (Bool-cases (bit_and mask (1 <<< r) == 0)) [
      | inl here ↦
          rw (pick_from-here r (rs ++ rest) mask here) (ground (arith, free, here), ground arith)
      | inr busy ↦
          let set_bit : bit_at r mask ≡ 1 = ground (arith, free, busy, small) in
          let later = pick_from-free rs rest mask (omega (arith, set_bit)) in
          subst (λ (x : ℕ). (bit_at x mask ≡ 0) × (1 ≤ occurs x (r ∷ rs)))
            (sym (pick_from-busy r (rs ++ rest) mask busy)) (later.0, omega (arith, later.1))
    ]

occurs-range : (x : ℕ) → 1 ≤ occurs x first_scratches → (9 ≤ x) × (x ≤ 16)
occurs-range x h = ground arith

-- With at most seven of the first scratches in the mask, the choice is one that is not in it.
pub pick_scratch-free :
    (mask : ℕ)
    → taken first_scratches mask ≤ 7
    → let s = pick_scratch mask in (bit_at s mask ≡ 0) × (9 ≤ s) × (s ≤ 16)
unfolding pick_scratch
pick_scratch-free mask h =
    let p = pick_from-free first_scratches later_scratches mask (omega arith) in
    let range = occurs-range _ p.1 in (p.0, range.0, range.1)

-- A register that is not in a mask with one more bit is not that bit, nor in the smaller mask.
pub not_in-more :
    (s mask x : ℕ) → bit_at s (bit_or mask (1 <<< x)) ≡ 0 → (bit_at s mask ≡ 0) × (x ≢ s)
not_in-more s mask x h = ground (arith, bit_at-or_pow s mask x)

bit_at-shift : (r x : ℕ) → bit_at r (1 <<< x) ≡ (if x == r then 1 else 0)
bit_at-shift r x = elim (Bool-cases (x == r)) [
  | inl e ↦ rw e (
      ap (bit_at r) {x = 1 * 2 ^ x} {y = 2 ^ r}
        (omega (arith, ap (λ (t : ℕ). 2 ^ t) ((==_iff x r).0 e)))
      ∙ bit_at-pow_self r)
  | inr e ↦ rw e (
      ap (bit_at r) {x = 1 * 2 ^ x} {y = 2 ^ x} (omega arith)
      ∙ bit_at-pow_ne r x (λ h. ground (arith, h)))
]

taken-shift : (rs : List ℕ) (x : ℕ) → taken rs (1 <<< x) ≤ occurs x rs
taken-shift [] x = omega arith
taken-shift (r ∷ rs) x = ground (arith, bit_at-shift r x, taken-shift rs x)

-- A mask of one register takes one scratch at most.
pub taken-first : (x : ℕ) → taken first_scratches (1 <<< x) ≤ 1
taken-first x = omega (arith, taken-shift first_scratches x, occurs_once x)

pub not_in-first : (s x : ℕ) → bit_at s (1 <<< x) ≡ 0 → x ≢ s
not_in-first s x h = ground (arith, bit_at-shift s x)

-- A register that an island may use for itself.
abbrev pub Fresh : Decoded → ℕ → Type 0
Fresh d s = (9 ≤ s) × (s ≤ 16) × (d.rs ≢ s) × (d.rt ≢ s) × (d.rn ≢ s)

cas_mask-taken : (d : Decoded) → taken first_scratches (cas_mask d) ≤ 4
cas_mask-taken d = omega (
  arith,
  taken-first 31,
  taken-more (1 <<< 31) d.rs,
  taken-more (bit_or (1 <<< 31) (1 <<< d.rs)) d.rt,
  taken-more (bit_or (bit_or (1 <<< 31) (1 <<< d.rs)) (1 <<< d.rt)) d.rn,
)

lse_mask-taken : (d : Decoded) → taken first_scratches (lse_mask d) ≤ 4
lse_mask-taken d =
    let m = bit_or (bit_or (1 <<< 31) (1 <<< d.rs)) (1 <<< d.rn) in
    let three : taken first_scratches m ≤ 3 = omega (
      arith,
      taken-first 31,
      taken-more (1 <<< 31) d.rs,
      taken-more (bit_or (1 <<< 31) (1 <<< d.rs)) d.rn,
    ) in
    elim (Bool-cases (d.rt == 31)) [
      | inl e ↦ rw e (omega (arith, three))
      | inr e ↦ rw e (omega (arith, three, taken-more m d.rt))
    ]

cas_mask-Fresh : (d : Decoded) (s : ℕ) → bit_at s (cas_mask d) ≡ 0 → 9 ≤ s → s ≤ 16 → Fresh d s
cas_mask-Fresh d s h lo hi =
    let m1 = bit_or (1 <<< 31) (1 <<< d.rs) in
    let n = not_in-more s (bit_or m1 (1 <<< d.rt)) d.rn h in
    let t = not_in-more s m1 d.rt n.0 in
    let r = not_in-more s (1 <<< 31) d.rs t.0 in (lo, hi, r.1, t.1, n.1)

lse_mask-Fresh : (d : Decoded) (s : ℕ) → bit_at s (lse_mask d) ≡ 0 → 9 ≤ s → s ≤ 16 → Fresh d s
lse_mask-Fresh d s h lo hi =
    let m1 = bit_or (1 <<< 31) (1 <<< d.rs) in
    let m2 = bit_or m1 (1 <<< d.rn) in
    elim (Bool-cases (d.rt == 31)) [
      | inl e ↦
          let n = not_in-more s m1 d.rn (rw e at h) in
          let r = not_in-more s (1 <<< 31) d.rs n.0 in (lo, hi, r.1, λ q. ground (arith, e, q), n.1)
      | inr e ↦
          let t = not_in-more s m2 d.rt (rw e at h) in
          let n = not_in-more s m1 d.rn t.0 in
          let r = not_in-more s (1 <<< 31) d.rs n.0 in (lo, hi, r.1, t.1, n.1)
    ]

-- The two scratches of a CAS island are different registers among X9 to X16, and neither is a
-- register of the instruction.
pub cas_scratches :
    (d : Decoded)
    → let s1 = pick_scratch (cas_mask d) in
      let s2 = pick_scratch (second_mask (cas_mask d)) in Fresh d s1 × Fresh d s2 × (s1 ≢ s2)
cas_scratches d =
    let m1 = cas_mask d in
    let few = cas_mask-taken d in
    let p1 = pick_scratch-free m1 (omega (arith, few)) in
    let more = taken-more m1 (pick_scratch m1) in
    let p2 = pick_scratch-free (second_mask m1) (omega (arith, few, more)) in
    let apart = not_in-more _ m1 (pick_scratch m1) p2.0 in
    (cas_mask-Fresh d _ p1.0 p1.1 p1.2, cas_mask-Fresh d _ apart.0 p2.1 p2.2, apart.1)

-- The three scratches of an island that is no CAS are three different registers among X9 to X16,
-- and none is a register of the instruction.
pub lse_scratches :
    (d : Decoded)
    → let m1 = lse_mask d in
      let s1 = pick_scratch m1 in
      let s2 = pick_scratch (second_mask m1) in
      let s3 = pick_scratch (second_mask (second_mask m1)) in
      Fresh d s1 × Fresh d s2 × Fresh d s3 × (s1 ≢ s2) × (s1 ≢ s3) × (s2 ≢ s3)
lse_scratches d =
    let m1 = lse_mask d in
    let m2 = second_mask m1 in
    let few = lse_mask-taken d in
    let p1 = pick_scratch-free m1 (omega (arith, few)) in
    let more = taken-more m1 (pick_scratch m1) in
    let p2 = pick_scratch-free m2 (omega (arith, few, more)) in
    let more' = taken-more m2 (pick_scratch m2) in
    let p3 = pick_scratch-free (second_mask m2) (omega (arith, few, more, more')) in
    let apart2 = not_in-more _ m1 (pick_scratch m1) p2.0 in
    let apart3 = not_in-more _ m2 (pick_scratch m2) p3.0 in
    let apart31 = not_in-more _ m1 (pick_scratch m1) apart3.0 in
    (
      lse_mask-Fresh d _ p1.0 p1.1 p1.2,
      lse_mask-Fresh d _ apart2.0 p2.1 p2.2,
      lse_mask-Fresh d _ apart31.0 p3.1 p3.2,
      apart2.1,
      apart31.1,
      apart3.1,
    )
