-- ===== src/Input/Stream/Counting.antt =====
-- The first loops of `release_controller` and `release_controller_inputs` of input.c, which count the
-- events to come.
use native.Mathlib.Decide.{dec_lt}
use machismo_sword.Base.{
  ℕ, zero, suc, ◌+◌, ◌^◌, ◌≤◌, ◌<◌, ◌≡◌, refl, subst, Bool, true, false, Option, none, some, List,
  arith, ltb, if◌then◌else◌, to_int, to_int-le, Bool-cases, inl, inr,
}
use machismo_sword.Input.{Controller, add_size}
use machismo_sword.Input.Devices.{count_releases}
use machismo_sword.Input.Mapping.{count_owned}
use machismo_sword.Input.Stream.Loops.{tally}
use machismo_sword.Input.Stream.Release.{last_of, all_owned}

-- What the counting loops find, when they find no key with too many owners.
abbrev pub Found : (ℕ → ℕ) → (ℕ → ℕ) → ℕ → ℕ → ℕ → Option ℕ → Type 0
Found owned global n scancode releases none = Unit {0}
Found owned global n scancode releases (some m) =
    (m ≡ releases + tally (last_of owned global) n scancode)
    × ((j : ℕ) → scancode ≤ j → j < scancode + n → owned j ≤ global j)

Found-next :
    (owned global : ℕ → ℕ) (n scancode releases more : ℕ) (found : Option ℕ)
    → more ≡ releases + to_int (last_of owned global scancode)
    → owned scancode ≤ global scancode
    → Found owned global n (scancode + 1) more found
    → Found owned global (suc n) scancode releases found
Found-next owned global n scancode releases more none e le f = tt
Found-next owned global n scancode releases more (some m) e le f = (
  omega (arith, f.0),
  λ j lo hi. elim (dec_lt scancode j) [
    | yes p ↦ f.1 j (omega arith) (omega arith)
    | no q ↦ subst (λ (i : ℕ). owned i ≤ global i) {x = scancode} {y = j} (omega arith) le
  ],
)

count_one :
    (fires : Bool) (releases : ℕ)
    → releases + 1 < 2 ^ 64
    → (if fires then add_size releases 1 else releases) ≡ releases + to_int fires
count_one true releases h = omega arith
count_one false releases h = omega arith

-- `count_releases` counts the keys that are let go with their last reference.
pub count_releases-Found :
    (owned global : ℕ → ℕ) (n scancode releases : ℕ)
    → releases + n < 2 ^ 64
    → Found owned global n scancode releases (count_releases owned global n scancode releases)
unfolding count_releases
count_releases-Found owned global zero scancode releases h =
    (omega arith, λ j lo hi. absurd (omega arith))
count_releases-Found owned global (suc n) scancode releases h =
    let more = if last_of owned global scancode then add_size releases 1 else releases in
    let counted : more ≡ releases + to_int (last_of owned global scancode) =
      count_one (last_of owned global scancode) releases (omega arith) in
    elim (Bool-cases (ltb (global scancode) (owned scancode))) [
      | inl lost ↦ rw lost tt
      | inr fine ↦ rw fine (
          Found-next owned global n scancode releases more _ counted (ground arith) (
            count_releases-Found owned global n (scancode + 1) more
              (omega (arith, counted, to_int-le (last_of owned global scancode)))))
    ]

count_owned-eq :
    (cs : List Controller) (global : ℕ → ℕ) (n scancode releases : ℕ)
    → count_owned cs global n scancode releases
      ≡ count_releases (all_owned cs) global n scancode releases
unfolding count_owned count_releases
count_owned-eq cs global zero scancode releases = refl
count_owned-eq cs global (suc n) scancode releases =
    rw (count_owned-eq cs global n (scancode + 1) _)

pub count_owned-Found :
    (cs : List Controller) (global : ℕ → ℕ) (n scancode releases : ℕ)
    → releases + n < 2 ^ 64
    → Found (all_owned cs) global n scancode releases (count_owned cs global n scancode releases)
count_owned-Found cs global n scancode releases h =
    rw (count_owned-eq cs global n scancode releases)
      (count_releases-Found (all_owned cs) global n scancode releases h)
