-- ===== src/NativeMenu/Laws.antt =====
-- What each function of native_menu_input.c does to a menu whose fields are in range.
use machismo_sword.Base.{
  ℕ, ◌+◌, ◌-◌, ◌*◌, ◌/◌, ◌%◌, ◌^◌, ◌≤◌, ◌<◌, ◌≡◌, refl, ap, ◌∙◌, ◌↔◌, ◌≢◌, inl, inr, zero, suc,
  if◌then◌else◌, Bool-cases, true, false, some, arith,
}
use native.Mathlib.Decide.{dec_lt}
use native.Mathlib.Nat.{mod-lt, mod-mod, mod-add-mod, mod-add-div, add-mul-mod_self_left, mul-add}
use machismo_sword.Base.Int.{
  ℤ, pos, negsuc, pos_part, neg_part, eq_ℤ, eq_ℤ_iff, truth, ◌+ℤ◌, rem_ℤ, ltb_ℤ,
}
use machismo_sword.NativeMenu.{tabs, Menu, max_tabs, reset, into_range, wrap, move_tab}

-- An index of `size` places.
abbrev pub In : ℤ → ℕ → Type 0
In (pos n) size = n < size
In (negsuc n) size = ⊥

pub record IsValid (m : Menu) : Type 0 where
  pub some_tab : 1 ≤ pos_part m.tab_count
  pub few_tabs : In m.tab_count 7
  pub tab : In m.tab (pos_part m.tab_count)
  pub action : In m.item_action 3

-- The result of a wrap is in range, and is the sum modulo the size.
abbrev pub Wraps : ℕ → ℤ → ℕ → ℤ → Type 0
Wraps from delta size r =
    In r size × ((pos_part r + neg_part delta) % size ≡ (from + pos_part delta) % size)

-- Going `b` below zero from `from`: what the code adds back leaves the remainder right.
below_exact : (from b size : ℕ) → b % size ≡ 0 → (from + b) % size ≡ from % size
below_exact from b size e =
    ap (λ (t : ℕ). t % size) {x = from + b} {y = from + size * (b / size)}
      (omega (arith, mod-add-div b size))
    ∙ add-mul-mod_self_left from size (b / size)

below_negative : (from b size : ℕ) → 1 ≤ size → (size - b % size + (from + b)) % size ≡ from % size
below_negative from b size h =
    ap (λ (t : ℕ). t % size) {x = size - b % size + (from + b)} {y = from + size * (1 + b / size)}
      (omega (arith, mod-add-div b size, mod-lt b {m = size} h, mul-add size 1 (b / size)))
    ∙ add-mul-mod_self_left from size (1 + b / size)

-- A sum below zero, its remainder, and the remainder brought back into range.
sum_below : (from d : ℕ) → from < suc d → pos from +ℤ negsuc d ≡ negsuc (suc d - from - 1)
sum_below from d h = ground arith

rem_exact : (n size : ℕ) → suc n % size ≡ 0 → rem_ℤ (negsuc n) size ≡ pos 0
rem_exact n size e = rw e

rem_negative : (n size k : ℕ) → suc n % size ≡ k → 1 ≤ k → rem_ℤ (negsuc n) size ≡ negsuc (k - 1)
rem_negative n size k e h = ground arith

abbrev settle : ℕ → ℤ → ℤ
settle size r = if ltb_ℤ r (pos 0) then r +ℤ pos size else r

settle-negsuc : (k size : ℕ) → 1 ≤ k → k < size → settle size (negsuc (k - 1)) ≡ pos (size - k)
settle-negsuc k size h h' = ground arith

into_range_below :
    (from size d : ℕ)
    → from < suc d
    → into_range (pos from +ℤ negsuc d) size ≡ settle size (rem_ℤ (negsuc (suc d - from - 1)) size)
unfolding into_range
into_range_below from size d h = ap (λ (x : ℤ). settle size (rem_ℤ x size)) (sum_below from d h)

into_range_below_exact :
    (from size d : ℕ)
    → from < suc d
    → (suc d - from) % size ≡ 0
    → into_range (pos from +ℤ negsuc d) size ≡ pos 0
into_range_below_exact from size d h e =
    into_range_below from size d h
    ∙ ap (settle size) (
        rem_exact (suc d - from - 1) size (
          ap (λ (t : ℕ). t % size) {x = suc (suc d - from - 1)} {y = suc d - from} (omega arith)
          ∙ e))

into_range_below_negative :
    (from size d : ℕ)
    → from < suc d
    → 1 ≤ size
    → 1 ≤ (suc d - from) % size
    → into_range (pos from +ℤ negsuc d) size ≡ pos (size - (suc d - from) % size)
into_range_below_negative from size d h pos_size k =
    into_range_below from size d h
    ∙ ap (settle size) (
        rem_negative (suc d - from - 1) size ((suc d - from) % size)
          (ap (λ (t : ℕ). t % size) {x = suc (suc d - from - 1)} {y = suc d - from} (omega arith))
          k)
    ∙ settle-negsuc ((suc d - from) % size) size k (mod-lt (suc d - from) {m = size} pos_size)

pub into_range-Wraps :
    (from size : ℕ) (delta : ℤ)
    → 1 ≤ size
    → Wraps from delta size (into_range (pos from +ℤ delta) size)
unfolding into_range
into_range-Wraps from size (pos d) h =
    ground (arith, mod-lt (from + d) {m = size} h, mod-mod (from + d) size)
into_range-Wraps from size (negsuc d) h = elim (dec_lt d from) [
  | yes above ↦ ground (
    arith,
    mod-lt (from - suc d) {m = size} h,
    mod-add-mod (from - suc d) size (suc d),
    ap (λ (t : ℕ). t % size) {x = from - suc d + suc d} {y = from} (omega arith),
    ap (λ (t : ℕ). t % size) {x = from + 0} {y = from} (omega arith),
  )
  | no below ↦
      let less = mod-lt (suc d - from) {m = size} h in
      let total : from + (suc d - from) ≡ suc d = omega arith in
      let none_added : from + 0 ≡ from = omega arith in
      elim (dec_lt 0 ((suc d - from) % size)) [
        | yes k ↦
            rw (into_range_below_negative from size d (omega arith) h k, none_added)
              (omega arith, rw total at (below_negative from (suc d - from) size h))
        | no z ↦
            rw (into_range_below_exact from size d (omega arith) (omega arith), none_added)
              (
                omega arith,
                ap (λ (t : ℕ). t % size) {x = 0 + suc d} {y = from + (suc d - from)} (omega arith)
                    ∙ below_exact from (suc d - from) size (omega arith),
              )
      ]
]

-- A step from a place that stays within `int`.
abbrev pub Fits : ℕ → ℤ → Type 0
Fits from delta = (from + pos_part delta < 2 ^ 31) × (neg_part delta ≤ 2 ^ 31)

pub wrap-Wraps :
    (from size : ℕ) (delta : ℤ)
    → 1 ≤ size
    → Fits from delta
    → (r : ℤ) × (wrap (pos from) delta size ≡ some r) × Wraps from delta size r
unfolding wrap
wrap-Wraps from size delta h fits =
    (into_range (pos from +ℤ delta) size, ground arith, into_range-Wraps from size delta h)

-- Whatever the arguments, a reset menu is in range and shows the tab strip.
pub reset-IsValid :
    (m : Menu) (count tab : ℤ) → IsValid (reset m count tab) × ((reset m count tab).focus ≡ tabs)
unfolding reset
reset-IsValid m count tab = ground arith

-- A menu on its strip of `count` tabs.
abbrev pub on_strip : ℕ → ℕ → ℤ → Menu
on_strip count t action = record {
  focus = tabs;
  tab = pos t;
  tab_count = pos count;
  item_action = action;
}

truth-false : (x : ℤ) → truth x ≡ false → x ≡ pos 0
truth-false (pos zero) h = refl
truth-false (pos (suc n)) h = cc
truth-false (negsuc n) h = cc

-- With the guards passed, the step is taken.
move_tab_open :
    (count t : ℕ) (action delta w : ℤ)
    → 1 ≤ count
    → count ≤ max_tabs
    → truth delta ≡ true
    → wrap (pos t) delta count ≡ some w
    → move_tab delta (on_strip count t action)
      ≡ some (
          if eq_ℤ w (pos t)
          then (on_strip count t action, 0)
          else (record (on_strip count t action) { tab = w }, 1))
unfolding move_tab
move_tab_open count t action delta w lo hi h e =
    let low : ltb_ℤ (pos count) (pos 1) ≡ false = ground arith in
    let high : ltb_ℤ (pos max_tabs) (pos count) ≡ false = ground arith in rw (low, high, h, e) refl

move_tab_still :
    (count t : ℕ) (action delta : ℤ)
    → truth delta ≡ false
    → move_tab delta (on_strip count t action) ≡ some (on_strip count t action, 0)
unfolding move_tab
move_tab_still count t action (pos zero) h = ground arith
move_tab_still count t action (pos (suc n)) h = cc
move_tab_still count t action (negsuc n) h = cc

-- What a step on the strip leaves and answers.
abbrev pub Stepped : ℕ → ℕ → ℤ → ℤ → Menu → ℕ → Type 0
Stepped count t action delta m moved =
    In m.tab count
    × ((pos_part m.tab + neg_part delta) % count ≡ (t + pos_part delta) % count)
    × ((moved ≡ 1) ↔ (m.tab ≢ pos t))
    × (m ≡ record (on_strip count t action) { tab = m.tab })

-- On a strip of one to six tabs, a step whose sum with the tab is an int goes round the strip:
-- the call is defined, the new tab is in range and is the old one plus the step modulo the number
-- of tabs; the answer is 1 exactly when the tab changed; nothing else changes.
pub move_tab_lem :
    (count t : ℕ) (action delta : ℤ)
    → 1 ≤ count
    → count ≤ max_tabs
    → t < count
    → Fits t delta
    → (m : Menu) × (moved : ℕ) × (move_tab delta (on_strip count t action) ≡ some (m, moved))
      × Stepped count t action delta m moved
move_tab_lem count t action delta lo hi h fits = elim (Bool-cases (truth delta)) [
  | inr still ↦ (
    on_strip count t action,
    0,
    move_tab_still count t action delta still,
    (
      h,
      rw (truth-false delta still) refl,
      ((λ e. absurd (omega arith)), (λ ne. absurd (ne refl))),
      refl,
    ),
  )
  | inl moves ↦
      let (w, wraps, (inside, sum)) = wrap-Wraps t count delta lo fits in
      let same = eq_ℤ_iff w (pos t) in
      let step = move_tab_open count t action delta w lo hi moves wraps in
      elim (Bool-cases (eq_ℤ w (pos t))) [
        | inl back ↦ (
          on_strip count t action,
          0,
          rw back at step,
          (
            h,
            rw (same.0 back) at sum,
            ((λ e. absurd (omega arith)), (λ ne. absurd (ne refl))),
            refl,
          ),
        )
        | inr away ↦ (
          record (on_strip count t action) { tab = w },
          1,
          rw away at step,
          (inside, sum, ((λ _ e. cc (same.1 e, away)), (λ _. refl)), refl),
        )
      ]
]
