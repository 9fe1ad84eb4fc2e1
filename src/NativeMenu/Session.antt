-- ===== src/NativeMenu/Session.antt =====
-- Whole sessions in a native menu: no sum overflows, and the fields stay in range.
use machismo_sword.Base.{
  ℕ, ◌≡◌, refl, ◌≤◌, Option, none, some, List, [], ◌∷◌, arith, Bool-cases, inl, inr, not, ◌||◌,
}
use machismo_sword.Base.Int.{ℤ, pos, negsuc, pos_part, ltb_ℤ, eq_ℤ, truth}
use machismo_sword.NativeMenu.{
  Focus, tabs, content, on_tabs, Menu, max_tabs, reset, wrap, move_tab, activate, move_item_action,
  back,
}
use machismo_sword.NativeMenu.Laws.{In, IsValid, Fits, wrap-Wraps, reset-IsValid}

-- What the input code calls while a menu is up; the arguments are the callers'.
pub data Call : Type 0 where
  resets : ℤ → ℤ → Call
  moves : ℤ → Call
  activates : Call
  acts : ℤ → Call
  backs : ℤ → Call

abbrev pub menu_of : Option (Menu × ℕ) → Option Menu
menu_of none = none
menu_of (some (m, moved)) = some m

pub step : Menu → Call → Option Menu
step m (resets count tab) = some (reset m count tab)
step m (moves delta) = menu_of (move_tab delta m)
step m activates = some (activate m).0
step m (acts delta) = menu_of (move_item_action delta m)
step m (backs layer) = some (back layer m).0

pub run : Menu → List Call → Option Menu
run m [] = some m
run m (c ∷ cs) = elim (step m c) [ none ↦ none | some m' ↦ run m' cs ]

-- Steps of a tab or of an action that stay within `int` from any of the six places.
abbrev pub Small : Call → Type 0
Small (resets count tab) = Unit {0}
Small (moves delta) = Fits 5 delta
Small activates = Unit {0}
Small (acts delta) = Fits 5 delta
Small (backs layer) = Unit {0}

abbrev pub AllSmall : List Call → Type 0
AllSmall [] = Unit {0}
AllSmall (c ∷ cs) = Small c × AllSmall cs

-- A call that is defined and leaves a valid menu.
abbrev pub Ends : Option Menu → Type 0
Ends out = (m : Menu) × (out ≡ some m) × IsValid m

wrap-In :
    (x delta : ℤ) (size : ℕ)
    → In x size
    → size ≤ 6
    → Fits 5 delta
    → (r : ℤ) × (wrap x delta size ≡ some r) × In r size
wrap-In (pos n) delta size h few fits =
    let (r, e, (inside, sum)) = wrap-Wraps n size delta (omega arith) (omega arith, fits.1) in
    (r, e, inside)
wrap-In (negsuc n) delta size h few fits = absurd h

tab_count-few : (m : Menu) → IsValid m → pos_part m.tab_count ≤ 6
tab_count-few m v = few m.tab_count v.few_tabs
  where
    few : (x : ℤ) → In x 7 → pos_part x ≤ 6
    few (pos n) h = omega arith
    few (negsuc n) h = absurd h

move_tab-IsValid :
    (m : Menu) (delta : ℤ) → Fits 5 delta → IsValid m → Ends (menu_of (move_tab delta m))
unfolding move_tab
move_tab-IsValid m delta fits v =
    let (w, e, inside) =
      wrap-In m.tab delta (pos_part m.tab_count) v.tab (tab_count-few m v) fits in
    elim (Bool-cases (
      not (on_tabs m.focus)
      || ltb_ℤ m.tab_count (pos 1)
      || ltb_ℤ (pos max_tabs) m.tab_count
      || not (truth delta))) [
        | inl stop ↦ rw stop (m, refl, v)
        | inr go ↦
            rw (go, e)
              (elim (Bool-cases (eq_ℤ w m.tab)) [
                | inl f ↦ rw f (m, refl, v)
                | inr f ↦ rw f (
                  record m { tab = w },
                  refl,
                  record {
                    some_tab = v.some_tab;
                    few_tabs = v.few_tabs;
                    tab = inside;
                    action = v.action;
                  },
                )
              ])
      ]

move_item_action-IsValid :
    (m : Menu) (delta : ℤ) → Fits 5 delta → IsValid m → Ends (menu_of (move_item_action delta m))
unfolding move_item_action
move_item_action-IsValid m delta fits v =
    let (w, e, inside) = wrap-In m.item_action delta 3 v.action (omega arith) fits in
    elim (Bool-cases (on_tabs m.focus || not (eq_ℤ m.tab (pos 0)) || not (truth delta))) [
      | inl stop ↦ rw stop (m, refl, v)
      | inr go ↦
          rw (go, e)
            (elim (Bool-cases (eq_ℤ w m.item_action)) [
              | inl f ↦ rw f (m, refl, v)
              | inr f ↦ rw f (
                record m { item_action = w },
                refl,
                record {
                  some_tab = v.some_tab;
                  few_tabs = v.few_tabs;
                  tab = v.tab;
                  action = inside;
                },
              )
            ])
    ]

refocus : (m : Menu) (f : Focus) → IsValid m → IsValid (record m { focus = f })
refocus m f v = record {
  some_tab = v.some_tab;
  few_tabs = v.few_tabs;
  tab = v.tab;
  action = v.action;
}

activate-IsValid : (m : Menu) → IsValid m → IsValid (activate m).0
unfolding activate
activate-IsValid m v = elim (Bool-cases (not (on_tabs m.focus))) [
  | inl e ↦ rw e v
  | inr e ↦ rw e (refocus m content v)
]

back-IsValid : (m : Menu) (layer : ℤ) → IsValid m → IsValid (back layer m).0
unfolding back
back-IsValid m layer v = elim (Bool-cases (not (on_tabs m.focus))) [
  | inl e ↦
      rw e (elim (Bool-cases (ltb_ℤ (pos 2) layer)) [
        | inl f ↦ rw f v
        | inr f ↦ rw f (refocus m tabs v)
      ])
  | inr e ↦ rw e v
]

step-IsValid : (m : Menu) (c : Call) → Small c → IsValid m → Ends (step m c)
unfolding step
step-IsValid m (resets count tab) small v = (reset m count tab, refl, (reset-IsValid m count tab).0)
step-IsValid m (moves delta) small v = move_tab-IsValid m delta small v
step-IsValid m activates small v = ((activate m).0, refl, activate-IsValid m v)
step-IsValid m (acts delta) small v = move_item_action-IsValid m delta small v
step-IsValid m (backs layer) small v = ((back layer m).0, refl, back-IsValid m layer v)

run-keeps_IsValid : (m : Menu) (cs : List Call) → AllSmall cs → IsValid m → Ends (run m cs)
unfolding run
run-keeps_IsValid m [] small v = (m, refl, v)
run-keeps_IsValid m (c ∷ cs) (first, rest) v =
    let (m', e, v') = step-IsValid m c first v in rw (e, run) (run-keeps_IsValid m' cs rest v')

-- After a reset with any arguments, every sequence of calls whose steps of a tab or an action are
-- ints to which 5 can be added is defined, with no sum that overflows, and leaves one to six
-- tabs, a selected tab among them and an item action among the three.
pub run-IsValid :
    (m : Menu) (count tab : ℤ) (cs : List Call) → AllSmall cs → Ends (run (reset m count tab) cs)
run-IsValid m count tab cs small =
    run-keeps_IsValid (reset m count tab) cs small (reset-IsValid m count tab).0
