-- ===== src/NativeMenu/Tests.antt =====
-- Runs of native_menu_input.c on the strip of five tabs.
use machismo_sword.Base.{ℕ, ◌-◌, ◌^◌, ◌≡◌, refl, none, some, [], ◌∷◌, arith}
use machismo_sword.Base.Int.{pos, negsuc}
use machismo_sword.NativeMenu.{Menu, move_tab, reset, wrap, into_range}
use machismo_sword.NativeMenu.Laws.{on_strip, Stepped, move_tab_lem}
use machismo_sword.NativeMenu.Session.{moves, activates, acts, backs, run, Ends, run-IsValid}

move_tab_example :
    (m : Menu) × (moved : ℕ) × (move_tab (negsuc 0) (on_strip 5 0 (pos 1)) ≡ some (m, moved))
    × Stepped 5 0 (pos 1) (negsuc 0) m moved
move_tab_example =
    move_tab_lem 5 0 (pos 1) (negsuc 0) (omega arith) (omega arith) (omega arith)
      (omega arith, omega arith)

run-IsValid_example : Ends (
    run
      (reset (on_strip 5 0 (pos 1)) (negsuc 3) (pos 9))
      (moves (negsuc 0) ∷ activates ∷ acts (pos 1) ∷ backs (pos 2) ∷ []))
run-IsValid_example =
    run-IsValid (on_strip 5 0 (pos 1)) (negsuc 3) (pos 9)
      (moves (negsuc 0) ∷ activates ∷ acts (pos 1) ∷ backs (pos 2) ∷ [])
      ((omega arith, omega arith), (tt, ((omega arith, omega arith), (tt, tt))))

-- A step left of the first tab is the last one.
wraps_left : move_tab (negsuc 0) (on_strip 5 0 (pos 1)) ≡ some (on_strip 5 4 (pos 1), 1)
unfolding move_tab wrap into_range
wraps_left = refl

-- From the last tab the largest step overflows.
overflows : move_tab (pos (2 ^ 31 - 1)) (on_strip 5 4 (pos 1)) ≡ none
unfolding move_tab wrap into_range
overflows = refl
