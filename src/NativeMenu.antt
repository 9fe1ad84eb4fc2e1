-- ===== src/NativeMenu.antt =====
-- src/ports/sword3/native_menu_input.h and native_menu_input.c: who owns the directions in a
-- native menu, the tab strip or the page. `none` is a call that adds two `int`s whose sum is no
-- `int`, which C leaves undefined.
pub mod Laws
pub mod Session
mod Tests
use machismo_sword.Base.{
  ℕ, Bool, true, false, not, ◌&&◌, ◌||◌, Option, none, some, ◌==◌, if◌then◌else◌,
}
use machismo_sword.Base.Int.{ℤ, pos, negsuc, pos_part, ◌+ℤ◌, add_int, ltb_ℤ, eq_ℤ, truth, rem_ℤ}

-- `Sword3NativeMenuFocus`.
pub data Focus : Type 0 where
  tabs content : Focus

-- `Sword3NativeMenuBack`.
pub data Back : Type 0 where
  within_content to_tabs close : Back

-- `Sword3NativeMenuInput`.
pub record Menu : Type 0 where
  pub focus : Focus
  pub tab : ℤ
  pub tab_count : ℤ
  pub item_action : ℤ

-- `SWORD3_NATIVE_MENU_MAX_TABS`.
abbrev pub max_tabs : ℕ
max_tabs = 6

abbrev pub on_tabs : Focus → Bool
on_tabs tabs = true
on_tabs content = false

-- A function of a pointer that is checked against null first.
abbrev pub with_menu {ℓ} : {R : Type ℓ} → R → (Menu → Menu × R) → Option Menu → Option Menu × R
with_menu r f none = (none, r)
with_menu r f (some m) = let (m', r') = f m in (some m', r')

-- The same for a function that may add.
abbrev pub try_menu {ℓ} :
    {R : Type ℓ} → R → (Menu → Option (Menu × R)) → Option Menu → Option (Option Menu × R)
try_menu r f none = some (none, r)
try_menu r f (some m) = elim (f m) [ none ↦ none | some (m', r') ↦ some (some m', r') ]

-- `sword3_native_menu_input_reset`: a count out of range becomes 5, a tab out of range 0.
pub reset : Menu → ℤ → ℤ → Menu
reset m tab_count tab =
    let count =
      if ltb_ℤ tab_count (pos 1) || ltb_ℤ (pos max_tabs) tab_count then pos 5 else tab_count in
    let tab' = if ltb_ℤ tab (pos 0) || not (ltb_ℤ tab count) then pos 0 else tab in
    record { focus = tabs; tab = tab'; tab_count = count; item_action = pos 0 }

-- `sum % size`, made nonnegative by one more `size`. The callers have `size` positive.
pub into_range : ℤ → ℕ → ℤ
into_range sum size = let r = rem_ℤ sum size in if ltb_ℤ r (pos 0) then r +ℤ pos size else r

-- `from + delta` brought into the range of `size` places.
pub wrap : ℤ → ℤ → ℕ → Option ℤ
unfolding into_range
wrap from delta size = elim (add_int from delta) [
  | none ↦ none
  | some sum ↦ some (into_range sum size)
]

-- `sword3_native_menu_input_move_tab`.
pub move_tab : ℤ → Menu → Option (Menu × ℕ)
move_tab delta m =
    if not (on_tabs m.focus)
      || ltb_ℤ m.tab_count (pos 1)
      || ltb_ℤ (pos max_tabs) m.tab_count
      || not (truth delta)
    then some (m, 0)
    else elim (wrap m.tab delta (pos_part m.tab_count)) [
      | none ↦ none
      | some t ↦ some (if eq_ℤ t m.tab then (m, 0) else (record m { tab = t }, 1))
    ]

-- `sword3_native_menu_input_activate`.
pub activate : Menu → Menu × ℤ
activate m = if not (on_tabs m.focus) then (m, negsuc 0) else (record m { focus = content }, m.tab)

-- `sword3_native_menu_input_move_item_action`.
pub move_item_action : ℤ → Menu → Option (Menu × ℕ)
move_item_action delta m =
    if on_tabs m.focus || not (eq_ℤ m.tab (pos 0)) || not (truth delta)
    then some (m, 0)
    else elim (wrap m.item_action delta 3) [
      | none ↦ none
      | some a ↦ some (if eq_ℤ a m.item_action then (m, 0) else (record m { item_action = a }, 1))
    ]

-- `sword3_native_menu_input_back`.
pub back : ℤ → Menu → Menu × Back
back native_layer m =
    if not (on_tabs m.focus)
    then (if ltb_ℤ (pos 2) native_layer
        then (m, within_content)
        else (record m { focus = tabs }, to_tabs))
    else (m, close)

-- The five functions as the header declares them, on a pointer that may be null.
pub reset_at : ℤ → ℤ → Option Menu → Option Menu
reset_at count tab none = none
reset_at count tab (some m) = some (reset m count tab)

pub move_tab_at : ℤ → Option Menu → Option (Option Menu × ℕ)
move_tab_at delta = try_menu 0 (move_tab delta)

pub activate_at : Option Menu → Option Menu × ℤ
activate_at = with_menu (negsuc 0) activate

pub move_item_action_at : ℤ → Option Menu → Option (Option Menu × ℕ)
move_item_action_at delta = try_menu 0 (move_item_action delta)

pub back_at : ℤ → Option Menu → Option Menu × Back
back_at layer = with_menu close (back layer)
