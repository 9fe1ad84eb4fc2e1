-- ===== src/ItemMenu.antt =====
-- src/ports/sword3/native_item_menu_input.c: the item page of the game, driven through the game's
-- own memory and functions. The functions of the game and the SDL clock are arguments.
pub mod Memory
pub mod Laws
mod Tests
use machismo_sword.Base.{
  ℕ, ◌+◌, ◌-◌, ◌*◌, ◌%◌, ◌^◌, Bool, true, false, not, ◌&&◌, ◌||◌, Option, none, some, ltb, leb,
  ◌==◌, if◌then◌else◌,
}
use machismo_sword.Base.Int.{ℤ, pos, negsuc, add_int, ltb_ℤ, leb_ℤ, eq_ℤ, truth}
use machismo_sword.ItemMenu.Memory.{Bytes, read_int, read_ptr, write_int, write_u32, write_byte}

-- The addresses that the source fixes.
abbrev pub guest_data_lo : ℕ
guest_data_lo = 0x100294000

abbrev pub guest_data_hi : ℕ
guest_data_hi = 0x100380000

abbrev pub guest_fexecute : ℕ
guest_fexecute = 0x1002a86a8

abbrev pub guest_fex_item : ℕ
guest_fex_item = 0x10002fffc

abbrev pub guest_menu_selection : ℕ
guest_menu_selection = 0x1002a99d0

abbrev pub guest_map_id : ℕ
guest_map_id = 0x1002a99d4

abbrev pub guest_sys_layer : ℕ
guest_sys_layer = 0x1002a99cc

abbrev pub guest_item_ok : ℕ
guest_item_ok = 0x100030a20

abbrev pub guest_item_category_prev : ℕ
guest_item_category_prev = 0x1000314a8

abbrev pub guest_item_category_next : ℕ
guest_item_category_next = 0x1000315f0

abbrev pub guest_uigamepad : ℕ
guest_uigamepad = 0x100304e28

abbrev pub guest_input_mode : ℕ
guest_input_mode = 0x23d4

abbrev pub guest_key_slot : ℕ
guest_key_slot = 0x320

abbrev pub guest_key_stride : ℕ
guest_key_stride = 0x18

-- What is outside: the function of the game at an address, the game's key transition on a pad and a
-- slot, the SDL clock, and the scancodes that SDL gives to the arrows.
pub record Host : Type 0 where
  pub call : ℕ → Bytes → Bytes
  pub transition : ℕ → ℕ → Bool → Bytes → Bytes
  pub ticks : ℕ
  pub scancode_up : ℕ
  pub scancode_down : ℕ

-- The memory of the game and `pending_scancode`.
pub record State : Type 0 where
  pub memory : Bytes
  pub pending : ℕ

-- The three flags that every function takes first.
pub record Owner : Type 0 where
  pub menu_session : Bool
  pub menu_keys : Bool
  pub content_focus : Bool

-- `guest_data_ok`, on a `uintptr_t` and a `size_t`.
unfoldable pub guest_data_ok : ℕ → ℕ → Bool
guest_data_ok address size =
    let last = (address + size + 2 ^ 64 - 1) % 2 ^ 64 in
    leb guest_data_lo address && ltb 0 size && leb address last && ltb last guest_data_hi

unfoldable pub guest_i32 : Bytes → ℕ → ℤ → ℤ
guest_i32 m address fallback =
    if not (guest_data_ok address 4) then fallback else read_int m address

unfoldable pub guest_ptr : Bytes → ℕ → ℕ
guest_ptr m address = if not (guest_data_ok address 8) then 0 else read_ptr m address

unfoldable pub owner_active : Owner → Bytes → Bool
owner_active o m =
    let route = guest_i32 m guest_map_id (negsuc 0) in
    o.menu_session
    && o.menu_keys
    && o.content_focus
    && eq_ℤ (guest_i32 m guest_menu_selection (negsuc 0)) (pos 11)
    && leb_ℤ (pos 2) (guest_i32 m guest_sys_layer (pos 0))
    && leb_ℤ (pos 30) route
    && leb_ℤ route (pos 32)
    && (guest_ptr m guest_fexecute == guest_fex_item)

-- `set_key_state`.
unfoldable pub set_key_state : Host → ℕ → Bool → Bytes → Bytes
set_key_state h scancode down m =
    let slot = guest_uigamepad + guest_key_slot + scancode * guest_key_stride in
    let m1 = write_int m (guest_uigamepad + guest_input_mode) (pos 1) in
    let m2 = h.transition guest_uigamepad slot down m1 in
    if not (guest_data_ok (guest_uigamepad + guest_input_mode) 4)
    then m
    else if down
    then write_u32 (write_byte m2 (slot + 8) 0) (slot + 4) ((h.ticks + 2 ^ 32 - 0x209) % 2 ^ 32)
    else m2

-- `sword3_native_item_menu_active` and `sword3_native_item_menu_content_active`.
unfoldable pub active : Owner → State → Bool
active o s = owner_active o s.memory

unfoldable pub content_active : Owner → State → Bool
content_active o s =
    owner_active o s.memory && eq_ℤ (guest_i32 s.memory guest_sys_layer (pos 0)) (pos 2)

-- `sword3_native_item_menu_move_category`; the answer is whether the call was consumed.
unfoldable pub move_category : Host → Owner → ℤ → State → State × Bool
move_category h o direction s =
    let right = eq_ℤ direction (pos 1) in
    let callback = guest_ptr s.memory (guest_fexecute + (if right then 0x30 else 0x28)) in
    let expected = if right then guest_item_category_next else guest_item_category_prev in
    if not (content_active o s) || (not right && not (eq_ℤ direction (pos 3)))
    then (s, false)
    else if not (callback == expected)
    then (s, false)
    else (record s { memory = h.call callback s.memory }, true)

-- `sword3_native_item_menu_move_item`.
unfoldable pub move_item : Host → Owner → ℤ → State → State × Bool
move_item h o direction s =
    let up = eq_ℤ direction (pos 0) in
    let scancode = if up then h.scancode_up else h.scancode_down in
    let released = if s.pending == 0 then s.memory else set_key_state h s.pending false s.memory in
    if not (content_active o s) || (not up && not (eq_ℤ direction (pos 2)))
    then (s, false)
    else (record { memory = set_key_state h scancode true released; pending = scancode }, true)

-- `sword3_native_item_menu_move_nested`.
unfoldable pub move_nested : Host → Owner → ℤ → State → State × Bool
move_nested h o direction s =
    let right = eq_ℤ direction (pos 1) in
    let callback = guest_ptr s.memory (guest_fexecute + (if right then 0x08 else 0x10)) in
    if not (owner_active o s.memory)
      || leb_ℤ (guest_i32 s.memory guest_sys_layer (pos 0)) (pos 2)
      || (not right && not (eq_ℤ direction (pos 3)))
    then (s, false)
    else if callback == 0
    then (s, false)
    else (record s { memory = h.call callback s.memory }, true)

-- The map id of an item action on the item layer; `none` where `30 + action` is no `int`.
unfoldable pub chosen_map : Bytes → ℤ → ℤ → Option Bytes
chosen_map m layer action =
    if eq_ℤ layer (pos 2)
    then elim (add_int (pos 30) action) [
      | none ↦ none
      | some map_id ↦ some (write_int m guest_map_id map_id)
    ]
    else some m

-- `sword3_native_item_menu_confirm`; `none` is a sum that C leaves undefined.
unfoldable pub confirm : Host → Owner → ℤ → State → Option (State × Bool)
confirm h o action s =
    let callback = guest_ptr s.memory (guest_fexecute + 0x48) in
    let layer = guest_i32 s.memory guest_sys_layer (pos 0) in
    if not (owner_active o s.memory)
    then some (s, false)
    else if not (callback == guest_item_ok)
    then some (s, false)
    else elim (chosen_map s.memory layer action) [
      | none ↦ none
      | some m ↦ some (record s { memory = h.call callback m }, true)
    ]

-- `sword3_native_item_menu_flush`.
unfoldable pub flush : Host → State → State
flush h s =
    if s.pending == 0
    then s
    else record { memory = set_key_state h s.pending false s.memory; pending = 0 }
