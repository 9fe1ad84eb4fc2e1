-- ===== src/ItemMenu/Tests.antt =====
-- Runs of native_item_menu_input.c against a game that keeps a byte of every slot.
use machismo_sword.Base.{
  ℕ, ◌+◌, ◌-◌, ◌*◌, ◌^◌, ◌≡◌, refl, true, false, none, to_int, ◌==◌, if◌then◌else◌,
}
use machismo_sword.Base.Int.{pos}
use machismo_sword.ItemMenu.{
  Host, State, Owner, guest_map_id, guest_sys_layer, guest_fexecute, guest_menu_selection,
  guest_uigamepad, guest_key_slot, guest_key_stride, guest_data_ok, guest_i32, guest_ptr,
  owner_active, active, content_active, set_key_state, move_item, chosen_map, confirm, flush,
}
use machismo_sword.ItemMenu.Memory.{
  Bytes, read_u32, read_int, read_ptr, write_byte, write_u32, write_int,
}

-- The game keeps at byte 12 of a slot whether its key is down, and its functions do nothing.
abbrev game : Host
game = record {
  call = λ f m. m;
  transition = λ pad slot down m. write_byte m (slot + 12) (to_int down);
  ticks = 1000;
  scancode_up = 82;
  scancode_down = 81;
}

abbrev slot_of : ℕ → ℕ
slot_of scancode = guest_uigamepad + guest_key_slot + scancode * guest_key_stride

abbrev shown : Owner
shown = record { menu_session = true; menu_keys = true; content_focus = true }

abbrev hidden : Owner
hidden = record { menu_session = false; menu_keys = true; content_focus = true }

-- The item page of the game, at layer 2 on map 30.
abbrev page : Bytes
page j =
    if j == guest_menu_selection
    then 11
    else if j == guest_map_id
    then 30
    else if j == guest_sys_layer
    then 2
    else if j == guest_fexecute
    then 0xfc
    else if j == guest_fexecute + 1
    then 0xff
    else if j == guest_fexecute + 2
    then 0x02
    else if j == guest_fexecute + 4
    then 0x01
    else if j == guest_fexecute + 0x48
    then 0x20
    else if j == guest_fexecute + 0x49
    then 0x0a
    else if j == guest_fexecute + 0x4a
    then 0x03
    else if j == guest_fexecute + 0x4c
    then 0x01
    else 0

abbrev start : State
start = record { memory = page; pending = 0 }

-- A step down holds the arrow of the way down, and a flush lets it go.
arrows :
    let down = (move_item game shown (pos 2) start).0 in
    (down.pending ≡ 81)
    × (down.memory (slot_of 81 + 12) ≡ 1)
    × ((flush game down).memory (slot_of 81 + 12) ≡ 0)
unfolding move_item flush content_active set_key_state active owner_active guest_i32 guest_ptr
    guest_data_ok read_int read_u32 read_ptr write_int write_u32 write_byte
arrows = (refl, refl, refl)

-- The largest action overflows.
overflows : confirm game shown (pos (2 ^ 31 - 1)) start ≡ none
unfolding confirm chosen_map active owner_active guest_i32 guest_ptr guest_data_ok read_int read_u32
    read_ptr
overflows = refl
