-- ===== src/ItemMenu/Laws.antt =====
-- When native_item_menu_input.c acts on the game, and what it reads and writes then.
use machismo_sword.Base.{ℕ, ◌+◌, ◌^◌, ◌≤◌, ◌<◌, ◌≡◌, ◌↔◌, true, arith}
use machismo_sword.ItemMenu.{guest_data_ok, guest_data_lo, guest_data_hi}

-- For an address and a size of 64 bits, guest_data_ok accepts exactly the ranges that are not
-- empty and lie in the data of the game, sizes that wrap around included.
pub guest_data_ok_iff :
    (address size : ℕ)
    → address < 2 ^ 64
    → size < 2 ^ 64
    → (guest_data_ok address size ≡ true)
      ↔ (guest_data_lo ≤ address) × (1 ≤ size) × (address + size ≤ guest_data_hi)
unfolding guest_data_ok
guest_data_ok_iff address size ha hs = ground arith
