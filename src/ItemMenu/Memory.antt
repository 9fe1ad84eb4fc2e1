-- ===== src/ItemMenu/Memory.antt =====
-- The memory of the game as bytes by address, read and written as C objects, low byte first.
use machismo_sword.Base.{ℕ, ◌+◌, ◌-◌, ◌*◌, ◌/◌, ◌%◌, ◌^◌, ltb, ◌==◌, if◌then◌else◌}
use machismo_sword.Base.Int.{ℤ, pos, negsuc, sub_ℕ}

abbrev pub Bytes : Type 0
Bytes = ℕ → ℕ

unfoldable pub read_u32 : Bytes → ℕ → ℕ
read_u32 m a = m a + m (a + 1) * 2 ^ 8 + m (a + 2) * 2 ^ 16 + m (a + 3) * 2 ^ 24

-- An `int`, in two's complement.
unfoldable pub read_int : Bytes → ℕ → ℤ
read_int m a = let w = read_u32 m a in if ltb w (2 ^ 31) then pos w else sub_ℕ w (2 ^ 32)

unfoldable pub read_ptr : Bytes → ℕ → ℕ
read_ptr m a = read_u32 m a + read_u32 m (a + 4) * 2 ^ 32

unfoldable pub write_byte : Bytes → ℕ → ℕ → Bytes
write_byte m a b j = if a == j then b % 2 ^ 8 else m j

unfoldable pub write_u32 : Bytes → ℕ → ℕ → Bytes
write_u32 m a w =
    write_byte (write_byte (write_byte (write_byte m a w) (a + 1) (w / 2 ^ 8)) (a + 2) (w / 2 ^ 16))
      (a + 3) (w / 2 ^ 24)

unfoldable pub write_int : Bytes → ℕ → ℤ → Bytes
write_int m a (pos n) = write_u32 m a n
write_int m a (negsuc n) = write_u32 m a (2 ^ 32 - 1 - n % 2 ^ 32)
