-- ===== src/EhFrame.antt =====
-- The writers and readers of src/eh_frame.c for numbers of fixed and of variable length, and the frame
-- of a record. What a run of `ehf_` calls appends is the list of its bytes.
pub mod Leb
pub mod Emit
pub mod Records
pub mod Sizes
pub mod Register
pub mod Table
pub mod Build
pub mod Whole
pub mod Capacity
pub mod Rules
pub mod Native
pub mod Collect
pub mod Sort
pub mod Search
mod Tests
use machismo_sword.Base.{
  ℕ, zero, suc, ◌+◌, ◌-◌, ◌*◌, ◌/◌, ◌%◌, ◌^◌, Bool, true, false, not, ◌&&◌, ◌||◌, bit_and, bit_or,
  List, [], ◌∷◌, ◌++◌, length, ltb, leb, ◌==◌, if◌then◌else◌,
}
use machismo_sword.Base.Int.{ℤ, pos, negsuc, sub_ℕ}

-- `ehf_u8`, `ehf_u32` and `ehf_u64` with the number of bytes in front, low byte first.
unfoldable pub ehf_uint : ℕ → ℕ → List ℕ
ehf_uint zero v = []
ehf_uint (suc n) v = (v % 2 ^ 8) ∷ ehf_uint n (v / 2 ^ 8)

-- The loop of `ehf_uleb128`: ten rounds are enough for 64 bits.
unfoldable pub uleb128_from : ℕ → ℕ → List ℕ
uleb128_from zero v = []
uleb128_from (suc fuel) v =
    let rest = uleb128_from fuel (v / 2 ^ 7) in
    if v / 2 ^ 7 == 0 then (v % 2 ^ 7) ∷ [] else bit_or 0x80 (v % 2 ^ 7) ∷ rest

abbrev pub ehf_uleb128 : ℕ → List ℕ
ehf_uleb128 v = uleb128_from 10 v

-- `v & 0x7f` and `v >> 7` of a signed number.
abbrev pub low_seven : ℤ → ℕ
low_seven (pos n) = n % 2 ^ 7
low_seven (negsuc n) = 2 ^ 7 - 1 - n % 2 ^ 7

abbrev pub shift_seven : ℤ → ℤ
shift_seven (pos n) = pos (n / 2 ^ 7)
shift_seven (negsuc n) = negsuc (n / 2 ^ 7)

-- The test that ends the loop of `ehf_sleb128`, on the shifted number and the byte.
abbrev pub is_last : ℤ → ℕ → Bool
is_last (pos n) byte = (n == 0) && (bit_and byte 0x40 == 0)
is_last (negsuc n) byte = (n == 0) && not (bit_and byte 0x40 == 0)

unfoldable pub sleb128_from : ℕ → ℤ → List ℕ
sleb128_from zero v = []
sleb128_from (suc fuel) v =
    let rest = sleb128_from fuel (shift_seven v) in
    if is_last (shift_seven v) (low_seven v)
    then low_seven v ∷ []
    else bit_or 0x80 (low_seven v) ∷ rest

abbrev pub ehf_sleb128 : ℤ → List ℕ
ehf_sleb128 v = sleb128_from 10 v

-- The loop of `eh_read_uleb128`: the result, the shift, and the bytes up to the end. The result has
-- 64 bits.
unfoldable pub uleb128_read : ℕ → ℕ → List ℕ → ℕ × List ℕ
uleb128_read result shift [] = (result, [])
uleb128_read result shift (byte ∷ p) =
    let value = bit_or (bit_and byte 0x7F * 2 ^ shift % 2 ^ 64) result in
    let rest = uleb128_read value (shift + 7) p in
    if bit_and byte 0x80 == 0 then (value, p) else rest

abbrev pub eh_read_uleb128 : List ℕ → ℕ × List ℕ
eh_read_uleb128 p = uleb128_read 0 0 p

-- A field of `n` bytes at the front, as `memcpy` reads it.
unfoldable pub read_uint : ℕ → List ℕ → ℕ
read_uint zero s = 0
read_uint (suc n) [] = 0
read_uint (suc n) (c ∷ s) = c + read_uint n s * 2 ^ 8

-- The bytes from a position on.
unfoldable pub from : ℕ → List ℕ → List ℕ
from zero s = s
from (suc n) [] = []
from (suc n) (c ∷ s) = from n s

-- `memcpy` of a number's bytes over those that are there.
unfoldable pub patch : ℕ → List ℕ → List ℕ → List ℕ
patch start [] buf = buf
patch start (b ∷ bs) [] = []
patch zero (b ∷ bs) (c ∷ buf) = b ∷ patch zero bs buf
patch (suc start) (b ∷ bs) (c ∷ buf) = c ∷ patch start (b ∷ bs) buf

-- The loop of `ehf_align`; as many rounds as the alignment are enough.
unfoldable pub padding : ℕ → ℕ → ℕ → List ℕ
padding zero align position = []
padding (suc fuel) align position =
    let rest = padding fuel align (position + 1) in if position % align == 0 then [] else 0 ∷ rest

abbrev pub ehf_align : ℕ → List ℕ → List ℕ
ehf_align align buf = buf ++ padding align align (length buf)

-- The last lines of the emitters: what follows the length field is aligned, and its size is
-- written into the field, which stands at `start`.
unfoldable pub close_record : ℕ → List ℕ → List ℕ
unfolding patch padding
close_record start buf =
    let aligned = ehf_align 8 buf in patch start (ehf_uint 4 (length aligned - (start + 4))) aligned
