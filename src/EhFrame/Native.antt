-- ===== src/EhFrame/Native.antt =====
-- The readers of src/eh_frame.c for the native __eh_frame section, and `_dl_find_object`. The section
-- is the list of its bytes, `at` is its address, and `deref` is what the memory of the process holds.
pub mod Ends
use machismo_sword.Base.{
  ℕ, zero, suc, ◌+◌, ◌-◌, ◌*◌, ◌%◌, ◌^◌, ◌≤◌, ◌<◌, ◌≡◌, refl, inl, inr, Bool, true, false, not,
  ◌&&◌, ◌||◌, bit_and, bit_or, Option, none, some, Option-cases, List, [], ◌∷◌, length, ltb, leb,
  ◌==◌, if◌then◌else◌, arith, Bool-cases,
}
use machismo_sword.EhFrame.{eh_read_uleb128, read_uint, from}
use machismo_sword.EhFrame.Register.{HdrEntry}

-- `n` bytes at a position, and the bytes of a range.
abbrev pub field : ℕ → ℕ → List ℕ → ℕ
field n position eh = read_uint n (from position eh)

unfoldable pub first : ℕ → List ℕ → List ℕ
first zero s = []
first (suc n) [] = []
first (suc n) (c ∷ s) = c ∷ first n s

abbrev pub range : ℕ → ℕ → List ℕ → List ℕ
range p end eh = first (end - p) (from p eh)

-- The loop of `eh_read_sleb128` on 64-bit words; a break at the end keeps the last byte.
unfoldable pub sleb128_read : ℕ → ℕ → ℕ → List ℕ → ℕ × List ℕ
sleb128_read result shift last [] = (
  if ltb shift 64 && not (bit_and last 0x40 == 0)
      then bit_or (2 ^ 64 - 2 ^ shift) result
      else result,
  [],
)
sleb128_read result shift last (byte ∷ p) =
    let value = bit_or (bit_and byte 0x7F * 2 ^ shift % 2 ^ 64) result in
    let rest = sleb128_read value (shift + 7) byte p in
    if bit_and byte 0x80 == 0
    then (
      if ltb (shift + 7) 64 && not (bit_and byte 0x40 == 0)
          then bit_or (2 ^ 64 - 2 ^ (shift + 7)) value
          else value,
      p,
    )
    else rest

abbrev pub eh_read_sleb128 : List ℕ → ℕ × List ℕ
eh_read_sleb128 p = sleb128_read 0 0 0 p

-- A number of variable length at a position: its value, and the position behind it.
abbrev pub uleb_at : ℕ → ℕ → List ℕ → ℕ × ℕ
uleb_at p end eh = let r = eh_read_uleb128 (range p end eh) in (r.0, end - length r.1)

abbrev pub behind_sleb : ℕ → ℕ → List ℕ → ℕ
behind_sleb p end eh = end - length (eh_read_sleb128 (range p end eh)).1

-- The size of a pointer encoding, 0 for an unknown one, and its sign.
abbrev pub encoded_size : ℕ → ℕ
encoded_size form =
    if (form == 0x0) || ((form == 0x4) || (form == 0xC))
    then 8
    else if (form == 0x2) || (form == 0xA)
    then 2
    else if (form == 0x3) || (form == 0xB)
    then 4
    else 0

abbrev pub sign_extend : ℕ → ℕ → ℕ
sign_extend size v = if ltb v (2 ^ (size * 8 - 1)) then v else v + 2 ^ 64 - 2 ^ (size * 8)

module _ (at : ℕ) (deref : ℕ → ℕ) (eh : List ℕ) where
  -- `eh_read_encoded_ptr`: the value, and the cursor behind it.
  unfoldable pub eh_read_encoded_ptr : ℕ → ℕ → ℕ → ℕ × ℕ
  eh_read_encoded_ptr p end encoding =
      let form = bit_and encoding 0x0F in
      let size = encoded_size form in
      let raw = field size p eh in
      let value = if leb 0xA form then sign_extend size raw else raw in
      let relative = if bit_and encoding 0x70 == 0x10 then (value + (at + p)) % 2 ^ 64 else value in
      if encoding == 0xFF
      then (0, p)
      else if (size == 0) || ltb end (p + size)
      then (0, p)
      else (if not (bit_and encoding 0x80 == 0) then deref relative else relative, p + size)

  -- The end of the augmentation string: a byte 0, or the end.
  unfoldable pub behind_string : ℕ → ℕ → ℕ → ℕ
  behind_string zero p end = p
  behind_string (suc fuel) p end =
      let next = behind_string fuel (p + 1) end in
      if ltb p end && not (field 1 p eh == 0) then next else p

  -- The loop over the augmentation: `i` is the position of the letter; the fuel is the number of
  -- letters.
  unfoldable pub augmentation : ℕ → ℕ → ℕ → ℕ → ℕ
  augmentation zero i p aug_end = 0
  augmentation (suc fuel) i p aug_end =
      let letter = field 1 i eh in
      let skipped = augmentation fuel (i + 1) (p + 1) aug_end in
      let read = eh_read_encoded_ptr (p + 1) aug_end (field 1 p eh) in
      let behind_pointer = augmentation fuel (i + 1) read.1 aug_end in
      if (letter == 0) || leb aug_end p
      then 0
      else if letter == b'L'
      then skipped
      else if letter == b'P'
      then behind_pointer
      else if letter == b'R'
      then field 1 p eh
      else 0

  -- `parse_cie_fde_encoding`
  unfoldable pub parse_cie_fde_encoding : ℕ → ℕ → ℕ
  unfolding behind_string augmentation
  parse_cie_fde_encoding cie_data cie_length =
      let end = cie_data + cie_length in
      let aug_str = cie_data + 5 in
      let string_end = behind_string (end - aug_str) aug_str end in
      let data_factor = (uleb_at (string_end + 1) end eh).1 in
      let register = behind_sleb data_factor end eh in
      let behind_register =
        if field 1 (cie_data + 4) eh == 1
        then (if ltb register end then register + 1 else register)
        else (uleb_at register end eh).1 in
      let aug_len = uleb_at behind_register end eh in
      let aug_end = if ltb end (aug_len.1 + aug_len.0) then end else aug_len.1 + aug_len.0 in
      if ltb end (cie_data + 4) || leb end (cie_data + 4)
      then 0
      else if leb end string_end
      then 0
      else if not (field 1 aug_str eh == b'z')
      then 0
      else augmentation (string_end - aug_str) (aug_str + 1) aug_len.1 aug_end

  -- The entry of an FDE whose fields start at `data_start`, if it has one.
  unfoldable pub native_entry : ℕ → ℕ → ℕ → Option HdrEntry
  unfolding parse_cie_fde_encoding eh_read_encoded_ptr
  native_entry position data_start data_end =
      let cie_ptr = field 4 data_start eh in
      let cie_pos = (2 ^ 64 + data_start - cie_ptr) % 2 ^ 64 in
      let encoding = parse_cie_fde_encoding (cie_pos + 4) (field 4 cie_pos eh) in
      let location = (eh_read_encoded_ptr (data_start + 4) data_end encoding).0 in
      if (cie_ptr == 0) || leb (length eh) cie_pos
      then none
      else if location == 0
      then none
      else some (record { initial_location = location; fde_ptr = at + position })

  abbrev pub with_entry : Option HdrEntry → Option (List HdrEntry) → Option (List HdrEntry)
  with_entry none rest = rest
  with_entry (some e) none = none
  with_entry (some e) (some es) = some (e ∷ es)

  -- The fields of a record: where its data starts, and the end as a 64-bit word. `none` is a record
  -- that ends the loop.
  unfoldable pub record_bounds : ℕ → Option (ℕ × ℕ)
  record_bounds position =
      let size = field 4 position eh in
      let extended = (position + 12 + field 8 (position + 4) eh) % 2 ^ 64 in
      if size == 0
      then none
      else if size == 0xFFFFFFFF
      then (if ltb (length eh) (position + 12)
          then none
          else if ltb (length eh) extended
          then none
          else some (position + 12, extended))
      else if ltb (length eh) (position + 4 + size)
      then none
      else some (position + 4, position + 4 + size)

  -- `parse_native_eh_frame_fdes` on fuel, with memory for its array: `none` means that the fuel ran
  -- out.
  unfoldable pub parse_native : ℕ → ℕ → Option (List HdrEntry)
  parse_native zero position = none
  parse_native (suc fuel) position = elim (ltb (length eh) (position + 4)) [
    | true ↦ some []
    | false ↦ elim (record_bounds position) [
      | none ↦ some []
      | some (data_start, data_end) ↦
          with_entry (native_entry position data_start data_end) (parse_native fuel data_end)
    ]
  ]

-- `_dl_find_object`: the answer for an address, by the text range of the image, the table if there
-- is one, and what the function of the C library answers.
pub data Lookup : Type 0 where
  image : ℕ → ℕ → ℕ → Lookup
  forwarded : Lookup
  missing : Lookup

unfoldable pub dl_find_object : ℕ → ℕ → Option ℕ → Bool → ℕ → Lookup
dl_find_object text_start text_end none has_real pc = if has_real then forwarded else missing
dl_find_object text_start text_end (some hdr) has_real pc =
    if leb text_start pc && ltb pc text_end
    then image text_start text_end hdr
    else if has_real
    then forwarded
    else missing
