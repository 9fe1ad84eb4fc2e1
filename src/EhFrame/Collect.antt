-- ===== src/EhFrame/Collect.antt =====
-- `collect_entries` of src/eh_frame.c: the functions of an __unwind_info section, whose bytes are
-- given by their offsets.
use machismo_sword.Base.{
  ℕ, zero, suc, ◌+◌, ◌-◌, ◌*◌, ◌/◌, ◌%◌, ◌^◌, Bool, not, ◌||◌, bit_and, Option, none, some, List,
  [], ◌∷◌, ◌++◌, length, ltb, leb, ◌==◌, if◌then◌else◌,
}
use machismo_sword.ItemMenu.Memory.{Bytes, read_u32}
use machismo_sword.EhFrame.Register.{Function, sort_and_size}

abbrev pub read_u16 : Bytes → ℕ → ℕ
read_u16 m a = m a + m (a + 1) * 2 ^ 8

-- The fields of an entry of the first-level index at a position.
abbrev pub index_entry : Bytes → ℕ → ℕ
index_entry m i = read_u32 m 20 + 12 * i

abbrev pub function_base : Bytes → ℕ → ℕ
function_base m i = read_u32 m (index_entry m i)

abbrev pub page_of : Bytes → ℕ → ℕ
page_of m i = read_u32 m (index_entry m i + 4)

abbrev pub lsda_start : Bytes → ℕ → ℕ
lsda_start m i = read_u32 m (index_entry m i + 8)

abbrev pub index_count : Bytes → ℕ
index_count m = read_u32 m 24

-- The search in the LSDA index of `m` from `start`: positions lo up to hi - 1 are left, and the
-- fuel is the number of rounds.
unfoldable pub search_lsda : Bytes → ℕ → ℕ → ℕ → ℕ → ℕ → ℕ
search_lsda m start func_offset zero lo end = 0
search_lsda m start func_offset (suc fuel) lo end =
    let mid = (lo + (end - 1)) / 2 in
    let at_mid = read_u32 m (start + 8 * mid) in
    let above = search_lsda m start func_offset fuel (mid + 1) end in
    let below = search_lsda m start func_offset fuel lo mid in
    if not (ltb lo end)
    then 0
    else if at_mid == func_offset
    then read_u32 m (start + 8 * mid + 4)
    else if ltb at_mid func_offset
    then above
    else below

-- The LSDA of a function, or 0.
abbrev pub lsda_offset_of : Bytes → ℕ → ℕ → ℕ → ℕ → ℕ
lsda_offset_of m start count encoding func_offset =
    if not (bit_and encoding 0x40000000 == 0)
    then search_lsda m start func_offset (count + 1) 0 count
    else 0

abbrev pub function_of : Bytes → ℕ → ℕ → ℕ → ℕ → Function
function_of m start count func_offset encoding = record {
  func_offset = func_offset;
  func_size = 0;
  encoding = encoding;
  lsda_offset = lsda_offset_of m start count encoding func_offset;
}

-- The encoding of a compressed entry: the common ones first, then those of the page.
abbrev pub encoding_at : Bytes → ℕ → ℕ → ℕ → ℕ → ℕ
encoding_at m common common_count page index =
    if ltb index common_count
    then read_u32 m (common + 4 * index)
    else if ltb (index - common_count) (read_u16 m (page + 10))
    then read_u32 m (page + read_u16 m (page + 8) + 4 * (index - common_count))
    else 0

module _ (m : Bytes) (unwind_size common common_count : ℕ) where
  -- The entries of a compressed page: the number left and the position of the next one.
  unfoldable pub compressed_entries : ℕ → ℕ → ℕ → ℕ → ℕ → ℕ → List Function
  compressed_entries page base start count zero i = []
  compressed_entries page base start count (suc left) i =
      let entry = read_u32 m (page + read_u16 m (page + 4) + 4 * i) in
      function_of m start count ((base + bit_and entry 0xFFFFFF) % 2 ^ 32)
        (encoding_at m common common_count page (entry / 2 ^ 24))
      ∷ compressed_entries page base start count left (i + 1)

  unfoldable pub regular_entries : ℕ → ℕ → ℕ → ℕ → ℕ → List Function
  regular_entries page start count zero i = []
  regular_entries page start count (suc left) i =
      let entry = page + read_u16 m (page + 4) + 8 * i in
      function_of m start count (read_u32 m entry) (read_u32 m (entry + 4))
      ∷ regular_entries page start count left (i + 1)

  -- The functions of a second-level page; a page offset of 0 or past the section has none.
  unfoldable pub page_entries : ℕ → List Function
  unfolding compressed_entries regular_entries
  page_entries idx =
      let page = page_of m idx in
      let start = lsda_start m idx in
      let count = (2 ^ 32 + lsda_start m (idx + 1) - start) % 2 ^ 32 / 8 in
      if (page == 0) || leb unwind_size page
      then []
      else if read_u32 m page == 3
      then compressed_entries page (function_base m idx) start count (read_u16 m (page + 6)) 0
      else if read_u32 m page == 2
      then regular_entries page start count (read_u16 m (page + 6)) 0
      else []

  -- The loop over the first-level index.
  unfoldable pub pages_from : ℕ → ℕ → List Function
  pages_from zero idx = []
  pages_from (suc left) idx = page_entries idx ++ pages_from left (idx + 1)

  -- `collect_entries`; `alloc` is whether calloc gives the array, and `none` is the answer -1.
  unfoldable pub collect_entries : Bool → Option (List Function)
  unfolding pages_from
  collect_entries alloc =
      let entries = pages_from (index_count m - 1) 0 in
      if not (read_u32 m 0 == 1)
      then none
      else if length entries == 0
      then some []
      else if not alloc
      then none
      else some (sort_and_size entries)
