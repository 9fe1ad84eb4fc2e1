-- ===== src/EhFrame/Register.antt =====
-- `eh_frame_register_macho` of src/eh_frame.c from the collected functions on: the synthetic records,
-- and the sorted table of `.eh_frame_hdr`.
use machismo_sword.Base.{
  ℕ, zero, suc, ◌+◌, ◌-◌, ◌*◌, ◌/◌, ◌%◌, ◌^◌, Bool, not, ◌&&◌, ◌||◌, bit_and, List, [], ◌∷◌, ◌++◌,
  length, get_or, ltb, ◌==◌, if◌then◌else◌,
}
use machismo_sword.Base.Int.{ℤ, pos, negsuc}
use machismo_sword.EhFrame.{ehf_uint, read_uint, from}
use machismo_sword.EhFrame.Emit.{emit_cie, emit_fde_frame, emit_fde_frameless, emit_fde_minimal}

-- `struct cu_entry`
pub record Function : Type 0 where
  pub func_offset : ℕ
  pub func_size : ℕ
  pub encoding : ℕ
  pub lsda_offset : ℕ

-- `struct hdr_entry`
pub record HdrEntry : Type 0 where
  pub initial_location : ℕ
  pub fde_ptr : ℕ

-- The insertion of a function into those before it, from the last one back; the prefix is in
-- reverse, so its head is entries[j].
unfoldable pub insert_back : Function → List Function → List Function
insert_back tmp [] = tmp ∷ []
insert_back tmp (e ∷ before) =
    let rest = insert_back tmp before in
    if ltb tmp.func_offset e.func_offset then e ∷ rest else tmp ∷ (e ∷ before)

-- The insertion sort of `collect_entries`: the sorted part, in reverse, and the rest.
unfoldable pub sort_entries : List Function → List Function → List Function
sort_entries sorted [] = sorted
sort_entries sorted (tmp ∷ entries) = sort_entries (insert_back tmp sorted) entries

-- The sizes, from the last function back: the gap to the next one, 256 for the last.
unfoldable pub sizes_back : List Function → List Function → List Function
sizes_back [] done = done
sizes_back (e ∷ before) [] = sizes_back before (record e { func_size = 256 } ∷ [])
sizes_back (e ∷ before) (next ∷ done) =
    sizes_back before (
      record e { func_size = (2 ^ 32 + next.func_offset - e.func_offset) % 2 ^ 32 } ∷ (next ∷ done))

abbrev pub sort_and_size : List Function → List Function
sort_and_size entries = sizes_back (sort_entries [] entries) []

abbrev pub mode_of : ℕ → ℕ
mode_of encoding = bit_and encoding 0x0F000000

-- Entries that get no record: those in DWARF mode and those that start no function.
abbrev pub is_skipped : ℕ → Bool
is_skipped encoding = (mode_of encoding == 0x03000000) || not (bit_and encoding 0x80000000 == 0)

-- `base` is `text_base + slide`.
abbrev pub address_of : ℕ → Function → ℕ
address_of base e = (base + e.func_offset) % 2 ^ 64

abbrev pub lsda_of : ℕ → Function → ℕ
lsda_of base e =
    if not (bit_and e.encoding 0x40000000 == 0) && not (e.lsda_offset == 0)
    then (base + e.lsda_offset) % 2 ^ 64
    else 0

-- The CIE of an entry: `cies` is `cie_by_personality`, the one without a personality first.
unfoldable pub choose_cie : List ℕ → ℕ → ℕ
choose_cie cies encoding =
    let index = bit_and encoding 0x30000000 / 2 ^ 28 in
    if ltb 0 index && ltb index (length cies) then get_or cies index 0 else get_or cies 0 0

-- The record of an entry.
unfoldable pub emit_entry : ℕ → List ℕ → Function → List ℕ → List ℕ
emit_entry base cies e buf =
    let cie = choose_cie cies e.encoding in
    let address = address_of base e in
    let lsda = lsda_of base e in
    if mode_of e.encoding == 0x04000000
    then emit_fde_frame cie address e.func_size e.encoding lsda buf
    else if mode_of e.encoding == 0x02000000
    then emit_fde_frameless cie address e.func_size e.encoding lsda buf
    else emit_fde_minimal cie address e.func_size lsda buf

-- The loop over the functions.
unfoldable pub emit_entries : ℕ → List ℕ → List Function → List ℕ → List ℕ
emit_entries base cies [] buf = buf
emit_entries base cies (e ∷ entries) buf =
    emit_entries base cies entries
      (if is_skipped e.encoding then buf else emit_entry base cies e buf)

-- The CIEs of the personalities, four at most, and their offsets in order.
unfoldable pub emit_cies : List ℕ → List ℕ → List ℕ × List ℕ
emit_cies [] buf = (buf, [])
emit_cies (p ∷ personalities) buf =
    let rest = emit_cies personalities (emit_cie p buf) in (rest.0, length buf ∷ rest.1)

-- `ehf_capacity`
abbrev pub capacity_for : ℕ → ℕ
capacity_for count = count * 80 + 4096

-- The whole synthetic section; the CIE without a personality comes first.
unfoldable pub build : ℕ → List ℕ → List Function → List ℕ
unfolding emit_cies emit_entries
build base personalities entries =
    let cies = emit_cies (0 ∷ personalities) [] in
    emit_entries base cies.1 entries cies.0 ++ ehf_uint 4 0

-- The loop that collects the synthetic FDEs on fuel; `at` is the address of the buffer.
unfoldable pub walk_records : ℕ → ℕ → List ℕ → ℕ → List HdrEntry
walk_records zero at buf position = []
walk_records (suc fuel) at buf position =
    let size = read_uint 4 (from position buf) in
    let rest = walk_records fuel at buf (position + 4 + size) in
    if ltb (position + 4) (length buf)
    then (if size == 0
        then []
        else if read_uint 4 (from (position + 4) buf) == 0
        then rest
        else record {
          initial_location = read_uint 8 (from (position + 8) buf);
          fde_ptr = at + position;
        }
          ∷ rest)
    else []

-- `cmp_hdr_entry`
unfoldable pub cmp_hdr_entry : HdrEntry → HdrEntry → ℤ
cmp_hdr_entry a b =
    if ltb a.initial_location b.initial_location
    then negsuc 0
    else if ltb b.initial_location a.initial_location
    then pos 1
    else pos 0

unfoldable pub table_bytes : List HdrEntry → List ℕ
table_bytes [] = []
table_bytes (e ∷ es) = ehf_uint 8 e.initial_location ++ (ehf_uint 8 e.fde_ptr ++ table_bytes es)

-- The bytes of `.eh_frame_hdr`, by what qsort makes of the entries.
unfoldable pub eh_frame_hdr :
    ((HdrEntry → HdrEntry → ℤ) → List HdrEntry → List HdrEntry)
    → ℕ
    → List HdrEntry
    → List HdrEntry
    → List ℕ
unfolding table_bytes cmp_hdr_entry
eh_frame_hdr qsort at synthetic native =
    let all = synthetic ++ native in
    1
    ∷ 0
    ∷ 0
    ∷ 0
    ∷ (ehf_uint 8 at ++ (ehf_uint 8 (length all) ++ table_bytes (qsort cmp_hdr_entry all)))
