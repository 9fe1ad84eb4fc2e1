-- ===== src/EhFrame/Capacity.antt =====
-- The buffer that src/eh_frame.c maps for its synthetic section.
use machismo_sword.Base.{
  ℕ, ◌+◌, ◌*◌, ◌%◌, ◌≤◌, ◌≡◌, refl, ap, ◌∙◌, inl, inr, List, [], ◌∷◌, ◌++◌, length, length-append,
  arith, Bool-cases,
}
use machismo_sword.EhFrame.{ehf_uint}
use machismo_sword.EhFrame.Emit.{emit_cie, fde_head}
use machismo_sword.EhFrame.Records.{length-ehf_uint, length-record_of, record_of}
use machismo_sword.EhFrame.Sizes.{length-fde_head}
use machismo_sword.EhFrame.Register.{
  Function, is_skipped, address_of, lsda_of, choose_cie, emit_entry, emit_entries, emit_cies, build,
  capacity_for,
}
use machismo_sword.EhFrame.Build.{
  emit_entry_lem, emit_fde_lem, emit_cie_lem, cie_rest, length-cie_rest,
}

-- A step keeps the alignment to 8 and adds at most so many bytes.
abbrev Adds : ℕ → List ℕ → List ℕ → Type 0
Adds most buf buf' = (length buf' % 8 ≡ 0) × (length buf' ≤ length buf + most)

emit_cie-Adds :
    (personality : ℕ) (buf : List ℕ) → length buf % 8 ≡ 0 → Adds 32 buf (emit_cie personality buf)
emit_cie-Adds personality buf aligned =
    let content = ehf_uint 4 0 ++ cie_rest personality in
    let total : length (emit_cie personality buf) ≡ length buf + length (record_of buf content) =
      ap length (emit_cie_lem personality buf) ∙ length-append buf (record_of buf content) in
    let (most, whole) = length-record_of buf content aligned in
    let all = length-append (ehf_uint 4 0) (cie_rest personality) in
    let id = length-ehf_uint 4 0 in
    let rest = length-cie_rest personality in (omega arith, omega arith)

emit_entry-Adds :
    (base : ℕ) (cies : List ℕ) (e : Function) (buf : List ℕ)
    → length buf % 8 ≡ 0
    → Adds 88 buf (emit_entry base cies e buf)
emit_entry-Adds base cies e buf aligned =
    let (cfi, short, run) = emit_entry_lem base cies e buf in
    let cie = choose_cie cies e.encoding in
    let head = fde_head (length buf + 4) cie (address_of base e) e.func_size (lsda_of base e) in
    let total : length (emit_entry base cies e buf)
        ≡ length buf + length (record_of buf (head ++ cfi)) =
      ap length (run ∙ emit_fde_lem cfi cie (address_of base e) e.func_size (lsda_of base e) buf)
      ∙ length-append buf (record_of buf (head ++ cfi)) in
    let (most, whole) = length-record_of buf (head ++ cfi) aligned in
    let all = length-append head cfi in
    let size =
      length-fde_head (length buf + 4) cie (address_of base e) e.func_size (lsda_of base e) in
    (omega arith, omega arith)

emit_entries-Adds :
    (base : ℕ) (cies : List ℕ) (entries : List Function) (buf : List ℕ)
    → length buf % 8 ≡ 0
    → Adds (88 * length entries) buf (emit_entries base cies entries buf)
unfolding emit_entries
emit_entries-Adds base cies [] buf aligned = (aligned, omega arith)
emit_entries-Adds base cies (e ∷ entries) buf aligned = elim (Bool-cases (is_skipped e.encoding)) [
  | inl skip ↦
      let (whole, most) = emit_entries-Adds base cies entries buf aligned in
      rw skip (whole, omega arith)
  | inr emit ↦
      let (aligned', first) = emit_entry-Adds base cies e buf aligned in
      let (whole, most) =
        emit_entries-Adds base cies entries (emit_entry base cies e buf) aligned' in
      rw emit (whole, omega arith)
]

emit_cies-Adds :
    (personalities buf : List ℕ)
    → length buf % 8 ≡ 0
    → Adds (32 * length personalities) buf (emit_cies personalities buf).0
unfolding emit_cies
emit_cies-Adds [] buf aligned = (aligned, omega arith)
emit_cies-Adds (p ∷ personalities) buf aligned =
    let (aligned', first) = emit_cie-Adds p buf aligned in
    let (whole, most) = emit_cies-Adds personalities (emit_cie p buf) aligned' in
    (whole, omega arith)

length-build :
    (base : ℕ) (personalities : List ℕ) (entries : List Function)
    → length (build base personalities entries)
      ≤ 32 * (1 + length personalities) + 88 * length entries + 4
unfolding build
length-build base personalities entries =
    let cies = emit_cies (0 ∷ personalities) [] in
    let (aligned, most) = emit_cies-Adds (0 ∷ personalities) [] refl in
    let (whole, all) = emit_entries-Adds base cies.1 entries cies.0 aligned in
    omega (
      arith,
      length-append (emit_entries base cies.1 entries cies.0) (ehf_uint 4 0),
      length-ehf_uint 4 0,
    )

-- For at most four personalities and at most 491 functions, of any encoding and with an LSDA or
-- not, the section that is built fits the buffer.
pub length-build-capacity_for :
    (base : ℕ) (personalities : List ℕ) (entries : List Function)
    → length personalities ≤ 4
    → length entries ≤ 491
    → length (build base personalities entries) ≤ capacity_for (length entries)
length-build-capacity_for base personalities entries few small =
    omega (arith, length-build base personalities entries)
