-- ===== src/EhFrame/Build.antt =====
-- The synthetic section of src/eh_frame.c as a whole: the table that is collected from it.
use mathlib.Core.List.{append_assoc, append-nil}
use machismo_sword.Base.{
  ℕ, zero, suc, ◌+◌, ◌-◌, ◌/◌, ◌^◌, ◌≤◌, ◌<◌, ◌≡◌, refl, ap, ◌∙◌, inl, inr, not, bit_and, List, [],
  ◌∷◌, ◌++◌, length, length-append, get_or, ◌==◌, if◌then◌else◌, arith, Bool-cases,
}
use machismo_sword.EhFrame.{ehf_uint, uleb128_from, sleb128_from, ehf_uleb128}
use machismo_sword.EhFrame.Emit.{
  cie_body, emit_cie, fde_head, frame_cfi, frameless_cfi, emit_fde, dw_cfa_def_cfa, reg_sp,
}
use machismo_sword.EhFrame.Records.{
  length-ehf_uint, padded, record_of, close_record_lem, length-padded,
}
use machismo_sword.EhFrame.Sizes.{length-frame_cfi, length-frameless_cfi, length-fde_head}
use machismo_sword.EhFrame.Register.{
  Function, HdrEntry, is_skipped, address_of, lsda_of, mode_of, choose_cie, emit_entry,
  walk_records,
}
use machismo_sword.EhFrame.Table.{walk_cie, walk_fde}

pub emit_fde_lem :
    (cfi : List ℕ) (cie func_addr func_size lsda : ℕ) (buf : List ℕ)
    → emit_fde cfi cie func_addr func_size lsda buf
      ≡ buf ++ record_of buf (fde_head (length buf + 4) cie func_addr func_size lsda ++ cfi)
unfolding emit_fde
emit_fde_lem cfi cie func_addr func_size lsda buf = close_record_lem buf _

-- What stands in a CIE behind its id.
abbrev pub cie_rest : ℕ → List ℕ
cie_rest personality =
    1 ∷ (cie_body personality ++ (dw_cfa_def_cfa ∷ (ehf_uleb128 reg_sp ++ ehf_uleb128 0)))

pub emit_cie_lem :
    (personality : ℕ) (buf : List ℕ)
    → emit_cie personality buf ≡ buf ++ record_of buf (ehf_uint 4 0 ++ cie_rest personality)
unfolding emit_cie
emit_cie_lem personality buf = close_record_lem buf _

pub length-cie_rest : (personality : ℕ) → length (cie_rest personality) ≤ 24
unfolding uleb128_from sleb128_from ehf_uint
length-cie_rest personality = ground arith

-- The walk over a section that starts with `buf` meets its records in `rounds` rounds and collects
-- these entries.
unfoldable pub Walks : ℕ → List ℕ → ℕ → List HdrEntry → Type 0
Walks at buf rounds es =
    (fuel m : ℕ) (tail : List ℕ)
    → m ≡ rounds + fuel
    → walk_records m at (buf ++ tail) 0 ≡ es ++ walk_records fuel at (buf ++ tail) (length buf)

Walks-next :
    (at rounds : ℕ) (buf r : List ℕ) (es ds : List HdrEntry)
    → Walks at buf rounds es
    → ((fuel : ℕ) (tail : List ℕ)
        → walk_records (suc fuel) at (buf ++ (r ++ tail)) (length buf)
          ≡ ds ++ walk_records fuel at (buf ++ (r ++ tail)) (length buf + length r))
    → Walks at (buf ++ r) (suc rounds) (es ++ ds)
unfolding Walks
Walks-next at rounds buf r es ds walks step fuel m tail e =
    rw
      (
        append_assoc buf r tail,
        length-append buf r,
        append_assoc es ds (walk_records fuel at (buf ++ (r ++ tail)) (length buf + length r)),
      )
      (walks (suc fuel) m (r ++ tail) (omega arith) ∙ ap (◌++◌ es) (step fuel tail))

pub Walks-cie :
    (at rounds personality : ℕ) (buf : List ℕ) (es : List HdrEntry)
    → Walks at buf rounds es
    → Walks at (emit_cie personality buf) (suc rounds) es
Walks-cie at rounds personality buf es walks =
    let rest = cie_rest personality in
    let content = ehf_uint 4 0 ++ rest in
    let small : length (padded buf content) < 2 ^ 32 = omega (
      arith,
      length-padded buf content,
      length-append (ehf_uint 4 0) rest,
      length-ehf_uint 4 0,
      length-cie_rest personality,
    ) in
    rw (emit_cie_lem personality buf, ← append-nil es)
      (Walks-next at rounds buf (record_of buf content) es [] walks
        (λ fuel tail. walk_cie at buf rest tail 0 fuel small refl))

-- The fields of an FDE behind the address.
abbrev fde_rest : ℕ → ℕ → List ℕ
fde_rest func_size lsda =
    ehf_uint 8 func_size
    ++ (if not (lsda == 0) then ehf_uleb128 8 ++ ehf_uint 8 lsda else ehf_uleb128 0)

pub Walks-fde :
    (at rounds cie address func_size lsda : ℕ) (cfi buf : List ℕ) (es : List HdrEntry)
    → length cfi ≤ 52
    → cie ≤ length buf
    → length buf + 4 < 2 ^ 32
    → address < 2 ^ 64
    → Walks at buf rounds es
    → Walks at
        (emit_fde cfi cie address func_size lsda buf)
        (suc rounds)
        (es ++ (record { initial_location = address; fde_ptr = at + length buf } ∷ []))
Walks-fde at rounds cie address func_size lsda cfi buf es short below room address_small walks =
    let id = length buf + 4 - cie in
    let more = fde_rest func_size lsda in
    let rest = (ehf_uint 8 address ++ more) ++ cfi in
    let content = ehf_uint 4 id ++ rest in
    let split : fde_head (length buf + 4) cie address func_size lsda ++ cfi ≡ content =
      append_assoc (ehf_uint 4 id) (ehf_uint 8 address ++ more) cfi in
    let small : length (padded buf content) < 2 ^ 32 = omega (
      arith,
      length-padded buf content,
      ap length split,
      length-append (fde_head (length buf + 4) cie address func_size lsda) cfi,
      length-fde_head (length buf + 4) cie address func_size lsda,
    ) in
    rw (emit_fde_lem cfi cie address func_size lsda buf, split)
      (Walks-next at rounds buf (record_of buf content) es _ walks (λ fuel tail.
        walk_fde at buf rest tail id fuel address (more ++ cfi) small (omega arith) (omega arith)
          address_small (append_assoc (ehf_uint 8 address) more cfi)))

-- The emitters differ in the instructions only.
pub emit_entry_lem :
    (base : ℕ) (cies : List ℕ) (e : Function) (buf : List ℕ)
    → (cfi : List ℕ) × (length cfi ≤ 52)
      × (emit_entry base cies e buf
          ≡ emit_fde cfi
              (choose_cie cies e.encoding)
              (address_of base e)
              e.func_size
              (lsda_of base e)
              buf)
unfolding emit_entry
emit_entry_lem base cies e buf = elim (Bool-cases (mode_of e.encoding == 0x04000000)) [
  | inl frame ↦ (frame_cfi e.encoding, length-frame_cfi e.encoding, rw frame refl)
  | inr other ↦ elim (Bool-cases (mode_of e.encoding == 0x02000000)) [
    | inl frameless ↦
        (frameless_cfi e.encoding, length-frameless_cfi e.encoding, rw (other, frameless) refl)
    | inr minimal ↦ ([], omega arith, rw (other, minimal) refl)
  ]
]

pub length-emit_entry :
    (base : ℕ) (cies : List ℕ) (e : Function) (buf : List ℕ)
    → (length buf ≤ length (emit_entry base cies e buf))
      × (length (emit_entry base cies e buf) ≤ length buf + 92)
length-emit_entry base cies e buf =
    let (cfi, short, run) = emit_entry_lem base cies e buf in
    let cie = choose_cie cies e.encoding in
    let head = fde_head (length buf + 4) cie (address_of base e) e.func_size (lsda_of base e) in
    let total : length (emit_entry base cies e buf)
        ≡ length buf + length (record_of buf (head ++ cfi)) =
      ap length (run ∙ emit_fde_lem cfi cie (address_of base e) e.func_size (lsda_of base e) buf)
      ∙ length-append buf (record_of buf (head ++ cfi)) in
    let fields =
      length-append (ehf_uint 4 (length (padded buf (head ++ cfi)))) (padded buf (head ++ cfi)) in
    let all = length-append head cfi in
    let front = length-ehf_uint 4 (length (padded buf (head ++ cfi))) in
    let pad = length-padded buf (head ++ cfi) in
    let size =
      length-fde_head (length buf + 4) cie (address_of base e) e.func_size (lsda_of base e) in
    (omega arith, omega arith)

-- Offsets of CIEs below a position.
abbrev pub Below : ℕ → List ℕ → Type 0
Below n [] = Unit {0}
Below n (c ∷ cies) = (c ≤ n) × Below n cies

pub Below-mono : (n m : ℕ) (cies : List ℕ) → n ≤ m → Below n cies → Below m cies
Below-mono n m [] le h = tt
Below-mono n m (c ∷ cies) le (h, hs) = (omega arith, Below-mono n m cies le hs)

get_or-Below : (n : ℕ) (cies : List ℕ) (i : ℕ) → Below n cies → get_or cies i 0 ≤ n
get_or-Below n [] i h = omega arith
get_or-Below n (c ∷ cies) zero (h, hs) = h
get_or-Below n (c ∷ cies) (suc i) (h, hs) = get_or-Below n cies i hs

pub choose_cie-Below :
    (n : ℕ) (cies : List ℕ) (encoding : ℕ) → Below n cies → choose_cie cies encoding ≤ n
unfolding choose_cie
choose_cie-Below n cies encoding h =
    ground
      (arith, get_or-Below n cies (bit_and encoding 0x30000000 / 2 ^ 28) h, get_or-Below n cies 0 h)

-- The functions that get a record, with their addresses and the places of their records.
unfoldable pub placed : ℕ → ℕ → List ℕ → List Function → List ℕ → List HdrEntry
placed at base cies [] buf = []
placed at base cies (e ∷ entries) buf =
    if is_skipped e.encoding
    then placed at base cies entries buf
    else record { initial_location = address_of base e; fde_ptr = at + length buf }
      ∷ placed at base cies entries (emit_entry base cies e buf)

pub length-emit_cie :
    (personality : ℕ) (buf : List ℕ)
    → (length buf ≤ length (emit_cie personality buf))
      × (length (emit_cie personality buf) ≤ length buf + 39)
length-emit_cie personality buf =
    let content = ehf_uint 4 0 ++ cie_rest personality in
    let total : length (emit_cie personality buf) ≡ length buf + length (record_of buf content) =
      ap length (emit_cie_lem personality buf) ∙ length-append buf (record_of buf content) in
    let fields = length-append (ehf_uint 4 (length (padded buf content))) (padded buf content) in
    let front = length-ehf_uint 4 (length (padded buf content)) in
    let pad = length-padded buf content in
    let all = length-append (ehf_uint 4 0) (cie_rest personality) in
    let id = length-ehf_uint 4 0 in
    let rest = length-cie_rest personality in (omega arith, omega arith)
