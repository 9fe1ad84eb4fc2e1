-- ===== src/EhFrame/Whole.antt =====
-- The table of `.eh_frame_hdr` that src/eh_frame.c collects from the section that it has built.
use mathlib.Core.List.{append_assoc, append-nil}
use machismo_sword.Base.{
  ℕ, suc, ◌+◌, ◌-◌, ◌*◌, ◌^◌, ◌≤◌, ◌<◌, ◌≡◌, ap, ◌∙◌, subst, inl, inr, List, [], ◌∷◌, ◌++◌, length,
  length-append, arith, Bool-cases,
}
use machismo_sword.EhFrame.{ehf_uint}
use machismo_sword.EhFrame.Emit.{emit_cie}
use machismo_sword.EhFrame.Records.{length-ehf_uint}
use machismo_sword.EhFrame.Register.{
  Function, HdrEntry, is_skipped, address_of, lsda_of, choose_cie, emit_entry, emit_entries,
  emit_cies, build, walk_records,
}
use machismo_sword.EhFrame.Build.{
  Walks, Walks-cie, Walks-fde, emit_entry_lem, length-emit_entry, length-emit_cie, Below,
  Below-mono, choose_cie-Below, placed,
}

Walks-nil : (at : ℕ) → Walks at [] 0 []
unfolding Walks
Walks-nil at fuel m tail e =
    let same : m ≡ fuel = omega arith in ap (λ k. walk_records k at tail 0) same

-- The entries up to here, and those that follow.
abbrev Grown : ℕ → ℕ → ℕ → List HdrEntry → List ℕ → Type 0
Grown at rounds most es buf = (n : ℕ) × (n ≤ rounds + most) × Walks at buf n es

Walks-entries :
    (at rounds base : ℕ) (cies : List ℕ) (entries : List Function) (buf : List ℕ)
    (es : List HdrEntry)
    → Below (length buf) cies
    → length buf + 92 * length entries + 4 < 2 ^ 32
    → Walks at buf rounds es
    → Grown at rounds
        (length entries)
        (es ++ placed at base cies entries buf)
        (emit_entries base cies entries buf)
unfolding emit_entries placed
Walks-entries at rounds base cies [] buf es below room walks =
    (rounds, omega arith, rw (append-nil es) walks)
Walks-entries at rounds base cies (e ∷ entries) buf es below room walks =
    elim (Bool-cases (is_skipped e.encoding)) [
      | inl skip ↦
          let (n, le, w) =
            Walks-entries at rounds base cies entries buf es below (omega arith) walks in
          rw skip (n, omega arith, w)
      | inr emit ↦
          let (cfi, short, run) = emit_entry_lem base cies e buf in
          let (longer, most) = length-emit_entry base cies e buf in
          let entry : HdrEntry = record {
            initial_location = address_of base e;
            fde_ptr = at + length buf;
          } in
          let w =
            Walks-fde at rounds (choose_cie cies e.encoding) (address_of base e) e.func_size
              (lsda_of base e) cfi buf es short
              (choose_cie-Below (length buf) cies e.encoding below) (omega arith) (omega arith)
              walks in
          let (n, le, w') =
            Walks-entries at (suc rounds) base cies entries (emit_entry base cies e buf)
              (es ++ (entry ∷ []))
              (Below-mono (length buf) (length (emit_entry base cies e buf)) cies longer below)
              (omega arith) (rw run w) in
          rw emit (
            n,
            omega arith,
            rw
                (append_assoc es (entry ∷ [])
                  (placed at base cies entries (emit_entry base cies e buf)))
                at w',
          )
    ]

Walks-cies :
    (at rounds : ℕ) (personalities buf : List ℕ)
    → Walks at buf rounds []
    → let r = emit_cies personalities buf in
      Walks at r.0 (rounds + length personalities) []
      × Below (length r.0) r.1
      × (length buf ≤ length r.0)
      × (length r.0 ≤ length buf + 39 * length personalities)
unfolding emit_cies
Walks-cies at rounds [] buf walks =
    (subst (λ n. Walks at buf n []) (omega arith) walks, tt, omega arith, omega arith)
Walks-cies at rounds (p ∷ personalities) buf walks =
    let (longer, most) = length-emit_cie p buf in
    let (w, below, grown, size) =
      Walks-cies at (suc rounds) personalities (emit_cie p buf)
        (Walks-cie at rounds p buf [] walks) in
    (
      subst (λ n. Walks at (emit_cies personalities (emit_cie p buf)).0 n []) (omega arith) w,
      (omega arith, below),
      omega arith,
      omega arith,
    )

-- Behind the last record the walk ends.
walk_end :
    (at fuel : ℕ) (buf : List ℕ)
    → walk_records (suc fuel) at (buf ++ ehf_uint 4 0) (length buf) ≡ []
unfolding walk_records
walk_end at fuel buf =
    let total = length-append buf (ehf_uint 4 0) in let four = length-ehf_uint 4 0 in ground arith

walk_whole :
    (at rounds fuel : ℕ) (buf : List ℕ) (es : List HdrEntry)
    → Walks at buf rounds es
    → rounds < fuel
    → walk_records fuel at (buf ++ ehf_uint 4 0) 0 ≡ es
unfolding Walks
walk_whole at rounds fuel buf es walks enough =
    let left : ℕ = fuel - rounds - 1 in
    walks (suc left) fuel (ehf_uint 4 0) (omega arith)
    ∙ ap (◌++◌ es) (walk_end at left buf)
    ∙ append-nil es

-- For fewer than 2^25 personalities and functions together and more fuel than one above both, the
-- walk over the section that was built gives, in order, the address and the record's address of
-- each function that has a record, and nothing else.
pub walk_records-build :
    (at base : ℕ) (personalities : List ℕ) (entries : List Function) (fuel : ℕ)
    → length personalities + length entries < 2 ^ 25
    → 1 + length personalities + length entries < fuel
    → let cies = emit_cies (0 ∷ personalities) [] in
      walk_records fuel at (build base personalities entries) 0
      ≡ placed at base cies.1 entries cies.0
unfolding build
walk_records-build at base personalities entries fuel small enough =
    let cies = emit_cies (0 ∷ personalities) [] in
    let (w, below, grown, size) = Walks-cies at 0 (0 ∷ personalities) [] (Walks-nil at) in
    let (n, le, walks) =
      Walks-entries at (0 + length (0 ∷ personalities)) base cies.1 entries cies.0 [] below
        (omega arith) w in
    walk_whole at n fuel (emit_entries base cies.1 entries cies.0)
      (placed at base cies.1 entries cies.0) walks (omega arith)
