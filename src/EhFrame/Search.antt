-- ===== src/EhFrame/Search.antt =====
-- The search for an LSDA in `collect_entries` of src/eh_frame.c.
use machismo_sword.Base.{
  ℕ, zero, suc, ◌+◌, ◌-◌, ◌*◌, ◌/◌, ◌≤◌, ◌<◌, ◌≡◌, refl, ap, inl, inr, false, ltb, ◌==◌, arith,
  Bool-cases,
}
use machismo_sword.ItemMenu.Memory.{Bytes, read_u32}
use machismo_sword.EhFrame.Collect.{search_lsda}

module _ (m : Bytes) (start : ℕ) where
  -- The function of a position of the index, and its LSDA.
  abbrev pub function_at : ℕ → ℕ
  function_at i = read_u32 m (start + 8 * i)

  abbrev pub lsda_at : ℕ → ℕ
  lsda_at i = read_u32 m (start + 8 * i + 4)

  module _ (count : ℕ)
      (ascending : (i j : ℕ) → i < j → j < count → function_at i < function_at j) where
    search_from :
        (fuel lo end i : ℕ)
        → end ≤ lo + fuel
        → end ≤ count
        → lo ≤ i
        → i < end
        → search_lsda m start (function_at i) fuel lo end ≡ lsda_at i
    unfolding search_lsda
    search_from zero lo end i enough inside low high = absurd (omega arith)
    search_from (suc fuel) lo end i enough inside low high =
        let mid : ℕ = (lo + (end - 1)) / 2 in
        let order = ascending i mid in
        let order' = ascending mid i in
        elim (Bool-cases (ltb i mid)) [
          | inl left ↦
              let below : function_at i < function_at mid = order (ground arith) (omega arith) in
              let rest : search_lsda m start (function_at i) fuel lo mid ≡ lsda_at i =
                search_from fuel lo mid i (omega arith) (omega arith) low (ground arith) in
              ground arith
          | inr not_left ↦ elim (Bool-cases (ltb mid i)) [
            | inl right ↦
                let above : function_at mid < function_at i = order' (ground arith) (omega arith) in
                let rest : search_lsda m start (function_at i) fuel (mid + 1) end ≡ lsda_at i =
                  search_from fuel (mid + 1) end i (omega arith) inside (ground arith) high in
                ground arith
            | inr not_right ↦
                let here : mid ≡ i = ground arith in
                let same : function_at mid ≡ function_at i = ap function_at here in
                let found : lsda_at mid ≡ lsda_at i = ap lsda_at here in ground arith
          ]
        ]

    -- In an LSDA index whose functions ascend, the search from the whole range finds the LSDA of
    -- every position.
    pub search_lsda-finds :
        (i : ℕ) → i < count → search_lsda m start (function_at i) (count + 1) 0 count ≡ lsda_at i
    search_lsda-finds i inside =
        search_from (count + 1) 0 count i (omega arith) (omega arith) (omega arith) inside

  -- The search in a range that does not have the function gives 0.
  pub search_lsda-misses :
      (fuel lo end func_offset : ℕ)
      → ((i : ℕ) → lo ≤ i → i < end → (function_at i == func_offset) ≡ false)
      → search_lsda m start func_offset fuel lo end ≡ 0
  unfolding search_lsda
  search_lsda-misses zero lo end func_offset absent = refl
  search_lsda-misses (suc fuel) lo end func_offset absent =
      let mid : ℕ = (lo + (end - 1)) / 2 in
      elim (Bool-cases (ltb lo end)) [
        | inr over ↦ rw over refl
        | inl left ↦
            let in_range : (lo ≤ mid) × (mid < end) = ground arith in
            let other = absent mid in_range.0 in_range.1 in
            let up =
              search_lsda-misses fuel (mid + 1) end func_offset
                (λ i h l. absent i (omega arith) l) in
            let down =
              search_lsda-misses fuel lo mid func_offset (λ i h l. absent i h (omega arith)) in
            ground arith
      ]
