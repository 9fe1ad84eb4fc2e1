-- ===== src/EhFrame/Native/Ends.antt =====
-- The loop of `parse_native_eh_frame_fdes` in src/eh_frame.c comes to an end.
use machismo_sword.Base.{
  ℕ, zero, suc, ◌+◌, ◌^◌, ◌≤◌, ◌<◌, ◌≡◌, refl, inl, inr, true, Option, none, some, Option-cases,
  List, [], ◌∷◌, length, ltb, ◌==◌, arith, Bool-cases,
}
use machismo_sword.EhFrame.Register.{HdrEntry}
use machismo_sword.EhFrame.Native.{field, native_entry, with_entry, record_bounds, parse_native}

module _ (at : ℕ) (deref : ℕ → ℕ) (eh : List ℕ) where
  with_entry-some :
      (e : Option HdrEntry) (rest : Option (List HdrEntry))
      → (es : List HdrEntry) × (rest ≡ some es)
      → (es : List HdrEntry) × (with_entry at deref eh e rest ≡ some es)
  with_entry-some none rest h = h
  with_entry-some (some e) none (es, h) = cc
  with_entry-some (some e) (some es') (es, h) = (e ∷ es', refl)

  -- A 64-bit size at a position does not wrap the end around.
  abbrev pub Plain : ℕ → Type 0
  Plain position =
      (field 4 position eh == 0xFFFFFFFF) ≡ true
      → position + 12 + field 8 (position + 4) eh < 2 ^ 64

  record_bounds-forward :
      (position data_start data_end : ℕ)
      → Plain position
      → record_bounds at deref eh position ≡ some (data_start, data_end)
      → (position < data_end) × (data_end ≤ length eh)
  unfolding record_bounds
  record_bounds-forward position data_start data_end plain h =
      elim (Bool-cases (field 4 position eh == 0xFFFFFFFF)) [
        | inl extended ↦ let fits = plain extended in ground arith
        | inr short ↦ ground arith
      ]

  -- For a section in which no size field of 64 bits wraps the end of its record around: with fuel
  -- that reaches past the end of the section, the loop of parse_native_eh_frame_fdes comes to an
  -- end.
  pub parse_native_ends :
      ((position : ℕ) → Plain position)
      → (fuel position : ℕ) → 0 < fuel
      → length eh < position + fuel
      → (es : List HdrEntry) × (parse_native at deref eh fuel position ≡ some es)
  unfolding parse_native
  parse_native_ends plain zero position positive enough = absurd (omega arith)
  parse_native_ends plain (suc fuel) position positive enough =
      elim (Bool-cases (ltb (length eh) (position + 4))) [
        | inl over ↦ rw (over, parse_native) ([], refl)
        | inr inside ↦ elim (Option-cases (record_bounds at deref eh position)) [
          | inl stop ↦ rw (inside, stop, parse_native) ([], refl)
          | inr ((data_start, data_end), bounds) ↦
              let (forward, within) =
                record_bounds-forward position data_start data_end (plain position) bounds in
              rw (inside, bounds, parse_native)
                (with_entry-some (native_entry at deref eh position data_start data_end)
                  (parse_native at deref eh fuel data_end)
                  (parse_native_ends plain fuel data_end (omega arith) (omega arith)))
        ]
      ]
