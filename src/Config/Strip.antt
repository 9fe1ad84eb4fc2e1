-- ===== src/Config/Strip.antt =====
-- `strip` of config.c cuts off the spaces on both sides and nothing else.
use machismo_sword.Base.{
  ℕ, ◌≡◌, refl, ap, ◌∙◌, true, false, [], ◌∷◌, ◌++◌, Bool-cases, inl, inr, if◌then◌else◌,
}
use machismo_sword.Config.{Text, is_space, skip_spaces, drop_end, strip}

abbrev pub AllSpace : Text → Type 0
AllSpace [] = Unit {0}
AllSpace (c ∷ s) = (is_space c ≡ true) × AllSpace s

-- A text that does not start with a space, and one that does not end with one.
abbrev pub StartsFull : Text → Type 0
StartsFull [] = Unit {0}
StartsFull (c ∷ s) = is_space c ≡ false

abbrev pub EndsFull : Text → Type 0
EndsFull [] = Unit {0}
EndsFull (c ∷ []) = is_space c ≡ false
EndsFull (c ∷ d ∷ s) = EndsFull (d ∷ s)

abbrev Skipped : Text → Text → Type 0
Skipped s rest = (lead : Text) × AllSpace lead × (s ≡ lead ++ rest) × StartsFull rest

skip_spaces_lem : (s : Text) → Skipped s (skip_spaces s)
unfolding skip_spaces
skip_spaces_lem [] = ([], tt, refl, tt)
skip_spaces_lem (c ∷ s) =
    let (lead, spaces, split, full) = skip_spaces_lem s in
    elim (Bool-cases (is_space c)) [
      | inl e ↦ rw e (c ∷ lead, (e, spaces), ap (◌∷◌ c) split, full)
      | inr e ↦ rw e ([], tt, refl, e)
    ]

-- One byte in front of a text whose end is dropped.
abbrev cons_kept : ℕ → Text → Text
cons_kept c rest = elim rest [ [] ↦ if is_space c then [] else c ∷ [] | d ∷ t ↦ c ∷ d ∷ t ]

abbrev Dropped : Text → Text → Type 0
Dropped s kept =
    (trail : Text) × AllSpace trail
    × (s ≡ kept ++ trail)
    × EndsFull kept
    × (StartsFull s → StartsFull kept)

cons_kept_lem : (c : ℕ) (s rest : Text) → Dropped s rest → Dropped (c ∷ s) (cons_kept c rest)
cons_kept_lem c s [] (trail, spaces, split, full, starts) = elim (Bool-cases (is_space c)) [
  | inl e ↦ rw e (c ∷ trail, (e, spaces), ap (◌∷◌ c) split, tt, λ x. tt)
  | inr e ↦ rw e (trail, spaces, ap (◌∷◌ c) split, e, λ x. e)
]
cons_kept_lem c s (d ∷ t) (trail, spaces, split, full, starts) =
    (trail, spaces, ap (◌∷◌ c) split, full, λ x. x)

drop_end_lem : (s : Text) → Dropped s (drop_end s)
unfolding drop_end
drop_end_lem [] = ([], tt, refl, tt, λ x. tt)
drop_end_lem (c ∷ s) = cons_kept_lem c s (drop_end s) (drop_end_lem s)

-- A text is its stripped text with spaces on both sides, and the stripped text neither starts nor
-- ends with a space.
pub strip_lem :
    (s : Text)
    → (lead : Text) × (trail : Text) × AllSpace lead
      × AllSpace trail
      × (s ≡ lead ++ (strip s ++ trail))
      × StartsFull (strip s)
      × EndsFull (strip s)
unfolding strip
strip_lem s =
    let (lead, spaces, split, full) = skip_spaces_lem s in
    let (trail, spaces', split', ends, starts) = drop_end_lem (skip_spaces s) in
    (lead, trail, spaces, spaces', split ∙ ap (◌++◌ lead) split', starts full, ends)
