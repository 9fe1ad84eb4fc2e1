-- ===== src/Paths/Join.antt =====
-- `join_relative` of paths.c: the joined path stays under its root.
use mathlib.Core.List.{reverse, reverse_aux, reverse_aux-eq, reverse-append, reverse-reverse}
use machismo_sword.Base.{
  ℕ, Bool, ◌≡◌, refl, sym, ap, ◌∙◌, inl, inr, false, List, [], ◌∷◌, ◌++◌, if◌then◌else◌, some,
  arith, Bool-cases,
}
use machismo_sword.Config.{Text}
use machismo_sword.Paths.{
  ok, is_dot, is_dot_dot, nonempty, segments, tokens, add_part, add_parts, join_part, join_parts,
  climbs, normalize_absolute, join_relative,
}
use machismo_sword.Paths.Parts.{
  IsPart, IsName, Each, render, resolve_parts, resolve_parts-IsName, add_parts-render,
  tokens-IsPart,
}
use machismo_sword.Paths.Normalize.{
  absolute, normal, render-absolute, Each-IsPart, normalize_absolute_lem,
}

-- The parts that are not ".".
abbrev pub without_dots : List Text → List Text
without_dots [] = []
without_dots (p ∷ ps) = if is_dot p then without_dots ps else p ∷ without_dots ps

-- Apart from "..", the two loops add the same.
join_part_lem : (joined p : Text) → is_dot_dot p ≡ false → join_part joined p ≡ add_part joined p
unfolding join_part add_part
join_part_lem joined p h = ground arith

join_part_empty : (joined : Text) → join_part joined [] ≡ joined
unfolding join_part
join_part_empty joined = refl

climbs_cons :
    (p : Text) (ps : List Text)
    → climbs (p ∷ ps) ≡ false
    → (is_dot_dot p ≡ false) × (climbs ps ≡ false)
unfolding climbs
climbs_cons p ps h = ground arith

join_parts_lem :
    (joined : Text) (ps : List Text)
    → climbs ps ≡ false
    → join_parts joined ps ≡ add_parts joined (nonempty ps)
unfolding join_parts add_parts climbs
join_parts_lem joined [] h = refl
join_parts_lem joined ([] ∷ ps) h =
    rw (join_part_empty joined) (join_parts_lem joined ps (climbs_cons [] ps h).1)
join_parts_lem joined ((c ∷ p) ∷ ps) h =
    let (here, rest) = climbs_cons (c ∷ p) ps h in
    rw (join_part_lem joined (c ∷ p) here) (join_parts_lem (add_part joined (c ∷ p)) ps rest)

climbs-nonempty : (ps : List Text) → climbs ps ≡ false → climbs (nonempty ps) ≡ false
unfolding climbs
climbs-nonempty [] h = refl
climbs-nonempty ([] ∷ ps) h = ground (arith, climbs-nonempty ps)
climbs-nonempty ((c ∷ p) ∷ ps) h = ground (arith, climbs-nonempty ps)

resolve_down :
    (st ps : List Text) → climbs ps ≡ false → resolve_parts st ps ≡ reverse_aux (without_dots ps) st
unfolding resolve_parts climbs
resolve_down st [] h = refl
resolve_down st (p ∷ ps) h =
    let (here, rest) = climbs_cons p ps h in
    elim (Bool-cases (is_dot p)) [
      | inl dot ↦ rw dot (resolve_down st ps rest)
      | inr no_dot ↦ rw (no_dot, here) (resolve_down (p ∷ st) ps rest)
    ]

without_dots-IsName :
    (ps : List Text) → climbs ps ≡ false → Each IsPart ps → Each IsName (without_dots ps)
unfolding climbs
without_dots-IsName [] c h = tt
without_dots-IsName (p ∷ ps) c (h, hs) =
    let (here, rest) = climbs_cons p ps c in
    elim (Bool-cases (is_dot p)) [
      | inl dot ↦ rw dot (without_dots-IsName ps rest hs)
      | inr no_dot ↦ rw no_dot ((h, no_dot, here), without_dots-IsName ps rest hs)
    ]

climbs-tokens : (s : Text) → climbs (segments s) ≡ false → climbs (tokens s) ≡ false
unfolding tokens
climbs-tokens s h = climbs-nonempty (segments s) h

join_parts-tokens :
    (joined s : Text)
    → climbs (segments s) ≡ false
    → join_parts joined (segments s) ≡ add_parts joined (tokens s)
unfolding tokens
join_parts-tokens joined s h = join_parts_lem joined (segments s) h

render_down : (st ps : List Text) → render (reverse_aux ps st) ≡ absolute (reverse st ++ ps)
render_down st ps =
    render-absolute (reverse_aux ps st)
    ∙ ap absolute (
        ap reverse (reverse_aux-eq ps st)
        ∙ reverse-append (reverse ps) st
        ∙ ap (◌++◌ (reverse st)) (reverse-reverse ps))

join_relative_inv :
    (alloc : ℕ → Bool) (root relative result : Text)
    → join_relative alloc (some root) (some relative) ≡ ok result
    → (climbs (segments relative) ≡ false) × (result ≡ join_parts root (segments relative))
unfolding join_relative
join_relative_inv alloc root relative result h = ground arith

-- A relative path that is joined to a root from normalize_absolute gives the absolute path of the
-- root's components followed by those of the relative path without the . ones, and all of them
-- are names: not empty, without a slash and neither . nor ...
pub join_relative-Under :
    (alloc : ℕ → Bool) (path root relative result : Text)
    → normalize_absolute alloc (some path) ≡ ok root
    → join_relative alloc (some root) (some relative) ≡ ok result
    → (result ≡ absolute (normal (tokens path) ++ without_dots (tokens relative)))
      × (root ≡ absolute (normal (tokens path)))
      × Each IsName (normal (tokens path))
      × Each IsName (without_dots (tokens relative))
join_relative-Under alloc path root relative result h j =
    let (from_root, names) = normalize_absolute_lem alloc path root h in
    let (down, text) = join_relative_inv alloc root relative result j in
    let st : List Text = resolve_parts [] (tokens path) in
    let st_names : Each IsName st = resolve_parts-IsName [] (tokens path) tt (tokens-IsPart path) in
    let kept : climbs (tokens relative) ≡ false = climbs-tokens relative down in
    (
      text
          ∙ ap (λ r. join_parts r (segments relative)) (from_root ∙ sym (render-absolute st))
          ∙ join_parts-tokens (render st) relative down
          ∙ add_parts-render st (tokens relative) (Each-IsPart st st_names) (tokens-IsPart relative)
          ∙ ap render (resolve_down st (tokens relative) kept)
          ∙ render_down st (without_dots (tokens relative)),
      from_root,
      names,
      without_dots-IsName (tokens relative) kept (tokens-IsPart relative),
    )
