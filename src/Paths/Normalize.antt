-- ===== src/Paths/Normalize.antt =====
-- `normalize_absolute` of paths.c: the normal form of an absolute path.
use mathlib.Core.List.{
  append_assoc, append-nil, reverse, reverse_aux, reverse-cons, reverse-reverse,
}
use machismo_sword.Base.{
  ℕ, ◌+◌, ◌-◌, ◌≤◌, ◌≡◌, refl, sym, ap, ◌∙◌, Bool, true, some, List, [], ◌∷◌, ◌++◌, length, arith,
}
use machismo_sword.Config.{Text}
use machismo_sword.Paths.{
  ok, slash, size_max, starts_slash, segments, tokens, add_parts, normalize_absolute,
}
use machismo_sword.Paths.Buffers.{length-normal}
use machismo_sword.Paths.Parts.{
  NoSlash, IsPart, IsName, Each, lead, render, resolve_parts, resolve_parts-IsName,
  add_parts-render, tokens-IsPart,
}

-- Each component behind a slash.
abbrev pub spell : List Text → Text
spell [] = []
spell (p ∷ ps) = slash ∷ (p ++ spell ps)

-- The absolute path of a list of components.
abbrev pub absolute : List Text → Text
absolute [] = slash ∷ []
absolute (p ∷ ps) = spell (p ∷ ps)

-- The components that are left of some parts, starting from the root.
abbrev pub normal : List Text → List Text
normal ps = reverse (resolve_parts [] ps)

spell-append : (ps qs : List Text) → spell (ps ++ qs) ≡ spell ps ++ spell qs
spell-append [] qs = refl
spell-append (p ∷ ps) qs =
    ap (λ t. slash ∷ (p ++ t)) (spell-append ps qs)
    ∙ ap (◌∷◌ slash) (sym (append_assoc p (spell ps) (spell qs)))

lead-spell : (st : List Text) → lead st ≡ spell (reverse st) ++ (slash ∷ [])
lead-spell [] = refl
lead-spell (q ∷ st) =
    rw (lead-spell st, reverse-cons q st, spell-append (reverse st) (q ∷ []))
      (simp (append_assoc, append-nil))

absolute-snoc : (ps : List Text) (p : Text) → absolute (ps ++ (p ∷ [])) ≡ spell (ps ++ (p ∷ []))
absolute-snoc [] p = refl
absolute-snoc (q ∷ ps) p = refl

-- The text of a stack is the path of its components in order.
pub render-absolute : (st : List Text) → render st ≡ absolute (reverse st)
render-absolute [] = refl
render-absolute (p ∷ st) =
    rw
      (
        reverse-cons p st,
        absolute-snoc (reverse st) p,
        spell-append (reverse st) (p ∷ []),
        lead-spell st,
      )
      (simp (append_assoc, append-nil))

Each-append : (P : Text → Type 0) (ps qs : List Text) → Each P ps → Each P qs → Each P (ps ++ qs)
Each-append P [] qs h h' = h'
Each-append P (p ∷ ps) qs (h, hs) h' = (h, Each-append P ps qs hs h')

pub Each-reverse : (P : Text → Type 0) (ps : List Text) → Each P ps → Each P (reverse ps)
Each-reverse P [] h = tt
Each-reverse P (p ∷ ps) (h, hs) =
    rw (reverse-cons p ps) (Each-append P (reverse ps) (p ∷ []) (Each-reverse P ps hs) (h, tt))

pub Each-IsPart : (ps : List Text) → Each IsName ps → Each IsPart ps
Each-IsPart [] h = tt
Each-IsPart (p ∷ ps) (h, hs) = (h.0, Each-IsPart ps hs)

segments_part : (p t : Text) → NoSlash p → segments (p ++ (slash ∷ t)) ≡ p ∷ segments t
unfolding segments
segments_part [] t h = refl
segments_part (c ∷ p) t (h, hs) = rw (h, segments_part p t hs) refl

segments_last : (c : ℕ) (p : Text) → NoSlash (c ∷ p) → segments (c ∷ p) ≡ (c ∷ p) ∷ []
unfolding segments
segments_last c [] (h, hs) = rw h refl
segments_last c (d ∷ p) (h, hs) = rw (h, segments_last d p hs) refl

-- The tokens of a spelt list of components are the components.
tokens-spell : (ps : List Text) → Each IsPart ps → tokens (spell ps) ≡ ps
unfolding tokens segments
tokens-spell [] h = refl
tokens-spell ([] ∷ ps) ((ns, full), hs) = cc
tokens-spell ((c ∷ p) ∷ []) ((ns, full), hs) = rw (append-nil p, segments_last c p ns) refl
tokens-spell ((c ∷ p) ∷ q ∷ ps) ((ns, full), hs) =
    rw (segments_part (c ∷ p) (q ++ spell ps) ns) (ap (◌∷◌ (c ∷ p)) (tokens-spell (q ∷ ps) hs))

pub tokens-absolute : (ps : List Text) → Each IsPart ps → tokens (absolute ps) ≡ ps
tokens-absolute [] h = unfold tokens segments in refl
tokens-absolute (p ∷ ps) h = tokens-spell (p ∷ ps) h

-- Names are pushed one after the other.
pub resolve_names : (st ps : List Text) → Each IsName ps → resolve_parts st ps ≡ reverse_aux ps st
unfolding resolve_parts
resolve_names st [] h = refl
resolve_names st (p ∷ ps) ((h, no_dot, no_up), hs) =
    rw (no_dot, no_up) (resolve_names (p ∷ st) ps hs)

normal_names : (ps : List Text) → Each IsName ps → normal ps ≡ ps
normal_names ps h = rw (resolve_names [] ps h) (reverse-reverse ps)

-- What a result tells about the guards.
normalize_absolute_inv :
    (alloc : ℕ → Bool) (path result : Text)
    → normalize_absolute alloc (some path) ≡ ok result
    → (starts_slash path ≡ true)
      × (length path ≤ size_max - 2)
      × (result ≡ add_parts (slash ∷ []) (tokens path))
unfolding normalize_absolute
normalize_absolute_inv alloc path result h = ground arith

normalize_absolute_run :
    (alloc : ℕ → Bool) (path : Text)
    → starts_slash path ≡ true
    → length path ≤ size_max - 2
    → alloc (length path + 1) ≡ true
    → alloc (length path + 2) ≡ true
    → normalize_absolute alloc (some path) ≡ ok (absolute (normal (tokens path)))
unfolding normalize_absolute
normalize_absolute_run alloc path h size a b =
    let text : add_parts (slash ∷ []) (tokens path) ≡ absolute (normal (tokens path)) =
      add_parts-render [] (tokens path) tt (tokens-IsPart path)
      ∙ render-absolute (resolve_parts [] (tokens path)) in
    ground (arith, text)

-- A result of normalize_absolute is the absolute path of the components that are left when the
-- tokens of the path are pushed on a stack, . does nothing and .. takes the top off, if there is
-- one; each of these components is a name: not empty, without a slash and neither . nor ...
pub normalize_absolute_lem :
    (alloc : ℕ → Bool) (path result : Text)
    → normalize_absolute alloc (some path) ≡ ok result
    → (result ≡ absolute (normal (tokens path))) × Each IsName (normal (tokens path))
normalize_absolute_lem alloc path result h =
    let (start, size, text) = normalize_absolute_inv alloc path result h in
    (
      text
          ∙ add_parts-render [] (tokens path) tt (tokens-IsPart path)
          ∙ render-absolute (resolve_parts [] (tokens path)),
      Each-reverse IsName (resolve_parts [] (tokens path))
          (resolve_parts-IsName [] (tokens path) tt (tokens-IsPart path)),
    )

starts-absolute : (ps : List Text) → starts_slash (absolute ps) ≡ true
starts-absolute [] = refl
starts-absolute (p ∷ ps) = refl

-- If malloc gives the blocks, normalize_absolute leaves its own result as it is.
pub normalize_absolute_twice :
    (alloc : ℕ → Bool) (path result : Text)
    → normalize_absolute alloc (some path) ≡ ok result
    → alloc (length result + 1) ≡ true
    → alloc (length result + 2) ≡ true
    → normalize_absolute alloc (some result) ≡ ok result
normalize_absolute_twice alloc path result h a b =
    let (start, size, text) = normalize_absolute_inv alloc path result h in
    let (same, names) = normalize_absolute_lem alloc path result h in
    let ns : List Text = normal (tokens path) in
    let short : length result ≤ length path =
      rw (same, ← render-absolute (resolve_parts [] (tokens path))) (length-normal path start) in
    let parts : tokens result ≡ ns = rw same (tokens-absolute ns (Each-IsPart ns names)) in
    normalize_absolute_run alloc result (rw same (starts-absolute ns)) (omega arith) a b
    ∙ ap ok (rw (parts, normal_names ns names) (sym same))
