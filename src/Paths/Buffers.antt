-- ===== src/Paths/Buffers.antt =====
-- The buffers that paths.c allocates for its texts.
use machismo_sword.Base.{
  ℕ, suc, ◌+◌, ◌≤◌, ◌<◌, ◌≡◌, refl, inl, inr, true, List, [], ◌∷◌, ◌++◌, length, length-append,
  ◌==◌, arith, Bool-cases,
}
use machismo_sword.Config.{Text}
use machismo_sword.Paths.{
  slash, starts_slash, add_byte, nonempty, segments, tokens, add_parts, join_part, join_parts,
}
use machismo_sword.Paths.Parts.{
  IsPart, Each, lead, render, resolve_part, resolve_parts, add_parts-render, tokens-IsPart,
}

-- The bytes of some components, each with a slash.
abbrev pub weight : List Text → ℕ
weight [] = 0
weight (p ∷ ps) = suc (length p + weight ps)

weight-add_byte :
    (c : ℕ) (ps : List Text) (n : ℕ) → weight ps ≤ n + 1 → weight (add_byte c ps) ≤ n + 2
weight-add_byte c [] n h = omega arith
weight-add_byte c (p ∷ ps) n h = omega arith

weight-segments : (s : Text) → weight (segments s) ≤ length s + 1
unfolding segments
weight-segments [] = omega arith
weight-segments (c ∷ s) = elim (Bool-cases (c == slash)) [
  | inl e ↦ rw e (omega (arith, weight-segments s))
  | inr e ↦ rw e (omega (arith, weight-add_byte c (segments s) (length s) (weight-segments s)))
]

weight-nonempty : (ps : List Text) → weight (nonempty ps) ≤ weight ps
weight-nonempty [] = omega arith
weight-nonempty ([] ∷ ps) = omega (arith, weight-nonempty ps)
weight-nonempty ((c ∷ p) ∷ ps) = omega (arith, weight-nonempty ps)

pub weight-tokens : (s : Text) → weight (tokens s) ≤ length s + 1
unfolding tokens
weight-tokens s = omega (arith, weight-nonempty (segments s), weight-segments s)

-- The first slash of an absolute path is in no token.
pub weight-tokens_absolute : (s : Text) → starts_slash s ≡ true → weight (tokens s) ≤ length s
unfolding tokens segments
weight-tokens_absolute [] h = cc
weight-tokens_absolute (c ∷ s) h =
    rw h (omega (arith, weight-nonempty (segments s), weight-segments s))

length-lead : (st : List Text) → length (lead st) ≡ weight st + 1
length-lead [] = refl
length-lead (q ∷ st) =
    omega
      (arith, length-append (lead st ++ q) (slash ∷ []), length-append (lead st) q, length-lead st)

pub length-render : (st : List Text) → length (render st) ≤ weight st + 1
length-render [] = omega arith
length-render (p ∷ st) = omega (arith, length-append (lead st) p, length-lead st)

pub length-render_cons : (p : Text) (st : List Text) → length (render (p ∷ st)) ≡ weight (p ∷ st)
length-render_cons p st = omega (arith, length-append (lead st) p, length-lead st)

weight-resolve_part :
    (st : List Text) (p : Text) → weight (resolve_part st p) ≤ weight st + weight (p ∷ [])
weight-resolve_part [] p = ground arith
weight-resolve_part (q ∷ st) p = ground arith

pub weight-resolve_parts :
    (st ps : List Text) → weight (resolve_parts st ps) ≤ weight st + weight ps
unfolding resolve_parts
weight-resolve_parts st [] = omega arith
weight-resolve_parts st (p ∷ ps) =
    omega (arith, weight-resolve_parts (resolve_part st p) ps, weight-resolve_part st p)

weight-append : (ps qs : List Text) → weight (ps ++ qs) ≡ weight ps + weight qs
weight-append [] qs = omega arith
weight-append (p ∷ ps) qs = omega (arith, weight-append ps qs)

Each-left : (P : Text → Type 0) (ps qs : List Text) → Each P (ps ++ qs) → Each P ps
Each-left P [] qs h = tt
Each-left P (p ∷ ps) qs (h, hs) = (h, Each-left P ps qs hs)

-- For a path that starts with a slash: after any number of its tokens the text of
-- normalize_absolute with its final 0 fits in the buffer of the path's length plus 2.
pub normalize_absolute-InBuffer :
    (path : Text) (done left : List Text)
    → starts_slash path ≡ true
    → tokens path ≡ done ++ left
    → length (add_parts (slash ∷ []) done) + 1 ≤ length path + 2
normalize_absolute-InBuffer path done left h split =
    let parts : Each IsPart done = Each-left IsPart done left (rw split at (tokens-IsPart path)) in
    let size : weight done + weight left ≤ length path =
      rw (← weight-append done left, ← split) (weight-tokens_absolute path h) in
    rw (add_parts-render [] done tt parts)
      (omega (arith, length-render (resolve_parts [] done), weight-resolve_parts [] done))

length-join_part : (joined p : Text) → length (join_part joined p) ≤ length joined + weight (p ∷ [])
unfolding join_part
length-join_part joined p = ground (arith, length-append joined (slash ∷ p), length-append joined p)

length-join_parts :
    (joined : Text) (ps : List Text) → length (join_parts joined ps) ≤ length joined + weight ps
unfolding join_parts
length-join_parts joined [] = omega arith
length-join_parts joined (p ∷ ps) =
    omega (arith, length-join_parts (join_part joined p) ps, length-join_part joined p)

-- After any number of pieces the joined text with its final 0 fits in its buffer.
pub join_relative-InBuffer :
    (root relative : Text) (done left : List Text)
    → segments relative ≡ done ++ left
    → length (join_parts root done) + 1 ≤ length root + length relative + 2
join_relative-InBuffer root relative done left split =
    let size : weight done + weight left ≤ length relative + 1 =
      rw (← weight-append done left, ← split) (weight-segments relative) in
    omega (arith, length-join_parts root done)

length-render_max : (st : List Text) (n : ℕ) → 0 < n → weight st ≤ n → length (render st) ≤ n
length-render_max [] n pos h = pos
length-render_max (p ∷ st) n pos h = omega (arith, length-render_cons p st)

-- A normal form is no longer than the path.
pub length-normal :
    (path : Text)
    → starts_slash path ≡ true
    → length (render (resolve_parts [] (tokens path))) ≤ length path
length-normal [] h = cc
length-normal (c ∷ s) h =
    length-render_max (resolve_parts [] (tokens (c ∷ s))) _ (omega arith)
      (omega (arith, weight-resolve_parts [] (tokens (c ∷ s)), weight-tokens_absolute (c ∷ s) h))
