-- ===== src/Paths/Parts.antt =====
-- Paths as lists of components: what the loops of paths.c do to the text of a list of components.
use mathlib.Core.List.{append_assoc}
use machismo_sword.Base.{
  ℕ, zero, suc, ◌+◌, ◌-◌, ◌≤◌, ◌<◌, ◌≡◌, refl, sym, ap, ◌∙◌, ◌⊎◌, inl, inr, true, false, List, [],
  ◌∷◌, ◌++◌, length, length-append, get_or, ltb, ◌==◌, if◌then◌else◌, arith, Bool-cases,
}
use machismo_sword.Config.{Text}
use machismo_sword.Paths.{
  slash, is_empty, is_dot, is_dot_dot, add_byte, nonempty, segments, tokens, prefix, back_to_slash,
  drop_part, add_part, add_parts,
}

abbrev pub NoSlash : Text → Type 0
NoSlash [] = Unit {0}
NoSlash (c ∷ s) = ((c == slash) ≡ false) × NoSlash s

-- A component: no slash in it, and not empty.
abbrev pub IsPart : Text → Type 0
IsPart p = NoSlash p × (is_empty p ≡ false)

-- A component that is neither "." nor "..".
abbrev pub IsName : Text → Type 0
IsName p = IsPart p × (is_dot p ≡ false) × (is_dot_dot p ≡ false)

abbrev pub Each : (Text → Type 0) → List Text → Type 0
Each P [] = Unit {0}
Each P (p ∷ ps) = P p × Each P ps

-- The text before the last component, of the components before it, the last one first.
abbrev pub lead : List Text → Text
lead [] = slash ∷ []
lead (q ∷ st) = (lead st ++ q) ++ (slash ∷ [])

-- The absolute path of a stack of components, the last one first.
abbrev pub render : List Text → Text
render [] = slash ∷ []
render (p ∷ st) = lead st ++ p

abbrev pub pop : List Text → List Text
pop [] = []
pop (p ∷ st) = st

-- What a component does to the stack.
abbrev pub resolve_part : List Text → Text → List Text
resolve_part st p = if is_dot p then st else if is_dot_dot p then pop st else p ∷ st

unfoldable pub resolve_parts : List Text → List Text → List Text
resolve_parts st [] = st
resolve_parts st (p ∷ ps) = resolve_parts (resolve_part st p) ps

length-lead : (st : List Text) → 0 < length (lead st)
length-lead [] = omega arith
length-lead (q ∷ st) = omega (arith, length-append (lead st ++ q) (slash ∷ []))

length_pos : (p : Text) → is_empty p ≡ false → 0 < length p
length_pos [] h = cc
length_pos (c ∷ s) h = omega arith

get_or-append : (a p : Text) (i j : ℕ) → i ≡ length a + j → get_or (a ++ p) i 0 ≡ get_or p j 0
get_or-append [] p i j e = let same : i ≡ j = omega arith in ap (λ k. get_or p k 0) same
get_or-append (c ∷ a) p zero j e = absurd (omega arith)
get_or-append (c ∷ a) p (suc i) j e = get_or-append a p i j (omega arith)

get_or-NoSlash : (p : Text) (j : ℕ) → NoSlash p → j < length p → (get_or p j 0 == slash) ≡ false
get_or-NoSlash [] j h l = absurd (omega arith)
get_or-NoSlash (c ∷ p) zero (h, hs) l = h
get_or-NoSlash (c ∷ p) (suc j) (h, hs) l = get_or-NoSlash p j hs (omega arith)

prefix_left : (a b : Text) → prefix (length a) (a ++ b) ≡ a
unfolding prefix
prefix_left [] b = refl
prefix_left (c ∷ a) b = ap (◌∷◌ c) (prefix_left a b)

-- The walk back from the end of a component stops in front of it.
back_to_slash_lem :
    (a p : Text) (n : ℕ)
    → 0 < length a
    → (length a ≡ 1) ⊎ ((get_or (a ++ p) (length a - 1) 0 == slash) ≡ true)
    → NoSlash p
    → n ≤ length p
    → (m : ℕ) → m ≡ length a + n
    → back_to_slash (a ++ p) m ≡ length a
unfolding back_to_slash
back_to_slash_lem a p n pos stop ns le zero e = absurd (omega arith)
back_to_slash_lem a p zero pos stop ns le (suc m) e =
    let last : m ≡ length a - 1 = omega arith in let stop' = rw (← last) at stop in ground arith
back_to_slash_lem a p (suc n) pos stop ns le (suc m) e =
    let at_n : m ≡ length a + n = omega arith in
    let here : (get_or (a ++ p) m 0 == slash) ≡ false =
      rw (get_or-append a p m n at_n) (get_or-NoSlash p n ns (omega arith)) in
    ground (arith, back_to_slash_lem a p n pos stop ns (omega arith) m at_n)

-- A component and the slash in front of it are cut off, but the first slash stays.
drop_part_lem :
    (a p : Text)
    → 0 < length a
    → IsPart p
    → (length a ≡ 1) ⊎ ((get_or (a ++ p) (length a - 1) 0 == slash) ≡ true)
    → drop_part (a ++ p) ≡ prefix (if ltb 1 (length a) then length a - 1 else length a) (a ++ p)
unfolding drop_part
drop_part_lem a p pos (ns, full) stop =
    let long : ltb 1 (length (a ++ p)) ≡ true =
      ground (arith, length-append a p, length_pos p full) in
    let cut : back_to_slash (a ++ p) (length (a ++ p)) ≡ length a =
      back_to_slash_lem a p (length p) pos stop ns (omega arith) _ (length-append a p) in
    rw (long, cut) refl

-- The branch for ".." takes the last component off.
pub drop_part-render : (st : List Text) → Each IsPart st → drop_part (render st) ≡ render (pop st)
drop_part-render [] h = unfold drop_part in refl
drop_part-render (p ∷ []) (h, hs) =
    drop_part_lem (slash ∷ []) p (omega arith) h (inl refl) ∙ prefix_left (slash ∷ []) p
drop_part-render (p ∷ q ∷ st) (h, (hq, hs)) =
    let body = lead st ++ q in
    let size : length (body ++ (slash ∷ [])) ≡ length body + 1 = length-append body (slash ∷ []) in
    let long : 0 < length body = omega (arith, length-append (lead st) q, length-lead st) in
    let before : length (lead (q ∷ st)) - 1 ≡ length body = omega arith in
    let cut : (if ltb 1 (length (lead (q ∷ st)))
          then length (lead (q ∷ st)) - 1
          else length (lead (q ∷ st)))
        ≡ length body =
      ground arith in
    let ends : get_or (lead (q ∷ st) ++ p) (length (lead (q ∷ st)) - 1) 0 ≡ slash =
      ap (λ t. get_or t (length (lead (q ∷ st)) - 1) 0) (append_assoc body (slash ∷ []) p)
      ∙ get_or-append body (slash ∷ p) _ 0 (omega arith) in
    drop_part_lem (lead (q ∷ st)) p (length-lead (q ∷ st)) h (inr (rw ends refl))
    ∙ rw (cut, append_assoc body (slash ∷ []) p) (prefix_left body (slash ∷ p))

-- One token does to the text what it does to the stack.
pub add_part-render :
    (st : List Text) (p : Text)
    → Each IsPart st
    → IsPart p
    → add_part (render st) p ≡ render (resolve_part st p)
unfolding add_part
add_part-render st p hs (ns, full) = elim (Bool-cases (is_dot p)) [
  | inl dot ↦ rw dot refl
  | inr no_dot ↦ elim (Bool-cases (is_dot_dot p)) [
    | inl up ↦ rw (no_dot, full, up) (drop_part-render st hs)
    | inr no_up ↦ rw (no_dot, full, no_up) (push st p hs)
  ]
]
  where
    push :
        (st : List Text) (p : Text)
        → Each IsPart st
        → (if ltb 1 (length (render st)) then render st ++ (slash ∷ p) else render st ++ p)
          ≡ lead st ++ p
    push [] p hs = refl
    push (q ∷ st) p ((ns, full), hs) =
        let long : ltb 1 (length (lead st ++ q)) ≡ true =
          ground (arith, length-append (lead st) q, length-lead st, length_pos q full) in
        rw long (sym (append_assoc (lead st ++ q) (slash ∷ []) p))

resolve_part-Each :
    (P : Text → Type 0) (st : List Text) (p : Text)
    → Each P st
    → (is_dot p ≡ false → is_dot_dot p ≡ false → P p)
    → Each P (resolve_part st p)
resolve_part-Each P st p hs new = elim (Bool-cases (is_dot p)) [
  | inl dot ↦ rw dot hs
  | inr no_dot ↦ elim (Bool-cases (is_dot_dot p)) [
    | inl up ↦ rw (no_dot, up) (below st hs)
    | inr no_up ↦ rw (no_dot, no_up) (new no_dot no_up, hs)
  ]
]
  where
    below : (st : List Text) → Each P st → Each P (pop st)
    below [] h = h
    below (q ∷ st) (h, hs) = hs

pub resolve_parts-IsName :
    (st ps : List Text) → Each IsName st → Each IsPart ps → Each IsName (resolve_parts st ps)
unfolding resolve_parts
resolve_parts-IsName st [] hs hp = hs
resolve_parts-IsName st (p ∷ ps) hs (h, hp) =
    resolve_parts-IsName (resolve_part st p) ps
      (resolve_part-Each IsName st p hs (λ no_dot no_up. (h, no_dot, no_up))) hp

pub add_parts-render :
    (st ps : List Text)
    → Each IsPart st
    → Each IsPart ps
    → add_parts (render st) ps ≡ render (resolve_parts st ps)
unfolding add_parts resolve_parts
add_parts-render st [] hs hp = refl
add_parts-render st (p ∷ ps) hs (h, hp) =
    rw (add_part-render st p hs h)
      (add_parts-render (resolve_part st p) ps (resolve_part-Each IsPart st p hs (λ a b. h)) hp)

add_byte-NoSlash :
    (c : ℕ) (ps : List Text) → (c == slash) ≡ false → Each NoSlash ps → Each NoSlash (add_byte c ps)
add_byte-NoSlash c [] h hs = ((h, tt), tt)
add_byte-NoSlash c (p ∷ ps) h (hp, hs) = ((h, hp), hs)

segments-NoSlash : (s : Text) → Each NoSlash (segments s)
unfolding segments
segments-NoSlash [] = tt
segments-NoSlash (c ∷ s) = elim (Bool-cases (c == slash)) [
  | inl e ↦ rw e (tt, segments-NoSlash s)
  | inr e ↦ rw e (add_byte-NoSlash c (segments s) e (segments-NoSlash s))
]

nonempty-IsPart : (ps : List Text) → Each NoSlash ps → Each IsPart (nonempty ps)
nonempty-IsPart [] h = tt
nonempty-IsPart ([] ∷ ps) (h, hs) = nonempty-IsPart ps hs
nonempty-IsPart ((c ∷ p) ∷ ps) (h, hs) = ((h, refl), nonempty-IsPart ps hs)

-- The tokens of a text are components.
pub tokens-IsPart : (s : Text) → Each IsPart (tokens s)
unfolding tokens
tokens-IsPart s = nonempty-IsPart (segments s) (segments-NoSlash s)
