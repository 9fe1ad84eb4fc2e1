-- ===== src/Config/Bounds.antt =====
-- The fixed arrays of the configuration are never overrun.
use machismo_sword.Base.{
  ℕ, zero, suc, ◌≤◌, ◌<◌, ◌≡◌, ◌⊎◌, inl, inr, refl, ap, subst, Bool, true, false, ◌||◌, Option,
  none, some, List, [], ◌∷◌, ◌++◌, arith, length, length-append, length-set, get_or, set,
  get_or-set_self, get_or-set_ne, ltb, ◌==◌, ==_iff, if◌then◌else◌, Bool-cases, Option-cases,
}
use machismo_sword.Config.{
  Text, Trampoline, Config, Loader, named, zero_config, max_trampolines, max_prefixes, bytes,
  set_trampoline, set_general, behind, open_section, set_key, split_at, strip, read_stripped,
  read_lines, config_load,
}

abbrev pub tramp_at : Config → ℕ → Trampoline
tramp_at c k = get_or c.trampolines k (named [])

-- At most eight trampolines with at most eight prefixes each.
pub record Fits (c : Config) : Type 0 where
  pub few : length c.trampolines ≤ max_trampolines
  pub prefixes : (k : ℕ) → length (tramp_at c k).prefixes ≤ max_prefixes

-- And the current trampoline is one of them.
record FitsNow (l : Loader) : Type 0 where
  config : Fits l.config
  current : (k : ℕ) → l.current ≡ some k → k < length l.config.trampolines

set_trampoline-prefixes :
    (key val : Text) (t : Trampoline)
    → length t.prefixes ≤ max_prefixes
    → length (set_trampoline key val t).prefixes ≤ max_prefixes
unfolding set_trampoline
set_trampoline-prefixes key val t h =
    let more = length-append t.prefixes (val ∷ []) in ground (arith, more)

-- A property of either branch is one of the conditional.
either {ℓ ℓ'} :
    {A : Type ℓ} (P : A → Type ℓ') (b : Bool) (x y : A) → P x → P y → P (if b then x else y)
either P true x y p q = p
either P false x y p q = q

-- The trampolines of a result, those of `c` where there is none.
abbrev kept_in : Config → Option Config → List Trampoline
kept_in c none = c.trampolines
kept_in c (some c') = c'.trampolines

kept_in-set_general :
    (key val : Text) (c : Config) → kept_in c (set_general key val c) ≡ c.trampolines
unfolding set_general
kept_in-set_general key val c = ground arith

get_or-append :
    (ts : List Trampoline) (t d : Trampoline) (k : ℕ)
    → (get_or (ts ++ (t ∷ [])) k d ≡ get_or ts k d) ⊎ (get_or (ts ++ (t ∷ [])) k d ≡ t)
get_or-append [] t d zero = inr refl
get_or-append [] t d (suc k) = inl refl
get_or-append (x ∷ ts) t d zero = inl refl
get_or-append (x ∷ ts) t d (suc k) = get_or-append ts t d k

open_section-FitsNow : (title : Text) (l : Loader) → FitsNow l → FitsNow (open_section title l)
unfolding open_section
open_section-FitsNow title l v =
    let none_now : FitsNow (record l { current = none }) = record {
      config = v.config;
      current = λ k e. cc e;
    } in
    elim (Option-cases (behind (bytes "trampoline.") title)) [
      | inl other ↦ rw (other, open_section) none_now
      | inr (name, is) ↦
          rw (is, open_section)
            (elim (Bool-cases (ltb (length l.config.trampolines) max_trampolines)) [
              | inr full ↦ rw full none_now
              | inl room ↦
                  let longer = length-append l.config.trampolines (named name ∷ []) in
                  rw room (record {
                    config = record {
                      few = ground (arith, longer, room);
                      prefixes = λ k. ground (
                        arith,
                        get_or-append l.config.trampolines (named name) (named []) k,
                        v.config.prefixes k,
                        ap (λ (t : Trampoline). length t.prefixes)
                            {x = get_or (l.config.trampolines ++ (named name ∷ [])) k (named [])}
                            {y = named name},
                        ap (λ (t : Trampoline). length t.prefixes)
                            {x = get_or (l.config.trampolines ++ (named name ∷ [])) k (named [])}
                            {y = tramp_at l.config k},
                      );
                    };
                    current = λ k e. ground (arith, longer, e);
                  })
            ])
    ]

data FitsIf : Option Loader → Type 0 where
  failed : FitsIf none
  fits : (l : Loader) → FitsNow l → FitsIf (some l)

with_config :
    (l : Loader) (o : Option Config)
    → FitsNow l
    → kept_in l.config o ≡ l.config.trampolines
    → FitsIf (elim o [ none ↦ none | some c ↦ some (record l { config = c }) ])
with_config l none v same = failed
with_config l (some c) v same =
    let size = ap length same in
    fits _ (record {
      config = record {
        few = omega (arith, size, v.config.few);
        prefixes = λ k. omega (
          arith,
          ap (λ (ts : List Trampoline). length (get_or ts k (named [])).prefixes) same,
          v.config.prefixes k,
        );
      };
      current = λ k e. omega (arith, size, v.current k e);
    })

set_at :
    (key val : Text) (l : Loader) (k : ℕ)
    → l.current ≡ some k
    → FitsNow l
    → FitsNow (record l {
      config = record l.config {
        trampolines =
            set l.config.trampolines k
              (set_trampoline key val (get_or l.config.trampolines k (named [])));
      };
    })
set_at key val l k here v =
    let ts = l.config.trampolines in
    let t = set_trampoline key val (get_or ts k (named [])) in
    let size = length-set ts k t in
    record {
      config = record {
        few = omega (arith, size, v.config.few);
        prefixes = λ j. elim (Bool-cases (k == j)) [
          | inl same ↦
              let e : k ≡ j = (==_iff k j).0 same in
              omega (
                arith,
                ap (λ (i : ℕ). length (get_or (set ts k t) i (named [])).prefixes) e,
                ap (λ (x : Trampoline). length x.prefixes)
                    (get_or-set_self ts k t (named []) (v.current k here)),
                set_trampoline-prefixes key val (get_or ts k (named [])) (v.config.prefixes k),
              )
          | inr away ↦ omega (
            arith,
            ap (λ (x : Trampoline). length x.prefixes)
                (get_or-set_ne ts k j t (named []) (λ e. ground (arith, away, e))),
            v.config.prefixes j,
          )
        ];
      };
      current = λ j e. omega (arith, size, v.current j e);
    }

set_key-FitsIf : (key val : Text) (l : Loader) → FitsNow l → FitsIf (set_key key val l)
unfolding set_key
set_key-FitsIf key val l v = elim (Option-cases l.current) [
  | inr (k, here) ↦ rw (here, set_key) (fits _ (set_at key val l k here v))
  | inl outside ↦ rw (outside, set_key) (with_config l _ v (kept_in-set_general key val l.config))
]

header-FitsIf :
    (l : Loader) (o : Option (Text × Text))
    → FitsNow l
    → FitsIf (elim o [ none ↦ some l | some (title, rest) ↦ some (open_section title l) ])
header-FitsIf l none v = fits l v
header-FitsIf l (some (title, rest)) v = fits _ (open_section-FitsNow title l v)

pair-FitsIf :
    (l : Loader) (o : Option (Text × Text))
    → FitsNow l
    → FitsIf (elim o [ none ↦ some l | some (key, val) ↦ set_key (strip key) (strip val) l ])
pair-FitsIf l none v = fits l v
pair-FitsIf l (some (key, val)) v = set_key-FitsIf (strip key) (strip val) l v

read_stripped-FitsIf : (s : Text) (l : Loader) → FitsNow l → FitsIf (read_stripped s l)
unfolding read_stripped
read_stripped-FitsIf [] l v = fits l v
read_stripped-FitsIf (c ∷ s) l v = elim (Bool-cases ((c == b'#') || (c == b';'))) [
  | inl comment ↦ rw comment (fits l v)
  | inr other ↦ rw other (elim (Bool-cases (c == b'[')) [
    | inl header ↦ rw header (header-FitsIf l (split_at b']' s) v)
    | inr pair ↦ rw pair (pair-FitsIf l (split_at b'=' (c ∷ s)) v)
  ])
]

-- A property of the option is one of its value.
FitsIf-some : (o : Option Loader) (l : Loader) → FitsIf o → o ≡ some l → FitsNow l
FitsIf-some none l failed e = cc e
FitsIf-some (some l') l (fits _ v) e =
    subst FitsNow (ap (λ (o : Option Loader). elim o as (λ _. Loader) [ none ↦ l' | some x ↦ x ]) e)
      v

read_lines-FitsIf : (lines : List Text) (l : Loader) → FitsNow l → FitsIf (read_lines lines l)
unfolding read_lines
read_lines-FitsIf [] l v = fits l v
read_lines-FitsIf (line ∷ lines) l v = elim (Option-cases (read_stripped (strip line) l)) [
  | inl stop ↦ rw (stop, read_lines) failed
  | inr (next, go) ↦
      rw (go, read_lines)
        (read_lines-FitsIf lines next
          (FitsIf-some _ next (read_stripped-FitsIf (strip line) l v) go))
]

abbrev start : Loader
start = record { config = zero_config; current = none }

start-FitsNow : FitsNow start
start-FitsNow = record {
  config = record { few = omega arith; prefixes = λ k. omega arith };
  current = λ k e. cc e;
}

-- Whatever the lines of the file are, a configuration that is loaded has at most eight
-- trampolines with at most eight prefixes each, so no array of the configuration is overrun.
pub config_load-Fits : (lines : List Text) (c : Config) → config_load (some lines) ≡ some c → Fits c
unfolding config_load
config_load-Fits lines c e = elim (Option-cases (read_lines lines start)) [
  | inl stop ↦ cc (rw (stop, config_load) at e)
  | inr (l, read) ↦
      let v = FitsIf-some _ l (read_lines-FitsIf lines start start-FitsNow) read in
      let same : l.config ≡ c =
        ap (λ (o : Option Config). elim o as (λ _. Config) [ none ↦ c | some x ↦ x ])
          (rw (read, config_load) at e) in
      subst Fits same v.config
]
