-- ===== src/Paths.antt =====
-- src/ports/sword3/paths.h and the part of src/ports/sword3/paths.c that works on texts: paths as
-- lists of bytes without 0, a null pointer as `none`, `errno` in the result. Whether malloc gives a
-- block of some size is an argument.
pub mod Parts
pub mod Normalize
pub mod Buffers
pub mod Join
pub mod System
pub mod Write
pub mod Loops
pub mod Contents
pub mod Handles
pub mod Confined
pub mod Order
pub mod Cleanup
pub mod Session
pub mod Folders
mod Tests
use machismo_sword.Base.{
  ℕ, zero, suc, ◌+◌, ◌-◌, ◌^◌, ◌≡◌, refl, ◌⊎◌, inl, inr, Bool, true, false, not, ◌&&◌, ◌||◌, Option,
  none, some, List, [], ◌∷◌, ◌++◌, length, get_or, ltb, ◌==◌, if◌then◌else◌,
}
use machismo_sword.Config.{Text, bytes, same_text}

-- 0 or a pointer, and -1 with `errno`.
pub data Result {ℓ} (A : Type ℓ) : Type ℓ where
  ok : A → Result A
  fail : ℕ → Result A

infixl 1 ◌>>=◌
abbrev pub ◌>>=◌ {ℓ κ} : {A : Type ℓ} {B : Type κ} → Result A → (A → Result B) → Result B
ok a >>= f = f a
fail e >>= f = fail e

pub Result-cases {ℓ} :
    {A : Type ℓ} (r : Result A) → ((a : A) × (r ≡ ok a)) ⊎ ((e : ℕ) × (r ≡ fail e))
Result-cases (ok a) = inl (a, refl)
Result-cases (fail e) = inr (e, refl)

abbrev pub e_perm : ℕ
e_perm = 1

abbrev pub e_noent : ℕ
e_noent = 2

abbrev pub e_nomem : ℕ
e_nomem = 12

abbrev pub e_inval : ℕ
e_inval = 22

abbrev pub e_nametoolong : ℕ
e_nametoolong = 36

abbrev pub size_max : ℕ
size_max = 2 ^ 64 - 1

-- The byte 47.
abbrev pub slash : ℕ
slash = b'/'

abbrev pub is_empty : Text → Bool
is_empty [] = true
is_empty (c ∷ s) = false

-- The tests `path[0] == '/'` on a pointer and on a text.
abbrev pub starts_slash : Text → Bool
starts_slash [] = false
starts_slash (c ∷ s) = c == slash

abbrev pub is_absolute : Option Text → Bool
is_absolute none = false
is_absolute (some s) = starts_slash s

-- `configured && *configured`
abbrev pub is_set : Option Text → Bool
is_set none = false
is_set (some s) = not (is_empty s)

abbrev pub text_of : Option Text → Text
text_of none = []
text_of (some s) = s

abbrev pub add_byte : ℕ → List Text → List Text
add_byte c [] = (c ∷ []) ∷ []
add_byte c (p ∷ ps) = (c ∷ p) ∷ ps

-- The pieces that a walk with `strchr(cursor, '/')` meets, empty ones included; none stands behind
-- a slash at the end.
unfoldable pub segments : Text → List Text
segments [] = []
segments (c ∷ s) = let rest = segments s in if c == slash then [] ∷ rest else add_byte c rest

abbrev pub nonempty : List Text → List Text
nonempty [] = []
nonempty (p ∷ ps) = if is_empty p then nonempty ps else p ∷ nonempty ps

-- The tokens of `strtok_r` with the delimiter "/".
unfoldable pub tokens : Text → List Text
tokens s = nonempty (segments s)

unfoldable pub prefix : ℕ → Text → Text
prefix zero s = []
prefix (suc n) [] = []
prefix (suc n) (c ∷ s) = c ∷ prefix n s

abbrev pub is_dot : Text → Bool
is_dot part = same_text part (bytes ".")

abbrev pub is_dot_dot : Text → Bool
is_dot_dot part = same_text part (bytes "..")

-- `while (length > 1 && out[length - 1] != '/') length--;`
unfoldable pub back_to_slash : Text → ℕ → ℕ
back_to_slash out zero = zero
back_to_slash out (suc n) =
    let rest = back_to_slash out n in
    if ltb 1 (suc n) && not (get_or out n 0 == slash) then rest else suc n

-- The branch for "..": the last component goes.
unfoldable pub drop_part : Text → Text
drop_part out =
    if ltb 1 (length out)
    then (let cut = back_to_slash out (length out) in
        prefix (if ltb 1 cut then cut - 1 else cut) out)
    else out

-- The body of the loop over the tokens.
unfoldable pub add_part : Text → Text → Text
add_part out part =
    if is_dot part || is_empty part
    then out
    else if is_dot_dot part
    then drop_part out
    else if ltb 1 (length out)
    then out ++ (slash ∷ part)
    else out ++ part

unfoldable pub add_parts : Text → List Text → Text
add_parts out [] = out
add_parts out (part ∷ parts) = add_parts (add_part out part) parts

-- The body of the second loop of `join_relative`.
unfoldable pub join_part : Text → Text → Text
join_part joined part =
    if not (is_empty part) && not (is_dot part)
    then (if ltb 1 (length joined) then joined ++ (slash ∷ part) else joined ++ part)
    else joined

unfoldable pub join_parts : Text → List Text → Text
join_parts joined [] = joined
join_parts joined (part ∷ parts) = join_parts (join_part joined part) parts

-- The first loop of `join_relative`.
unfoldable pub climbs : List Text → Bool
climbs [] = false
climbs (part ∷ parts) = is_dot_dot part || climbs parts

module _ (alloc : ℕ → Bool) where
  unfoldable pub normalize_absolute : Option Text → Result Text
  normalize_absolute none = fail e_inval
  normalize_absolute (some path) =
      if not (starts_slash path)
      then fail e_inval
      else if ltb (size_max - 2) (length path)
      then fail e_nametoolong
      else if not (alloc (length path + 1)) || not (alloc (length path + 2))
      then fail e_nomem
      else ok (add_parts (slash ∷ []) (tokens path))

  unfoldable pub join_relative : Option Text → Option Text → Result Text
  join_relative none relative = fail e_inval
  join_relative (some root) none = fail e_inval
  join_relative (some root) (some relative) =
      if starts_slash relative
      then fail e_inval
      else if climbs (segments relative)
      then fail e_perm
      else if ltb (size_max - 2) (length relative)
          || ltb (size_max - length relative - 2) (length root)
      then fail e_nametoolong
      else if not (alloc (length root + length relative + 2))
      then fail e_nomem
      else ok (join_parts root (segments relative))

  -- A default folder under the folder that a variable names; `sizeof` counts the final 0.
  abbrev pub data_under : Text → Text → Result Text
  data_under base tail =
      if ltb (size_max - (length tail + 1)) (length base)
      then fail e_nametoolong
      else if not (alloc (length base + (length tail + 1)))
      then fail e_nomem
      else normalize_absolute (some (base ++ tail))

  -- The arguments are SWORD3_DATA_DIR, XDG_DATA_HOME and HOME as `getenv` gives them.
  unfoldable pub make_data_root : Option Text → Option Text → Option Text → Result Text
  make_data_root configured xdg home =
      if is_set configured
      then normalize_absolute configured
      else if is_set xdg
      then (if not (is_absolute xdg)
          then fail e_inval
          else data_under (text_of xdg) (bytes "/sword3"))
      else if not (is_absolute home)
      then fail e_noent
      else data_under (text_of home) (bytes "/.local/share/sword3")
