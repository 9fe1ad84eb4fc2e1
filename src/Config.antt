-- ===== src/Config.antt =====
-- src/config.h and src/config.c: the INI file of the loader. A text is the list of its bytes, none of
-- them 0, and a file is the list of the lines that `fgets` gives, 511 bytes each at most.
pub mod Strip
pub mod Bounds
pub mod Hex
mod Tests
use Prim.Native.Char.{Char, code}
use Prim.Native.String as S
use Prim.Native.String.{String}
use machismo_sword.Base.{
  ℕ, zero, suc, ◌+◌, ◌-◌, ◌*◌, ◌%◌, ◌^◌, Bool, true, false, not, ◌&&◌, ◌||◌, Option, none, some,
  List, [], ◌∷◌, ◌++◌, length, get_or, set, ltb, leb, ◌==◌, if◌then◌else◌,
}

abbrev pub Text : Type 0
Text = List ℕ

-- A text of ASCII characters.
abbrev pub bytes : String → Text
bytes S.[] = []
bytes (S.◌∷◌ c s) = code c ∷ bytes s

unfoldable pub same_text : Text → Text → Bool
same_text [] [] = true
same_text [] (d ∷ t) = false
same_text (c ∷ s) [] = false
same_text (c ∷ s) (d ∷ t) = (c == d) && same_text s t

-- `isspace` in the C locale.
unfoldable pub is_space : ℕ → Bool
is_space c = (c == 32) || (leb 9 c && leb c 13)

unfoldable pub skip_spaces : Text → Text
skip_spaces [] = []
skip_spaces (c ∷ s) = if is_space c then skip_spaces s else c ∷ s

-- The second loop of `strip`: the text up to its last byte that is no space.
unfoldable pub drop_end : Text → Text
drop_end [] = []
drop_end (c ∷ s) =
    let rest = drop_end s in
    elim rest [ [] ↦ if is_space c then [] else c ∷ [] | d ∷ t ↦ c ∷ d ∷ t ]

unfoldable pub strip : Text → Text
unfolding skip_spaces drop_end
strip s = drop_end (skip_spaces s)

-- `strchr`, with what stands before the byte and behind it.
unfoldable pub split_at : ℕ → Text → Option (Text × Text)
split_at c [] = none
split_at c (d ∷ s) =
    let rest = split_at c s in
    if d == c
    then some ([], s)
    else elim rest [ none ↦ none | some (before, after) ↦ some (d ∷ before, after) ]

-- The value of a hexadecimal digit.
unfoldable pub hex_value : ℕ → Option ℕ
hex_value c =
    if leb b'0' c && leb c b'9'
    then some (c - b'0')
    else if leb b'a' c && leb c b'f'
    then some (c - b'a' + 10)
    else if leb b'A' c && leb c b'F'
    then some (c - b'A' + 10)
    else none

-- The digits that `strtoull` takes, and the text behind them.
unfoldable pub take_hex : ℕ → Text → ℕ × Text
take_hex value [] = (value, [])
take_hex value (c ∷ s) = elim (hex_value c) [
  | none ↦ (value, c ∷ s)
  | some d ↦ take_hex (value * 16 + d) s
]

abbrev pub starts_hex : Text → Bool
starts_hex [] = false
starts_hex (c ∷ s) = elim (hex_value c) [ none ↦ false | some d ↦ true ]

-- The prefix 0x, which counts only before a digit.
unfoldable pub drop_0x : Text → Text
drop_0x [] = []
drop_0x (a ∷ []) = a ∷ []
drop_0x (a ∷ x ∷ s) =
    if (a == b'0') && ((x == b'x') || (x == b'X')) && starts_hex s then s else a ∷ x ∷ s

abbrev pub drop_sign : Text → Bool × Text
drop_sign [] = (false, [])
drop_sign (c ∷ s) =
    if c == b'-' then (true, s) else if c == b'+' then (false, s) else (false, c ∷ s)

-- `parse_hex_address`, by what strtoull does in base 16: spaces and a sign are skipped, a value
-- past 64 bits is an error, and a negative one wraps around.
unfoldable pub parse_hex_address : Text → Option ℕ
unfolding skip_spaces drop_0x take_hex
parse_hex_address value =
    let signed = drop_sign (skip_spaces value) in
    let digits = drop_0x signed.1 in
    let parsed = take_hex 0 digits in
    if not (starts_hex digits)
    then none
    else if not (length parsed.1 == 0) || leb (2 ^ 64) parsed.0
    then none
    else some (if signed.0 then (2 ^ 64 - parsed.0) % 2 ^ 64 else parsed.0)

abbrev pub max_trampolines : ℕ
max_trampolines = 8

abbrev pub max_prefixes : ℕ
max_prefixes = 8

-- `machismo_trampoline_config_t`; a pointer that is null is `none`.
pub record Trampoline : Type 0 where
  pub name : Text
  pub lib : Option Text
  pub prefixes : List Text
  pub init_wrapper : Bool
  pub renderer : Option Text
  pub override_lib : Option Text
  pub match_local : Bool

-- `machismo_config_t`; `entry_override` is `none` where `has_entry_override` is 0.
pub record Config : Type 0 where
  pub dylib_map : Option Text
  pub patches : Option Text
  pub splash_image : Option Text
  pub address_hooks : Option Text
  pub entry_override : Option ℕ
  pub entry_expected : Option Text
  pub entry_prepare_lib : Option Text
  pub entry_prepare_symbol : Option Text
  pub audit_only : Bool
  pub trampolines : List Trampoline

abbrev pub named : Text → Trampoline
named name = record {
  name = name;
  lib = none;
  prefixes = [];
  init_wrapper = false;
  renderer = none;
  override_lib = none;
  match_local = false;
}

abbrev pub zero_config : Config
zero_config = record {
  dylib_map = none;
  patches = none;
  splash_image = none;
  address_hooks = none;
  entry_override = none;
  entry_expected = none;
  entry_prepare_lib = none;
  entry_prepare_symbol = none;
  audit_only = false;
  trampolines = [];
}

-- The variables of the loop in `config_load`: the configuration and `cur_tramp`, a position.
pub record Loader : Type 0 where
  pub config : Config
  pub current : Option ℕ

abbrev pub is_on : Text → Bool
is_on val = same_text val (bytes "true") || same_text val (bytes "1")

-- A key of a trampoline section.
unfoldable pub set_trampoline : Text → Text → Trampoline → Trampoline
set_trampoline key val t =
    if same_text key (bytes "lib")
    then record t { lib = some val }
    else if same_text key (bytes "prefix")
    then (if ltb (length t.prefixes) max_prefixes
        then record t { prefixes = t.prefixes ++ (val ∷ []) }
        else t)
    else if same_text key (bytes "init_wrapper")
    then record t { init_wrapper = is_on val }
    else if same_text key (bytes "renderer")
    then record t { renderer = some val }
    else if same_text key (bytes "override_lib")
    then record t { override_lib = some val }
    else if same_text key (bytes "match_local")
    then record t { match_local = is_on val }
    else t

-- A key outside the trampoline sections; `none` is an address that does not parse.
unfoldable pub set_general : Text → Text → Config → Option Config
set_general key val c =
    if same_text key (bytes "dylib_map")
    then some (record c { dylib_map = some val })
    else if same_text key (bytes "patches")
    then some (record c { patches = some val })
    else if same_text key (bytes "splash_image")
    then some (record c { splash_image = some val })
    else if same_text key (bytes "address_hooks")
    then some (record c { address_hooks = some val })
    else if same_text key (bytes "entry_override")
    then elim (parse_hex_address val) [
      | none ↦ none
      | some address ↦ some (record c { entry_override = some address })
    ]
    else if same_text key (bytes "entry_expected")
    then some (record c { entry_expected = some val })
    else if same_text key (bytes "entry_prepare_lib")
    then some (record c { entry_prepare_lib = some val })
    else if same_text key (bytes "entry_prepare_symbol")
    then some (record c { entry_prepare_symbol = some val })
    else if same_text key (bytes "audit_only")
    then some (record c { audit_only = is_on val })
    else some c

-- The name behind a prefix, as `strncmp` and the offset take it.
unfoldable pub behind : Text → Text → Option Text
behind [] s = some s
behind (p ∷ ps) [] = none
behind (p ∷ ps) (c ∷ s) = let rest = behind ps s in if p == c then rest else none

-- A section header. With eight trampolines a further section is read over and its keys count as
-- general ones.
unfoldable pub open_section : Text → Loader → Loader
open_section title l = elim (behind (bytes "trampoline.") title) [
  | none ↦ record l { current = none }
  | some name ↦
      if ltb (length l.config.trampolines) max_trampolines
      then record {
        config = record l.config { trampolines = l.config.trampolines ++ (named name ∷ []) };
        current = some (length l.config.trampolines);
      }
      else record l { current = none }
]

-- A key and its value.
unfoldable pub set_key : Text → Text → Loader → Option Loader
set_key key val l = elim l.current [
  | some k ↦ some (record l {
    config = record l.config {
      trampolines =
          set l.config.trampolines k
            (set_trampoline key val (get_or l.config.trampolines k (named [])));
    };
  })
  | none ↦ elim (set_general key val l.config) [
    | none ↦ none
    | some c ↦ some (record l { config = c })
  ]
]

-- A stripped line; `none` is the error return.
unfoldable pub read_stripped : Text → Loader → Option Loader
read_stripped [] l = some l
read_stripped (c ∷ s) l =
    if (c == b'#') || (c == b';')
    then some l
    else if c == b'['
    then elim (split_at b']' s) [ none ↦ some l | some (title, rest) ↦ some (open_section title l) ]
    else elim (split_at b'=' (c ∷ s)) [
      | none ↦ some l
      | some (key, val) ↦ set_key (strip key) (strip val) l
    ]

-- The loop of `config_load`.
unfoldable pub read_lines : List Text → Loader → Option Loader
read_lines [] l = some l
read_lines (line ∷ lines) l = elim (read_stripped (strip line) l) [
  | none ↦ none
  | some l' ↦ read_lines lines l'
]

-- `config_load`; `none` is a file that does not open. The result is `none` where the function
-- returns -1.
unfoldable pub config_load : Option (List Text) → Option Config
config_load none = none
config_load (some lines) =
    elim (read_lines lines (record { config = zero_config; current = none })) [
      | none ↦ none
      | some l ↦ some l.config
    ]

-- `config_free`: the strings go, and the configuration is zero again.
pub config_free : Config → Config
config_free c = zero_config
