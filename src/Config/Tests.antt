-- ===== src/Config/Tests.antt =====
-- Runs of config.c on a small file.
use machismo_sword.Base.{◌≡◌, refl, some, List, [], ◌∷◌, ◌++◌, arith}
use machismo_sword.Config.{
  Text, bytes, Config, named, zero_config, strip, skip_spaces, drop_end, is_space,
  parse_hex_address, same_text, split_at, behind, set_trampoline, set_general, open_section,
  set_key, read_stripped, read_lines, config_load,
}
use machismo_sword.Config.Strip.{AllSpace, StartsFull, EndsFull, strip_lem}
use machismo_sword.Config.Hex.{print_hex, parse-print}
use machismo_sword.Config.Bounds.{Fits, config_load-Fits}

abbrev file : List Text
file =
    bytes "# machismo"
    ∷ bytes "patches = p.conf "
    ∷ bytes "[trampoline.sdl2]"
    ∷ bytes " prefix = _SDL_"
    ∷ []

abbrev loaded : Config
loaded = record zero_config {
  patches = some (bytes "p.conf");
  trampolines = record (named (bytes "sdl2")) { prefixes = bytes "_SDL_" ∷ [] } ∷ [];
}

loads : config_load (some file) ≡ some loaded
unfolding config_load read_lines read_stripped set_key set_general set_trampoline open_section
    behind split_at same_text strip skip_spaces drop_end is_space
loads = refl

config_load-Fits_example : Fits loaded
config_load-Fits_example = config_load-Fits file loaded loads

strip_example :
    let s = bytes "  a b " in
    (lead : Text) × (trail : Text) × AllSpace lead
    × AllSpace trail
    × (s ≡ lead ++ (strip s ++ trail))
    × StartsFull (strip s)
    × EndsFull (strip s)
strip_example = strip_lem (bytes "  a b ")

parse-print_example :
    (parse_hex_address (print_hex 16 0x100001000 []) ≡ some 0x100001000)
    × (parse_hex_address (b'0' ∷ b'x' ∷ print_hex 16 0x100001000 []) ≡ some 0x100001000)
parse-print_example = parse-print 0x100001000 (omega arith)
