-- ===== src/Paths/Tests.antt =====
-- Runs of paths.c.
use machismo_sword.Base.{
  ℕ, ◌<◌, ◌≡◌, refl, Bool, true, false, Option, none, some, [], ◌++◌, length, ◌==◌, if◌then◌else◌,
  arith,
}
use machismo_sword.Config.{Text, bytes, same_text}
use machismo_sword.Paths.{
  Result, ok, fail, segments, tokens, prefix, back_to_slash, drop_part, add_part, add_parts,
  make_data_root, join_part, join_parts, climbs, normalize_absolute, join_relative,
}
use machismo_sword.Paths.Parts.{IsName, Each}
use machismo_sword.Paths.Normalize.{
  absolute, normal, normalize_absolute_lem, normalize_absolute_twice,
}
use machismo_sword.Paths.Join.{without_dots, join_relative-Under}
use machismo_sword.Paths.System.{
  Call, open_folder, dup, openat_folder, openat_new, write, Trace, Kernel, Run, e_intr,
}
use machismo_sword.Paths.Write.{
  behind_written, decimal, temporary_name, write_all, give_up, open_child, enter_folder, walk,
  open_data_parent, create_temporary, abort, replace_leaf, close_file, sync_file, fill_file,
  write_leaf, atomic_write,
}
use machismo_sword.Paths.Folders.{
  Paths, Environment, make_folder, make_folders, mkdirs, keep_handle, open_data, init_paths,
  destroy_paths,
}
use machismo_sword.Paths.Contents.{interrupts}
use machismo_sword.Paths.Confined.{Confined}
use machismo_sword.Paths.Confined.Whole.{atomic_write-Confined, atomic_write_ends}
use machismo_sword.Paths.Handles.{opens, closes}
use machismo_sword.Paths.Handles.Whole.{atomic_write-Balanced}
use machismo_sword.Paths.Order.{Outcome, atomic_write-Outcome}
use machismo_sword.Paths.Cleanup.{is_left, atomic_write_cleans}
use machismo_sword.Paths.Session.{init_paths-destroy_paths-Balanced}

abbrev plenty : ℕ → Bool
plenty n = true

normalizes : normalize_absolute plenty (some (bytes "//a/./bc/../d/")) ≡ ok (bytes "/a/d")
unfolding normalize_absolute tokens segments add_parts add_part drop_part back_to_slash prefix
    same_text
normalizes = refl

joins : join_relative plenty (some (bytes "/a/d")) (some (bytes "b//./c")) ≡ ok (bytes "/a/d/b/c")
unfolding join_relative climbs segments join_parts join_part same_text
joins = refl

normalize_absolute_lem_example :
    let path = bytes "//a/./bc/../d/" in
    (bytes "/a/d" ≡ absolute (normal (tokens path))) × Each IsName (normal (tokens path))
normalize_absolute_lem_example =
    normalize_absolute_lem plenty (bytes "//a/./bc/../d/") (bytes "/a/d") normalizes

normalize_absolute_twice_example :
    normalize_absolute plenty (some (bytes "/a/d")) ≡ ok (bytes "/a/d")
normalize_absolute_twice_example =
    normalize_absolute_twice plenty (bytes "//a/./bc/../d/") (bytes "/a/d") normalizes refl refl

join_relative-Under_example :
    let path = bytes "//a/./bc/../d/" in
    let relative = bytes "b//./c" in
    (bytes "/a/d/b/c" ≡ absolute (normal (tokens path) ++ without_dots (tokens relative)))
    × (bytes "/a/d" ≡ absolute (normal (tokens path)))
    × Each IsName (normal (tokens path))
    × Each IsName (without_dots (tokens relative))
join_relative-Under_example =
    join_relative-Under plenty (bytes "//a/./bc/../d/") (bytes "/a/d") (bytes "b//./c")
      (bytes "/a/d/b/c") normalizes joins

-- A kernel whose first write is interrupted and whose other writes take two bytes at most.
abbrev answer : Call → Bool → ℕ → Result ℕ
answer (dup fd) first n = ok 3
answer (openat_folder fd name) first n = ok 4
answer (openat_new fd name) first n = ok 5
answer (open_folder path) first n = ok 6
answer (write fd s) first n = if first then fail e_intr else ok (if n == 1 then 1 else 2)
answer call first n = ok 0

abbrev size_of : Call → ℕ
size_of (write fd s) = length s
size_of call = 0

abbrev kernel : Kernel
kernel t call = answer call (interrupts t == 0) (size_of call)

abbrev relative : Option Text
relative = some (bytes "saves/slot")

abbrev payload : Text
payload = bytes "xyz"

run : Option (Run (Unit {0}))
unfolding atomic_write write_leaf
run = atomic_write kernel plenty 77 4 0 3 relative (some payload) 420 []

abbrev trace_of : Option (Run (Unit {0})) → Trace
trace_of none = []
trace_of (some r) = r.1

runs :
    atomic_write kernel plenty 77 4 0 3 relative (some payload) 420 [] ≡ some (ok tt, trace_of run)
unfolding run open_data_parent walk enter_folder open_child give_up create_temporary temporary_name
    decimal fill_file write_all behind_written sync_file close_file replace_leaf abort tokens
    segments prefix same_text atomic_write write_leaf
runs = refl

few : (t : Trace) (fd : ℕ) (s : Text) → kernel t (write fd s) ≡ fail e_intr → interrupts t < 1
few t fd s h = ground arith

atomic_write_ends_example :
    (y : Run (Unit {0})) × (atomic_write kernel plenty 77 4 0 3 relative (some payload) 420 []
      ≡ some y)
atomic_write_ends_example =
    atomic_write_ends kernel plenty 77 1 few 4 0 3 relative payload 420 (omega arith)

atomic_write-Confined_example : Confined (trace_of run)
atomic_write-Confined_example =
    atomic_write-Confined kernel plenty 77 4 0 3 relative (some payload) 420 (trace_of run) (ok tt)
      runs

atomic_write-Balanced_example : opens 4 (trace_of run) ≡ closes 4 (trace_of run)
atomic_write-Balanced_example =
    atomic_write-Balanced 4 kernel plenty 77 4 0 3 relative (some payload) 420 (trace_of run)
      (ok tt) runs

atomic_write-Outcome_example : Outcome payload (ok tt, trace_of run)
atomic_write-Outcome_example =
    atomic_write-Outcome kernel payload plenty 77 4 0 3 relative 420 (ok tt, trace_of run) runs

atomic_write_cleans_example : is_left 4 (bytes ".sword3-tmp-77-0") (trace_of run) ≡ false
atomic_write_cleans_example =
    atomic_write_cleans kernel plenty 77 4 (bytes ".sword3-tmp-77-0") 4 0 3 relative (some payload)
      420 (trace_of run) (ok tt) runs

abbrev environment : Environment
environment = record {
  bundle = some (bytes "/opt/game");
  configured = none;
  xdg = some (bytes "/x/.");
  home = some (bytes "/home/u");
}

abbrev paths : Paths
paths = record {
  bundle_dir = some (bytes "/opt/game");
  data_dir = some (bytes "/x/sword3");
  data_dir_fd = 3;
}

started : Run Paths
unfolding init_paths
started = init_paths kernel plenty environment []

starts : init_paths kernel plenty environment [] ≡ (ok paths, started.1)
unfolding started init_paths make_data_root open_data mkdirs make_folders make_folder keep_handle
    normalize_absolute tokens segments add_parts add_part drop_part back_to_slash prefix same_text
starts = refl

above : (t : Trace) (fd n : ℕ) → kernel t (dup fd) ≡ ok n → 2 < n
above t fd n h = ground arith

init_paths-destroy_paths-Balanced_example :
    opens 3 (destroy_paths kernel paths started.1).1
    ≡ closes 3 (destroy_paths kernel paths started.1).1
init_paths-destroy_paths-Balanced_example =
    init_paths-destroy_paths-Balanced kernel 3 plenty above environment paths started.1 starts
