-- ===== src/Paths/System.antt =====
-- The system calls of src/ports/sword3/paths.c. The kernel is an argument: its answer may depend in
-- any way on the calls before, so it stands for every file system and every other process.
use machismo_sword.Base.{ℕ, List, ◌∷◌}
use machismo_sword.Config.{Text}
use machismo_sword.Paths.{Result}

-- The flags are part of the name: `open_folder` is O_RDONLY | O_DIRECTORY | O_CLOEXEC, with
-- O_NOFOLLOW in `openat_folder`; `openat_new` is O_WRONLY | O_CREAT | O_EXCL | O_CLOEXEC |
-- O_NOFOLLOW with mode 0600; `dup` is F_DUPFD_CLOEXEC from 3 on. `stat` answers 1 for a folder
-- and 0 for anything else.
pub data Call : Type 0 where
  open_folder : Text → Call
  dup : ℕ → Call
  openat_folder : ℕ → Text → Call
  openat_new : ℕ → Text → Call
  close : ℕ → Call
  mkdir : Text → ℕ → Call
  mkdirat : ℕ → Text → ℕ → Call
  stat : Text → Call
  fchmod : ℕ → ℕ → Call
  write : ℕ → Text → Call
  fsync : ℕ → Call
  renameat : ℕ → Text → ℕ → Text → Call
  unlinkat : ℕ → Text → Call

-- A call and its answer: a number, or `errno`.
pub data Exchange : Type 0 where
  exchange : Call → Result ℕ → Exchange

-- The calls so far, the last one first.
abbrev pub Trace : Type 0
Trace = List Exchange

abbrev pub Kernel : Type 0
Kernel = Trace → Call → Result ℕ

module _ (kernel : Kernel) where
  abbrev pub after : Call → Trace → Trace
  after call t = exchange call (kernel t call) ∷ t

-- A result, and the calls up to it.
abbrev pub Run {ℓ} : Type ℓ → Type ℓ
Run A = Result A × Trace

abbrev pub e_intr : ℕ
e_intr = 4

abbrev pub e_io : ℕ
e_io = 5

abbrev pub e_exist : ℕ
e_exist = 17

abbrev pub e_notdir : ℕ
e_notdir = 20

abbrev pub e_loop : ℕ
e_loop = 40
