-- ===== src/Paths/Handles.antt =====
-- The file descriptors that paths.c opens and closes.
pub mod Whole
use machismo_sword.Base.{
  ℕ, zero, suc, ◌+◌, ◌≡◌, refl, inl, inr, Bool, true, false, Option, none, some, List, [], ◌∷◌,
  ◌==◌, if◌then◌else◌, to_int, arith,
}
use machismo_sword.Config.{Text}
use machismo_sword.Paths.{Result, ok, fail, Result-cases, tokens}
use machismo_sword.Paths.System.{
  Call, open_folder, dup, openat_folder, openat_new, close, mkdir, mkdirat, stat, fchmod, write,
  fsync, renameat, unlinkat, Exchange, exchange, Trace, Kernel, after, Run,
}
use machismo_sword.Paths.Write.{
  write_all, give_up, open_child, enter_folder, walk, open_data_parent, create_temporary, abort,
  replace_leaf, close_file, sync_file, finish_write, fill_file, write_leaf, atomic_write,
  temporary_name,
}
use machismo_sword.Paths.Loops.{write_all_inv}

abbrev pub gives_handle : Call → Bool
gives_handle (open_folder path) = true
gives_handle (dup fd) = true
gives_handle (openat_folder fd name) = true
gives_handle (openat_new fd name) = true
gives_handle (close fd) = false
gives_handle (mkdir path mode) = false
gives_handle (mkdirat fd name mode) = false
gives_handle (stat path) = false
gives_handle (fchmod fd mode) = false
gives_handle (write fd s) = false
gives_handle (fsync fd) = false
gives_handle (renameat fd name fd' name') = false
gives_handle (unlinkat fd name) = false

abbrev pub takes_handle : ℕ → Call → Bool
takes_handle f (open_folder path) = false
takes_handle f (dup fd) = false
takes_handle f (openat_folder fd name) = false
takes_handle f (openat_new fd name) = false
takes_handle f (close fd) = f == fd
takes_handle f (mkdir path mode) = false
takes_handle f (mkdirat fd name mode) = false
takes_handle f (stat path) = false
takes_handle f (fchmod fd mode) = false
takes_handle f (write fd s) = false
takes_handle f (fsync fd) = false
takes_handle f (renameat fd name fd' name') = false
takes_handle f (unlinkat fd name) = false

module _ (f : ℕ) where
  -- 1 for the descriptor `f`, 0 for another one.
  abbrev pub one : ℕ → ℕ
  one fd = to_int (f == fd)

  -- Does the exchange give out the descriptor `f`?
  abbrev pub opened : Exchange → ℕ
  opened (exchange call (fail e)) = 0
  opened (exchange call (ok fd)) = if gives_handle call then one fd else 0

  abbrev pub closed : Exchange → ℕ
  closed (exchange call answer) = to_int (takes_handle f call)

  -- How often the descriptor `f` is given out, and how often it is closed.
  abbrev pub opens : Trace → ℕ
  opens [] = 0
  opens (e ∷ t) = opened e + opens t

  abbrev pub closes : Trace → ℕ
  closes [] = 0
  closes (e ∷ t) = closed e + closes t

  -- Between two traces, `gain` more are open and `lost` fewer.
  abbrev pub Moved : ℕ → ℕ → Trace → Trace → Type 0
  Moved gain lost t t' = opens t' + closes t + lost ≡ closes t' + opens t + gain

  -- The descriptor in a result.
  abbrev pub held : Result ℕ → ℕ
  held (fail e) = 0
  held (ok fd) = one fd

  abbrev pub held_parent : Result (ℕ × Text) → ℕ
  held_parent (fail e) = 0
  held_parent (ok (fd, leaf)) = one fd

  abbrev pub spent {ℓ} : {A : Type ℓ} → ℕ → Result A → ℕ
  spent fd (fail e) = 0
  spent fd (ok a) = one fd

  module _ (kernel : Kernel) where
    open_child-Moved :
        (fd : ℕ) (name : Text) (t : Trace)
        → let r = open_child kernel fd name t in Moved (held r.0) (spent fd r.0) t r.1
    unfolding open_child
    open_child-Moved fd name t = ground arith

    enter_folder-Moved :
        (fd : ℕ) (name : Text) (t : Trace)
        → let r = enter_folder kernel fd name t in Moved (held r.0) (spent fd r.0) t r.1
    unfolding enter_folder
    enter_folder-Moved fd name t =
        ground (arith, open_child-Moved fd name (after kernel (mkdirat fd name 493) t))

    give_up-Moved :
        (e fd : ℕ) (t : Trace)
        → let r = give_up kernel e fd t in Moved (held_parent r.0) (one fd) t r.1
    unfolding give_up
    give_up-Moved e fd t = ground arith

    module _ (alloc : ℕ → Bool) where
      walk-Moved :
          (fd : ℕ) (pending : Option Text) (parts : List Text) (t : Trace)
          → let r = walk kernel alloc fd pending parts t in Moved (held_parent r.0) (one fd) t r.1
      unfolding walk
      walk-Moved fd none [] t = ground (arith, give_up-Moved 22 fd t)
      walk-Moved fd (some leaf) [] t = ground (arith, give_up-Moved 12 fd t)
      walk-Moved fd none (part ∷ parts) t = ground (
        arith,
        give_up-Moved 1 fd t,
        walk-Moved fd none parts t,
        walk-Moved fd (some part) parts t,
      )
      walk-Moved fd (some folder) (part ∷ parts) t =
          let entered = enter_folder kernel fd folder t in
          let m = enter_folder-Moved fd folder t in
          elim (Result-cases entered.0) [
            | inr (e, failed) ↦ ground (
              arith,
              give_up-Moved 1 fd t,
              walk-Moved fd (some folder) parts t,
              give_up-Moved e fd entered.1,
            )
            | inl (child, made) ↦ ground (
              arith,
              give_up-Moved 1 fd t,
              walk-Moved fd (some folder) parts t,
              walk-Moved child (some part) parts entered.1,
            )
          ]

      pub open_data_parent-Moved :
          (data_fd : ℕ) (relative : Option Text) (t : Trace)
          → let r = open_data_parent kernel alloc data_fd relative t in
            Moved (held_parent r.0) 0 t r.1
      unfolding open_data_parent
      open_data_parent-Moved data_fd none t = ground arith
      open_data_parent-Moved data_fd (some relative) t =
          elim (Result-cases (kernel t (dup data_fd))) [
            | inr (e, failed) ↦ ground arith
            | inl (fd, made) ↦
                ground (arith, walk-Moved fd none (tokens relative) (after kernel (dup data_fd) t))
          ]
