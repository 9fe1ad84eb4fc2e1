-- ===== src/Paths/Write.antt =====
-- `write_all`, `open_data_parent` and `sword3_paths_atomic_write` of src/ports/sword3/paths.c.
use machismo_sword.Base.{
  ℕ, zero, suc, ◌+◌, ◌/◌, ◌%◌, Bool, true, false, not, ◌||◌, Option, none, some, List, [], ◌∷◌,
  ◌++◌, length, ltb, leb, ◌==◌, if◌then◌else◌,
}
use machismo_sword.Config.{Text, bytes}
use machismo_sword.Paths.{
  Result, ok, fail, e_perm, e_inval, e_nomem, e_nametoolong, starts_slash, is_dot, is_dot_dot,
  tokens, prefix,
}
use machismo_sword.Paths.System.{
  dup, openat_folder, openat_new, close, mkdirat, fchmod, write, fsync, renameat, unlinkat, Trace,
  Kernel, after, Run, e_intr, e_io, e_exist, e_loop,
}

-- What is left behind the bytes that were written.
unfoldable pub behind_written : ℕ → Text → Text
behind_written zero s = s
behind_written (suc n) [] = []
behind_written (suc n) (c ∷ s) = behind_written n s

-- A number as `%u` and `%ld` print it; the fuel is the number of digits.
unfoldable pub decimal : ℕ → ℕ → Text
decimal zero n = []
decimal (suc fuel) n =
    let high = decimal fuel (n / 10) in
    if ltb n 10 then (n + b'0') ∷ [] else high ++ ((n % 10 + b'0') ∷ [])

-- The name of an attempt; a `long` has 20 characters at most.
unfoldable pub temporary_name : ℕ → ℕ → Text
temporary_name pid attempt = bytes ".sword3-tmp-" ++ (decimal 20 pid ++ (b'-' ∷ decimal 20 attempt))

-- The end of the loop over the attempts: an open file, or `errno`; and what stands in `temporary`.
pub record Attempts : Type 0 where
  pub result : Result ℕ
  pub temporary : Text
  pub trace : Trace

module _ (kernel : Kernel) where
  -- The loop of `write_all` on fuel: `none` means that it ran out.
  unfoldable pub write_all : ℕ → ℕ → Text → Trace → Option (Run (Unit {0}))
  write_all fuel fd [] t = some (ok tt, t)
  write_all zero fd (c ∷ s) t = none
  write_all (suc fuel) fd (c ∷ s) t =
      let t' = after kernel (write fd (c ∷ s)) t in
      elim (kernel t (write fd (c ∷ s))) [
        | fail e ↦ elim (e == e_intr) [
          | true ↦ write_all fuel fd (c ∷ s) t'
          | false ↦ some (fail e, t')
        ]
        | ok n ↦ elim (n == 0) [
          | true ↦ some (fail e_io, t')
          | false ↦ write_all fuel fd (behind_written n (c ∷ s)) t'
        ]
      ]

  -- The label `fail` of `open_data_parent`.
  unfoldable pub give_up : ℕ → ℕ → Trace → Run (ℕ × Text)
  give_up e fd t = (fail e, after kernel (close fd) t)

  unfoldable pub open_child : ℕ → Text → Trace → Run ℕ
  open_child fd name t =
      let t' = after kernel (openat_folder fd name) t in
      elim (kernel t (openat_folder fd name)) [
        | fail e ↦ (fail (if e == e_loop then e_perm else e), t')
        | ok child ↦ (ok child, after kernel (close fd) t')
      ]

  -- The body of the loop for a component that is not the last one.
  unfoldable pub enter_folder : ℕ → Text → Trace → Run ℕ
  unfolding open_child
  enter_folder fd name t =
      let t' = after kernel (mkdirat fd name 493) t in
      elim (kernel t (mkdirat fd name 493)) [
        | fail e ↦ if not (e == e_exist) then (fail e, t') else open_child fd name t'
        | ok n ↦ open_child fd name t'
      ]

  module _ (alloc : ℕ → Bool) where
    -- The loop of `open_data_parent`, with `fd` and `pending`, and what follows it.
    unfoldable pub walk : ℕ → Option Text → List Text → Trace → Run (ℕ × Text)
    walk fd none [] t = give_up e_inval fd t
    walk fd (some leaf) [] t =
        if alloc (length leaf + 1) then (ok (fd, leaf), t) else give_up e_nomem fd t
    walk fd pending (part ∷ parts) t = elim (is_dot_dot part) [
      | true ↦ give_up e_perm fd t
      | false ↦ elim (is_dot part) [
        | true ↦ walk fd pending parts t
        | false ↦ elim pending [
          | none ↦ walk fd (some part) parts t
          | some folder ↦
              let entered = enter_folder fd folder t in
              elim entered.0 [
                | fail e ↦ give_up e fd entered.1
                | ok child ↦ walk child (some part) parts entered.1
              ]
        ]
      ]
    ]

    -- `data_fd` is `paths->data_dir_fd`.
    unfoldable pub open_data_parent : ℕ → Option Text → Trace → Run (ℕ × Text)
    open_data_parent data_fd none t = (fail e_inval, t)
    open_data_parent data_fd (some relative) t =
        if (data_fd == 0) || starts_slash relative
        then (fail e_inval, t)
        else if not (alloc (length relative + 1))
        then (fail e_nomem, t)
        else elim (kernel t (dup data_fd)) [
          | fail e ↦ (fail e, after kernel (dup data_fd) t)
          | ok fd ↦ walk fd none (tokens relative) (after kernel (dup data_fd) t)
        ]

  -- The loop over the attempts: those left, the number of this one, and what `temporary` holds.
  unfoldable pub create_temporary : ℕ → ℕ → ℕ → ℕ → Text → Trace → Attempts
  create_temporary pid parent zero attempt held t = record {
    result = fail e_exist;
    temporary = held;
    trace = t;
  }
  create_temporary pid parent (suc left) attempt held t =
      let name = temporary_name pid attempt in
      let t' = after kernel (openat_new parent name) t in
      elim (leb 96 (length name)) [
        | true ↦ record { result = fail e_nametoolong; temporary = prefix 95 name; trace = t }
        | false ↦ elim (kernel t (openat_new parent name)) [
          | ok fd ↦ record { result = ok fd; temporary = name; trace = t' }
          | fail e ↦ elim (e == e_exist) [
            | true ↦ create_temporary pid parent left (attempt + 1) name t'
            | false ↦ record { result = fail e; temporary = name; trace = t' }
          ]
        ]
      ]

  abbrev pub close_open : Option ℕ → Trace → Trace
  close_open none t = t
  close_open (some fd) t = after kernel (close fd) t

  abbrev pub unlink_left : ℕ → Text → Trace → Trace
  unlink_left parent [] t = t
  unlink_left parent (c ∷ s) t = after kernel (unlinkat parent (c ∷ s)) t

  -- The label `done` with `rc` -1: the open file if there is one, and what `temporary` holds.
  unfoldable pub abort : ℕ → ℕ → Option ℕ → Text → Trace → Run (Unit {0})
  abort parent e fd temporary t =
      (fail e, after kernel (close parent) (unlink_left parent temporary (close_open fd t)))

  -- From the closed file to the end.
  unfoldable pub replace_leaf : ℕ → Text → Text → Trace → Run (Unit {0})
  unfolding abort
  replace_leaf parent leaf temporary t =
      let rename = renameat parent temporary parent leaf in
      let t' = after kernel rename t in
      elim (kernel t rename) [
        | fail e ↦ abort parent e none temporary t'
        | ok n ↦ elim (kernel t' (fsync parent)) [
          | fail e ↦ abort parent e none [] (after kernel (fsync parent) t')
          | ok m ↦ (ok tt, after kernel (close parent) (after kernel (fsync parent) t'))
        ]
      ]

  unfoldable pub close_file : ℕ → Text → Text → ℕ → Trace → Run (Unit {0})
  unfolding abort replace_leaf
  close_file parent leaf temporary fd t =
      let t' = after kernel (close fd) t in
      elim (kernel t (close fd)) [
        | fail e ↦ abort parent e none temporary t'
        | ok n ↦ replace_leaf parent leaf temporary t'
      ]

  unfoldable pub sync_file : ℕ → Text → Text → ℕ → Trace → Run (Unit {0})
  unfolding abort close_file
  sync_file parent leaf temporary fd t =
      let t' = after kernel (fsync fd) t in
      elim (kernel t (fsync fd)) [
        | fail e ↦ abort parent e (some fd) temporary t'
        | ok n ↦ close_file parent leaf temporary fd t'
      ]

  abbrev pub finish_write : ℕ → Text → Text → ℕ → Option (Run (Unit {0})) → Option (Run (Unit {0}))
  finish_write parent leaf temporary fd none = none
  finish_write parent leaf temporary fd (some (fail e, t)) =
      some (abort parent e (some fd) temporary t)
  finish_write parent leaf temporary fd (some (ok u, t)) =
      some (sync_file parent leaf temporary fd t)

  -- From the open file on.
  unfoldable pub fill_file : ℕ → ℕ → Text → Text → ℕ → Text → ℕ → Trace → Option (Run (Unit {0}))
  unfolding abort sync_file write_all
  fill_file fuel parent leaf temporary fd payload mode t =
      let t' = after kernel (fchmod fd mode) t in
      elim (kernel t (fchmod fd mode)) [
        | fail e ↦ some (abort parent e (some fd) temporary t')
        | ok n ↦ finish_write parent leaf temporary fd (write_all fuel fd payload t')
      ]

  -- The loop over the attempts and what follows it.
  unfoldable pub write_leaf : ℕ → ℕ → ℕ → Text → Text → ℕ → Trace → Option (Run (Unit {0}))
  unfolding abort fill_file create_temporary
  write_leaf pid fuel parent leaf payload mode t =
      let a = create_temporary pid parent 128 0 [] t in
      elim a.result [
        | fail e ↦ some (abort parent e none a.temporary a.trace)
        | ok fd ↦ fill_file fuel parent leaf a.temporary fd payload mode a.trace
      ]

  module _ (alloc : ℕ → Bool) (pid : ℕ) where
    -- `sword3_paths_atomic_write`: `payload` is `none` for a null pointer with a size that is not 0,
    -- and `errno` is what it was before. The fuel is that of `write_all`.
    unfoldable pub atomic_write :
        ℕ → ℕ → ℕ → Option Text → Option Text → ℕ → Trace → Option (Run (Unit {0}))
    unfolding write_leaf open_data_parent
    atomic_write fuel errno data_fd relative none mode t = some (fail errno, t)
    atomic_write fuel errno data_fd relative (some payload) mode t =
        let opened = open_data_parent alloc data_fd relative t in
        elim opened.0 [
          | fail e ↦ some (fail e, opened.1)
          | ok (parent, leaf) ↦ write_leaf pid fuel parent leaf payload mode opened.1
        ]
