-- ===== src/Paths/Handles/Whole.antt =====
-- `sword3_paths_atomic_write` of paths.c closes the descriptors that it opens.
use machismo_sword.Base.{
  ℕ, zero, suc, ◌+◌, ◌≡◌, refl, inl, inr, Bool, Option, none, some, [], ◌∷◌, arith,
}
use machismo_sword.Config.{Text}
use machismo_sword.Paths.{Result, ok, fail, Result-cases}
use machismo_sword.Paths.System.{
  openat_new, close, fchmod, fsync, renameat, Trace, Kernel, after, Run,
}
use machismo_sword.Paths.Write.{
  write_all, open_data_parent, create_temporary, abort, replace_leaf, close_file, sync_file,
  finish_write, fill_file, write_leaf, atomic_write, temporary_name,
}
use machismo_sword.Paths.Loops.{write_all_inv}
use machismo_sword.Paths.Handles.{Moved, one, held, opens, closes, open_data_parent-Moved}

module _ (f : ℕ) (kernel : Kernel) (alloc : ℕ → Bool) (pid : ℕ) where
  write_all-Moved :
      (fuel fd : ℕ) (s : Text) (t t' : Trace) (r : Result (Unit {0}))
      → write_all kernel fuel fd s t ≡ some (r, t')
      → Moved f 0 0 t t'
  write_all-Moved fuel fd s t t' r h =
      write_all_inv kernel fd (λ u. Moved f 0 0 t u) (λ s u m. ground arith) fuel s t t' r
        (omega arith) h

  create_temporary-Moved :
      (pid parent left attempt : ℕ) (kept : Text) (t : Trace)
      → let a = create_temporary kernel pid parent left attempt kept t in
        Moved f (held f a.result) 0 t a.trace
  unfolding create_temporary
  create_temporary-Moved pid parent zero attempt kept t = omega arith
  create_temporary-Moved pid parent (suc left) attempt kept t = ground (
    arith,
    create_temporary-Moved pid parent left (attempt + 1) (temporary_name pid attempt)
        (after kernel (openat_new parent (temporary_name pid attempt)) t),
  )

  abort-Moved :
      (parent e : ℕ) (temporary : Text) (t : Trace)
      → Moved f 0 (one f parent) t (abort kernel parent e none temporary t).1
  unfolding abort
  abort-Moved parent e [] t = ground arith
  abort-Moved parent e (c ∷ s) t = ground arith

  abort_open-Moved :
      (parent e fd : ℕ) (temporary : Text) (t : Trace)
      → Moved f 0 (one f parent + one f fd) t (abort kernel parent e (some fd) temporary t).1
  unfolding abort
  abort_open-Moved parent e fd [] t = ground arith
  abort_open-Moved parent e fd (c ∷ s) t = ground arith

  replace_leaf-Moved :
      (parent : ℕ) (leaf temporary : Text) (t : Trace)
      → Moved f 0 (one f parent) t (replace_leaf kernel parent leaf temporary t).1
  unfolding replace_leaf
  replace_leaf-Moved parent leaf temporary t =
      let t' = after kernel (renameat parent temporary parent leaf) t in
      elim (Result-cases (kernel t (renameat parent temporary parent leaf))) [
        | inr (e, failed) ↦ ground (arith, abort-Moved parent e temporary t')
        | inl (n, done) ↦ elim (Result-cases (kernel t' (fsync parent))) [
          | inr (e, failed) ↦
              ground (arith, abort-Moved parent e [] (after kernel (fsync parent) t'))
          | inl (m, synced) ↦ ground arith
        ]
      ]

  close_file-Moved :
      (parent : ℕ) (leaf temporary : Text) (fd : ℕ) (t : Trace)
      → Moved f 0 (one f parent + one f fd) t (close_file kernel parent leaf temporary fd t).1
  unfolding close_file
  close_file-Moved parent leaf temporary fd t =
      let t' = after kernel (close fd) t in
      elim (Result-cases (kernel t (close fd))) [
        | inr (e, failed) ↦ ground (arith, abort-Moved parent e temporary t')
        | inl (n, done) ↦ ground (arith, replace_leaf-Moved parent leaf temporary t')
      ]

  sync_file-Moved :
      (parent : ℕ) (leaf temporary : Text) (fd : ℕ) (t : Trace)
      → Moved f 0 (one f parent + one f fd) t (sync_file kernel parent leaf temporary fd t).1
  unfolding sync_file
  sync_file-Moved parent leaf temporary fd t =
      let t' = after kernel (fsync fd) t in
      elim (Result-cases (kernel t (fsync fd))) [
        | inr (e, failed) ↦ ground (arith, abort_open-Moved parent e fd temporary t')
        | inl (n, done) ↦ ground (arith, close_file-Moved parent leaf temporary fd t')
      ]

  finish_write-Moved :
      (parent : ℕ) (leaf temporary : Text) (fd : ℕ) (o : Option (Run (Unit {0}))) (t t' : Trace)
      (r : Result (Unit {0}))
      → ((u : Trace) (x : Result (Unit {0})) → o ≡ some (x, u) → Moved f 0 0 t u)
      → finish_write kernel parent leaf temporary fd o ≡ some (r, t')
      → Moved f 0 (one f parent + one f fd) t t'
  finish_write-Moved parent leaf temporary fd none t t' r m h = cc
  finish_write-Moved parent leaf temporary fd (some (fail e, u)) t t' r m h =
      ground (arith, m u (fail e) refl, abort_open-Moved parent e fd temporary u)
  finish_write-Moved parent leaf temporary fd (some (ok x, u)) t t' r m h =
      ground (arith, m u (ok x) refl, sync_file-Moved parent leaf temporary fd u)

  fill_file-Moved :
      (fuel parent : ℕ) (leaf temporary : Text) (fd : ℕ) (payload : Text) (mode : ℕ) (t t' : Trace)
      (r : Result (Unit {0}))
      → fill_file kernel fuel parent leaf temporary fd payload mode t ≡ some (r, t')
      → Moved f 0 (one f parent + one f fd) t t'
  unfolding fill_file
  fill_file-Moved fuel parent leaf temporary fd payload mode t t' r h =
      let t1 = after kernel (fchmod fd mode) t in
      elim (Result-cases (kernel t (fchmod fd mode))) [
        | inr (e, failed) ↦ ground (arith, abort_open-Moved parent e fd temporary t1)
        | inl (n, done) ↦ ground (
          arith,
          finish_write-Moved parent leaf temporary fd (write_all kernel fuel fd payload t1) t1 t' r
              (λ u x e. write_all-Moved fuel fd payload t1 u x e),
        )
      ]

  write_leaf-Moved :
      (fuel parent : ℕ) (leaf payload : Text) (mode : ℕ) (t t' : Trace) (r : Result (Unit {0}))
      → write_leaf kernel pid fuel parent leaf payload mode t ≡ some (r, t')
      → Moved f 0 (one f parent) t t'
  unfolding write_leaf
  write_leaf-Moved fuel parent leaf payload mode t t' r h =
      let a = create_temporary kernel pid parent 128 0 [] t in
      let m = create_temporary-Moved pid parent 128 0 [] t in
      elim (Result-cases a.result) [
        | inr (e, failed) ↦ ground (arith, abort-Moved parent e a.temporary a.trace)
        | inl (fd, made) ↦
            ground
              (arith, fill_file-Moved fuel parent leaf a.temporary fd payload mode a.trace t' r)
      ]

  -- For any kernel, any malloc and any end, errors included: sword3_paths_atomic_write closes
  -- every descriptor as often as the kernel has given it out.
  pub atomic_write-Balanced :
      (fuel errno data_fd : ℕ) (relative payload : Option Text) (mode : ℕ) (t : Trace)
      (r : Result (Unit {0}))
      → atomic_write kernel alloc pid fuel errno data_fd relative payload mode [] ≡ some (r, t)
      → opens f t ≡ closes f t
  unfolding atomic_write
  atomic_write-Balanced fuel errno data_fd relative none mode t r h = ground arith
  atomic_write-Balanced fuel errno data_fd relative (some payload) mode t r h =
      let o = open_data_parent kernel alloc data_fd relative [] in
      let m = open_data_parent-Moved f kernel alloc data_fd relative [] in
      elim (Result-cases o.0) [
        | inr (e, failed) ↦ ground arith
        | inl ((parent, leaf), made) ↦
            ground (arith, write_leaf-Moved fuel parent leaf payload mode o.1 t r)
      ]
