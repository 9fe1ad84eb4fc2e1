-- ===== src/Paths/Cleanup.antt =====
-- What `sword3_paths_atomic_write` of paths.c leaves of its new files.
use machismo_sword.Base.{
  ℕ, zero, suc, ◌+◌, ◌≡◌, refl, inl, inr, Bool, true, false, not, ◌&&◌, Option, none, some, [], ◌∷◌,
  ◌==◌, if◌then◌else◌, arith,
}
use machismo_sword.Config.{Text, same_text}
use machismo_sword.Paths.{Result, ok, fail, Result-cases, is_empty}
use machismo_sword.Paths.System.{
  Call, dup, openat_new, close, fchmod, fsync, renameat, unlinkat, exchange, Trace, Kernel, after,
  Run,
}
use machismo_sword.Paths.Write.{
  write_all, open_data_parent, create_temporary, abort, replace_leaf, close_file, sync_file,
  finish_write, fill_file, write_leaf, atomic_write, temporary_name,
}
use machismo_sword.Paths.Confined.{is_walk, IsConfined, open_data_parent_inv}
use machismo_sword.Paths.Loops.{write_all_inv}

module _ (folder : ℕ) (file : Text) where
  abbrev names : ℕ → Text → Bool
  names fd name = (fd == folder) && same_text name file

  -- Is `file` in the folder left over, when it was before the call?
  abbrev pub left_after : Call → Result ℕ → Bool → Bool
  left_after (openat_new fd name) (ok n) old = if names fd name then true else old
  left_after (renameat fd name fd' name') (ok n) old = if names fd name then false else old
  left_after (unlinkat fd name) answer old = if names fd name then false else old
  left_after call answer old = old

  -- Was the file made anew in the folder, with neither a successful rename of it nor a call that
  -- unlinks it after that?
  abbrev pub is_left : Trace → Bool
  is_left [] = false
  is_left (exchange call answer ∷ t) = left_after call answer (is_left t)

  module _ (kernel : Kernel) where
    -- Nothing is left but, at most, the file of that name.
    abbrev Only : ℕ → Text → Trace → Type 0
    Only parent temporary t = (is_left t && not (names parent temporary)) ≡ false

    abort_lem :
        (parent e c : ℕ) (fd : Option ℕ) (name : Text) (t : Trace)
        → Only parent (c ∷ name) t
        → is_left (abort kernel parent e fd (c ∷ name) t).1 ≡ false
    unfolding abort
    abort_lem parent e c none name t h = ground arith
    abort_lem parent e c (some fd) name t h = ground arith

    abort_clean :
        (parent e : ℕ) (fd : Option ℕ) (t : Trace)
        → is_left t ≡ false
        → is_left (abort kernel parent e fd [] t).1 ≡ false
    unfolding abort
    abort_clean parent e none t h = h
    abort_clean parent e (some fd) t h = h

    module _ (parent : ℕ) (leaf : Text) (c : ℕ) (name : Text) where
      replace_leaf_lem :
          (t : Trace)
          → Only parent (c ∷ name) t
          → is_left (replace_leaf kernel parent leaf (c ∷ name) t).1 ≡ false
      unfolding replace_leaf
      replace_leaf_lem t h =
          let rename = renameat parent (c ∷ name) parent leaf in
          let t' = after kernel rename t in
          elim (Result-cases (kernel t rename)) [
            | inr (e, failed) ↦ ground (arith, abort_lem parent e c none name t')
            | inl (n, done) ↦ elim (Result-cases (kernel t' (fsync parent))) [
              | inr (e, failed) ↦
                  ground (arith, abort_clean parent e none (after kernel (fsync parent) t'))
              | inl (m, synced) ↦ ground arith
            ]
          ]

      close_file_lem :
          (fd : ℕ) (t : Trace)
          → Only parent (c ∷ name) t
          → is_left (close_file kernel parent leaf (c ∷ name) fd t).1 ≡ false
      unfolding close_file
      close_file_lem fd t h = elim (Result-cases (kernel t (close fd))) [
        | inr (e, failed) ↦
            ground (arith, abort_lem parent e c none name (after kernel (close fd) t))
        | inl (n, done) ↦ ground (arith, replace_leaf_lem (after kernel (close fd) t))
      ]

      sync_file_lem :
          (fd : ℕ) (t : Trace)
          → Only parent (c ∷ name) t
          → is_left (sync_file kernel parent leaf (c ∷ name) fd t).1 ≡ false
      unfolding sync_file
      sync_file_lem fd t h = elim (Result-cases (kernel t (fsync fd))) [
        | inr (e, failed) ↦
            ground (arith, abort_lem parent e c (some fd) name (after kernel (fsync fd) t))
        | inl (n, done) ↦ ground (arith, close_file_lem fd (after kernel (fsync fd) t))
      ]

      finish_write_lem :
          (fd : ℕ) (o : Option (Run (Unit {0}))) (r : Result (Unit {0})) (t : Trace)
          → ((x : Result (Unit {0})) (u : Trace) → o ≡ some (x, u) → Only parent (c ∷ name) u)
          → finish_write kernel parent leaf (c ∷ name) fd o ≡ some (r, t)
          → is_left t ≡ false
      finish_write_lem fd none r t h run = cc
      finish_write_lem fd (some (fail e, u)) r t h run =
          ground (arith, h (fail e) u refl, abort_lem parent e c (some fd) name u)
      finish_write_lem fd (some (ok x, u)) r t h run =
          ground (arith, h (ok x) u refl, sync_file_lem fd u)

      fill_file_lem :
          (fuel fd : ℕ) (payload : Text) (mode : ℕ) (t t' : Trace) (r : Result (Unit {0}))
          → Only parent (c ∷ name) t
          → fill_file kernel fuel parent leaf (c ∷ name) fd payload mode t ≡ some (r, t')
          → is_left t' ≡ false
      unfolding fill_file
      fill_file_lem fuel fd payload mode t t' r h run =
          let u = after kernel (fchmod fd mode) t in
          elim (Result-cases (kernel t (fchmod fd mode))) [
            | inr (e, failed) ↦ ground (arith, abort_lem parent e c (some fd) name u)
            | inl (n, done) ↦
                finish_write_lem fd (write_all kernel fuel fd payload u) r t'
                  (λ x v e.
                    write_all_inv kernel fd (Only parent (c ∷ name)) (λ s w q. q) fuel payload u v x
                      h e)
                  (ground arith)
          ]

    -- The attempts up to a new file leave at most that file, and otherwise nothing.
    create_temporary-Only :
        (pid parent left attempt fd : ℕ) (kept : Text) (t : Trace)
        → is_left t ≡ false
        → let a = create_temporary kernel pid parent left attempt kept t in
          a.result ≡ ok fd → Only parent a.temporary a.trace
    unfolding create_temporary
    create_temporary-Only pid parent zero attempt fd kept t h made = ground arith
    create_temporary-Only pid parent (suc left) attempt fd kept t h made =
        let name = temporary_name pid attempt in
        ground (
          arith,
          create_temporary-Only pid parent left (attempt + 1) fd name
              (after kernel (openat_new parent name) t),
        )

    create_temporary_fail :
        (pid parent left attempt e : ℕ) (kept : Text) (t : Trace)
        → is_left t ≡ false
        → let a = create_temporary kernel pid parent left attempt kept t in
          a.result ≡ fail e → is_left a.trace ≡ false
    unfolding create_temporary
    create_temporary_fail pid parent zero attempt e kept t h made = ground arith
    create_temporary_fail pid parent (suc left) attempt e kept t h made =
        let name = temporary_name pid attempt in
        ground (
          arith,
          create_temporary_fail pid parent left (attempt + 1) e name
              (after kernel (openat_new parent name) t),
        )

    is_left-walk :
        (call : Call) (t : Trace)
        → is_walk call ≡ true
        → IsConfined call
        → is_left t ≡ false
        → is_left (after kernel call t) ≡ false
    is_left-walk (renameat fd name fd' name') t q safe h = cc
    is_left-walk (openat_new fd name) t q safe h = cc
    is_left-walk (unlinkat fd name) t q safe h = cc
    is_left-walk (dup fd) t q safe h = h
    is_left-walk call t q safe h = h

    abort_any :
        (parent e : ℕ) (fd : Option ℕ) (name : Text) (t : Trace)
        → is_left t ≡ false
        → is_left (abort kernel parent e fd name t).1 ≡ false
    abort_any parent e fd [] t h = abort_clean parent e fd t h
    abort_any parent e fd (c ∷ name) t h = abort_lem parent e c fd name t (ground arith)

    fill_named :
        (parent : ℕ) (leaf temporary : Text) (fuel fd : ℕ) (payload : Text) (mode : ℕ)
        (t t' : Trace) (r : Result (Unit {0}))
        → is_empty temporary ≡ false
        → Only parent temporary t
        → fill_file kernel fuel parent leaf temporary fd payload mode t ≡ some (r, t')
        → is_left t' ≡ false
    fill_named parent leaf [] fuel fd payload mode t t' r full h run = cc
    fill_named parent leaf (c ∷ name) fuel fd payload mode t t' r full h run =
        fill_file_lem parent leaf c name fuel fd payload mode t t' r h run

module _ (kernel : Kernel) (alloc : ℕ → Bool) (pid : ℕ) where
  temporary_full :
      (parent left attempt fd : ℕ) (kept : Text) (t : Trace)
      → let a = create_temporary kernel pid parent left attempt kept t in
        a.result ≡ ok fd → is_empty a.temporary ≡ false
  unfolding create_temporary
  temporary_full parent zero attempt fd kept t made = ground arith
  temporary_full parent (suc left) attempt fd kept t made =
      let name = temporary_name pid attempt in
      let full : is_empty name ≡ false = unfold temporary_name in refl in
      ground (
        arith,
        full,
        temporary_full parent left (attempt + 1) fd name (after kernel (openat_new parent name) t),
      )

  module _ (folder : ℕ) (file : Text) where
    write_leaf_lem :
        (fuel parent : ℕ) (leaf payload : Text) (mode : ℕ) (t t' : Trace) (r : Result (Unit {0}))
        → is_left folder file t ≡ false
        → write_leaf kernel pid fuel parent leaf payload mode t ≡ some (r, t')
        → is_left folder file t' ≡ false
    unfolding write_leaf
    write_leaf_lem fuel parent leaf payload mode t t' r h run =
        let a = create_temporary kernel pid parent 128 0 [] t in
        elim (Result-cases a.result) [
          | inr (e, failed) ↦
              let clean =
                create_temporary_fail folder file kernel pid parent 128 0 e [] t h failed in
              ground (arith, abort_any folder file kernel parent e none a.temporary a.trace clean)
          | inl (fd, made) ↦
              fill_named folder file kernel parent leaf a.temporary fuel fd payload mode a.trace t'
                r (temporary_full parent 128 0 fd [] t made)
                (create_temporary-Only folder file kernel pid parent 128 0 fd [] t h made)
                (ground arith)
        ]

    -- For any kernel, any malloc and any end, errors included: after sword3_paths_atomic_write no
    -- file that it made anew in a folder is left without a rename of it that succeeded or a later
    -- call that unlinks it.
    pub atomic_write_cleans :
        (fuel errno data_fd : ℕ) (relative payload : Option Text) (mode : ℕ) (t : Trace)
        (r : Result (Unit {0}))
        → atomic_write kernel alloc pid fuel errno data_fd relative payload mode [] ≡ some (r, t)
        → is_left folder file t ≡ false
    unfolding atomic_write
    atomic_write_cleans fuel errno data_fd relative none mode t r run = ground arith
    atomic_write_cleans fuel errno data_fd relative (some payload) mode t r run =
        let o = open_data_parent kernel alloc data_fd relative [] in
        let (leaf_named, h) =
          open_data_parent_inv kernel (λ u. is_left folder file u ≡ false)
            (is_left-walk folder file kernel) alloc data_fd relative [] refl in
        elim (Result-cases o.0) [
          | inr (e, failed) ↦ ground arith
          | inl ((parent, leaf), found) ↦
              write_leaf_lem fuel parent leaf payload mode o.1 t r h (ground arith)
        ]
