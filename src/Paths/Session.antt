-- ===== src/Paths/Session.antt =====
-- `sword3_paths_init` followed by `sword3_paths_destroy` of paths.c: the handle of the data folder.
use machismo_sword.Base.{
  ℕ, suc, ◌≡◌, ◌<◌, subst, inl, inr, Bool, Option, some, [], ◌∷◌, arith, Bool-cases,
}
use machismo_sword.Config.{Text}
use machismo_sword.Paths.{
  Result, ok, fail, Result-cases, prefix, is_set, normalize_absolute, make_data_root,
}
use machismo_sword.Paths.System.{open_folder, dup, Trace, Kernel, after}
use machismo_sword.Paths.Folders.{
  Paths, Environment, make_folder, make_folders, behind_first, mkdirs, keep_handle, open_data,
  init_paths, destroy_paths,
}
use machismo_sword.Paths.Handles.{Moved, one, opens, closes}

module _ (kernel : Kernel) (f : ℕ) where
  make_folder-Moved :
      (path : Text) (mode : ℕ) (t : Trace) → Moved f 0 0 t (make_folder kernel path mode t).1
  unfolding make_folder
  make_folder-Moved path mode t = ground arith

  make_folders-Moved :
      (path : Text) (mode cursor : ℕ) (s : Text) (t : Trace)
      → Moved f 0 0 t (make_folders kernel path mode cursor s t).1
  unfolding make_folders
  make_folders-Moved path mode cursor [] t = make_folder-Moved path mode t
  make_folders-Moved path mode cursor (c ∷ s) t =
      let made = make_folder kernel (prefix cursor path) mode t in
      let m = make_folder-Moved (prefix cursor path) mode t in
      elim (Result-cases made.0) [
        | inr (e, failed) ↦ ground (arith, make_folders-Moved path mode (suc cursor) s t)
        | inl (u, done) ↦ ground (
          arith,
          make_folders-Moved path mode (suc cursor) s t,
          make_folders-Moved path mode (suc cursor) s made.1,
        )
      ]

  -- The handle that a result holds.
  abbrev held_handle : Result Paths → ℕ
  held_handle (fail e) = 0
  held_handle (ok paths) = one f paths.data_dir_fd

  module _ (alloc : ℕ → Bool) where
    mkdirs-Moved :
        (path : Option Text) (mode : ℕ) (t : Trace)
        → Moved f 0 0 t (mkdirs kernel alloc path mode t).1
    unfolding mkdirs
    mkdirs-Moved path mode t = elim (Result-cases (normalize_absolute alloc path)) [
      | inr (e, failed) ↦ ground arith
      | inl (normalized, done) ↦
          ground (arith, make_folders-Moved normalized mode 1 (behind_first normalized) t)
    ]

    keep_handle-Moved :
        (bundle_dir data_dir : Text) (fd : ℕ) (t : Trace)
        → let r = keep_handle kernel bundle_dir data_dir fd t in
          Moved f (held_handle r.0) (one f fd) t r.1
    unfolding keep_handle
    keep_handle-Moved bundle_dir data_dir fd t = ground arith

    open_data-Moved :
        (bundle_dir data_dir : Text) (t : Trace)
        → let r = open_data kernel alloc bundle_dir data_dir t in Moved f (held_handle r.0) 0 t r.1
    unfolding open_data
    open_data-Moved bundle_dir data_dir t =
        let made = mkdirs kernel alloc (some data_dir) 493 t in
        let m = mkdirs-Moved (some data_dir) 493 t in
        elim (Result-cases made.0) [
          | inr (e, failed) ↦ ground arith
          | inl (u, done) ↦ elim (Result-cases (kernel made.1 (open_folder data_dir))) [
            | inr (e, failed) ↦ ground arith
            | inl (fd, opened) ↦ ground (
              arith,
              keep_handle-Moved bundle_dir data_dir fd (after kernel (open_folder data_dir) made.1),
            )
          ]
        ]

    init_paths-Moved :
        (env : Environment) (t : Trace)
        → let r = init_paths kernel alloc env t in Moved f (held_handle r.0) 0 t r.1
    unfolding init_paths
    init_paths-Moved env t = elim (Result-cases (normalize_absolute alloc env.bundle)) [
      | inr (e, failed) ↦ ground arith
      | inl (bundle_dir, done) ↦
          elim (Result-cases (make_data_root alloc env.configured env.xdg env.home)) [
            | inr (e, failed) ↦ ground arith
            | inl (data_dir, found) ↦ ground (arith, open_data-Moved bundle_dir data_dir t)
          ]
    ]

    -- The handle is above the standard ones.
    abbrev AboveTwo : Result Paths → Type 0
    AboveTwo (fail e) = Unit {0}
    AboveTwo (ok paths) = 2 < paths.data_dir_fd

    module _ (dup_above : (t : Trace) (fd n : ℕ) → kernel t (dup fd) ≡ ok n → 2 < n) where
      keep_handle-AboveTwo :
          (bundle_dir data_dir : Text) (fd : ℕ) (t : Trace)
          → AboveTwo (keep_handle kernel bundle_dir data_dir fd t).0
      unfolding keep_handle
      keep_handle-AboveTwo bundle_dir data_dir fd t = elim (Result-cases (kernel t (dup fd))) [
        | inr (e, failed) ↦ rw (failed, keep_handle) tt
        | inl (n, made) ↦ rw (made, keep_handle) (dup_above t fd n made)
      ]

      open_data-AboveTwo :
          (bundle_dir data_dir : Text) (t : Trace)
          → AboveTwo (open_data kernel alloc bundle_dir data_dir t).0
      unfolding open_data
      open_data-AboveTwo bundle_dir data_dir t =
          let made = mkdirs kernel alloc (some data_dir) 493 t in
          elim (Result-cases made.0) [
            | inr (e, failed) ↦ rw (failed, open_data) tt
            | inl (u, done) ↦ elim (Result-cases (kernel made.1 (open_folder data_dir))) [
              | inr (e, failed) ↦ rw (done, failed, open_data) tt
              | inl (fd, opened) ↦
                  rw (done, opened, open_data) (keep_handle-AboveTwo bundle_dir data_dir fd _)
            ]
          ]

      init_paths-AboveTwo :
          (env : Environment) (t : Trace) → AboveTwo (init_paths kernel alloc env t).0
      unfolding init_paths
      init_paths-AboveTwo env t = elim (Bool-cases (is_set env.bundle)) [
        | inr unset ↦ rw (unset, init_paths) tt
        | inl given ↦ elim (Result-cases (normalize_absolute alloc env.bundle)) [
          | inr (e, failed) ↦ rw (given, failed, init_paths) tt
          | inl (bundle_dir, done) ↦
              elim (Result-cases (make_data_root alloc env.configured env.xdg env.home)) [
                | inr (e, failed) ↦ rw (given, done, failed, init_paths) tt
                | inl (data_dir, found) ↦
                    rw (given, done, found, init_paths) (open_data-AboveTwo bundle_dir data_dir t)
              ]
        ]
      ]

      -- For a kernel that duplicates descriptors from 3 on, as F_DUPFD_CLOEXEC is told to, and
      -- any malloc: after sword3_paths_init succeeds and sword3_paths_destroy, every descriptor
      -- was closed as often as it was given out.
      pub init_paths-destroy_paths-Balanced :
          (env : Environment) (paths : Paths) (t : Trace)
          → init_paths kernel alloc env [] ≡ (ok paths, t)
          → opens f (destroy_paths kernel paths t).1 ≡ closes f (destroy_paths kernel paths t).1
      unfolding destroy_paths
      init_paths-destroy_paths-Balanced env paths t run =
          let above : 2 < paths.data_dir_fd =
            subst (λ r. AboveTwo r.0) run (init_paths-AboveTwo env []) in
          let moved : Moved f (one f paths.data_dir_fd) 0 [] t =
            subst (λ r. Moved f (held_handle r.0) 0 [] r.1) run (init_paths-Moved env []) in
          ground arith
