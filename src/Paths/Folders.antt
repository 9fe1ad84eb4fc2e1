-- ===== src/Paths/Folders.antt =====
-- `sword3_paths_mkdirs`, `_init`, `_destroy`, `_resource` and `_data` of src/ports/sword3/paths.c.
use machismo_sword.Base.{
  ℕ, suc, Bool, true, false, not, Option, none, some, [], ◌∷◌, ltb, ◌==◌, if◌then◌else◌,
}
use machismo_sword.Config.{Text}
use machismo_sword.Paths.{
  Result, ok, fail, e_noent, e_inval, slash, is_set, prefix, normalize_absolute, join_relative,
  make_data_root,
}
use machismo_sword.Paths.System.{
  open_folder, dup, close, mkdir, stat, Trace, Kernel, after, Run, e_exist, e_notdir,
}

-- `Sword3Paths`.
pub record Paths : Type 0 where
  pub bundle_dir : Option Text
  pub data_dir : Option Text
  pub data_dir_fd : ℕ

-- The four variables of the environment that are read.
pub record Environment : Type 0 where
  pub bundle : Option Text
  pub configured : Option Text
  pub xdg : Option Text
  pub home : Option Text

abbrev pub not_a_folder : Result (Unit {0}) → Result (Unit {0})
not_a_folder (ok u) = ok u
not_a_folder (fail e) = fail (if e == e_exist then e_notdir else e)

abbrev pub behind_first : Text → Text
behind_first [] = []
behind_first (c ∷ s) = s

module _ (kernel : Kernel) where
  -- One folder: it is made, or it is there.
  unfoldable pub make_folder : Text → ℕ → Trace → Run (Unit {0})
  make_folder path mode t =
      let t' = after kernel (mkdir path mode) t in
      let t'' = after kernel (stat path) t' in
      elim (kernel t (mkdir path mode)) [
        | ok n ↦ (ok tt, t')
        | fail e ↦ if not (e == e_exist) then (fail e, t') else elim (kernel t' (stat path)) [
          | fail e' ↦ (fail e', t'')
          | ok kind ↦ if kind == 1 then (ok tt, t'') else (fail e_exist, t'')
        ]
      ]

  -- The loop: `cursor` is a position in the path, and the last argument the text there.
  unfoldable pub make_folders : Text → ℕ → ℕ → Text → Trace → Run (Unit {0})
  make_folders path mode cursor [] t =
      let made = make_folder path mode t in (not_a_folder made.0, made.1)
  make_folders path mode cursor (c ∷ s) t = elim (c == slash) [
    | false ↦ make_folders path mode (suc cursor) s t
    | true ↦
        let made = make_folder (prefix cursor path) mode t in
        elim made.0 [
          | fail e ↦ (fail e, made.1)
          | ok u ↦ make_folders path mode (suc cursor) s made.1
        ]
  ]

  -- From the open folder on.
  unfoldable pub keep_handle : Text → Text → ℕ → Trace → Run Paths
  keep_handle bundle_dir data_dir data_fd t =
      let t' = after kernel (dup data_fd) t in
      let t'' = after kernel (close data_fd) t' in
      elim (kernel t (dup data_fd)) [
        | fail e ↦ (fail e, t'')
        | ok fd ↦ (
          ok (record { bundle_dir = some bundle_dir; data_dir = some data_dir; data_dir_fd = fd }),
          t'',
        )
      ]

  module _ (alloc : ℕ → Bool) where
    unfoldable pub mkdirs : Option Text → ℕ → Trace → Run (Unit {0})
    unfolding make_folders
    mkdirs path mode t = elim (normalize_absolute alloc path) [
      | fail e ↦ (fail e, t)
      | ok normalized ↦ make_folders normalized mode 1 (behind_first normalized) t
    ]

    unfoldable pub open_data : Text → Text → Trace → Run Paths
    unfolding keep_handle mkdirs
    open_data bundle_dir data_dir t =
        let made = mkdirs (some data_dir) 493 t in
        elim made.0 [
          | fail e ↦ (fail e, made.1)
          | ok u ↦
              let t' = after kernel (open_folder data_dir) made.1 in
              elim (kernel made.1 (open_folder data_dir)) [
                | fail e ↦ (fail e, t')
                | ok data_fd ↦ keep_handle bundle_dir data_dir data_fd t'
              ]
        ]

    -- `sword3_paths_init`
    unfoldable pub init_paths : Environment → Trace → Run Paths
    unfolding open_data
    init_paths env t =
        if not (is_set env.bundle)
        then (fail e_noent, t)
        else elim (normalize_absolute alloc env.bundle) [
          | fail e ↦ (fail e, t)
          | ok bundle_dir ↦ elim (make_data_root alloc env.configured env.xdg env.home) [
            | fail e ↦ (fail e, t)
            | ok data_dir ↦ open_data bundle_dir data_dir t
          ]
        ]

  -- `sword3_paths_destroy`
  unfoldable pub destroy_paths : Paths → Trace → Paths × Trace
  destroy_paths paths t = (
    record { bundle_dir = none; data_dir = none; data_dir_fd = 0 },
    if ltb 0 paths.data_dir_fd then after kernel (close paths.data_dir_fd) t else t,
  )

module _ (alloc : ℕ → Bool) where
  -- `sword3_paths_resource`
  unfoldable pub resource : Paths → Option Text → Result Text
  resource paths relative = elim paths.bundle_dir [
    | none ↦ fail e_inval
    | some root ↦ join_relative alloc (some root) relative
  ]

  -- `sword3_paths_data`
  unfoldable pub data_path : Paths → Option Text → Result Text
  data_path paths relative = elim paths.data_dir [
    | none ↦ fail e_inval
    | some root ↦ join_relative alloc (some root) relative
  ]
