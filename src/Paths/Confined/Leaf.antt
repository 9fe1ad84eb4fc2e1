-- ===== src/Paths/Confined/Leaf.antt =====
-- What holds through the part of `sword3_paths_atomic_write` of paths.c that works on the new file.
use machismo_sword.Base.{
  ℕ, zero, suc, ◌+◌, ◌≡◌, refl, inl, inr, false, Option, none, some, Option-cases, [], ◌∷◌, arith,
}
use machismo_sword.Config.{Text}
use machismo_sword.Paths.{ok, fail, Result-cases}
use machismo_sword.Paths.System.{
  Call, openat_new, close, fchmod, write, fsync, renameat, unlinkat, Trace, Kernel, after, Run,
}
use machismo_sword.Paths.Write.{
  write_all, create_temporary, abort, replace_leaf, close_file, sync_file, finish_write, fill_file,
  temporary_name,
}
use machismo_sword.Paths.Loops.{write_all_inv}
use machismo_sword.Paths.Confined.{is_rename, IsConfined}

module _ (kernel : Kernel) (P : Trace → Type 0)
    (keep : (call : Call) (t : Trace)
      → is_rename call ≡ false
      → IsConfined call
      → P t
      → P (after kernel call t)) where
  pub create_temporary_inv :
      (pid parent left attempt : ℕ) (kept : Text) (t : Trace)
      → P t
      → P (create_temporary kernel pid parent left attempt kept t).trace
  unfolding create_temporary
  create_temporary_inv pid parent zero attempt kept t p = p
  create_temporary_inv pid parent (suc left) attempt kept t p =
      let name = temporary_name pid attempt in
      let p' = keep (openat_new parent name) t refl tt p in
      ground (
        arith,
        p,
        p',
        create_temporary_inv pid parent left (attempt + 1) name
            (after kernel (openat_new parent name) t) p',
      )

  pub abort_inv :
      (parent e : ℕ) (fd : Option ℕ) (temporary : Text) (t : Trace)
      → P t
      → P (abort kernel parent e fd temporary t).1
  unfolding abort
  abort_inv parent e none [] t p = keep (close parent) t refl tt p
  abort_inv parent e none (c ∷ s) t p =
      keep (close parent) _ refl tt (keep (unlinkat parent (c ∷ s)) t refl tt p)
  abort_inv parent e (some fd) [] t p = keep (close parent) _ refl tt (keep (close fd) t refl tt p)
  abort_inv parent e (some fd) (c ∷ s) t p =
      keep (close parent) _ refl tt
        (keep (unlinkat parent (c ∷ s)) _ refl tt (keep (close fd) t refl tt p))

  abbrev pub Ends : Option (Run (Unit {0})) → Type 0
  Ends none = Unit {0}
  Ends (some (r, t)) = P t

  module _ (parent : ℕ) (leaf temporary : Text)
      (keep_rename : (t : Trace)
        → P t
        → P (after kernel (renameat parent temporary parent leaf) t)) where
    replace_leaf_inv : (t : Trace) → P t → P (replace_leaf kernel parent leaf temporary t).1
    unfolding replace_leaf
    replace_leaf_inv t p =
        let t' = after kernel (renameat parent temporary parent leaf) t in
        let p' = keep_rename t p in
        let p'' = keep (fsync parent) t' refl tt p' in
        elim (Result-cases (kernel t (renameat parent temporary parent leaf))) [
          | inr (e, failed) ↦ ground (arith, abort_inv parent e none temporary t' p')
          | inl (n, done) ↦ elim (Result-cases (kernel t' (fsync parent))) [
            | inr (e, failed) ↦
                ground (arith, abort_inv parent e none [] (after kernel (fsync parent) t') p'')
            | inl (m, synced) ↦
                ground (arith, keep (close parent) (after kernel (fsync parent) t') refl tt p'')
          ]
        ]

    close_file_inv : (fd : ℕ) (t : Trace) → P t → P (close_file kernel parent leaf temporary fd t).1
    unfolding close_file
    close_file_inv fd t p =
        let t' = after kernel (close fd) t in
        let p' = keep (close fd) t refl tt p in
        elim (Result-cases (kernel t (close fd))) [
          | inr (e, failed) ↦ ground (arith, abort_inv parent e none temporary t' p')
          | inl (n, done) ↦ ground (arith, replace_leaf_inv t' p')
        ]

    sync_file_inv : (fd : ℕ) (t : Trace) → P t → P (sync_file kernel parent leaf temporary fd t).1
    unfolding sync_file
    sync_file_inv fd t p =
        let t' = after kernel (fsync fd) t in
        let p' = keep (fsync fd) t refl tt p in
        elim (Result-cases (kernel t (fsync fd))) [
          | inr (e, failed) ↦ ground (arith, abort_inv parent e (some fd) temporary t' p')
          | inl (n, done) ↦ ground (arith, close_file_inv fd t' p')
        ]

    finish_write_inv :
        (fd : ℕ) (o : Option (Run (Unit {0})))
        → Ends o
        → Ends (finish_write kernel parent leaf temporary fd o)
    finish_write_inv fd none p = tt
    finish_write_inv fd (some (fail e, u)) p = abort_inv parent e (some fd) temporary u p
    finish_write_inv fd (some (ok x, u)) p = sync_file_inv fd u p

    write_all-Ends :
        (fuel fd : ℕ) (s : Text) (t : Trace) → P t → Ends (write_all kernel fuel fd s t)
    write_all-Ends fuel fd s t p = elim (Option-cases (write_all kernel fuel fd s t)) [
      | inl out ↦ rw out tt
      | inr ((r, t'), run) ↦
          rw run
            (write_all_inv kernel fd P (λ s u q. keep (write fd s) u refl tt q) fuel s t t' r p run)
    ]

    pub fill_file_inv :
        (fuel fd : ℕ) (payload : Text) (mode : ℕ) (t : Trace)
        → P t
        → Ends (fill_file kernel fuel parent leaf temporary fd payload mode t)
    unfolding fill_file
    fill_file_inv fuel fd payload mode t p =
        let t' = after kernel (fchmod fd mode) t in
        let p' = keep (fchmod fd mode) t refl tt p in
        elim (Result-cases (kernel t (fchmod fd mode))) [
          | inr (e, failed) ↦ ground (arith, abort_inv parent e (some fd) temporary t' p')
          | inl (n, done) ↦ ground (
            arith,
            finish_write_inv fd (write_all kernel fuel fd payload t')
                (write_all-Ends fuel fd payload t' p'),
          )
        ]
