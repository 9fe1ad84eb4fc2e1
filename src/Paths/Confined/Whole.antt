-- ===== src/Paths/Confined/Whole.antt =====
-- `sword3_paths_atomic_write` of paths.c as a whole: it comes to an end, and it names single
-- components only.
use machismo_sword.Base.{
  ℕ, ◌+◌, ◌≤◌, ◌<◌, ◌≡◌, refl, ap, ◌∙◌, inl, inr, ◌==◌, ==_iff, Bool-cases, Bool, true, false,
  Option, none, some, [], length, arith,
}
use machismo_sword.Config.{Text}
use machismo_sword.Paths.{Result, ok, fail, Result-cases}
use machismo_sword.Paths.Parts.{IsName}
use machismo_sword.Paths.System.{Call, fchmod, write, renameat, Trace, Kernel, after, Run, e_intr}
use machismo_sword.Paths.Write.{
  write_all, open_data_parent, create_temporary, finish_write, fill_file, write_leaf, atomic_write,
}
use machismo_sword.Paths.Contents.{interrupts, write_all_ends}
use machismo_sword.Paths.Confined.{is_walk, is_rename, IsConfined, Confined, open_data_parent_inv}
use machismo_sword.Paths.Confined.Leaf.{Ends, create_temporary_inv, abort_inv, fill_file_inv}

module _ (kernel : Kernel) (alloc : ℕ → Bool) (pid : ℕ) where
  module _ (P : Trace → Type 0)
      (keep : (call : Call) (t : Trace) → IsConfined call → P t → P (after kernel call t)) where
    quiet :
        (call : Call) (t : Trace)
        → is_rename call ≡ false
        → IsConfined call
        → P t
        → P (after kernel call t)
    quiet call t q = keep call t

    walking :
        (call : Call) (t : Trace)
        → is_walk call ≡ true
        → IsConfined call
        → P t
        → P (after kernel call t)
    walking call t q = keep call t

    write_leaf_inv :
        (fuel parent : ℕ) (leaf payload : Text) (mode : ℕ) (t : Trace)
        → IsName leaf
        → P t
        → Ends kernel P quiet (write_leaf kernel pid fuel parent leaf payload mode t)
    unfolding write_leaf
    write_leaf_inv fuel parent leaf payload mode t named p =
        let a = create_temporary kernel pid parent 128 0 [] t in
        let p' = create_temporary_inv kernel P quiet pid parent 128 0 [] t p in
        elim (Result-cases a.result) [
          | inr (e, failed) ↦
              rw (failed, write_leaf)
                (abort_inv kernel P quiet parent e none a.temporary a.trace p')
          | inl (fd, made) ↦
              rw (made, write_leaf)
                (fill_file_inv kernel P quiet parent leaf a.temporary
                  (λ u q. keep (renameat parent a.temporary parent leaf) u named q) fuel fd payload
                  mode a.trace p')
        ]

    atomic_write_inv :
        (fuel errno data_fd : ℕ) (relative payload : Option Text) (mode : ℕ) (t : Trace)
        → P t
        → Ends kernel P quiet
            (atomic_write kernel alloc pid fuel errno data_fd relative payload mode t)
    unfolding atomic_write
    atomic_write_inv fuel errno data_fd relative none mode t p = p
    atomic_write_inv fuel errno data_fd relative (some payload) mode t p =
        let o = open_data_parent kernel alloc data_fd relative t in
        let (leaf_named, p') = open_data_parent_inv kernel P walking alloc data_fd relative t p in
        elim (Result-cases o.0) [
          | inr (e, failed) ↦ rw (failed, atomic_write) p'
          | inl ((parent, leaf), found) ↦
              rw (found, atomic_write)
                (write_leaf_inv fuel parent leaf payload mode o.1 (rw found at leaf_named) p')
        ]

  -- For any kernel and any malloc: every folder that sword3_paths_atomic_write makes or enters
  -- and every target that it renames to is a single component, not empty, without a slash and
  -- neither . nor ...
  pub atomic_write-Confined :
      (fuel errno data_fd : ℕ) (relative payload : Option Text) (mode : ℕ) (t : Trace)
      (r : Result (Unit {0}))
      → atomic_write kernel alloc pid fuel errno data_fd relative payload mode [] ≡ some (r, t)
      → Confined t
  atomic_write-Confined fuel errno data_fd relative payload mode t r h = rw h at (
      atomic_write_inv Confined (λ call t safe c. (safe, c)) fuel errno data_fd relative payload
        mode [] tt)

  module _ (limit : ℕ)
      (few : (t : Trace) (fd : ℕ) (s : Text)
        → kernel t (write fd s) ≡ fail e_intr
        → interrupts t < limit) where
    interrupts-after :
        (call : Call) (t : Trace)
        → IsConfined call
        → interrupts t ≤ limit
        → interrupts (after kernel call t) ≤ limit
    interrupts-after (write fd s) t safe low = elim (Result-cases (kernel t (write fd s))) [
      | inl (n, done) ↦ rw done (omega arith)
      | inr (e, failed) ↦ elim (Bool-cases (e == e_intr)) [
        | inl again ↦
            rw (failed, again)
              (omega (arith, few t fd s (failed ∙ ap fail ((==_iff e e_intr).0 again))))
        | inr other ↦ rw (failed, other) (omega arith)
      ]
    ]
    interrupts-after call t safe low = omega arith

    abbrev Low : Trace → Type 0
    Low t = interrupts t ≤ limit

    finish_write_ends :
        (parent : ℕ) (leaf temporary : Text) (fd : ℕ) (o : Option (Run (Unit {0})))
        → (x : Run (Unit {0})) × (o ≡ some x)
        → (y : Run (Unit {0})) × (finish_write kernel parent leaf temporary fd o ≡ some y)
    finish_write_ends parent leaf temporary fd none (x, h) = cc
    finish_write_ends parent leaf temporary fd (some (fail e, t)) (x, h) = (_, refl)
    finish_write_ends parent leaf temporary fd (some (ok u, t)) (x, h) = (_, refl)

    fill_file_ends :
        (fuel parent : ℕ) (leaf temporary : Text) (fd : ℕ) (payload : Text) (mode : ℕ) (t : Trace)
        → length payload + limit ≤ fuel
        → interrupts t ≤ limit
        → (y : Run (Unit {0})) × (fill_file kernel fuel parent leaf temporary fd payload mode t
            ≡ some y)
    unfolding fill_file
    fill_file_ends fuel parent leaf temporary fd payload mode t room low =
        let t' = after kernel (fchmod fd mode) t in
        let low' = interrupts-after (fchmod fd mode) t tt low in
        let (r, u, run) =
          write_all_ends kernel fd limit (λ v. few v fd) fuel payload t' low' (omega arith) in
        elim (Result-cases (kernel t (fchmod fd mode))) [
          | inr (e, failed) ↦ rw (failed, fill_file) (_, refl)
          | inl (n, done) ↦
              rw (done, fill_file)
                (finish_write_ends parent leaf temporary fd (write_all kernel fuel fd payload t')
                  ((r, u), run))
        ]

    write_leaf_ends :
        (fuel parent : ℕ) (leaf payload : Text) (mode : ℕ) (t : Trace)
        → length payload + limit ≤ fuel
        → interrupts t ≤ limit
        → (y : Run (Unit {0})) × (write_leaf kernel pid fuel parent leaf payload mode t ≡ some y)
    unfolding write_leaf
    write_leaf_ends fuel parent leaf payload mode t room low =
        let a = create_temporary kernel pid parent 128 0 [] t in
        let low' =
          create_temporary_inv kernel Low (quiet Low interrupts-after) pid parent 128 0 [] t low in
        elim (Result-cases a.result) [
          | inr (e, failed) ↦ rw (failed, write_leaf) (_, refl)
          | inl (fd, made) ↦
              rw (made, write_leaf)
                (fill_file_ends fuel parent leaf a.temporary fd payload mode a.trace room low')
        ]

    -- For any malloc and a kernel that interrupts a write only while fewer than a given number of
    -- writes were interrupted: with fuel for that number and for each byte of the payload,
    -- sword3_paths_atomic_write comes to an end.
    pub atomic_write_ends :
        (fuel errno data_fd : ℕ) (relative : Option Text) (payload : Text) (mode : ℕ)
        → length payload + limit ≤ fuel
        → (y : Run (Unit {0})) × (atomic_write kernel alloc pid fuel errno data_fd relative
              (some payload)
              mode
              []
            ≡ some y)
    unfolding atomic_write
    atomic_write_ends fuel errno data_fd relative payload mode room =
        let o = open_data_parent kernel alloc data_fd relative [] in
        let start : interrupts [] ≤ limit = omega arith in
        let (leaf_named, low') =
          open_data_parent_inv kernel Low (walking Low interrupts-after) alloc data_fd relative []
            start in
        elim (Result-cases o.0) [
          | inr (e, failed) ↦ rw (failed, atomic_write) (_, refl)
          | inl ((parent, leaf), found) ↦
              rw (found, atomic_write) (write_leaf_ends fuel parent leaf payload mode o.1 room low')
        ]
