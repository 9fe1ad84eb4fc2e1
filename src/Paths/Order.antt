-- ===== src/Paths/Order.antt =====
-- The order of the calls of `sword3_paths_atomic_write` of paths.c: what precedes the rename.
use machismo_sword.Base.{
  ℕ, zero, suc, ◌+◌, ◌≡◌, refl, ap, ◌∙◌, inl, inr, Bool, true, false, Option, none, some, [], ◌∷◌,
  ◌++◌, arith,
}
use machismo_sword.Config.{Text}
use machismo_sword.Paths.{Result, ok, fail, Result-cases}
use machismo_sword.Paths.System.{
  Call, dup, openat_new, close, fchmod, fsync, renameat, exchange, Trace, Kernel, after, Run,
}
use machismo_sword.Paths.Write.{
  write_all, open_data_parent, create_temporary, abort, replace_leaf, close_file, sync_file,
  finish_write, fill_file, write_leaf, atomic_write, temporary_name,
}
use machismo_sword.Paths.Contents.{contents, contents-write_all}
use machismo_sword.Paths.Confined.{is_walk, is_rename, IsConfined, open_data_parent_inv}
use machismo_sword.Paths.Confined.Leaf.{create_temporary_inv, abort_inv}
use machismo_sword.Paths.Loops.{write_all_inv}

-- A descriptor was synced and closed without an error, and the payload was written to it.
abbrev pub Flushed : Text → Trace → Type 0
Flushed payload t =
    (fd : ℕ) × (a : ℕ) × (b : ℕ) × (u : Trace) × (t
      ≡ exchange (close fd) (ok b) ∷ exchange (fsync fd) (ok a) ∷ u)
    × (contents fd u ≡ payload)

abbrev pub Precedes : Text → Call → Trace → Type 0
Precedes payload (renameat fd name fd' name') t = Flushed payload t
Precedes payload call t = Unit {0}

-- Every rename, whether it succeeds or not, stands right behind a flushed payload.
abbrev pub Ordered : Text → Trace → Type 0
Ordered payload [] = Unit {0}
Ordered payload (exchange call answer ∷ t) = Precedes payload call t × Ordered payload t

-- The end of a run that succeeds.
abbrev pub Replaced : Text → Trace → Type 0
Replaced payload t =
    (parent : ℕ) × (temporary : Text) × (leaf : Text) × (a : ℕ) × (b : ℕ) × (c : Result ℕ)
    × (u : Trace) × (t
        ≡ exchange (close parent) c
          ∷ exchange (fsync parent) (ok b)
          ∷ exchange (renameat parent temporary parent leaf) (ok a)
          ∷ u)
    × Flushed payload u

abbrev pub Success : Text → Result (Unit {0}) → Trace → Type 0
Success payload (fail e) t = Unit {0}
Success payload (ok x) t = Replaced payload t

-- What a run ends with.
abbrev pub Outcome : Text → Run (Unit {0}) → Type 0
Outcome payload r = Ordered payload r.1 × Success payload r.0 r.1

module _ (kernel : Kernel) (payload : Text) where
  Ordered-after :
      (call : Call) (t : Trace)
      → is_rename call ≡ false
      → IsConfined call
      → Ordered payload t
      → Ordered payload (after kernel call t)
  Ordered-after (renameat fd name fd' name') t q safe h = cc
  Ordered-after (dup fd) t q safe h = (tt, h)
  Ordered-after call t q safe h = (tt, h)

  Ordered-walk :
      (call : Call) (t : Trace)
      → is_walk call ≡ true
      → IsConfined call
      → Ordered payload t
      → Ordered payload (after kernel call t)
  Ordered-walk (renameat fd name fd' name') t q safe h = cc
  Ordered-walk (dup fd) t q safe h = (tt, h)
  Ordered-walk call t q safe h = (tt, h)

  abort-Outcome :
      (parent e : ℕ) (fd : Option ℕ) (temporary : Text) (t : Trace)
      → Ordered payload t
      → Outcome payload (abort kernel parent e fd temporary t)
  unfolding abort
  abort-Outcome parent e fd temporary t h =
      (abort_inv kernel (Ordered payload) Ordered-after parent e fd temporary t h, tt)

  replace_leaf-Outcome :
      (parent : ℕ) (leaf temporary : Text) (t : Trace)
      → Ordered payload t
      → Flushed payload t
      → Outcome payload (replace_leaf kernel parent leaf temporary t)
  unfolding replace_leaf
  replace_leaf-Outcome parent leaf temporary t h flushed =
      let rename = renameat parent temporary parent leaf in
      let t' = after kernel rename t in
      let h' : Ordered payload t' = (flushed, h) in
      elim (Result-cases (kernel t rename)) [
        | inr (e, failed) ↦ rw (failed, replace_leaf) (abort-Outcome parent e none temporary t' h')
        | inl (n, done) ↦ elim (Result-cases (kernel t' (fsync parent))) [
          | inr (e, failed) ↦
              rw (done, failed, replace_leaf)
                (abort-Outcome parent e none [] (after kernel (fsync parent) t') (tt, h'))
          | inl (m, synced) ↦
              let t'' = after kernel (close parent) (after kernel (fsync parent) t') in
              let run : replace_leaf kernel parent leaf temporary t ≡ (ok tt, t'') = ground arith in
              rw run (
                (tt, (tt, h')),
                (
                  parent,
                  temporary,
                  leaf,
                  n,
                  m,
                  kernel (after kernel (fsync parent) t') (close parent),
                  t,
                  cc,
                  flushed,
                ),
              )
        ]
      ]

  close_file-Outcome :
      (parent : ℕ) (leaf temporary : Text) (fd a : ℕ) (t u : Trace)
      → Ordered payload t
      → t ≡ exchange (fsync fd) (ok a) ∷ u
      → contents fd u ≡ payload
      → Outcome payload (close_file kernel parent leaf temporary fd t)
  unfolding close_file
  close_file-Outcome parent leaf temporary fd a t u h synced full =
      let t' = after kernel (close fd) t in
      let h' : Ordered payload t' = (tt, h) in
      elim (Result-cases (kernel t (close fd))) [
        | inr (e, failed) ↦
            let run : close_file kernel parent leaf temporary fd t
                ≡ abort kernel parent e none temporary t' =
              ground arith in
            rw run (abort-Outcome parent e none temporary t' h')
        | inl (b, done) ↦
            let run : close_file kernel parent leaf temporary fd t
                ≡ replace_leaf kernel parent leaf temporary t' =
              ground arith in
            rw run (replace_leaf-Outcome parent leaf temporary t' h' (fd, a, b, u, cc, full))
      ]

  sync_file-Outcome :
      (parent : ℕ) (leaf temporary : Text) (fd : ℕ) (t : Trace)
      → Ordered payload t
      → contents fd t ≡ payload
      → Outcome payload (sync_file kernel parent leaf temporary fd t)
  unfolding sync_file
  sync_file-Outcome parent leaf temporary fd t h full =
      let t' = after kernel (fsync fd) t in
      let h' : Ordered payload t' = (tt, h) in
      elim (Result-cases (kernel t (fsync fd))) [
        | inr (e, failed) ↦
            let run : sync_file kernel parent leaf temporary fd t
                ≡ abort kernel parent e (some fd) temporary t' =
              ground arith in
            rw run (abort-Outcome parent e (some fd) temporary t' h')
        | inl (a, done) ↦
            let run : sync_file kernel parent leaf temporary fd t
                ≡ close_file kernel parent leaf temporary fd t' =
              ground arith in
            rw run (close_file-Outcome parent leaf temporary fd a t' t h' (cc) full)
      ]

  finish_write-Outcome :
      (parent : ℕ) (leaf temporary : Text) (fd : ℕ) (o : Option (Run (Unit {0})))
      (y : Run (Unit {0}))
      → ((r : Result (Unit {0})) (t : Trace) → o ≡ some (r, t) → Ordered payload t)
      → ((t : Trace) → o ≡ some (ok tt, t) → contents fd t ≡ payload)
      → finish_write kernel parent leaf temporary fd o ≡ some y
      → Outcome payload y
  finish_write-Outcome parent leaf temporary fd none y h full run = cc
  finish_write-Outcome parent leaf temporary fd (some (fail e, t)) y h full run =
      let same : abort kernel parent e (some fd) temporary t ≡ y = ground arith in
      rw (← same) (abort-Outcome parent e (some fd) temporary t (h (fail e) t refl))
  finish_write-Outcome parent leaf temporary fd (some (ok x, t)) y h full run =
      let same : sync_file kernel parent leaf temporary fd t ≡ y = ground arith in
      rw (← same) (sync_file-Outcome parent leaf temporary fd t (h (ok x) t refl) (full t refl))

  fill_file-Outcome :
      (fuel parent : ℕ) (leaf temporary : Text) (fd mode : ℕ) (t : Trace) (y : Run (Unit {0}))
      → Ordered payload t
      → contents fd t ≡ []
      → fill_file kernel fuel parent leaf temporary fd payload mode t ≡ some y
      → Outcome payload y
  unfolding fill_file
  fill_file-Outcome fuel parent leaf temporary fd mode t y h empty run =
      let t' = after kernel (fchmod fd mode) t in
      let h' : Ordered payload t' = (tt, h) in
      elim (Result-cases (kernel t (fchmod fd mode))) [
        | inr (e, failed) ↦
            let same : abort kernel parent e (some fd) temporary t' ≡ y = ground arith in
            rw (← same) (abort-Outcome parent e (some fd) temporary t' h')
        | inl (n, done) ↦
            finish_write-Outcome parent leaf temporary fd (write_all kernel fuel fd payload t') y
              (λ r u e.
                write_all_inv kernel fd (Ordered payload) (λ s v o. (tt, o)) fuel payload t' u r h'
                  e)
              (λ u e.
                contents-write_all kernel fd fuel payload t' u e ∙ ap (λ c. c ++ payload) empty)
              (ground arith)
      ]

  contents-create_temporary :
      (pid parent left attempt fd : ℕ) (kept : Text) (t : Trace)
      → let a = create_temporary kernel pid parent left attempt kept t in
        a.result ≡ ok fd → contents fd a.trace ≡ []
  unfolding create_temporary
  contents-create_temporary pid parent zero attempt fd kept t made = ground arith
  contents-create_temporary pid parent (suc left) attempt fd kept t made = ground (
    arith,
    contents-create_temporary pid parent left (attempt + 1) fd (temporary_name pid attempt)
        (after kernel (openat_new parent (temporary_name pid attempt)) t),
  )

  module _ (alloc : ℕ → Bool) (pid : ℕ) where
    write_leaf-Outcome :
        (fuel parent : ℕ) (leaf : Text) (mode : ℕ) (t : Trace) (y : Run (Unit {0}))
        → Ordered payload t
        → write_leaf kernel pid fuel parent leaf payload mode t ≡ some y
        → Outcome payload y
    unfolding write_leaf
    write_leaf-Outcome fuel parent leaf mode t y h run =
        let a = create_temporary kernel pid parent 128 0 [] t in
        let h' =
          create_temporary_inv kernel (Ordered payload) Ordered-after pid parent 128 0 [] t h in
        elim (Result-cases a.result) [
          | inr (e, failed) ↦
              let same : abort kernel parent e none a.temporary a.trace ≡ y = ground arith in
              rw (← same) (abort-Outcome parent e none a.temporary a.trace h')
          | inl (fd, made) ↦
              fill_file-Outcome fuel parent leaf a.temporary fd mode a.trace y h'
                (contents-create_temporary pid parent 128 0 fd [] t made) (ground arith)
        ]

    -- For any kernel, any malloc and any payload: when sword3_paths_atomic_write ends, each
    -- rename stands right behind an fsync and a close that succeeded, of a descriptor to which
    -- exactly the payload was written since it was given out for a new file; and when it answers
    -- 0, its last calls are such a rename in the parent folder, which succeeded, an fsync of that
    -- folder, which succeeded, and the close of the folder.
    pub atomic_write-Outcome :
        (fuel errno data_fd : ℕ) (relative : Option Text) (mode : ℕ) (y : Run (Unit {0}))
        → atomic_write kernel alloc pid fuel errno data_fd relative (some payload) mode [] ≡ some y
        → Outcome payload y
    unfolding atomic_write
    atomic_write-Outcome fuel errno data_fd relative mode y run =
        let o = open_data_parent kernel alloc data_fd relative [] in
        let (leaf_named, h) =
          open_data_parent_inv kernel (Ordered payload) Ordered-walk alloc data_fd relative [] tt in
        elim (Result-cases o.0) [
          | inr (e, failed) ↦ let same : (fail e, o.1) ≡ y = ground arith in rw (← same) (h, tt)
          | inl ((parent, leaf), found) ↦
              write_leaf-Outcome fuel parent leaf mode o.1 y h (ground arith)
        ]
