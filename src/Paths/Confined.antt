-- ===== src/Paths/Confined.antt =====
-- The calls of `sword3_paths_atomic_write` of paths.c name single components only: the way to the
-- folder, and what holds through it.
pub mod Leaf
pub mod Whole
use machismo_sword.Base.{
  ℕ, zero, suc, ◌+◌, ◌≡◌, refl, sym, ap, inl, inr, Bool, true, false, ◌||◌, Option, none, some,
  Option-cases, List, [], ◌∷◌, ◌++◌, length, leb, ◌==◌, if◌then◌else◌, arith, Bool-cases,
}
use machismo_sword.Config.{Text}
use machismo_sword.Paths.{Result, ok, fail, Result-cases, starts_slash, is_dot, is_dot_dot, tokens}
use machismo_sword.Paths.Parts.{IsPart, IsName, Each, tokens-IsPart}
use machismo_sword.Paths.System.{
  Call, dup, openat_folder, openat_new, close, mkdirat, fchmod, write, fsync, renameat, unlinkat,
  Exchange, exchange, Trace, Kernel, after, Run, e_exist, e_loop,
}
use machismo_sword.Paths.Write.{
  write_all, give_up, open_child, enter_folder, walk, open_data_parent, Attempts, create_temporary,
  abort, replace_leaf, close_file, sync_file, finish_write, fill_file, write_leaf, atomic_write,
  temporary_name,
}
use machismo_sword.Paths.Loops.{write_all_inv}

-- The calls of `open_data_parent`.
abbrev pub is_walk : Call → Bool
is_walk (dup fd) = true
is_walk (openat_folder fd name) = true
is_walk (mkdirat fd name mode) = true
is_walk (close fd) = true
is_walk call = false

abbrev pub is_rename : Call → Bool
is_rename (renameat fd name fd' name') = true
is_rename call = false

-- The folders that are made and entered and the target of the rename are names.
abbrev pub IsConfined : Call → Type 0
IsConfined (mkdirat fd name mode) = IsName name
IsConfined (openat_folder fd name) = IsName name
IsConfined (renameat fd name fd' name') = IsName name'
IsConfined call = Unit {0}

abbrev pub Confined : Trace → Type 0
Confined [] = Unit {0}
Confined (exchange call answer ∷ t) = IsConfined call × Confined t

module _ (kernel : Kernel) (P : Trace → Type 0)
    (keep : (call : Call) (t : Trace)
      → is_walk call ≡ true
      → IsConfined call
      → P t
      → P (after kernel call t)) where
  open_child_inv :
      (fd : ℕ) (name : Text) (t : Trace) → IsName name → P t → P (open_child kernel fd name t).1
  unfolding open_child
  open_child_inv fd name t n p =
      let p' = keep (openat_folder fd name) t refl n p in
      ground (arith, p', keep (close fd) (after kernel (openat_folder fd name) t) refl tt p')

  enter_folder_inv :
      (fd : ℕ) (name : Text) (t : Trace) → IsName name → P t → P (enter_folder kernel fd name t).1
  unfolding enter_folder
  enter_folder_inv fd name t n p =
      let p' = keep (mkdirat fd name 493) t refl n p in
      ground (arith, p', open_child_inv fd name (after kernel (mkdirat fd name 493) t) n p')

  give_up_inv : (e fd : ℕ) (t : Trace) → P t → P (give_up kernel e fd t).1
  unfolding give_up
  give_up_inv e fd t p = keep (close fd) t refl tt p

  abbrev IsPending : Option Text → Type 0
  IsPending none = Unit {0}
  IsPending (some folder) = IsName folder

  abbrev pub Leaf : Result (ℕ × Text) → Type 0
  Leaf (fail e) = Unit {0}
  Leaf (ok (fd, leaf)) = IsName leaf

  abbrev pub Walked : Run (ℕ × Text) → Type 0
  Walked r = Leaf r.0 × P r.1

  give_up-Walked : (e fd : ℕ) (t : Trace) → P t → Walked (give_up kernel e fd t)
  unfolding give_up
  give_up-Walked e fd t p = (tt, keep (close fd) t refl tt p)

  module _ (alloc : ℕ → Bool) where
    walk_inv :
        (fd : ℕ) (pending : Option Text) (parts : List Text) (t : Trace)
        → IsPending pending
        → Each IsPart parts
        → P t
        → Walked (walk kernel alloc fd pending parts t)
    unfolding walk
    walk_inv fd none [] t n h p = give_up-Walked 22 fd t p
    walk_inv fd (some leaf) [] t n h p = elim (Bool-cases (alloc (length leaf + 1))) [
      | inl enough ↦ rw enough (n, p)
      | inr short ↦ rw short (give_up-Walked 12 fd t p)
    ]
    walk_inv fd none (part ∷ parts) t n (h, hs) p = elim (Bool-cases (is_dot_dot part)) [
      | inl up ↦ rw (up, walk) (give_up-Walked 1 fd t p)
      | inr no_up ↦ elim (Bool-cases (is_dot part)) [
        | inl dot ↦ rw (no_up, dot, walk) (walk_inv fd none parts t n hs p)
        | inr no_dot ↦
            rw (no_up, no_dot, walk) (walk_inv fd (some part) parts t (h, no_dot, no_up) hs p)
      ]
    ]
    walk_inv fd (some folder) (part ∷ parts) t n (h, hs) p = elim (Bool-cases (is_dot_dot part)) [
      | inl up ↦ rw (up, walk) (give_up-Walked 1 fd t p)
      | inr no_up ↦ elim (Bool-cases (is_dot part)) [
        | inl dot ↦ rw (no_up, dot, walk) (walk_inv fd (some folder) parts t n hs p)
        | inr no_dot ↦ elim (Result-cases (enter_folder kernel fd folder t).0) [
          | inr (e, failed) ↦
              rw (no_up, no_dot, failed, walk)
                (give_up-Walked e fd _ (enter_folder_inv fd folder t n p))
          | inl (child, made) ↦
              rw (no_up, no_dot, made, walk)
                (walk_inv child (some part) parts (enter_folder kernel fd folder t).1
                  (h, no_dot, no_up) hs (enter_folder_inv fd folder t n p))
        ]
      ]
    ]

    pub open_data_parent_inv :
        (data_fd : ℕ) (relative : Option Text) (t : Trace)
        → P t
        → Walked (open_data_parent kernel alloc data_fd relative t)
    unfolding open_data_parent
    open_data_parent_inv data_fd none t p = (tt, p)
    open_data_parent_inv data_fd (some relative) t p =
        let t' = after kernel (dup data_fd) t in
        let p' = keep (dup data_fd) t refl tt p in
        elim (Bool-cases ((data_fd == 0) || starts_slash relative)) [
          | inl bad ↦ rw (bad, open_data_parent) (tt, p)
          | inr good ↦ elim (Bool-cases (alloc (length relative + 1))) [
            | inr short ↦ rw (good, short, open_data_parent) (tt, p)
            | inl enough ↦ elim (Result-cases (kernel t (dup data_fd))) [
              | inr (e, failed) ↦ rw (good, enough, failed, open_data_parent) (tt, p')
              | inl (fd, made) ↦
                  rw (good, enough, made, open_data_parent)
                    (walk_inv fd none (tokens relative) t' tt (tokens-IsPart relative) p')
            ]
          ]
        ]
