-- ===== src/Paths/Contents.antt =====
-- What `write_all` of paths.c leaves in the file, and that it comes to an end.
use mathlib.Core.List.{append_assoc, append-nil}
use machismo_sword.Base.{
  ℕ, zero, suc, ◌+◌, ◌≤◌, ◌<◌, ◌≡◌, refl, sym, ap, ◌∙◌, inl, inr, Bool, false, some, [], ◌∷◌, ◌++◌,
  length, ◌==◌, if◌then◌else◌, ==_iff, to_int, arith, Bool-cases,
}
use machismo_sword.Config.{Text}
use machismo_sword.Paths.{Result, ok, fail, prefix, Result-cases}
use machismo_sword.Paths.System.{
  Call, openat_new, write, Exchange, exchange, Trace, Kernel, after, e_intr, e_io,
}
use machismo_sword.Paths.Write.{write_all, behind_written}

-- The bytes of the file behind a descriptor after one more call.
abbrev pub contents_after : ℕ → Call → Result ℕ → Text → Text
contents_after fd (openat_new parent name) (ok n) old = if fd == n then [] else old
contents_after fd (write fd' s) (ok n) old = if fd == fd' then old ++ prefix n s else old
contents_after fd call answer old = old

-- The bytes written to a descriptor since it was given out for a new file.
abbrev pub contents : ℕ → Trace → Text
contents fd [] = []
contents fd (exchange call answer ∷ t) = contents_after fd call answer (contents fd t)

abbrev pub is_interrupt : Exchange → Bool
is_interrupt (exchange (write fd s) (fail e)) = e == e_intr
is_interrupt e = false

-- How many writes a signal interrupted.
abbrev pub interrupts : Trace → ℕ
interrupts [] = 0
interrupts (e ∷ t) = to_int (is_interrupt e) + interrupts t

prefix_split : (n : ℕ) (s : Text) → prefix n s ++ behind_written n s ≡ s
unfolding prefix behind_written
prefix_split zero s = refl
prefix_split (suc n) [] = refl
prefix_split (suc n) (c ∷ s) = ap (◌∷◌ c) (prefix_split n s)

length-behind_written :
    (n c : ℕ) (s : Text) → (n == 0) ≡ false → length (behind_written n (c ∷ s)) ≤ length s
unfolding behind_written
length-behind_written zero c s h = cc
length-behind_written (suc n) c s h = shorter n s
  where
    shorter : (n : ℕ) (s : Text) → length (behind_written n s) ≤ length s
    shorter zero s = omega arith
    shorter (suc n) [] = omega arith
    shorter (suc n) (c ∷ s) = omega (arith, shorter n s)

module _ (kernel : Kernel) (fd : ℕ) where
  -- A successful end has appended the whole text.
  pub contents-write_all :
      (fuel : ℕ) (s : Text) (t t' : Trace)
      → write_all kernel fuel fd s t ≡ some (ok tt, t')
      → contents fd t' ≡ contents fd t ++ s
  unfolding write_all
  contents-write_all fuel [] t t' h =
      let same : t ≡ t' = ground arith in rw (← same) (sym (append-nil (contents fd t)))
  contents-write_all zero (c ∷ s) t t' h = cc
  contents-write_all (suc fuel) (c ∷ s) t t' h = elim (Result-cases (kernel t (write fd (c ∷ s)))) [
    | inr (e, failed) ↦ elim (Bool-cases (e == e_intr)) [
      | inl again ↦
          contents-write_all fuel (c ∷ s) _ t' (rw (failed, again, write_all) at h)
          ∙ ap (λ a. contents_after fd (write fd (c ∷ s)) a (contents fd t) ++ (c ∷ s)) failed
      | inr stop ↦ let h' = rw (failed, stop, write_all) at h in ground arith
    ]
    | inl (n, done) ↦ elim (Bool-cases (n == 0)) [
      | inl stop ↦ let h' = rw (done, stop, write_all) at h in ground arith
      | inr more ↦
          contents-write_all fuel (behind_written n (c ∷ s)) _ t' (rw (done, more, write_all) at h)
          ∙ ap
              (λ a.
                contents_after fd (write fd (c ∷ s)) a (contents fd t) ++ behind_written n (c ∷ s))
              done
          ∙ ground (
            arith,
            append_assoc (contents fd t) (prefix n (c ∷ s)) (behind_written n (c ∷ s)),
            prefix_split n (c ∷ s),
          )
    ]
  ]

  -- Some fuel is enough when signals interrupt finitely often.
  pub write_all_ends :
      (limit : ℕ)
      → ((t : Trace) (s : Text) → kernel t (write fd s) ≡ fail e_intr → interrupts t < limit)
      → (fuel : ℕ) (s : Text) (t : Trace) → interrupts t ≤ limit
      → length s + limit ≤ fuel + interrupts t
      → (r : Result (Unit {0})) × (t' : Trace) × (write_all kernel fuel fd s t ≡ some (r, t'))
  unfolding write_all
  write_all_ends limit few fuel [] t low room = (ok tt, t, refl)
  write_all_ends limit few zero (c ∷ s) t low room = absurd (omega arith)
  write_all_ends limit few (suc fuel) (c ∷ s) t low room =
      elim (Result-cases (kernel t (write fd (c ∷ s)))) [
        | inr (e, failed) ↦ elim (Bool-cases (e == e_intr)) [
          | inl again ↦
              let below = few t (c ∷ s) (failed ∙ ap fail ((==_iff e e_intr).0 again)) in
              let (r, t', run) =
                write_all_ends limit few fuel (c ∷ s) (after kernel (write fd (c ∷ s)) t)
                  (ground arith) (ground arith) in
              (r, t', ground arith)
          | inr stop ↦ (fail e, after kernel (write fd (c ∷ s)) t, ground arith)
        ]
        | inl (n, done) ↦ elim (Bool-cases (n == 0)) [
          | inl stop ↦ (fail e_io, after kernel (write fd (c ∷ s)) t, ground arith)
          | inr more ↦
              let (r, t', run) =
                write_all_ends limit few fuel (behind_written n (c ∷ s))
                  (after kernel (write fd (c ∷ s)) t) (ground arith)
                  (ground (arith, length-behind_written n c s more)) in
              (r, t', ground arith)
        ]
      ]
