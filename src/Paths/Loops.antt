-- ===== src/Paths/Loops.antt =====
-- What holds through the loops of paths.c, and when they end.
use machismo_sword.Base.{ℕ, zero, suc, ◌≡◌, inl, inr, some, [], ◌∷◌, ◌==◌, arith, Bool-cases}
use machismo_sword.Config.{Text}
use machismo_sword.Paths.{Result, Result-cases}
use machismo_sword.Paths.System.{write, Trace, Kernel, after, e_intr}
use machismo_sword.Paths.Write.{write_all, behind_written}

module _ (kernel : Kernel) (fd : ℕ) where
  -- What every write to the file keeps holds at the end of the loop.
  pub write_all_inv {ℓ} :
      (P : Trace → Type ℓ)
      → ((s : Text) (t : Trace) → P t → P (after kernel (write fd s) t))
      → (fuel : ℕ) (s : Text) (t t' : Trace) (r : Result (Unit {0})) → P t
      → write_all kernel fuel fd s t ≡ some (r, t')
      → P t'
  unfolding write_all
  write_all_inv P keep fuel [] t t' r p h = let same : t ≡ t' = ground arith in rw (← same) p
  write_all_inv P keep zero (c ∷ s) t t' r p h = cc
  write_all_inv P keep (suc fuel) (c ∷ s) t t' r p h =
      let p' = keep (c ∷ s) t p in
      elim (Result-cases (kernel t (write fd (c ∷ s)))) [
        | inr (e, failed) ↦ elim (Bool-cases (e == e_intr)) [
          | inl again ↦
              write_all_inv P keep fuel (c ∷ s) _ t' r p' (rw (failed, again, write_all) at h)
          | inr stop ↦
              let h' = rw (failed, stop, write_all) at h in
              let same : after kernel (write fd (c ∷ s)) t ≡ t' = ground arith in rw (← same) p'
        ]
        | inl (n, done) ↦ elim (Bool-cases (n == 0)) [
          | inl stop ↦
              let h' = rw (done, stop, write_all) at h in
              let same : after kernel (write fd (c ∷ s)) t ≡ t' = ground arith in rw (← same) p'
          | inr more ↦
              write_all_inv P keep fuel (behind_written n (c ∷ s)) _ t' r p'
                (rw (done, more, write_all) at h)
        ]
      ]
