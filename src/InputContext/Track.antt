-- ===== src/InputContext/Track.antt =====
-- The generation counter of `sword3_input_context_track`: it names the lifetimes of the owner.
use machismo_sword.Base.{
  ℕ, ◌+◌, ◌^◌, ◌≤◌, ◌<◌, ◌≡◌, ◌≢◌, refl, ◌↔◌, true, false, not, Option, List, [], ◌∷◌, arith,
  to_int, to_int-le, length,
}
use machismo_sword.InputContext.{Probe, Tracker, resolve, same_lifecycle, next_generation, track}

-- The first call on a tracker starts generation 1, reports a change and stores what it writes
-- out.
pub track_first :
    (t : Tracker) (probe : Option Probe)
    → t.initialized ≡ false
    → let (t', out, changed) = track t probe in
      (t'.current ≡ out) × (t'.initialized ≡ true) × (out.generation ≡ 1) × (changed ≡ true)
unfolding track
track_first t probe e = ground arith

-- A later call of the tracker, from a generation of 64 bits that is not 0, reports a change
-- exactly when the new context is not of the same lifecycle, moves the generation exactly when it
-- reports a change, and keeps it a 64-bit number that is not 0, through the wrap.
pub track_later :
    (t : Tracker) (probe : Option Probe)
    → t.initialized ≡ true
    → 1 ≤ t.current.generation
    → t.current.generation < 2 ^ 64
    → let (t', out, changed) = track t probe in
      (t'.current ≡ out)
      × (t'.initialized ≡ true)
      × (changed ≡ not (same_lifecycle t.current (resolve probe)))
      × ((changed ≡ true) ↔ (out.generation ≢ t.current.generation))
      × (1 ≤ out.generation)
      × (out.generation < 2 ^ 64)
unfolding track next_generation
track_later t probe e lo hi =
    (refl, refl, ground arith, (λ h. ground arith, λ h. ground arith), ground arith, ground arith)

-- A frame loop: one call for each probe, counting the changes that are reported.
pub run : Tracker → List (Option Probe) → Tracker × ℕ
run t [] = (t, 0)
run t (p ∷ ps) =
    let (t', out, changed) = track t p in let (t'', n) = run t' ps in (t'', to_int changed + n)

track_counts :
    (t : Tracker) (probe : Option Probe)
    → t.initialized ≡ true
    → t.current.generation + 1 < 2 ^ 64
    → let (t', out, changed) = track t probe in
      (t'.initialized ≡ true) × (t'.current.generation ≡ t.current.generation + to_int changed)
unfolding track next_generation
track_counts t probe i b = (refl, ground arith)

-- While the 64-bit counter has room for every call, the generation of an initialised tracker
-- grows by exactly the number of changes reported.
pub generation-run :
    (t : Tracker) (ps : List (Option Probe))
    → t.initialized ≡ true
    → t.current.generation + length ps < 2 ^ 64
    → let (t', n) = run t ps in t'.current.generation ≡ t.current.generation + n
unfolding run
generation-run t [] i b = omega arith
generation-run t (p ∷ ps) i b =
    let (kept, grows) = track_counts t p i (omega arith) in
    let small = to_int-le (track t p).2 in
    omega (arith, grows, generation-run (track t p).0 ps kept (omega (arith, grows, small)))
