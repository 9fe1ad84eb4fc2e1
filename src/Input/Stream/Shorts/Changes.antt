-- ===== src/Input/Stream/Shorts/Changes.antt =====
-- The operations that the handlers of input.c are made of keep all counts of keys within 16 bits.
use machismo_sword.Base.{
  ℕ, zero, suc, ◌+◌, ◌-◌, ◌%◌, ◌^◌, ap, List, [], ◌∷◌, Bool, true, false, ◌||◌, none, some, map,
  arith, ltb, ◌==◌, Bool-cases, Option-cases, inl, inr,
}
use machismo_sword.Input.{
  Input, Controller, Malloc, Sizes, Outcome, update, valid_scancode, for_scancodes, controller_at,
}
use machismo_sword.Input.Queue.{reserve_queue, enqueue_reserved}
use machismo_sword.Input.Queue.Contents.{IsRing, reserve_queue_lem}
use machismo_sword.Input.Keys.{
  ref_max, set_global, set_owned, change_global_key, change_controller_key,
}
use machismo_sword.Input.Devices.{release_key, remove_at}
use machismo_sword.Input.Events.{release_down, forget}
use machismo_sword.Input.Stream.Keys.{reserving_rule}
use machismo_sword.Input.Stream.Events.{refs-reserved}
use machismo_sword.Input.Stream.Shorts.{
  Shorts-update, Owned, Owned-at, Narrow, Narrow-set_controller, Narrow-same, Narrow-set_global,
  Narrow-set_owned,
}

pub change_global_key-Narrow :
    (malloc : Malloc) (sizes : Sizes) (input : Input) (scancode : ℕ) (pressed : Bool)
    → IsRing input
    → Narrow input
    → Narrow (change_global_key malloc sizes input scancode pressed).0
unfolding change_global_key
change_global_key-Narrow malloc sizes input scancode true v s =
    let refs = input.key_refs scancode in
    elim (Bool-cases (valid_scancode sizes scancode)) [
      | inr bad ↦ rw bad s
      | inl good ↦ rw good (elim (Bool-cases (refs == ref_max)) [
        | inl full ↦ rw full s
        | inr free ↦ rw free (
            reserving_rule (λ out. Narrow out.0) malloc input (refs == 0)
              (set_global scancode (refs + 1) (refs + 1 == 1) true) v (λ e. s)
              (λ ready r.
                Narrow-set_global input ready (refs == 0) (refs + 1 == 1) true scancode (refs + 1) r
                  s (ground (arith, s.0 scancode, free))))
      ])
    ]
change_global_key-Narrow malloc sizes input scancode false v s =
    let refs = input.key_refs scancode in
    elim (Bool-cases (valid_scancode sizes scancode)) [
      | inr bad ↦ rw bad s
      | inl good ↦ rw good (elim (Bool-cases (refs == 0)) [
        | inl up ↦ rw up s
        | inr down ↦ rw down (
            reserving_rule (λ out. Narrow out.0) malloc input (refs == 1)
              (set_global scancode (refs - 1) (refs - 1 == 0) false) v (λ e. s)
              (λ ready r.
                Narrow-set_global input ready (refs == 1) (refs - 1 == 0) false scancode (refs - 1)
                  r s (omega (arith, s.0 scancode))))
      ])
    ]

pub change_controller_key-Narrow :
    (malloc : Malloc) (sizes : Sizes) (input : Input) (k scancode : ℕ) (pressed : Bool)
    → IsRing input
    → Narrow input
    → Narrow (change_controller_key malloc sizes input k scancode pressed).0
unfolding change_controller_key
change_controller_key-Narrow malloc sizes input k scancode true v s =
    let owned = (controller_at input k).key_refs scancode in
    let global = input.key_refs scancode in
    let owned_small = Owned-at input.controllers k s.1 scancode in
    elim (Bool-cases (valid_scancode sizes scancode)) [
      | inr bad ↦ rw bad s
      | inl good ↦ rw good (elim (Bool-cases ((owned == ref_max) || (global == ref_max))) [
        | inl full ↦ rw full s
        | inr free ↦ rw free (
            reserving_rule (λ out. Narrow out.0) malloc input (global == 0)
              (set_owned k scancode (owned + 1) (global + 1) (global + 1 == 1) true) v (λ e. s)
              (λ ready r.
                Narrow-set_owned input ready (global == 0) (global + 1 == 1) true k scancode
                  (owned + 1) (global + 1) r s (ground (arith, owned_small, free))
                  (ground (arith, s.0 scancode, free))))
      ])
    ]
change_controller_key-Narrow malloc sizes input k scancode false v s =
    let owned = (controller_at input k).key_refs scancode in
    let global = input.key_refs scancode in
    let owned_small = Owned-at input.controllers k s.1 scancode in
    elim (Bool-cases (valid_scancode sizes scancode)) [
      | inr bad ↦ rw bad s
      | inl good ↦ rw good (elim (Bool-cases (owned == 0)) [
        | inl up ↦ rw up s
        | inr down ↦ rw down (elim (Bool-cases (ltb global owned)) [
          | inl lost ↦ rw lost s
          | inr counted ↦ rw counted (
              reserving_rule (λ out. Narrow out.0) malloc input (global == 1)
                (set_owned k scancode (owned - 1) (global - 1) (global - 1 == 0) false) v (λ e. s)
                (λ ready r.
                  Narrow-set_owned input ready (global == 1) (global - 1 == 0) false k scancode
                    (owned - 1) (global - 1) r s (omega (arith, owned_small))
                    (omega (arith, s.0 scancode))))
        ])
      ])
    ]

-- An operation that goes on after a call.
pub then-Narrow :
    (out : Outcome) (next : Input → Outcome)
    → Narrow out.0
    → Narrow (next out.0).0
    → Narrow (elim out.1 as (λ o. Outcome) [ some e ↦ (out.0, some e) | none ↦ next out.0 ]).0
then-Narrow out next s goes = elim (Option-cases out.1) [
  | inl fine ↦ rw fine goes
  | inr (e, failed) ↦ rw failed s
]

pub Narrow-loop :
    (body : ℕ → Input → Input)
    → ((scancode : ℕ) (i : Input) → Narrow i → Narrow (body scancode i))
    → (n first : ℕ) (i : Input) → Narrow i
    → Narrow (for_scancodes body n first i)
unfolding for_scancodes
Narrow-loop body keeps zero first i s = s
Narrow-loop body keeps (suc n) first i s =
    Narrow-loop body keeps n (first + 1) (body first i) (keeps first i s)

pub Narrow-reserved :
    (malloc : Malloc) (input : Input) (n : ℕ)
    → IsRing input
    → Narrow input
    → Narrow (reserve_queue malloc input n).0
Narrow-reserved malloc input n v =
    Narrow-same input (reserve_queue malloc input n).0 (refs-reserved malloc input n v)
      (ap (λ (i : Input). i.controllers) (reserve_queue_lem malloc input n v).rest)

pub Narrow-release_down : (scancode : ℕ) (i : Input) → Narrow i → Narrow (release_down scancode i)
unfolding release_down enqueue_reserved
Narrow-release_down scancode i s = elim (Bool-cases (i.key_refs scancode == 0)) [
  | inl up ↦ rw up s
  | inr down ↦ rw down (Shorts-update i.key_refs scancode 0 s.0 (omega arith), s.1)
]

pub Narrow-release_key : (k scancode : ℕ) (i : Input) → Narrow i → Narrow (release_key k scancode i)
unfolding release_key enqueue_reserved
Narrow-release_key k scancode i s =
    let c = controller_at i k in
    let owned = c.key_refs scancode in
    let left = (i.key_refs scancode + 2 ^ 16 - owned) % 2 ^ 16 in
    let wrote =
      Narrow-set_controller (record i { key_refs = update i.key_refs scancode left }) k
        (record c { key_refs = update c.key_refs scancode 0 })
        (Shorts-update i.key_refs scancode left s.0 (omega arith), s.1)
        (Shorts-update c.key_refs scancode 0 (Owned-at i.controllers k s.1) (omega arith)) in
    elim (Bool-cases (owned == 0)) [
      | inl none_owned ↦ rw none_owned s
      | inr some_owned ↦
          rw some_owned
            (elim (Bool-cases (left == 0)) [ inl last ↦ rw last wrote | inr more ↦ rw more wrote ])
    ]

-- The lists that the handlers make.
pub Owned-forget : (cs : List Controller) → Owned (map forget cs)
Owned-forget [] = tt
Owned-forget (c ∷ cs) = ((λ j. omega arith), Owned-forget cs)

pub Owned-remove_at : (cs : List Controller) (k : ℕ) → Owned cs → Owned (remove_at cs k)
unfolding remove_at
Owned-remove_at [] k s = s
Owned-remove_at (c ∷ cs) zero s = s.1
Owned-remove_at (c ∷ cs) (suc k) s = (s.0, Owned-remove_at cs k s.1)
