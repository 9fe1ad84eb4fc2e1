-- ===== src/Input/Stream/Keys.antt =====
-- `change_global_key` and `change_controller_key` emit exactly the edges of the held keys.
use machismo_sword.Base.{
  ℕ, ◌+◌, ◌-◌, ◌<◌, ◌≡◌, refl, sym, ap, ◌∙◌, subst, Bool, true, false, not, ◌||◌, some, [], ◌∷◌,
  ◌++◌, arith, ltb, ◌==◌, ==_iff, Bool-cases, Option-cases, inl, inr,
}
use machismo_sword.Input.{
  Input, Error, Malloc, Sizes, Outcome, update, valid_scancode, controller_at,
}
use machismo_sword.Input.Queue.{reserve_queue, enqueue_reserved}
use machismo_sword.Input.Queue.Contents.{contents, IsRing, reserve_queue_lem}
use machismo_sword.Input.Queue.Ends.{enqueue_reserved_lem}
use machismo_sword.Input.Keys.{
  ref_max, reserving, on_edge, change_global_key, set_global, set_owned, with_refs,
  change_controller_key,
}
use machismo_sword.Input.Stream.{is_held, after_event, Emits, Emits-refl, Emits-nothing}

-- A state that a successful reservation, or none, leads to.
pub record Ready (input ready : Input) (edge : Bool) : Type 0 where
  pub ring : IsRing ready
  pub kept : contents ready ≡ contents input
  pub rest : ready ≡ record input {
    queue = ready.queue;
    queue_capacity = ready.queue_capacity;
    queue_head = ready.queue_head;
  }
  pub room : edge ≡ true → ready.queue_count < ready.queue_capacity

-- What holds of a failure in the state before, and of the rest from every ready state, holds.
pub reserving_rule :
    (P : Outcome → Type 0) (malloc : Malloc) (input : Input) (edge : Bool) (rest : Input → Outcome)
    → IsRing input
    → ((e : Error) → P (input, some e))
    → ((ready : Input) → Ready input ready edge → P (rest ready))
    → P (reserving malloc input edge rest)
reserving_rule P malloc input false rest v fails goes =
    goes input (record { ring = v; kept = refl; rest = refl; room = λ e. cc })
reserving_rule P malloc input true rest v fails goes =
    let r = reserve_queue_lem malloc input 1 v in
    let out = reserve_queue malloc input 1 in
    elim (Option-cases out.1) [
      | inr (e, failed) ↦
          rw failed
            (subst (λ (i : Input). P (i, some e)) (sym (r.failure (λ n. cc (n, failed)))) (fails e))
      | inl fine ↦ rw fine (
          goes out.0 (record {
            ring = r.ring;
            kept = r.kept;
            rest = r.rest;
            room = λ _. omega (arith, r.room fine);
          }))
    ]

-- Queueing the event of a key whose state has just changed.
pub Emits-edge :
    (input base : Input) (scancode : ℕ) (pressed : Bool)
    → IsRing base
    → base.queue_count < base.queue_capacity
    → contents base ≡ contents input
    → is_held input.key_refs scancode ≡ not pressed
    → ((j : ℕ)
        → after_event (is_held input.key_refs) (record { scancode = scancode; pressed = pressed }) j
          ≡ is_held base.key_refs j)
    → Emits input (enqueue_reserved base scancode pressed)
unfolding enqueue_reserved
Emits-edge input base scancode pressed v room same before after =
    let e = enqueue_reserved_lem base scancode pressed v room in
    record {
      ring = e.0;
      events = record { scancode = scancode; pressed = pressed } ∷ [];
      queued = e.1 ∙ ap (λ es. es ++ (record { scancode = scancode; pressed = pressed } ∷ [])) same;
      plays = (before, after);
    }

pub held_after :
    (input : Input) (scancode count : ℕ) (pressed : Bool) (j : ℕ)
    → not (count == 0) ≡ pressed
    → after_event (is_held input.key_refs) (record { scancode = scancode; pressed = pressed }) j
      ≡ is_held (update input.key_refs scancode count) j
held_after input scancode count pressed j h = elim (Bool-cases (scancode == j)) [
  | inl here ↦ rw (here, h)
  | inr there ↦ rw there
]

pub held_same :
    (input : Input) (scancode count j : ℕ)
    → is_held input.key_refs scancode ≡ not (count == 0)
    → is_held input.key_refs j ≡ is_held (update input.key_refs scancode count) j
held_same input scancode count j h = elim (Bool-cases (scancode == j)) [
  | inl here ↦ rw here (
      subst (λ (k : ℕ). is_held input.key_refs k ≡ not (count == 0)) ((==_iff scancode j).0 here) h)
  | inr there ↦ rw there
]

-- A new count for one key, with the event that it makes.
pub Emits-count :
    (input base : Input) (scancode count : ℕ) (edge pressed : Bool)
    → IsRing base
    → (edge ≡ true → base.queue_count < base.queue_capacity)
    → contents base ≡ contents input
    → base.key_refs ≡ update input.key_refs scancode count
    → (edge ≡ true → (is_held input.key_refs scancode ≡ not pressed) × (not (count == 0) ≡ pressed))
    → (edge ≡ false → is_held input.key_refs scancode ≡ not (count == 0))
    → Emits input (on_edge edge scancode pressed base)
Emits-count input base scancode count true pressed v room same refs changes stays =
    Emits-edge input base scancode pressed v (room refl) same (changes refl).0 λ j.
      held_after input scancode count pressed j (changes refl).1
      ∙ ap (λ (f : ℕ → ℕ). is_held f j) (sym refs)
Emits-count input base scancode count false pressed v room same refs changes stays =
    Emits-nothing input base v same λ j.
      held_same input scancode count j (stays refl) ∙ ap (λ (f : ℕ → ℕ). is_held f j) (sym refs)

pub refs-Ready :
    (input ready : Input) (edge : Bool) → Ready input ready edge → ready.key_refs ≡ input.key_refs
refs-Ready input ready edge r = ap (λ (i : Input). i.key_refs) r.rest

-- From a ready state, a count that goes up or down by one emits its edge.
press-Emits :
    (input ready base : Input) (scancode : ℕ)
    → Ready input ready (input.key_refs scancode == 0)
    → contents base ≡ contents ready
    → IsRing base
    → base.queue_count ≡ ready.queue_count
    → base.queue_capacity ≡ ready.queue_capacity
    → base.key_refs ≡ update ready.key_refs scancode (input.key_refs scancode + 1)
    → Emits input (on_edge (input.key_refs scancode + 1 == 1) scancode true base)
press-Emits input ready base scancode r same v count capacity refs =
    Emits-count input base scancode (input.key_refs scancode + 1) _ true v
      (λ e. ground (arith, r.room)) (same ∙ r.kept)
      (refs
        ∙ ap (λ (f : ℕ → ℕ). update f scancode (input.key_refs scancode + 1))
            (refs-Ready input ready _ r))
      (λ e. (ground arith, ground arith)) (λ e. ground arith)

release-Emits :
    (input ready base : Input) (scancode : ℕ)
    → Ready input ready (input.key_refs scancode == 1)
    → (input.key_refs scancode == 0) ≡ false
    → contents base ≡ contents ready
    → IsRing base
    → base.queue_count ≡ ready.queue_count
    → base.queue_capacity ≡ ready.queue_capacity
    → base.key_refs ≡ update ready.key_refs scancode (input.key_refs scancode - 1)
    → Emits input (on_edge (input.key_refs scancode - 1 == 0) scancode false base)
release-Emits input ready base scancode r pos same v count capacity refs =
    Emits-count input base scancode (input.key_refs scancode - 1) _ false v
      (λ e. ground (arith, r.room)) (same ∙ r.kept)
      (refs
        ∙ ap (λ (f : ℕ → ℕ). update f scancode (input.key_refs scancode - 1))
            (refs-Ready input ready _ r))
      (λ e. (ground arith, ground arith)) (λ e. ground arith)

-- `change_global_key` emits exactly the edges, whatever malloc answers.
pub change_global_key-Emits :
    (malloc : Malloc) (sizes : Sizes) (input : Input) (scancode : ℕ) (pressed : Bool)
    → IsRing input
    → Emits input (change_global_key malloc sizes input scancode pressed).0
unfolding change_global_key
change_global_key-Emits malloc sizes input scancode true v =
    let refs = input.key_refs scancode in
    elim (Bool-cases (valid_scancode sizes scancode)) [
      | inr bad ↦ rw bad (Emits-refl input v)
      | inl good ↦ rw good (elim (Bool-cases (refs == ref_max)) [
        | inl full ↦ rw full (Emits-refl input v)
        | inr free ↦ rw free (
            reserving_rule (λ out. Emits input out.0) malloc input (refs == 0)
              (set_global scancode (refs + 1) (refs + 1 == 1) true) v (λ e. Emits-refl input v)
              (λ ready r.
                press-Emits input ready
                  (record ready { key_refs = update ready.key_refs scancode (refs + 1) }) scancode r
                  refl r.ring refl refl refl))
      ])
    ]
change_global_key-Emits malloc sizes input scancode false v =
    let refs = input.key_refs scancode in
    elim (Bool-cases (valid_scancode sizes scancode)) [
      | inr bad ↦ rw bad (Emits-refl input v)
      | inl good ↦ rw good (elim (Bool-cases (refs == 0)) [
        | inl up ↦ rw up (Emits-refl input v)
        | inr down ↦ rw down (
            reserving_rule (λ out. Emits input out.0) malloc input (refs == 1)
              (set_global scancode (refs - 1) (refs - 1 == 0) false) v (λ e. Emits-refl input v)
              (λ ready r.
                release-Emits input ready
                  (record ready { key_refs = update ready.key_refs scancode (refs - 1) }) scancode r
                  down refl r.ring refl refl refl))
      ])
    ]

-- `change_controller_key` emits exactly the edges too.
pub change_controller_key-Emits :
    (malloc : Malloc) (sizes : Sizes) (input : Input) (k scancode : ℕ) (pressed : Bool)
    → IsRing input
    → Emits input (change_controller_key malloc sizes input k scancode pressed).0
unfolding change_controller_key
change_controller_key-Emits malloc sizes input k scancode true v =
    let owned = (controller_at input k).key_refs scancode in
    let global = input.key_refs scancode in
    elim (Bool-cases (valid_scancode sizes scancode)) [
      | inr bad ↦ rw bad (Emits-refl input v)
      | inl good ↦ rw good (elim (Bool-cases ((owned == ref_max) || (global == ref_max))) [
        | inl full ↦ rw full (Emits-refl input v)
        | inr free ↦ rw free (
            reserving_rule (λ out. Emits input out.0) malloc input (global == 0)
              (set_owned k scancode (owned + 1) (global + 1) (global + 1 == 1) true) v
              (λ e. Emits-refl input v)
              (λ ready r.
                press-Emits input ready (with_refs ready k scancode (owned + 1) (global + 1))
                  scancode r refl r.ring refl refl refl))
      ])
    ]
change_controller_key-Emits malloc sizes input k scancode false v =
    let owned = (controller_at input k).key_refs scancode in
    let global = input.key_refs scancode in
    elim (Bool-cases (valid_scancode sizes scancode)) [
      | inr bad ↦ rw bad (Emits-refl input v)
      | inl good ↦ rw good (elim (Bool-cases (owned == 0)) [
        | inl up ↦ rw up (Emits-refl input v)
        | inr down ↦ rw down (elim (Bool-cases (ltb global owned)) [
          | inl lost ↦ rw lost (Emits-refl input v)
          | inr counted ↦ rw counted (
              reserving_rule (λ out. Emits input out.0) malloc input (global == 1)
                (set_owned k scancode (owned - 1) (global - 1) (global - 1 == 0) false) v
                (λ e. Emits-refl input v)
                (λ ready r.
                  release-Emits input ready (with_refs ready k scancode (owned - 1) (global - 1))
                    scancode r (ground arith) refl r.ring refl refl refl))
        ])
      ])
    ]
