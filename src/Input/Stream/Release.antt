-- ===== src/Input/Stream/Release.antt =====
-- The keys that one controller, or all controllers, let go: `release_controller` and
-- `release_controller_inputs` of input.c round by round.
use native.Mathlib.Decide.{dec_lt}
use machismo_sword.Base.{
  ℕ, ◌+◌, ◌-◌, ◌%◌, ◌^◌, ◌≤◌, ◌<◌, ◌≡◌, ◌≢◌, refl, sym, ap, ap₂, ◌∙◌, subst, Bool, true, false, not,
  ◌&&◌, List, [], ◌∷◌, map, arith, ◌==◌, if◌then◌else◌, to_int, Bool-cases, inl, inr, length,
  get_or, set, get_or-set_self, get_or-outside,
}
use machismo_sword.Input.{
  Input, Controller, no_controller, update, add_size, controller_at, set_controller,
}
use machismo_sword.Input.Queue.{enqueue_reserved}
use machismo_sword.Input.Queue.Contents.{contents, IsRing}
use machismo_sword.Input.Queue.Ends.{enqueue_reserved_lem, update_other}
use machismo_sword.Input.Devices.{release_key}
use machismo_sword.Input.Mapping.{owned_total, release_owned, drop_key}
use machismo_sword.Input.Stream.{is_held, Emits-refl, Emits-nothing}
use machismo_sword.Input.Stream.Keys.{Emits-edge, held_after, held_same}
use machismo_sword.Input.Stream.Loops.{Round}

-- A key that is let go with its last reference.
abbrev pub last_of : (ℕ → ℕ) → (ℕ → ℕ) → ℕ → Bool
last_of owned global j = not (owned j == 0) && (owned j == global j)

abbrev pub Counted : (ℕ → ℕ) → (ℕ → ℕ) → ℕ → Type 0
Counted owned global j = (owned j ≤ global j) × (global j ≤ 65535)

-- One key of the input goes from `global` to `global - owned` references, and its event is queued
-- when that is zero.
lower-Round :
    (fires : Input → ℕ → Bool) (input base : Input) (scancode owned : ℕ)
    → IsRing input
    → contents base ≡ contents input
    → IsRing base
    → base.queue_count ≡ input.queue_count
    → base.queue_capacity ≡ input.queue_capacity
    → base.key_refs ≡ update input.key_refs scancode (input.key_refs scancode - owned)
    → owned ≢ 0
    → owned ≤ input.key_refs scancode
    → fires input scancode ≡ (owned == input.key_refs scancode)
    → ((j : ℕ) → scancode < j → fires base j ≡ fires input j)
    → ((j : ℕ) → fires (enqueue_reserved base scancode false) j ≡ fires base j)
    → (fires input scancode ≡ true → input.queue_count < input.queue_capacity)
    → Round fires scancode input (
        if input.key_refs scancode - owned == 0 then enqueue_reserved base scancode false else base)
unfolding enqueue_reserved
lower-Round fires input base scancode owned v same vb count capacity refs some_owned le fire others
      queued room =
    elim (Bool-cases (owned == input.key_refs scancode)) [
      | inl last ↦
          let space : base.queue_count < base.queue_capacity = omega (arith, room (fire ∙ last)) in
          let gone : (input.key_refs scancode - owned == 0) ≡ true = ground arith in
          rw gone (record {
            emits = Emits-edge input base scancode false vb space same (ground arith) (λ j.
                held_after input scancode (input.key_refs scancode - owned) false j (ground arith)
                ∙ ap (λ (f : ℕ → ℕ). is_held f j) (sym refs));
            count = omega (
              arith,
              count,
              (enqueue_reserved_lem base scancode false vb space).2,
              ap to_int (fire ∙ last),
            );
            capacity = capacity;
            others = λ j lo. queued j ∙ others j lo;
          })
      | inr more ↦
          let left : (input.key_refs scancode - owned == 0) ≡ false = ground arith in
          rw left (record {
            emits = Emits-nothing input base vb same (λ j.
                held_same input scancode (input.key_refs scancode - owned) j (ground arith)
                ∙ ap (λ (f : ℕ → ℕ). is_held f j) (sym refs));
            count = omega (arith, count, ap to_int (fire ∙ more));
            capacity = capacity;
            others = others;
          })
    ]

-- A key that nobody owns is passed over.
pass-Round :
    (fires : Input → ℕ → Bool) (input : Input) (scancode : ℕ)
    → IsRing input
    → fires input scancode ≡ false
    → Round fires scancode input input
pass-Round fires input scancode v quiet = record {
  emits = Emits-refl input v;
  count = omega (arith, ap to_int quiet);
  capacity = refl;
  others = λ j lo. refl;
}

abbrev pub fires_of : ℕ → Input → ℕ → Bool
fires_of k input = last_of (controller_at input k).key_refs input.key_refs

in_list :
    (cs : List Controller) (k scancode : ℕ)
    → (get_or cs k no_controller).key_refs scancode ≢ 0
    → k < length cs
in_list cs k scancode h = elim (dec_lt k (length cs)) [
  | yes p ↦ p
  | no p ↦ absurd (
      h (
        ap (λ (c : Controller). c.key_refs scancode)
          (get_or-outside cs k no_controller (omega arith))))
]

last_of-eq :
    (owned owned' global global' : ℕ → ℕ) (j : ℕ)
    → owned j ≡ owned' j
    → global j ≡ global' j
    → last_of owned global j ≡ last_of owned' global' j
last_of-eq owned owned' global global' j p q = ap₂ (λ (x y : ℕ). not (x == 0) && (x == y)) p q

-- One round of `release_controller` for a key that the controller counts.
pub release_key-Round :
    (k scancode : ℕ) (input : Input)
    → IsRing input
    → Counted (controller_at input k).key_refs input.key_refs scancode
    → (fires_of k input scancode ≡ true → input.queue_count < input.queue_capacity)
    → Round (fires_of k) scancode input (release_key k scancode input)
unfolding release_key enqueue_reserved
release_key-Round k scancode input v counted room =
    let c = controller_at input k in
    let owned = c.key_refs scancode in
    let global = input.key_refs scancode in
    let wrapped = (global + 2 ^ 16 - owned) % 2 ^ 16 in
    let left : wrapped ≡ global - owned = omega arith in
    let base =
      set_controller (record input { key_refs = update input.key_refs scancode wrapped }) k
        (record c { key_refs = update c.key_refs scancode 0 }) in
    elim (Bool-cases (owned == 0)) [
      | inl none_owned ↦ rw none_owned (pass-Round (fires_of k) input scancode v (rw none_owned))
      | inr some_owned ↦
          let place =
            get_or-set_self input.controllers k
              (record c { key_refs = update c.key_refs scancode 0 }) no_controller
              (in_list input.controllers k scancode (λ e. ground (arith, e, some_owned))) in
          rw some_owned (
            subst
              (λ (n : ℕ).
                Round (fires_of k) scancode input
                  (if n == 0 then enqueue_reserved base scancode false else base))
              (sym left)
              (lower-Round (fires_of k) input base scancode owned v refl v refl refl
                (ap (update input.key_refs scancode) left) (λ e. ground (arith, e, some_owned))
                counted.0 (rw some_owned)
                (λ j lo.
                  last_of-eq (controller_at base k).key_refs c.key_refs base.key_refs input.key_refs
                    j
                    (ap (λ (x : Controller). x.key_refs j) place
                      ∙ update_other c.key_refs scancode j 0 (λ e. absurd (omega arith)))
                    (update_other input.key_refs scancode j wrapped (λ e. absurd (omega arith))))
                (λ j. refl) room))
    ]

abbrev pub all_owned : List Controller → ℕ → ℕ
all_owned cs j = owned_total cs j 0

abbrev pub fires_owned : Input → ℕ → Bool
fires_owned input = last_of (all_owned input.controllers) input.key_refs

owned_total-drop :
    (cs : List Controller) (scancode j owned : ℕ)
    → scancode ≢ j
    → owned_total (map (drop_key scancode) cs) j owned ≡ owned_total cs j owned
unfolding owned_total
owned_total-drop [] scancode j owned h = refl
owned_total-drop (c ∷ cs) scancode j owned h =
    ap (λ (t : ℕ). owned_total (map (drop_key scancode) cs) j (add_size owned t))
      (update_other c.key_refs scancode j 0 h)
    ∙ owned_total-drop cs scancode j (add_size owned (c.key_refs j)) h

-- One round of `release_controller_inputs`.
pub release_owned-Round :
    (scancode : ℕ) (input : Input)
    → IsRing input
    → Counted (all_owned input.controllers) input.key_refs scancode
    → (fires_owned input scancode ≡ true → input.queue_count < input.queue_capacity)
    → Round fires_owned scancode input (release_owned scancode input)
unfolding release_owned enqueue_reserved
release_owned-Round scancode input v counted room =
    let owned = all_owned input.controllers scancode in
    let global = input.key_refs scancode in
    let wrapped = (global + 2 ^ 16 - owned % 2 ^ 16) % 2 ^ 16 in
    let left : wrapped ≡ global - owned = omega arith in
    let base = record input {
      controllers = map (drop_key scancode) input.controllers;
      key_refs = update input.key_refs scancode wrapped;
    } in
    let others = λ (j : ℕ) (lo : scancode < j).
      last_of-eq (all_owned base.controllers) (all_owned input.controllers) base.key_refs
        input.key_refs j
        (owned_total-drop input.controllers scancode j 0 (λ e. absurd (omega arith)))
        (update_other input.key_refs scancode j wrapped (λ e. absurd (omega arith))) in
    elim (Bool-cases (owned == 0)) [
      | inl none_owned ↦
          let quiet : fires_owned input scancode ≡ false = rw none_owned in
          let unchanged : wrapped ≡ global = ground arith in
          rw none_owned (record {
            emits = Emits-nothing input base v refl (λ j.
                held_same input scancode wrapped j (ap (λ (n : ℕ). not (n == 0)) (sym unchanged)));
            count = omega (arith, ap to_int quiet);
            capacity = refl;
            others = others;
          })
      | inr some_owned ↦ rw some_owned (
          subst
            (λ (n : ℕ).
              Round fires_owned scancode input
                (if n == 0 then enqueue_reserved base scancode false else base))
            (sym left)
            (lower-Round fires_owned input base scancode owned v refl v refl refl
              (ap (update input.key_refs scancode) left) (λ e. ground (arith, e, some_owned))
              counted.0 (rw some_owned) others (λ j. refl) room))
    ]

-- A round leaves the later keys alone.
pub release_key_later :
    (k scancode j : ℕ) (input : Input)
    → scancode < j
    → Counted (controller_at input k).key_refs input.key_refs j
    → Counted
        (controller_at (release_key k scancode input) k).key_refs
        (release_key k scancode input).key_refs
        j
unfolding release_key enqueue_reserved
release_key_later k scancode j input lo counted =
    let c = controller_at input k in
    let wrapped = (input.key_refs scancode + 2 ^ 16 - c.key_refs scancode) % 2 ^ 16 in
    let c' : Controller = record c { key_refs = update c.key_refs scancode 0 } in
    let global = update_other input.key_refs scancode j wrapped (λ e. absurd (omega arith)) in
    elim (Bool-cases (c.key_refs scancode == 0)) [
      | inl none_owned ↦ rw none_owned counted
      | inr some_owned ↦
          let place =
            get_or-set_self input.controllers k c' no_controller
              (in_list input.controllers k scancode (λ e. ground (arith, e, some_owned))) in
          let owned =
            ap (λ (x : Controller). x.key_refs j) place
            ∙ update_other c.key_refs scancode j 0 (λ e. absurd (omega arith)) in
          let kept : Counted (get_or (set input.controllers k c') k no_controller).key_refs
              (update input.key_refs scancode wrapped) j =
            (omega (arith, owned, global, counted.0), omega (arith, global, counted.1)) in
          rw some_owned
            (elim (Bool-cases (wrapped == 0)) [ inl last ↦ rw last kept | inr more ↦ rw more kept ])
    ]

pub release_owned_later :
    (scancode j : ℕ) (input : Input)
    → scancode < j
    → Counted (all_owned input.controllers) input.key_refs j
    → Counted
        (all_owned (release_owned scancode input).controllers)
        (release_owned scancode input).key_refs
        j
unfolding release_owned enqueue_reserved
release_owned_later scancode j input lo counted =
    let owned = all_owned input.controllers scancode in
    let wrapped = (input.key_refs scancode + 2 ^ 16 - owned % 2 ^ 16) % 2 ^ 16 in
    let dropped = owned_total-drop input.controllers scancode j 0 (λ e. absurd (omega arith)) in
    let global = update_other input.key_refs scancode j wrapped (λ e. absurd (omega arith)) in
    let kept : Counted (all_owned (map (drop_key scancode) input.controllers))
        (update input.key_refs scancode wrapped) j =
      (omega (arith, dropped, global, counted.0), omega (arith, global, counted.1)) in
    elim (Bool-cases (not (owned == 0) && wrapped == 0)) [
      | inl last ↦ rw last kept
      | inr more ↦ rw more kept
    ]
