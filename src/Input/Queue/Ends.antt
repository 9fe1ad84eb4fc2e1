-- ===== src/Input/Queue/Ends.antt =====
-- The two ends of the event ring of input.c: `enqueue_reserved` appends, `sword3_input_poll` takes.
use native.Mathlib.Decide.{dec_lt}
use native.Mathlib.Nat.{mod-lt, mod-add-mod, mod-eq_of_lt, mod-eq-sub-mod}
use machismo_sword.Base.{
  ℕ, suc, ◌+◌, ◌-◌, ◌%◌, ◌<◌, ◌≡◌, ◌≢◌, ◌⊎◌, inl, inr, refl, sym, ap, ap₂, ◌∙◌, Bool, Option, none,
  some, [], ◌∷◌, ◌++◌, arith, ◌==◌, Bool-cases,
}
use machismo_sword.Input.{Event, Input, update, add_size}
use machismo_sword.Input.Queue.{enqueue_reserved, poll}
use machismo_sword.Input.Queue.Contents.{
  segment, slot, contents, IsRing, segment-cong, segment-snoc, segment-shift,
}

-- One lap of the ring at most.
ring_index :
    (h i cap : ℕ)
    → h < cap
    → i < cap
    → ((h + i) % cap ≡ h + i) × (h + i < cap) ⊎ ((h + i) % cap + cap ≡ h + i)
ring_index h i cap hh hi = elim (dec_lt (h + i) cap) [
  | yes p ↦ inl (mod-eq_of_lt p, p)
  | no p ↦ inr (
      omega (
        arith,
        mod-eq-sub-mod {n = h + i} {m = cap} (omega arith),
        mod-eq_of_lt {n = h + i - cap} {m = cap} (omega arith),
      ))
]

-- Two slots of the ring that are less than a lap apart are different cells.
slots_apart : (h i j cap : ℕ) → h < cap → j < i → i < cap → (h + i) % cap ≢ (h + j) % cap
slots_apart h i j cap hh lo hi e = ground (arith, ring_index h i cap, ring_index h j cap)

pub update_self {ℓ} : {A : Type ℓ} (f : ℕ → A) (i j : ℕ) (v : A) → i ≡ j → update f i v j ≡ v
update_self f i j v e = ground arith

pub update_other {ℓ} : {A : Type ℓ} (f : ℕ → A) (i j : ℕ) (v : A) → i ≢ j → update f i v j ≡ f j
update_other f i j v e = ground arith

-- Queueing an event in a valid ring with room keeps it valid, appends the event behind those
-- queued and adds one to the count.
pub enqueue_reserved_lem :
    (input : Input) (scancode : ℕ) (pressed : Bool)
    → IsRing input
    → input.queue_count < input.queue_capacity
    → let out = enqueue_reserved input scancode pressed in
      IsRing out
      × (contents out ≡ contents input ++ (record { scancode = scancode; pressed = pressed } ∷ []))
      × (out.queue_count ≡ input.queue_count + 1)
unfolding enqueue_reserved
enqueue_reserved_lem input scancode pressed v h =
    let grown : add_size input.queue_count 1 ≡ input.queue_count + 1 = omega arith in
    let place : add_size input.queue_head input.queue_count ≡ input.queue_head + input.queue_count =
      omega arith in
    let out = enqueue_reserved input scancode pressed in
    (
      record { room = omega arith; small = v.small; head_in = v.head_in },
      ap (segment (slot out) 0) {x = out.queue_count} {y = suc input.queue_count} (omega arith)
          ∙ segment-snoc (slot out) 0 input.queue_count
          ∙ ap₂ (λ es (e : Event). es ++ (e ∷ []))
              (segment-cong (slot out) (slot input) 0 input.queue_count λ j lo hi.
                update_other input.queue _ _ _ (
                  rw place (
                    slots_apart input.queue_head input.queue_count j input.queue_capacity
                      (omega arith) (omega arith) h)))
              (update_self input.queue _ _ _
                (ap (λ (t : ℕ). t % input.queue_capacity) (omega arith))),
      grown,
    )

-- What a poll did: with no event there was none and nothing changed; an event was the oldest one
-- and the others are kept in order.
abbrev pub Polled : Input → Input → Option Event → Type 0
Polled input out none = (contents input ≡ []) × (out ≡ input)
Polled input out (some e) = contents input ≡ e ∷ contents out

-- Polling a valid ring keeps it valid; with no event queued nothing changes, else the oldest
-- event is taken and the others are kept in order.
pub poll_lem :
    (input : Input)
    → IsRing input
    → let (out, event) = poll input in IsRing out × Polled input out event
unfolding poll
poll_lem input v = elim (Bool-cases (input.queue_count == 0)) [
  | inl empty ↦
      rw empty
        (v, (ap (segment (slot input) 0) {x = input.queue_count} {y = 0} (ground arith), refl))
  | inr more ↦
      let some_left : input.queue_count ≡ suc (input.queue_count - 1) = ground arith in
      let next : add_size input.queue_head 1 ≡ input.queue_head + 1 = omega arith in
      rw more (
        record {
          room = omega arith;
          small = v.small;
          head_in = omega (
            arith,
            mod-lt (add_size input.queue_head 1) {m = input.queue_capacity} (ground arith),
          );
        },
        ap (segment (slot input) 0) some_left
            ∙ ap₂ ◌∷◌
                (ap input.queue (
                  ap (λ (t : ℕ). t % input.queue_capacity) {x = input.queue_head + 0}
                    {y = input.queue_head} (omega arith)
                  ∙ mod-eq_of_lt {n = input.queue_head} {m = input.queue_capacity} (ground arith)))
                (segment-shift (slot input) 0 (input.queue_count - 1)
                  ∙ segment-cong _ _ 0 (input.queue_count - 1) λ j lo hi. ap input.queue (
                      ap (λ (t : ℕ). t % input.queue_capacity) {x = input.queue_head + (j + 1)}
                        {y = add_size input.queue_head 1 + j} (omega arith)
                      ∙ sym (mod-add-mod (add_size input.queue_head 1) input.queue_capacity j))),
      )
]
