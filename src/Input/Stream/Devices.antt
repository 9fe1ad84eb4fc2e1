-- ===== src/Input/Stream/Devices.antt =====
-- Devices that come and go emit exactly the edges of the held keys, and so does every SDL event.
use machismo_sword.Base.{
  ℕ, ◌-◌, ◌≡◌, refl, ap, ap₂, ◌∙◌, true, false, not, ◌||◌, none, some, ◌∷◌, arith, if◌then◌else◌,
  Bool-cases, Option-cases, inl, inr,
}
use machismo_sword.Base.Int.{ℤ, pos, pos_part, ltb_ℤ}
use machismo_sword.Input.{
  Event, Input, enomem, Malloc, Sizes, Outcome, update, for_scancodes, controller_at,
}
use machismo_sword.Input.Queue.{reserve_queue}
use machismo_sword.Input.Queue.Contents.{IsRing, reserve_queue_lem}
use machismo_sword.Input.Devices.{
  Device, fresh_controller, find_controller, add_controller, count_releases, release_key,
  release_controller, remove_at, remove_controller,
}
use machismo_sword.Input.Mapping.{
  count_owned, release_owned, release_controller_inputs, mappable, is_index, map_button, map_axis,
}
use machismo_sword.Input.Events.{
  SdlEvent, key_change, device_added, device_removed, button_change, axis_motion, window, other,
  reply, handle_event,
}
use machismo_sword.Input.Stream.{Emits, Emits-refl, Emits-trans, reserve_queue-Emits}
use machismo_sword.Input.Stream.Loops.{tally, for_scancodes-Emits}
use machismo_sword.Input.Stream.Release.{
  Counted, fires_of, release_key-Round, last_of, release_key_later, all_owned, fires_owned,
  release_owned-Round, release_owned_later,
}
use machismo_sword.Input.Stream.Counting.{count_releases-Found, count_owned-Found}
use machismo_sword.Input.Stream.Events.{
  Emits-then, then-Emits, Countable, Shorts, refs-reserved, handle_keyboard-Emits,
  handle_button-Emits, handle_axis-Emits, release_all-Emits,
}

-- A reserved state differs from the one before in its block only.
fields-reserved {ℓ} :
    {A : Type ℓ} (field : Input → A) (malloc : Malloc) (input : Input) (n : ℕ)
    → IsRing input
    → ((i : Input) (q : ℕ → Event) (c h : ℕ)
        → field (record i { queue = q; queue_capacity = c; queue_head = h }) ≡ field i)
    → field (reserve_queue malloc input n).0 ≡ field input
fields-reserved field malloc input n v blind =
    ap field (reserve_queue_lem malloc input n v).rest ∙ blind input _ _ _

release_controller-Emits :
    (malloc : Malloc) (sizes : Sizes) (input : Input) (k : ℕ)
    → Countable sizes
    → IsRing input
    → Shorts input
    → Emits input (release_controller malloc sizes input k).0
unfolding release_controller
release_controller-Emits malloc sizes input k fits v shorts =
    let rounds = sizes.num_scancodes - 1 in
    let owned = (controller_at input k).key_refs in
    let found = count_releases-Found owned input.key_refs rounds 1 0 (omega arith) in
    elim (Option-cases (count_releases owned input.key_refs rounds 1 0)) [
      | inl lost ↦ rw (lost, release_controller) (Emits-refl input v)
      | inr (needed, counted) ↦
          let reserved = reserve_queue malloc input needed in
          let r = reserve_queue_lem malloc input needed v in
          let emits = reserve_queue-Emits malloc input needed v in
          let facts = rw counted at found in
          let refs = refs-reserved malloc input needed v in
          let owners : (controller_at reserved.0 k).key_refs ≡ owned =
            fields-reserved (λ i. (controller_at i k).key_refs) malloc input needed v
              (λ i q c h. refl) in
          elim (Option-cases reserved.1) [
            | inr (e, failed) ↦ rw (counted, release_controller, failed) emits
            | inl fine ↦
                let loop =
                  for_scancodes-Emits (release_key k) (fires_of k)
                    (λ i. Counted (controller_at i k).key_refs i.key_refs)
                    (λ scancode i w c room. release_key-Round k scancode i w c room)
                    (λ scancode j i lo c. release_key_later k scancode j i lo c) rounds 1 reserved.0
                    r.ring
                    (λ j lo hi. (
                      omega (
                        arith,
                        ap (λ (f : ℕ → ℕ). f j) owners,
                        ap (λ (f : ℕ → ℕ). f j) refs,
                        facts.1 j lo hi,
                      ),
                      omega (arith, shorts j, ap (λ (f : ℕ → ℕ). f j) refs),
                    ))
                    (omega (
                      arith,
                      r.room fine,
                      facts.0,
                      ap₂ (λ (o g : ℕ → ℕ). tally (last_of o g) rounds 1) owners refs,
                    )) in
                rw (counted, release_controller, fine)
                  (Emits-trans input reserved.0 _ emits (
                    Emits-then reserved.0 (for_scancodes (release_key k) rounds 1 reserved.0) _ loop
                      (refl, loop.ring, refl)))
          ]
    ]

release_controller_inputs-Emits :
    (malloc : Malloc) (sizes : Sizes) (input : Input)
    → Countable sizes
    → IsRing input
    → Shorts input
    → Emits input (release_controller_inputs malloc sizes input).0
unfolding release_controller_inputs
release_controller_inputs-Emits malloc sizes input fits v shorts =
    let rounds = sizes.num_scancodes - 1 in
    let found = count_owned-Found input.controllers input.key_refs rounds 1 0 (omega arith) in
    elim (Option-cases (count_owned input.controllers input.key_refs rounds 1 0)) [
      | inl lost ↦ rw (lost, release_controller_inputs) (Emits-refl input v)
      | inr (needed, counted) ↦
          let reserved = reserve_queue malloc input needed in
          let r = reserve_queue_lem malloc input needed v in
          let emits = reserve_queue-Emits malloc input needed v in
          let facts = rw counted at found in
          let refs = refs-reserved malloc input needed v in
          let owners : all_owned reserved.0.controllers ≡ all_owned input.controllers =
            fields-reserved (λ i. all_owned i.controllers) malloc input needed v
              (λ i q c h. refl) in
          elim (Option-cases reserved.1) [
            | inr (e, failed) ↦ rw (counted, release_controller_inputs, failed) emits
            | inl fine ↦
                let loop =
                  for_scancodes-Emits release_owned fires_owned
                    (λ i. Counted (all_owned i.controllers) i.key_refs)
                    (λ scancode i w c room. release_owned-Round scancode i w c room)
                    (λ scancode j i lo c. release_owned_later scancode j i lo c) rounds 1 reserved.0
                    r.ring
                    (λ j lo hi. (
                      omega (
                        arith,
                        ap (λ (f : ℕ → ℕ). f j) owners,
                        ap (λ (f : ℕ → ℕ). f j) refs,
                        facts.1 j lo hi,
                      ),
                      omega (arith, shorts j, ap (λ (f : ℕ → ℕ). f j) refs),
                    ))
                    (omega (
                      arith,
                      r.room fine,
                      facts.0,
                      ap₂ (λ (o g : ℕ → ℕ). tally (last_of o g) rounds 1) owners refs,
                    )) in
                rw (counted, release_controller_inputs, fine)
                  (Emits-trans input reserved.0 _ emits (
                    Emits-then reserved.0 (for_scancodes release_owned rounds 1 reserved.0) _ loop
                      (refl, loop.ring, refl)))
          ]
    ]

remove_controller-Emits :
    (malloc : Malloc) (sizes : Sizes) (input : Input) (id : ℤ)
    → Countable sizes
    → IsRing input
    → Shorts input
    → Emits input (remove_controller malloc sizes input id).0
unfolding remove_controller
remove_controller-Emits malloc sizes input id fits v shorts =
    elim (Option-cases (find_controller input.controllers id)) [
      | inl missing ↦ rw (missing, remove_controller) (Emits-refl input v)
      | inr (k, found) ↦
          rw (found, remove_controller)
            (then-Emits input (release_controller malloc sizes input k)
              (λ released.
                (record released { controllers = remove_at released.controllers k }, none))
              (release_controller-Emits malloc sizes input k fits v shorts)
              (λ p. Emits-then input _ _ p (refl, p.ring, refl)))
    ]

add_controller-Emits :
    (input : Input) (device : Device) → IsRing input → Emits input (add_controller input device).0
unfolding add_controller
add_controller-Emits input device v = elim (Bool-cases device.is_game_controller) [
  | inr not_one ↦ rw not_one (Emits-refl input v)
  | inl is_one ↦ rw is_one (elim (Option-cases device.opened) [
    | inl closed ↦ rw (closed, add_controller) (Emits-refl input v)
    | inr (handle, opened) ↦
        rw (opened, add_controller)
          (elim (Bool-cases device.has_joystick) [
            | inr bare ↦ rw bare (Emits-refl input v)
            | inl full ↦ rw full (elim (Bool-cases (ltb_ℤ device.instance_id (pos 0))) [
              | inl invalid ↦ rw invalid (Emits-refl input v)
              | inr valid ↦ rw valid (find_cases handle)
            ])
          ])
  ])
]
  where
    find_cases :
        (handle : ℕ)
        → Emits input
            (elim (find_controller input.controllers device.instance_id) as (λ o. Outcome) [
              | some k ↦ (input, none)
              | none ↦ if not device.calloc_succeeds then (input, some enomem) else (
                record input {
                  controllers = fresh_controller handle device.instance_id ∷ input.controllers;
                },
                none,
              )
            ]).0
    find_cases handle = elim (Option-cases (find_controller input.controllers device.instance_id)) [
      | inr (k, known) ↦ rw known (Emits-refl input v)
      | inl new ↦ rw new (elim (Bool-cases device.calloc_succeeds) [
        | inr exhausted ↦ rw exhausted (Emits-refl input v)
        | inl given ↦ rw given (Emits-then input input _ (Emits-refl input v) (refl, v, refl))
      ])
    ]

-- A successful mapping call releases what the controllers hold, and maps.
map_button-Emits :
    (malloc : Malloc) (sizes : Sizes) (input : Input) (button : ℤ) (scancode : ℕ)
    → Countable sizes
    → IsRing input
    → Shorts input
    → Emits input (map_button malloc sizes input button scancode).0
unfolding map_button
map_button-Emits malloc sizes input button scancode fits v shorts =
    elim (Bool-cases (not (is_index button sizes.button_max) || not (mappable sizes scancode))) [
      | inl bad ↦ rw bad (Emits-refl input v)
      | inr good ↦ rw good (
          then-Emits input (release_controller_inputs malloc sizes input)
            (λ released. (
              record released {
                button_map = update released.button_map (pos_part button) scancode;
              },
              none,
            ))
            (release_controller_inputs-Emits malloc sizes input fits v shorts)
            (λ p. Emits-then input _ _ p (refl, p.ring, refl)))
    ]

map_axis-Emits :
    (malloc : Malloc) (sizes : Sizes) (input : Input) (axis : ℤ) (negative positive : ℕ)
    → Countable sizes
    → IsRing input
    → Shorts input
    → Emits input (map_axis malloc sizes input axis negative positive).0
unfolding map_axis
map_axis-Emits malloc sizes input axis negative positive fits v shorts =
    elim (Bool-cases (
      not (is_index axis sizes.axis_max)
      || not (mappable sizes negative)
      || not (mappable sizes positive))) [
        | inl bad ↦ rw bad (Emits-refl input v)
        | inr good ↦ rw good (
            then-Emits input (release_controller_inputs malloc sizes input)
              (λ released. (
                record released {
                  axis_negative = update released.axis_negative (pos_part axis) negative;
                  axis_positive = update released.axis_positive (pos_part axis) positive;
                },
                none,
              ))
              (release_controller_inputs-Emits malloc sizes input fits v shorts)
              (λ p. Emits-then input _ _ p (refl, p.ring, refl)))
      ]

-- For a valid ring, counts of 16 bits and fewer than 2^31 scancodes, remapping a button or an
-- axis with any arguments and any answer of malloc emits exactly the edges of the held keys.
pub mapping-Emits :
    (malloc : Malloc) (sizes : Sizes) (input : Input) (index : ℤ) (first second : ℕ)
    → Countable sizes
    → IsRing input
    → Shorts input
    → Emits input (map_button malloc sizes input index first).0
      × Emits input (map_axis malloc sizes input index first second).0
mapping-Emits malloc sizes input index first second fits v shorts = (
  map_button-Emits malloc sizes input index first fits v shorts,
  map_axis-Emits malloc sizes input index first second fits v shorts,
)

reply-state : (out : Outcome) → (reply out).0 ≡ out.0
reply-state (input, none) = refl
reply-state (input, some e) = refl

-- For a valid ring, counts of 16 bits and fewer than 2^31 scancodes, whatever SDL event is
-- handled and whatever malloc answers, the events queued are appended in order behind those that
-- were queued, each one changes the state of its key, and together they take the keys held before
-- to the keys held after.
pub handle_event-Emits :
    (malloc : Malloc) (sizes : Sizes) (input : Input) (event : SdlEvent)
    → Countable sizes
    → IsRing input
    → Shorts input
    → Emits input (handle_event malloc sizes input event).0
unfolding handle_event
handle_event-Emits malloc sizes input (key_change down scancode repeat) fits v shorts =
    rw reply-state (handle_keyboard-Emits malloc sizes input down scancode repeat v)
handle_event-Emits malloc sizes input (device_added device) fits v shorts =
    rw reply-state (add_controller-Emits input device v)
handle_event-Emits malloc sizes input (device_removed which) fits v shorts =
    rw reply-state (remove_controller-Emits malloc sizes input which fits v shorts)
handle_event-Emits malloc sizes input (button_change down which b) fits v shorts =
    rw reply-state (handle_button-Emits malloc sizes input down which b v)
handle_event-Emits malloc sizes input (axis_motion which a value) fits v shorts =
    rw reply-state (handle_axis-Emits malloc sizes input which a value v)
handle_event-Emits malloc sizes input (window false) fits v shorts = Emits-refl input v
handle_event-Emits malloc sizes input (window true) fits v shorts =
    rw reply-state (release_all-Emits malloc sizes input fits v)
handle_event-Emits malloc sizes input other fits v shorts = Emits-refl input v
