-- ===== src/Input/Stream/Events.antt =====
-- Every SDL event that `sword3_input_handle_event` takes emits exactly the edges of the held keys.
use machismo_sword.Base.{
  ℕ, ◌-◌, ◌^◌, ◌≤◌, ◌<◌, ◌≡◌, refl, sym, ap, Bool, true, false, not, ◌&&◌, ◌||◌, none, some, map,
  arith, ltb, Bool-cases, Option-cases, inl, inr,
}
use machismo_sword.Base.Int.{ℤ, pos, eq_ℤ, truth}
use machismo_sword.Input.{
  Input, Malloc, Sizes, Outcome, update, valid_scancode, controller_at, set_controller,
}
use machismo_sword.Input.Queue.{reserve_queue}
use machismo_sword.Input.Queue.Contents.{contents, IsRing, reserve_queue_lem}
use machismo_sword.Input.Keys.{change_global_key, change_controller_key}
use machismo_sword.Input.Devices.{find_controller}
use machismo_sword.Input.Events.{
  same_bool, handle_keyboard, new_direction, axis_key, set_axis, press_axis, handle_axis,
  count_down, release_down, forget, release_all, handle_button,
}
use machismo_sword.Input.Stream.{
  is_held, Emits, Emits-refl, Emits-trans, Emits-nothing, reserve_queue-Emits,
}
use machismo_sword.Input.Stream.Keys.{change_global_key-Emits, change_controller_key-Emits}
use machismo_sword.Input.Stream.Loops.{
  tally, for_scancodes-Emits, count_down-tally, release_down-Round, for_scancodes-release_down,
}

-- A change of fields that neither the queue nor the keys depend on.
abbrev pub Alike : Input → Input → Type 0
Alike a b = (contents b ≡ contents a) × IsRing b × (b.key_refs ≡ a.key_refs)

pub Emits-then : (a b c : Input) → Emits a b → Alike b c → Emits a c
Emits-then a b c p q =
    Emits-trans a b c p (Emits-nothing b c q.1 q.0 (λ j. ap (λ (f : ℕ → ℕ). is_held f j) (sym q.2)))

-- An operation that goes on after a call: where the call failed its state is the result.
pub then-Emits :
    (a : Input) (out : Outcome) (next : Input → Outcome)
    → Emits a out.0
    → (Emits a out.0 → Emits a (next out.0).0)
    → Emits a (elim out.1 as (λ o. Outcome) [ some e ↦ (out.0, some e) | none ↦ next out.0 ]).0
then-Emits a out next p goes = elim (Option-cases out.1) [
  | inl fine ↦ rw fine (goes p)
  | inr (e, failed) ↦ rw failed p
]

pub handle_keyboard-Emits :
    (malloc : Malloc) (sizes : Sizes) (input : Input) (pressed : Bool) (scancode : ℕ)
    (repeat : Bool)
    → IsRing input
    → Emits input (handle_keyboard malloc sizes input pressed scancode repeat).0
unfolding handle_keyboard
handle_keyboard-Emits malloc sizes input pressed scancode repeat v =
    elim (Bool-cases (not (valid_scancode sizes scancode) || (pressed && repeat))) [
      | inl skip ↦ rw skip (Emits-refl input v)
      | inr go ↦ rw go (elim (Bool-cases (same_bool (input.keyboard_down scancode) pressed)) [
        | inl same ↦ rw same (Emits-refl input v)
        | inr new ↦ rw new (
            then-Emits input (change_global_key malloc sizes input scancode pressed)
              (λ changed. (
                record changed { keyboard_down = update changed.keyboard_down scancode pressed },
                none,
              ))
              (change_global_key-Emits malloc sizes input scancode pressed v)
              (λ p. Emits-then input _ _ p (refl, p.ring, refl)))
      ])
    ]

set_axis-Alike :
    (input : Input) (k axis : ℕ) (direction : ℤ)
    → IsRing input
    → Alike input (set_axis input k axis direction)
set_axis-Alike input k axis direction v = (refl, v, refl)

pub press_axis-Emits :
    (malloc : Malloc) (sizes : Sizes) (input : Input) (k axis : ℕ) (direction : ℤ)
    → IsRing input
    → Emits input (press_axis malloc sizes input k axis direction).0
unfolding press_axis
press_axis-Emits malloc sizes input k axis direction v =
    let cleared = set_axis input k axis (pos 0) in
    let start = Emits-then input input cleared (Emits-refl input v) (refl, v, refl) in
    elim (Bool-cases (truth direction)) [
      | inl moves ↦ rw moves (
          Emits-trans input cleared _ start (
            then-Emits cleared
              (change_controller_key malloc sizes cleared k (axis_key cleared axis direction) true)
              (λ pressed. (set_axis pressed k axis direction, none))
              (change_controller_key-Emits malloc sizes cleared k (axis_key cleared axis direction)
                true v)
              (λ p. Emits-then cleared _ _ p (refl, p.ring, refl))))
      | inr rests ↦ rw rests (Emits-then input input _ (Emits-refl input v) (refl, v, refl))
    ]

pub handle_axis-Emits :
    (malloc : Malloc) (sizes : Sizes) (input : Input) (which : ℤ) (axis : ℕ) (value : ℤ)
    → IsRing input
    → Emits input (handle_axis malloc sizes input which axis value).0
unfolding handle_axis
handle_axis-Emits malloc sizes input which axis value v =
    elim (Option-cases (find_controller input.controllers which)) [
      | inl missing ↦ rw (missing, handle_axis) (Emits-refl input v)
      | inr (k, found) ↦
          rw (found, handle_axis)
            (elim (Bool-cases (ltb axis sizes.axis_max)) [
              | inr bad ↦ rw bad (Emits-refl input v)
              | inl good ↦ rw good (
                  let old = (controller_at input k).axis_direction axis in
                  let new = new_direction old value in
                  elim (Bool-cases (eq_ℤ new old)) [
                    | inl same ↦ rw same (Emits-refl input v)
                    | inr turned ↦ rw turned (elim (Bool-cases (truth old)) [
                      | inl held ↦ rw held (
                          then-Emits input
                            (change_controller_key malloc sizes input k (axis_key input axis old)
                              false)
                            (λ released. press_axis malloc sizes released k axis new)
                            (change_controller_key-Emits malloc sizes input k
                              (axis_key input axis old) false v)
                            (λ p.
                              Emits-trans input _ _ p
                                (press_axis-Emits malloc sizes _ k axis new p.ring)))
                      | inr rests ↦ rw rests (press_axis-Emits malloc sizes input k axis new v)
                    ])
                  ])
            ])
    ]

pub handle_button-Emits :
    (malloc : Malloc) (sizes : Sizes) (input : Input) (pressed : Bool) (which : ℤ) (button : ℕ)
    → IsRing input
    → Emits input (handle_button malloc sizes input pressed which button).0
unfolding handle_button
handle_button-Emits malloc sizes input pressed which button v =
    elim (Option-cases (find_controller input.controllers which)) [
      | inl missing ↦ rw (missing, handle_button) (Emits-refl input v)
      | inr (k, found) ↦
          rw (found, handle_button)
            (elim (Bool-cases (ltb button sizes.button_max)) [
              | inr bad ↦ rw bad (Emits-refl input v)
              | inl good ↦
                  rw good
                    (elim (Bool-cases
                      (same_bool ((controller_at input k).button_down button) pressed)) [
                        | inl same ↦ rw same (Emits-refl input v)
                        | inr new ↦ rw new (
                            then-Emits input
                              (change_controller_key malloc sizes input k (input.button_map button)
                                pressed)
                              (λ changed.
                                let c = controller_at changed k in
                                (
                                  set_controller changed k (record c {
                                    button_down = update c.button_down button pressed;
                                  }),
                                  none,
                                ))
                              (change_controller_key-Emits malloc sizes input k
                                (input.button_map button) pressed v)
                              (λ p. Emits-then input _ _ p (refl, p.ring, refl)))
                      ])
            ])
    ]

-- The loops count scancodes in an `int`.
abbrev pub Countable : Sizes → Type 0
Countable sizes = sizes.num_scancodes < 2 ^ 31

-- The counts are `unsigned short`s.
abbrev pub Shorts : Input → Type 0
Shorts input = (j : ℕ) → input.key_refs j ≤ 65535

pub refs-reserved :
    (malloc : Malloc) (input : Input) (n : ℕ)
    → IsRing input
    → (reserve_queue malloc input n).0.key_refs ≡ input.key_refs
refs-reserved malloc input n v =
    ap (λ (i : Input). i.key_refs) (reserve_queue_lem malloc input n v).rest

pub release_all-Emits :
    (malloc : Malloc) (sizes : Sizes) (input : Input)
    → Countable sizes
    → IsRing input
    → Emits input (release_all malloc sizes input).0
unfolding release_all
release_all-Emits malloc sizes input fits v =
    let rounds = sizes.num_scancodes - 1 in
    let needed = count_down input.key_refs rounds 1 0 in
    let reserved = reserve_queue malloc input needed in
    let r = reserve_queue_lem malloc input needed v in
    let emits = reserve_queue-Emits malloc input needed v in
    elim (Option-cases reserved.1) [
      | inr (e, failed) ↦ rw (failed, release_all) emits
      | inl fine ↦
          let start = record reserved.0 {
            keyboard_down = λ _. false;
            controllers = map forget reserved.0.controllers;
          } in
          rw (fine, release_all)
            (Emits-trans input start _
              (Emits-then input reserved.0 start emits (refl, r.ring, refl))
              (for_scancodes-Emits release_down (λ i. is_held i.key_refs) (λ _ _. Unit {0})
                (λ scancode i w _ room. release_down-Round scancode i w room) (λ _ _ _ _ _. tt)
                rounds 1 start r.ring (λ _ _ _. tt)
                (omega (
                  arith,
                  r.room fine,
                  count_down-tally input.key_refs rounds 1 0 (omega arith),
                  ap (λ (f : ℕ → ℕ). tally (is_held f) rounds 1)
                      (refs-reserved malloc input needed v),
                ))))
    ]

-- The outcomes of `sword3_input_release_all`: a failure changes nothing; after a success no key is
-- held, and the events queued in between release exactly the keys that were.
abbrev pub Released : Sizes → Input → Outcome → Type 0
Released sizes input (out, some e) = out ≡ input
Released sizes input (out, none) =
    Emits input out × ((j : ℕ) → 1 ≤ j → j < sizes.num_scancodes → out.key_refs j ≡ 0)

-- For a valid ring and fewer than 2^31 scancodes, whatever malloc answers,
-- sword3_input_release_all either fails and changes nothing, or queues the edges of the held keys
-- in order behind the queued events and leaves no valid scancode held.
pub release_all-Released :
    (malloc : Malloc) (sizes : Sizes) (input : Input)
    → Countable sizes
    → IsRing input
    → Released sizes input (release_all malloc sizes input)
unfolding release_all
release_all-Released malloc sizes input fits v =
    let rounds = sizes.num_scancodes - 1 in
    let needed = count_down input.key_refs rounds 1 0 in
    let reserved = reserve_queue malloc input needed in
    let r = reserve_queue_lem malloc input needed v in
    let emits = release_all-Emits malloc sizes input fits v in
    elim (Option-cases reserved.1) [
      | inr (e, failed) ↦ rw (failed, release_all) (r.failure (λ n. cc (n, failed)))
      | inl fine ↦
          rw (fine, release_all)
            (
              rw (fine, release_all) at emits,
              λ j lo hi. for_scancodes-release_down rounds 1 _ j lo (omega arith),
            )
    ]
