-- ===== src/Input/Stream/Shorts/Events.antt =====
-- The handlers of SDL events keep the counts of the keys within 16 bits.
use machismo_sword.Base.{
  ℕ, ◌-◌, Bool, true, false, not, ◌&&◌, ◌||◌, none, some, map, arith, ltb, Bool-cases, Option-cases,
  inl, inr,
}
use machismo_sword.Base.Int.{ℤ, pos, eq_ℤ, truth}
use machismo_sword.Input.{
  Input, Malloc, Sizes, Outcome, update, valid_scancode, for_scancodes, controller_at,
  set_controller,
}
use machismo_sword.Input.Queue.{reserve_queue}
use machismo_sword.Input.Queue.Contents.{IsRing}
use machismo_sword.Input.Keys.{change_global_key, change_controller_key}
use machismo_sword.Input.Devices.{
  Device, find_controller, add_controller, count_releases, release_key, release_controller,
  remove_controller, remove_at, let_go,
}
use machismo_sword.Input.Events.{
  SdlEvent, key_change, device_added, device_removed, button_change, axis_motion, window, other,
  same_bool, handle_keyboard, new_direction, axis_key, set_axis, press_axis, handle_axis,
  count_down, release_down, forget, release_all, handle_button, handle_event, reply,
}
use machismo_sword.Input.Stream.Keys.{change_controller_key-Emits}
use machismo_sword.Input.Stream.Shorts.{Narrow, Owned-at, Narrow-set_controller}
use machismo_sword.Input.Stream.Shorts.Changes.{
  Owned-forget, Owned-remove_at, change_global_key-Narrow, change_controller_key-Narrow,
  then-Narrow, Narrow-loop, Narrow-reserved, Narrow-release_down, Narrow-release_key,
}

handle_keyboard-Narrow :
    (malloc : Malloc) (sizes : Sizes) (input : Input) (pressed : Bool) (scancode : ℕ)
    (repeat : Bool)
    → IsRing input
    → Narrow input
    → Narrow (handle_keyboard malloc sizes input pressed scancode repeat).0
unfolding handle_keyboard
handle_keyboard-Narrow malloc sizes input pressed scancode repeat v s =
    let changed = change_global_key-Narrow malloc sizes input scancode pressed v s in
    elim (Bool-cases (not (valid_scancode sizes scancode) || (pressed && repeat))) [
      | inl skip ↦ rw skip s
      | inr go ↦ rw go (elim (Bool-cases (same_bool (input.keyboard_down scancode) pressed)) [
        | inl same ↦ rw same s
        | inr new ↦ rw new (
            then-Narrow (change_global_key malloc sizes input scancode pressed)
              (λ c. (record c { keyboard_down = update c.keyboard_down scancode pressed }, none))
              changed changed)
      ])
    ]

handle_button-Narrow :
    (malloc : Malloc) (sizes : Sizes) (input : Input) (pressed : Bool) (which : ℤ) (button : ℕ)
    → IsRing input
    → Narrow input
    → Narrow (handle_button malloc sizes input pressed which button).0
unfolding handle_button
handle_button-Narrow malloc sizes input pressed which button v s =
    elim (Option-cases (find_controller input.controllers which)) [
      | inl missing ↦ rw (missing, handle_button) s
      | inr (k, found) ↦
          rw (found, handle_button)
            (elim (Bool-cases (ltb button sizes.button_max)) [
              | inr bad ↦ rw bad s
              | inl good ↦
                  rw good
                    (elim (Bool-cases
                      (same_bool ((controller_at input k).button_down button) pressed)) [
                        | inl same ↦ rw same s
                        | inr new ↦
                            let changed =
                              change_controller_key-Narrow malloc sizes input k
                                (input.button_map button) pressed v s in
                            rw new (
                              then-Narrow
                                (change_controller_key malloc sizes input k
                                  (input.button_map button) pressed)
                                (λ i.
                                  let c = controller_at i k in
                                  (
                                    set_controller i k (record c {
                                      button_down = update c.button_down button pressed;
                                    }),
                                    none,
                                  ))
                                changed
                                (let i =
                                    (change_controller_key malloc sizes input k
                                      (input.button_map button) pressed).0 in
                                  Narrow-set_controller i k _ changed
                                    (Owned-at i.controllers k changed.1)))
                      ])
            ])
    ]

-- Setting a direction.
Narrow-set_axis :
    (i : Input) (k axis : ℕ) (direction : ℤ) → Narrow i → Narrow (set_axis i k axis direction)
Narrow-set_axis i k axis direction s = Narrow-set_controller i k _ s (Owned-at i.controllers k s.1)

press_axis-Narrow :
    (malloc : Malloc) (sizes : Sizes) (input : Input) (k axis : ℕ) (direction : ℤ)
    → IsRing input
    → Narrow input
    → Narrow (press_axis malloc sizes input k axis direction).0
unfolding press_axis
press_axis-Narrow malloc sizes input k axis direction v s =
    let cleared = set_axis input k axis (pos 0) in
    let n = Narrow-set_axis input k axis (pos 0) s in
    elim (Bool-cases (truth direction)) [
      | inr rests ↦ rw rests (Narrow-set_axis cleared k axis direction n)
      | inl moves ↦
          let key = axis_key cleared axis direction in
          let pressed = change_controller_key-Narrow malloc sizes cleared k key true v n in
          rw moves (
            then-Narrow (change_controller_key malloc sizes cleared k key true)
              (λ i. (set_axis i k axis direction, none)) pressed
              (Narrow-set_axis (change_controller_key malloc sizes cleared k key true).0 k axis
                direction pressed))
    ]

handle_axis-Narrow :
    (malloc : Malloc) (sizes : Sizes) (input : Input) (which : ℤ) (axis : ℕ) (value : ℤ)
    → IsRing input
    → Narrow input
    → Narrow (handle_axis malloc sizes input which axis value).0
unfolding handle_axis
handle_axis-Narrow malloc sizes input which axis value v s =
    elim (Option-cases (find_controller input.controllers which)) [
      | inl missing ↦ rw (missing, handle_axis) s
      | inr (k, found) ↦
          rw (found, handle_axis)
            (elim (Bool-cases (ltb axis sizes.axis_max)) [
              | inr bad ↦ rw bad s
              | inl good ↦ rw good (
                  let old = (controller_at input k).axis_direction axis in
                  let new = new_direction old value in
                  elim (Bool-cases (eq_ℤ new old)) [
                    | inl same ↦ rw same s
                    | inr turned ↦ rw turned (elim (Bool-cases (truth old)) [
                      | inr rests ↦ rw rests (press_axis-Narrow malloc sizes input k axis new v s)
                      | inl held ↦
                          let key = axis_key input axis old in
                          let released =
                            change_controller_key-Narrow malloc sizes input k key false v s in
                          let ring =
                            (change_controller_key-Emits malloc sizes input k key false v).ring in
                          rw held (
                            then-Narrow (change_controller_key malloc sizes input k key false)
                              (λ i. press_axis malloc sizes i k axis new) released
                              (press_axis-Narrow malloc sizes _ k axis new ring released))
                    ])
                  ])
            ])
    ]

release_all-Narrow :
    (malloc : Malloc) (sizes : Sizes) (input : Input)
    → IsRing input
    → Narrow input
    → Narrow (release_all malloc sizes input).0
unfolding release_all
release_all-Narrow malloc sizes input v s =
    let rounds = sizes.num_scancodes - 1 in
    let needed = count_down input.key_refs rounds 1 0 in
    let reserved = reserve_queue malloc input needed in
    let kept = Narrow-reserved malloc input needed v s in
    then-Narrow reserved
      (λ i. (
        for_scancodes release_down rounds 1
            (record i { keyboard_down = λ _. false; controllers = map forget i.controllers }),
        none,
      ))
      kept
      (Narrow-loop release_down Narrow-release_down rounds 1
        (record reserved.0 {
          keyboard_down = λ _. false;
          controllers = map forget reserved.0.controllers;
        })
        (kept.0, Owned-forget reserved.0.controllers))

release_controller-Narrow :
    (malloc : Malloc) (sizes : Sizes) (input : Input) (k : ℕ)
    → IsRing input
    → Narrow input
    → Narrow (release_controller malloc sizes input k).0
unfolding release_controller
release_controller-Narrow malloc sizes input k v s =
    let rounds = sizes.num_scancodes - 1 in
    elim (Option-cases
      (count_releases (controller_at input k).key_refs input.key_refs rounds 1 0)) [
        | inl lost ↦ rw (lost, release_controller) s
        | inr (needed, counted) ↦
            let reserved = reserve_queue malloc input needed in
            let kept = Narrow-reserved malloc input needed v s in
            rw (counted, release_controller)
              (then-Narrow reserved
                (λ i.
                  let released = for_scancodes (release_key k) rounds 1 i in
                  (set_controller released k (let_go (controller_at released k)), none))
                kept
                (let released = for_scancodes (release_key k) rounds 1 reserved.0 in
                  let n =
                    Narrow-loop (release_key k) (Narrow-release_key k) rounds 1 reserved.0 kept in
                  Narrow-set_controller released k (let_go (controller_at released k)) n
                    (Owned-at released.controllers k n.1)))
      ]

remove_controller-Narrow :
    (malloc : Malloc) (sizes : Sizes) (input : Input) (id : ℤ)
    → IsRing input
    → Narrow input
    → Narrow (remove_controller malloc sizes input id).0
unfolding remove_controller
remove_controller-Narrow malloc sizes input id v s =
    elim (Option-cases (find_controller input.controllers id)) [
      | inl missing ↦ rw (missing, remove_controller) s
      | inr (k, found) ↦
          let released = release_controller-Narrow malloc sizes input k v s in
          rw (found, remove_controller)
            (then-Narrow (release_controller malloc sizes input k)
              (λ i. (record i { controllers = remove_at i.controllers k }, none)) released
              (
                released.0,
                Owned-remove_at (release_controller malloc sizes input k).0.controllers k
                    released.1,
              ))
    ]

add_controller-Narrow :
    (input : Input) (device : Device) → Narrow input → Narrow (add_controller input device).0
unfolding add_controller
add_controller-Narrow input device s = ground arith

then_reply : (P : Input → Type 0) (out : Outcome) → P out.0 → P (reply out).0
then_reply P (input, none) p = p
then_reply P (input, some e) p = p

-- Whatever SDL event is handled from a valid ring and whatever malloc answers: if the counts of
-- the keys, those of the whole input and those of each controller, have 16 bits, they all have 16
-- bits afterwards.
pub handle_event-Narrow :
    (malloc : Malloc) (sizes : Sizes) (input : Input) (event : SdlEvent)
    → IsRing input
    → Narrow input
    → Narrow (handle_event malloc sizes input event).0
unfolding handle_event
handle_event-Narrow malloc sizes input (key_change down scancode repeat) v s =
    then_reply Narrow _ (handle_keyboard-Narrow malloc sizes input down scancode repeat v s)
handle_event-Narrow malloc sizes input (device_added device) v s =
    then_reply Narrow _ (add_controller-Narrow input device s)
handle_event-Narrow malloc sizes input (device_removed which) v s =
    then_reply Narrow _ (remove_controller-Narrow malloc sizes input which v s)
handle_event-Narrow malloc sizes input (button_change down which b) v s =
    then_reply Narrow _ (handle_button-Narrow malloc sizes input down which b v s)
handle_event-Narrow malloc sizes input (axis_motion which a value) v s =
    then_reply Narrow _ (handle_axis-Narrow malloc sizes input which a value v s)
handle_event-Narrow malloc sizes input (window false) v s = s
handle_event-Narrow malloc sizes input (window true) v s =
    then_reply Narrow _ (release_all-Narrow malloc sizes input v s)
handle_event-Narrow malloc sizes input other v s = s
