-- ===== src/Input/Events.antt =====
-- `handle_keyboard`, `handle_axis`, `sword3_input_release_all` and `sword3_input_handle_event` of
-- input.c.
use machismo_sword.Base.{
  ℕ, zero, suc, ◌+◌, ◌-◌, Bool, true, false, not, ◌&&◌, ◌||◌, Option, none, some, map, ltb, ◌==◌,
  if◌then◌else◌,
}
use machismo_sword.Base.Int.{ℤ, pos, negsuc, eq_ℤ, ltb_ℤ, leb_ℤ, truth}
use machismo_sword.Input.{
  Error, einval, Input, Controller, Sizes, Outcome, Malloc, update, valid_scancode, controller_at,
  set_controller, add_size, for_scancodes,
}
use machismo_sword.Input.Queue.{reserve_queue, enqueue_reserved}
use machismo_sword.Input.Keys.{change_global_key, change_controller_key}
use machismo_sword.Input.Devices.{
  Device, find_controller, add_controller, remove_controller, let_go,
}

-- The events of SDL that the input looks at. The device of an added controller stands for what
-- SDL answers about it; `button` and `axis` are the bytes of the event.
pub data SdlEvent : Type 0 where
  key_change : (down : Bool) → (scancode : ℕ) → (repeat : Bool) → SdlEvent
  device_added : Device → SdlEvent
  device_removed : ℤ → SdlEvent
  button_change : (down : Bool) → (which : ℤ) → (button : ℕ) → SdlEvent
  axis_motion : (which : ℤ) → (axis : ℕ) → (value : ℤ) → SdlEvent
  window : (focus_lost : Bool) → SdlEvent
  other : SdlEvent

abbrev pub same_bool : Bool → Bool → Bool
same_bool true b = b
same_bool false b = not b

-- `handle_keyboard`.
unfoldable pub handle_keyboard : Malloc → Sizes → Input → Bool → ℕ → Bool → Outcome
handle_keyboard malloc sizes input pressed scancode repeat =
    if not (valid_scancode sizes scancode) || (pressed && repeat)
    then (input, none)
    else if same_bool (input.keyboard_down scancode) pressed
    then (input, none)
    else (let (changed, failed) = change_global_key malloc sizes input scancode pressed in
        elim failed [
          | some e ↦ (changed, some e)
          | none ↦ (
            record changed { keyboard_down = update changed.keyboard_down scancode pressed },
            none,
          )
        ])

-- `AXIS_PRESS_THRESHOLD` and `AXIS_RELEASE_THRESHOLD`.
abbrev pub press_threshold : ℕ
press_threshold = 16000

abbrev pub release_threshold : ℕ
release_threshold = 10000

-- The direction of an axis after a new value: held until the value falls under the release
-- threshold, taken when it reaches the press threshold.
unfoldable pub new_direction : ℤ → ℤ → ℤ
new_direction old value =
    let kept =
      if ltb_ℤ old (pos 0) && ltb_ℤ (negsuc 9999) value
      then pos 0
      else if ltb_ℤ (pos 0) old && ltb_ℤ value (pos release_threshold)
      then pos 0
      else old in
    if truth kept
    then kept
    else if leb_ℤ value (negsuc 15999)
    then negsuc 0
    else if leb_ℤ (pos press_threshold) value
    then pos 1
    else pos 0

abbrev pub axis_key : Input → ℕ → ℤ → ℕ
axis_key input axis direction =
    if ltb_ℤ direction (pos 0) then input.axis_negative axis else input.axis_positive axis

abbrev pub set_axis : Input → ℕ → ℕ → ℤ → Input
set_axis input k axis direction =
    let c = controller_at input k in
    set_controller input k (record c { axis_direction = update c.axis_direction axis direction })

-- The second half of `handle_axis`: the old direction is released, the new one is not yet pressed.
unfoldable pub press_axis : Malloc → Sizes → Input → ℕ → ℕ → ℤ → Outcome
press_axis malloc sizes input k axis direction =
    let cleared = set_axis input k axis (pos 0) in
    if truth direction
    then (let (pressed, failed) =
          change_controller_key malloc sizes cleared k (axis_key cleared axis direction) true in
        elim failed [
          | some e ↦ (pressed, some e)
          | none ↦ (set_axis pressed k axis direction, none)
        ])
    else (set_axis cleared k axis direction, none)

-- `handle_axis`.
unfoldable pub handle_axis : Malloc → Sizes → Input → ℤ → ℕ → ℤ → Outcome
handle_axis malloc sizes input which axis value = elim (find_controller input.controllers which) [
  | none ↦ (input, none)
  | some k ↦
      if not (ltb axis sizes.axis_max)
      then (input, none)
      else (let old = (controller_at input k).axis_direction axis in
          let new = new_direction old value in
          if eq_ℤ new old
          then (input, none)
          else if truth old
          then (let (released, failed) =
                change_controller_key malloc sizes input k (axis_key input axis old) false in
              elim failed [
                | some e ↦ (released, some e)
                | none ↦ press_axis malloc sizes released k axis new
              ])
          else press_axis malloc sizes input k axis new)
]

-- The loops of `sword3_input_release_all`.
unfoldable pub count_down : (ℕ → ℕ) → ℕ → ℕ → ℕ → ℕ
count_down refs zero scancode releases = releases
count_down refs (suc n) scancode releases =
    count_down refs n (scancode + 1)
      (if not (refs scancode == 0) then add_size releases 1 else releases)

unfoldable pub release_down : ℕ → Input → Input
release_down scancode input =
    if not (input.key_refs scancode == 0)
    then enqueue_reserved (record input { key_refs = update input.key_refs scancode 0 }) scancode
        false
    else input

abbrev pub forget : Controller → Controller
forget c = record (let_go c) { key_refs = λ _. 0 }

-- `sword3_input_release_all` on an input that is not null.
unfoldable pub release_all : Malloc → Sizes → Input → Outcome
release_all malloc sizes input =
    let rounds = sizes.num_scancodes - 1 in
    let (reserved, failed) = reserve_queue malloc input (count_down input.key_refs rounds 1 0) in
    elim failed [
      | some e ↦ (reserved, some e)
      | none ↦ (
        for_scancodes release_down rounds 1 (record reserved {
          keyboard_down = λ _. false;
          controllers = map forget reserved.controllers;
        }),
        none,
      )
    ]

-- The case of a controller button in `sword3_input_handle_event`.
unfoldable pub handle_button : Malloc → Sizes → Input → Bool → ℤ → ℕ → Outcome
handle_button malloc sizes input pressed which button =
    elim (find_controller input.controllers which) [
      | none ↦ (input, none)
      | some k ↦
          if not (ltb button sizes.button_max)
          then (input, none)
          else if same_bool ((controller_at input k).button_down button) pressed
          then (input, none)
          else (let (changed, failed) =
                change_controller_key malloc sizes input k (input.button_map button) pressed in
              elim failed [
                | some e ↦ (changed, some e)
                | none ↦
                    let c = controller_at changed k in
                    (
                      set_controller changed k
                          (record c { button_down = update c.button_down button pressed }),
                      none,
                    )
              ])
    ]

-- What `sword3_input_handle_event` returns: 1, 0, or -1 with an error.
pub data Reply : Type 0 where
  consumed unrelated : Reply
  failed : Error → Reply

abbrev pub reply : Outcome → Input × Reply
reply (input, none) = (input, consumed)
reply (input, some e) = (input, failed e)

-- `sword3_input_handle_event` on pointers that are not null.
unfoldable pub handle_event : Malloc → Sizes → Input → SdlEvent → Input × Reply
handle_event malloc sizes input (key_change down scancode repeat) =
    reply (handle_keyboard malloc sizes input down scancode repeat)
handle_event malloc sizes input (device_added device) = reply (add_controller input device)
handle_event malloc sizes input (device_removed which) =
    reply (remove_controller malloc sizes input which)
handle_event malloc sizes input (button_change down which b) =
    reply (handle_button malloc sizes input down which b)
handle_event malloc sizes input (axis_motion which a value) =
    reply (handle_axis malloc sizes input which a value)
handle_event malloc sizes input (window false) = (input, unrelated)
handle_event malloc sizes input (window true) = reply (release_all malloc sizes input)
handle_event malloc sizes input other = (input, unrelated)

-- `sword3_input_handle_event`, which refuses a null input and a null event.
unfoldable pub handle_event_at :
    Malloc → Sizes → Option Input → Option SdlEvent → Option Input × Reply
handle_event_at malloc sizes none event = (none, failed einval)
handle_event_at malloc sizes (some input) none = (some input, failed einval)
handle_event_at malloc sizes (some input) (some event) =
    let (input', r) = handle_event malloc sizes input event in (some input', r)
