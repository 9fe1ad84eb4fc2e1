-- ===== src/Input/Mapping.antt =====
-- The mapping of buttons and axes to keys, and the life of an input: `set_default_mappings`,
-- `sword3_input_create`, `sword3_input_destroy`, `release_controller_inputs`,
-- `sword3_input_map_button` and `sword3_input_map_axis` of input.c.
use machismo_sword.Base.{
  ℕ, zero, suc, ◌+◌, ◌-◌, ◌%◌, ◌^◌, Bool, false, not, ◌&&◌, ◌||◌, Option, none, some, List, [], ◌∷◌,
  map, ltb, ◌==◌, if◌then◌else◌,
}
use machismo_sword.Base.Int.{ℤ, pos, pos_part, ltb_ℤ}
use machismo_sword.Input.{
  einval, eproto, Event, Input, Controller, Sizes, Outcome, Malloc, update, valid_scancode,
  add_size, for_scancodes,
}
use machismo_sword.Input.Queue.{reserve_queue, enqueue_reserved}
use machismo_sword.Input.Devices.{Device, add_controller, let_go}
use machismo_sword.Input.Events.{release_all}

-- The sum over the controllers of what they hold of a key, in a size_t.
unfoldable pub owned_total : List Controller → ℕ → ℕ → ℕ
owned_total [] scancode owned = owned
owned_total (c ∷ cs) scancode owned = owned_total cs scancode (add_size owned (c.key_refs scancode))

-- The first loop of `release_controller_inputs`.
unfoldable pub count_owned : List Controller → (ℕ → ℕ) → ℕ → ℕ → ℕ → Option ℕ
count_owned cs global zero scancode releases = some releases
count_owned cs global (suc n) scancode releases =
    let owned = owned_total cs scancode 0 in
    let more =
      if not (owned == 0) && (owned == global scancode) then add_size releases 1 else releases in
    let rest = count_owned cs global n (scancode + 1) more in
    if ltb (global scancode) owned then none else rest

abbrev pub drop_key : ℕ → Controller → Controller
drop_key scancode c = record c { key_refs = update c.key_refs scancode 0 }

-- One round of its second loop.
unfoldable pub release_owned : ℕ → Input → Input
release_owned scancode input =
    let owned = owned_total input.controllers scancode 0 in
    let left = (input.key_refs scancode + 2 ^ 16 - owned % 2 ^ 16) % 2 ^ 16 in
    let input' = record input {
      controllers = map (drop_key scancode) input.controllers;
      key_refs = update input.key_refs scancode left;
    } in
    if not (owned == 0) && (left == 0) then enqueue_reserved input' scancode false else input'

-- `release_controller_inputs`.
unfoldable pub release_controller_inputs : Malloc → Sizes → Input → Outcome
release_controller_inputs malloc sizes input =
    let rounds = sizes.num_scancodes - 1 in
    elim (count_owned input.controllers input.key_refs rounds 1 0) [
      | none ↦ (input, some eproto)
      | some releases ↦
          let (reserved, failed) = reserve_queue malloc input releases in
          elim failed [
            | some e ↦ (reserved, some e)
            | none ↦
                let released = for_scancodes release_owned rounds 1 reserved in
                (record released { controllers = map let_go released.controllers }, none)
          ]
    ]

-- A scancode that a mapping may name; 0 disables it.
abbrev pub mappable : Sizes → ℕ → Bool
mappable sizes scancode = (scancode == 0) || valid_scancode sizes scancode

-- An enumerator that names a place of an array: it is not negative and below the size.
abbrev pub is_index : ℤ → ℕ → Bool
is_index i size = not (ltb_ℤ i (pos 0)) && ltb_ℤ i (pos size)

-- `sword3_input_map_button` on an input that is not null.
unfoldable pub map_button : Malloc → Sizes → Input → ℤ → ℕ → Outcome
map_button malloc sizes input button scancode =
    if not (is_index button sizes.button_max) || not (mappable sizes scancode)
    then (input, some einval)
    else (let (released, failed) = release_controller_inputs malloc sizes input in
        elim failed [
          | some e ↦ (released, some e)
          | none ↦ (
            record released { button_map = update released.button_map (pos_part button) scancode },
            none,
          )
        ])

-- `sword3_input_map_axis` on an input that is not null.
unfoldable pub map_axis : Malloc → Sizes → Input → ℤ → ℕ → ℕ → Outcome
map_axis malloc sizes input axis negative positive =
    if not (is_index axis sizes.axis_max)
      || not (mappable sizes negative)
      || not (mappable sizes positive)
    then (input, some einval)
    else (let (released, failed) = release_controller_inputs malloc sizes input in
        elim failed [
          | some e ↦ (released, some e)
          | none ↦ (
            record released {
              axis_negative = update released.axis_negative (pos_part axis) negative;
              axis_positive = update released.axis_positive (pos_part axis) positive;
            },
            none,
          )
        ])

-- The enumerators of SDL that the default mapping names: keys, buttons and axes.
pub record Names : Type 0 where
  pub key_return : ℕ
  pub key_escape : ℕ
  pub key_x : ℕ
  pub key_y : ℕ
  pub key_tab : ℕ
  pub key_space : ℕ
  pub key_q : ℕ
  pub key_e : ℕ
  pub key_up : ℕ
  pub key_down : ℕ
  pub key_left : ℕ
  pub key_right : ℕ
  pub button_a : ℕ
  pub button_b : ℕ
  pub button_x : ℕ
  pub button_y : ℕ
  pub button_back : ℕ
  pub button_start : ℕ
  pub button_leftshoulder : ℕ
  pub button_rightshoulder : ℕ
  pub dpad_up : ℕ
  pub dpad_down : ℕ
  pub dpad_left : ℕ
  pub dpad_right : ℕ
  pub axis_leftx : ℕ
  pub axis_lefty : ℕ

unfoldable pub default_buttons : Names → ℕ → ℕ
default_buttons n =
    let m1 = update (λ _. 0) n.button_a n.key_return in
    let m2 = update m1 n.button_b n.key_escape in
    let m3 = update m2 n.button_x n.key_x in
    let m4 = update m3 n.button_y n.key_y in
    let m5 = update m4 n.button_back n.key_tab in
    let m6 = update m5 n.button_start n.key_space in
    let m7 = update m6 n.button_leftshoulder n.key_q in
    let m8 = update m7 n.button_rightshoulder n.key_e in
    let m9 = update m8 n.dpad_up n.key_up in
    let m10 = update m9 n.dpad_down n.key_down in
    let m11 = update m10 n.dpad_left n.key_left in update m11 n.dpad_right n.key_right

-- `set_default_mappings`.
unfoldable pub set_default_mappings : Names → Input → Input
unfolding default_buttons
set_default_mappings n input = record input {
  button_map = default_buttons n;
  axis_negative = update (update (λ _. 0) n.axis_leftx n.key_left) n.axis_lefty n.key_up;
  axis_positive = update (update (λ _. 0) n.axis_leftx n.key_right) n.axis_lefty n.key_down;
}

-- The input after calloc, with its callback.
abbrev pub zero_input : Bool → Input
zero_input callback = record {
  controllers = [];
  key_refs = λ _. 0;
  keyboard_down = λ _. false;
  button_map = λ _. 0;
  axis_negative = λ _. 0;
  axis_positive = λ _. 0;
  queue = λ _. record { scancode = 0; pressed = false };
  queue_capacity = 0;
  queue_head = 0;
  queue_count = 0;
  callback = callback;
  delivered = [];
}

-- `sword3_input_destroy` on an input that is not null: what stays visible is what the callback
-- saw and which controllers were closed.
unfoldable pub destroy : Malloc → Sizes → Input → List Event × List ℕ
destroy malloc sizes input =
    let (released, failed) = release_all malloc sizes input in
    (released.delivered, map (λ c. c.handle) released.controllers)

-- The loop of `sword3_input_create` over the devices that SDL lists.
unfoldable pub add_devices : Input → List Device → Outcome
add_devices input [] = (input, none)
add_devices input (d ∷ ds) =
    let (added, failed) = add_controller input d in
    elim failed [ some e ↦ (added, some e) | none ↦ add_devices added ds ]

-- `sword3_input_create`: `count` is the answer of `SDL_NumJoysticks`, and the devices are its
-- devices in order. An input that fails half way is destroyed.
unfoldable pub create : Names → Bool → Bool → ℤ → List Device → Option Input
create names calloc_succeeds callback count devices =
    let fresh = set_default_mappings names (zero_input callback) in
    if not calloc_succeeds
    then none
    else if ltb_ℤ count (pos 0)
    then none
    else (let (input, failed) = add_devices fresh devices in
        elim failed [ some e ↦ none | none ↦ some input ])
