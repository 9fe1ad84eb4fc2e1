-- ===== src/Input/Devices.antt =====
-- Controllers that come and go: `find_controller`, `add_controller`, `release_controller` and
-- `remove_controller` of input.c.
use machismo_sword.Base.{
  ℕ, zero, suc, ◌+◌, ◌-◌, ◌%◌, ◌^◌, Bool, false, not, ◌&&◌, Option, none, some, List, [], ◌∷◌, ltb,
  ◌==◌, if◌then◌else◌,
}
use machismo_sword.Base.Int.{ℤ, pos, eq_ℤ, ltb_ℤ}
use machismo_sword.Input.{
  enomem, eproto, eio, sdl_failed, Input, Controller, Sizes, Outcome, Malloc, update, controller_at,
  set_controller, add_size, for_scancodes,
}
use machismo_sword.Input.Queue.{reserve_queue, enqueue_reserved}

-- `find_controller`: the position of the first controller with that id.
unfoldable pub find_controller : List Controller → ℤ → Option ℕ
find_controller [] id = none
find_controller (c ∷ cs) id =
    if eq_ℤ c.instance_id id
    then some 0
    else elim (find_controller cs id) [ none ↦ none | some k ↦ some (suc k) ]

-- What SDL and calloc answer while one device is added, in the order of the calls.
pub record Device : Type 0 where
  pub is_game_controller : Bool
  pub opened : Option ℕ
  pub has_joystick : Bool
  pub instance_id : ℤ
  pub calloc_succeeds : Bool

abbrev pub fresh_controller : ℕ → ℤ → Controller
fresh_controller handle id = record {
  handle = handle;
  instance_id = id;
  key_refs = λ _. 0;
  button_down = λ _. false;
  axis_direction = λ _. pos 0;
}

-- `add_controller`. Closing a controller that is not kept shows in no state of the input.
unfoldable pub add_controller : Input → Device → Outcome
add_controller input device =
    if not device.is_game_controller then (input, none) else elim device.opened [
      | none ↦ (input, some sdl_failed)
      | some handle ↦
          if not device.has_joystick
          then (input, some eio)
          else if ltb_ℤ device.instance_id (pos 0)
          then (input, some sdl_failed)
          else elim (find_controller input.controllers device.instance_id) [
            | some k ↦ (input, none)
            | none ↦ if not device.calloc_succeeds then (input, some enomem) else (
              record input {
                controllers = fresh_controller handle device.instance_id ∷ input.controllers;
              },
              none,
            )
          ]
    ]

-- The first loop of `release_controller`: how many keys only this controller holds, or `none`
-- where it holds more than the whole input does.
unfoldable pub count_releases : (ℕ → ℕ) → (ℕ → ℕ) → ℕ → ℕ → ℕ → Option ℕ
count_releases owned global zero scancode releases = some releases
count_releases owned global (suc n) scancode releases =
    let more =
      if not (owned scancode == 0) && (owned scancode == global scancode)
      then add_size releases 1
      else releases in
    let rest = count_releases owned global n (scancode + 1) more in
    if ltb (global scancode) (owned scancode) then none else rest

-- One round of the second loop.
unfoldable pub release_key : ℕ → ℕ → Input → Input
release_key k scancode input =
    let c = controller_at input k in
    let owned = c.key_refs scancode in
    let left = (input.key_refs scancode + 2 ^ 16 - owned) % 2 ^ 16 in
    let input' =
      set_controller (record input { key_refs = update input.key_refs scancode left }) k
        (record c { key_refs = update c.key_refs scancode 0 }) in
    if owned == 0
    then input
    else if left == 0
    then enqueue_reserved input' scancode false
    else input'

-- The two `memset`s over what is held on a controller.
abbrev pub let_go : Controller → Controller
let_go c = record c { button_down = λ _. false; axis_direction = λ _. pos 0 }

-- `release_controller`; the loops go over the scancodes from 1 on.
unfoldable pub release_controller : Malloc → Sizes → Input → ℕ → Outcome
release_controller malloc sizes input k =
    let rounds = sizes.num_scancodes - 1 in
    elim (count_releases (controller_at input k).key_refs input.key_refs rounds 1 0) [
      | none ↦ (input, some eproto)
      | some releases ↦
          let (reserved, failed) = reserve_queue malloc input releases in
          elim failed [
            | some e ↦ (reserved, some e)
            | none ↦
                let released = for_scancodes (release_key k) rounds 1 reserved in
                (set_controller released k (let_go (controller_at released k)), none)
          ]
    ]

unfoldable pub remove_at : List Controller → ℕ → List Controller
remove_at [] k = []
remove_at (c ∷ cs) zero = cs
remove_at (c ∷ cs) (suc k) = c ∷ remove_at cs k

-- `remove_controller`.
unfoldable pub remove_controller : Malloc → Sizes → Input → ℤ → Outcome
remove_controller malloc sizes input id = elim (find_controller input.controllers id) [
  | none ↦ (input, none)
  | some k ↦
      let (released, failed) = release_controller malloc sizes input k in
      elim failed [
        | some e ↦ (released, some e)
        | none ↦ (record released { controllers = remove_at released.controllers k }, none)
      ]
]
