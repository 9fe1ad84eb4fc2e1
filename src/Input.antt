-- ===== src/Input.antt =====
-- src/ports/sword3/input.h and input.c: keyboard and controllers merged into one stream of key
-- events. This file has the state; the children have the operations in the order of the source.
-- SDL and malloc are not part of the repository: their answers are arguments.
pub mod Queue
pub mod Keys
pub mod Devices
pub mod Events
pub mod Mapping
pub mod Stream
mod Tests
use machismo_sword.Base.{
  ℕ, zero, suc, ◌+◌, ◌%◌, ◌^◌, Bool, true, false, not, ◌&&◌, Option, none, some, List, [], get_or,
  set, ltb, ◌==◌, if◌then◌else◌,
}
use machismo_sword.Base.Int.{ℤ, pos}

-- The error codes that the functions put into `errno`; `sdl_failed` is an SDL call that failed.
pub data Error : Type 0 where
  einval enomem eoverflow eproto eio sdl_failed : Error

-- `Sword3InputEvent`.
pub record Event : Type 0 where
  pub scancode : ℕ
  pub pressed : Bool

-- `ControllerState`. A C array is a function of its index; `instance_id` is the SDL joystick id.
pub record Controller : Type 0 where
  pub handle : ℕ
  pub instance_id : ℤ
  pub key_refs : ℕ → ℕ  -- unsigned short
  pub button_down : ℕ → Bool
  pub axis_direction : ℕ → ℤ

-- `Sword3Input`. `callback` says whether one is set, and `delivered` lists the events that were
-- handed to it; the callback is taken not to call back into the input.
pub record Input : Type 0 where
  pub controllers : List Controller
  pub key_refs : ℕ → ℕ  -- unsigned short
  pub keyboard_down : ℕ → Bool
  pub button_map : ℕ → ℕ
  pub axis_negative : ℕ → ℕ
  pub axis_positive : ℕ → ℕ
  pub queue : ℕ → Event
  pub queue_capacity : ℕ
  pub queue_head : ℕ
  pub queue_count : ℕ
  pub callback : Bool
  pub delivered : List Event

-- The sizes that the SDL headers fix: `SDL_NUM_SCANCODES`, `SDL_CONTROLLER_BUTTON_MAX` and
-- `SDL_CONTROLLER_AXIS_MAX`.
pub record Sizes : Type 0 where
  pub num_scancodes : ℕ
  pub button_max : ℕ
  pub axis_max : ℕ

-- A call returns the new state, and an error where the C function returns -1.
abbrev pub Outcome : Type 0
Outcome = Input × Option Error

-- malloc: from a number of bytes to nothing, or to a block with whatever it holds.
abbrev pub Malloc : Type 0
Malloc = ℕ → Option (ℕ → Event)

abbrev pub update {ℓ} : {A : Type ℓ} → (ℕ → A) → ℕ → A → ℕ → A
update f i v j = if i == j then v else f j

-- size_t addition.
abbrev pub add_size : ℕ → ℕ → ℕ
add_size a b = (a + b) % 2 ^ 64

-- `valid_scancode`; `SDL_SCANCODE_UNKNOWN` is 0.
pub valid_scancode : Sizes → ℕ → Bool
valid_scancode sizes scancode = ltb 0 scancode && ltb scancode sizes.num_scancodes

-- `sword3_input_is_down` on an input that is not null.
pub is_down : Sizes → Input → ℕ → Bool
unfolding valid_scancode
is_down sizes input scancode = valid_scancode sizes scancode && not (input.key_refs scancode == 0)

abbrev pub no_controller : Controller
no_controller = record {
  handle = 0;
  instance_id = pos 0;
  key_refs = λ _. 0;
  button_down = λ _. false;
  axis_direction = λ _. pos 0;
}

-- A `ControllerState *` is a position in the list of controllers.
abbrev pub controller_at : Input → ℕ → Controller
controller_at input k = get_or input.controllers k no_controller

abbrev pub set_controller : Input → ℕ → Controller → Input
set_controller input k c = record input { controllers = set input.controllers k c }

-- `for (scancode = first; …; scancode++)` over a number of scancodes, with the body a step on the
-- input.
unfoldable pub for_scancodes : (ℕ → Input → Input) → ℕ → ℕ → Input → Input
for_scancodes body zero scancode input = input
for_scancodes body (suc n) scancode input =
    for_scancodes body n (scancode + 1) (body scancode input)
