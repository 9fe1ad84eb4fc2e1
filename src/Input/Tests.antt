-- ===== src/Input/Tests.antt =====
-- Runs of input.c on an input where Return is held by the keyboard and by one controller.
use machismo_sword.Base.{List, ◌+◌, ◌≡◌, refl, true, false, some, [], ◌∷◌, ◌++◌, arith}
use machismo_sword.Base.Int.{pos}
use machismo_sword.Input.{is_down, valid_scancode, Event, Input, Controller, Malloc, Sizes, update}
use machismo_sword.Input.Queue.{reserve_queue, enqueue_reserved, poll}
use machismo_sword.Input.Queue.Contents.{contents, IsRing, Reserved, reserve_queue-Reserved}
use machismo_sword.Input.Queue.Ends.{Polled, poll_lem, enqueue_reserved_lem}
use machismo_sword.Input.Events.{
  SdlEvent, key_change, device_added, device_removed, button_change, axis_motion, handle_event,
  release_all,
}
use machismo_sword.Input.Mapping.{Names, set_default_mappings, map_button, map_axis, zero_input}
use machismo_sword.Input.Stream.{Emits}
use machismo_sword.Input.Stream.Events.{Countable, Shorts, Released, release_all-Released}
use machismo_sword.Input.Stream.Shorts.{Narrow}
use machismo_sword.Input.Stream.Shorts.Events.{handle_event-Narrow}
use machismo_sword.Input.Stream.Session.{run, replay, is_down-replay}
use machismo_sword.Input.Stream.Devices.{mapping-Emits, handle_event-Emits}

-- The sizes of SDL 2.
abbrev sdl_sizes : Sizes
sdl_sizes = record { num_scancodes = 512; button_max = 21; axis_max = 6 }

abbrev plenty : Malloc
plenty bytes = some (λ _. record { scancode = 0; pressed = false })

abbrev return_event : Event
return_event = record { scancode = 40; pressed = true }

abbrev pad : Controller
pad = record {
  handle = 7;
  instance_id = pos 3;
  key_refs = update (λ _. 0) 40 1;
  button_down = update (λ _. false) 0 true;
  axis_direction = λ _. pos 0;
}

abbrev held_return : Input
held_return = record (zero_input true) {
  controllers = pad ∷ [];
  key_refs = update (λ _. 0) 40 2;
  keyboard_down = update (λ _. false) 40 true;
  button_map = update (λ _. 0) 0 40;
  queue = update (λ _. record { scancode = 0; pressed = false }) 31 return_event;
  queue_capacity = 32;
  queue_head = 31;
  queue_count = 1;
}

held_return-IsRing : IsRing held_return
held_return-IsRing = record { room = omega arith; small = omega arith; head_in = omega arith }

sdl_sizes-Countable : Countable sdl_sizes
sdl_sizes-Countable = omega arith

held_return-Shorts : Shorts held_return
held_return-Shorts j = ground arith

held_return-Narrow : Narrow held_return
held_return-Narrow = (held_return-Shorts, ((λ j. ground arith), tt))

handle_event-Emits_example :
    Emits held_return (handle_event plenty sdl_sizes held_return (device_removed (pos 3))).0
handle_event-Emits_example =
    handle_event-Emits plenty sdl_sizes held_return (device_removed (pos 3)) sdl_sizes-Countable
      held_return-IsRing held_return-Shorts

release_all-Released_example :
    Released sdl_sizes held_return (release_all plenty sdl_sizes held_return)
release_all-Released_example =
    release_all-Released plenty sdl_sizes held_return sdl_sizes-Countable held_return-IsRing

mapping-Emits_example :
    Emits held_return (map_button plenty sdl_sizes held_return (pos 0) 41).0
    × Emits held_return (map_axis plenty sdl_sizes held_return (pos 0) 41 44).0
mapping-Emits_example =
    mapping-Emits plenty sdl_sizes held_return (pos 0) 41 44 sdl_sizes-Countable held_return-IsRing
      held_return-Shorts

reserve_queue-Reserved_example : Reserved held_return 40 (reserve_queue plenty held_return 40)
reserve_queue-Reserved_example = reserve_queue-Reserved plenty held_return 40 held_return-IsRing

poll_example : let (out, event) = poll held_return in IsRing out × Polled held_return out event
poll_example = poll_lem held_return held_return-IsRing

enqueue_reserved_example :
    let out = enqueue_reserved held_return 41 true in
    IsRing out
    × (contents out ≡ contents held_return ++ (record { scancode = 41; pressed = true } ∷ []))
    × (out.queue_count ≡ held_return.queue_count + 1)
enqueue_reserved_example = enqueue_reserved_lem held_return 41 true held_return-IsRing (omega arith)

-- Polling gives the event at the end of the block.
poll_event : (poll held_return).1 ≡ some return_event
unfolding poll
poll_event = refl

-- The enumerators of SDL 2.
abbrev sdl_names : Names
sdl_names = record {
  key_return = 40;
  key_escape = 41;
  key_x = 27;
  key_y = 28;
  key_tab = 43;
  key_space = 44;
  key_q = 20;
  key_e = 8;
  key_up = 82;
  key_down = 81;
  key_left = 80;
  key_right = 79;
  button_a = 0;
  button_b = 1;
  button_x = 2;
  button_y = 3;
  button_back = 4;
  button_start = 6;
  button_leftshoulder = 9;
  button_rightshoulder = 10;
  dpad_up = 11;
  dpad_down = 12;
  dpad_left = 13;
  dpad_right = 14;
  axis_leftx = 0;
  axis_lefty = 1;
}

-- A key goes down, a pad comes, its button goes down and its stick goes to the right.
abbrev session : List (Malloc × SdlEvent)
session =
    (plenty, key_change true 40 false)
    ∷ (
      plenty,
      device_added (record {
        is_game_controller = true;
        opened = some 7;
        has_joystick = true;
        instance_id = pos 3;
        calloc_succeeds = true;
      }),
    )
    ∷ (plenty, button_change true (pos 3) 0)
    ∷ (plenty, axis_motion (pos 3) 0 (pos 20000))
    ∷ []

is_down-replay_example :
    let input = run sdl_sizes (set_default_mappings sdl_names (zero_input true)) session in
    replay (λ _. false) (contents input) 40 ≡ is_down sdl_sizes input 40
unfolding valid_scancode
is_down-replay_example = is_down-replay sdl_names true sdl_sizes session 40 sdl_sizes-Countable refl

handle_event-Narrow_example :
    Narrow (handle_event plenty sdl_sizes held_return (device_removed (pos 3))).0
handle_event-Narrow_example =
    handle_event-Narrow plenty sdl_sizes held_return (device_removed (pos 3)) held_return-IsRing
      held_return-Narrow
