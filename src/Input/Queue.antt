-- ===== src/Input/Queue.antt =====
-- The event ring of input.c: `reserve_queue`, `enqueue_reserved` and `sword3_input_poll`.
pub mod Contents
pub mod Ends
use machismo_sword.Base.{
  ℕ, zero, suc, ◌+◌, ◌-◌, ◌*◌, ◌/◌, ◌%◌, ◌^◌, Bool, true, false, Option, none, some, List, [], ◌∷◌,
  ◌++◌, ltb, ◌==◌, if◌then◌else◌,
}
use machismo_sword.Input.{Error, enomem, Event, Input, Outcome, Malloc, update, add_size}

-- `SIZE_MAX`, and the bytes of one `Sword3InputEvent`: two enums of four bytes.
abbrev pub size_max : ℕ
size_max = 2 ^ 64 - 1

abbrev pub event_size : ℕ
event_size = 8

-- The doubling loop of `reserve_queue`, which stops at `required` when a double would not fit.
unfoldable pub grow : ℕ → ℕ → ℕ → ℕ
grow zero new_capacity required = new_capacity
grow (suc fuel) new_capacity required =
    let rest = grow fuel (new_capacity * 2) required in
    if ltb new_capacity required
    then if ltb (size_max / 2) new_capacity then required else rest
    else new_capacity

-- The capacity from which the doubling starts.
unfoldable pub start_capacity : ℕ → ℕ → ℕ
start_capacity old required =
    let doubled = if old == 0 then 32 else (old * 2) % 2 ^ 64 in
    if ltb doubled old then required else doubled

-- The capacity that `reserve_queue` settles on; 64 rounds double past any `size_t`.
unfoldable pub new_capacity_for : ℕ → ℕ → ℕ
new_capacity_for old required = grow 64 (start_capacity old required) required

-- The copy loop, from index `i` on for a number of rounds.
unfoldable pub copy_queue : Input → ℕ → ℕ → (ℕ → Event) → ℕ → Event
copy_queue input zero i block = block
copy_queue input (suc n) i block =
    copy_queue input n (i + 1)
      (update block i (input.queue (add_size input.queue_head i % input.queue_capacity)))

-- `reserve_queue`.
unfoldable pub reserve_queue : Malloc → Input → ℕ → Outcome
reserve_queue malloc input additional =
    if ltb (size_max - input.queue_count) additional
    then (input, some enomem)
    else (let required = input.queue_count + additional in
        if ltb input.queue_capacity required
        then (let capacity = new_capacity_for input.queue_capacity required in
            if ltb (size_max / event_size) capacity
            then (input, some enomem)
            else elim (malloc (capacity * event_size)) [
              | none ↦ (input, some enomem)
              | some block ↦ (
                record input {
                  queue = copy_queue input input.queue_count 0 block;
                  queue_capacity = capacity;
                  queue_head = 0;
                },
                none,
              )
            ])
        else (input, none))

-- `enqueue_reserved`. The callback, where one is set, sees each event as it is queued.
unfoldable pub enqueue_reserved : Input → ℕ → Bool → Input
enqueue_reserved input scancode pressed =
    let event : Event = record { scancode = scancode; pressed = pressed } in
    record input {
      queue =
          update input.queue (add_size input.queue_head input.queue_count % input.queue_capacity)
            event;
      queue_count = add_size input.queue_count 1;
      delivered = if input.callback then input.delivered ++ (event ∷ []) else input.delivered;
    }

-- `sword3_input_poll` on pointers that are not null: the event written out, if there is one.
unfoldable pub poll : Input → Input × Option Event
poll input = if input.queue_count == 0 then (input, none) else (
  record input {
    queue_head = add_size input.queue_head 1 % input.queue_capacity;
    queue_count = input.queue_count - 1;
  },
  some (input.queue input.queue_head),
)
