-- ===== src/Input/Keys.antt =====
-- Reference counts of keys: `change_global_key` and `change_controller_key` of input.c.
use machismo_sword.Base.{
  ℕ, ◌+◌, ◌-◌, Bool, true, false, not, ◌||◌, none, some, ltb, ◌==◌, if◌then◌else◌,
}
use machismo_sword.Input.{
  eoverflow, eproto, Input, Sizes, Outcome, Malloc, update, valid_scancode, controller_at,
  set_controller,
}
use machismo_sword.Input.Queue.{reserve_queue, enqueue_reserved}

-- `(unsigned short)-1`.
abbrev pub ref_max : ℕ
ref_max = 65535

-- `if (edge && reserve_queue(input, 1) < 0) return -1;` followed by the rest.
abbrev pub reserving : Malloc → Input → Bool → (Input → Outcome) → Outcome
reserving malloc input edge rest =
    if edge
    then (let (input', failed) = reserve_queue malloc input 1 in
        elim failed [ some e ↦ (input', some e) | none ↦ rest input' ])
    else rest input

-- The event that a change of the global count from or to zero makes.
abbrev pub on_edge : Bool → ℕ → Bool → Input → Input
on_edge edge scancode pressed input =
    if edge then enqueue_reserved input scancode pressed else input

-- The last steps of a change of a key: the new global count, and its event on an edge.
abbrev pub set_global : ℕ → ℕ → Bool → Bool → Input → Outcome
set_global scancode count edge pressed input = (
  on_edge edge scancode pressed (record input { key_refs = update input.key_refs scancode count }),
  none,
)

-- `change_global_key`.
unfoldable pub change_global_key : Malloc → Sizes → Input → ℕ → Bool → Outcome
change_global_key malloc sizes input scancode pressed =
    let references = input.key_refs scancode in
    if not (valid_scancode sizes scancode)
    then (input, none)
    else if pressed
    then (if references == ref_max
        then (input, some eoverflow)
        else reserving malloc input (references == 0)
            (set_global scancode (references + 1) (references + 1 == 1) true))
    else if references == 0
    then (input, none)
    else reserving malloc input (references == 1)
        (set_global scancode (references - 1) (references - 1 == 0) false)

-- The counts of controller `k` and of the whole input.
abbrev pub with_refs : Input → ℕ → ℕ → ℕ → ℕ → Input
with_refs input k scancode owned global =
    let c = controller_at input k in
    set_controller (record input { key_refs = update input.key_refs scancode global }) k
      (record c { key_refs = update c.key_refs scancode owned })

abbrev pub set_owned : ℕ → ℕ → ℕ → ℕ → Bool → Bool → Input → Outcome
set_owned k scancode owned global edge pressed input =
    (on_edge edge scancode pressed (with_refs input k scancode owned global), none)

-- `change_controller_key`; `k` is the position of the controller.
unfoldable pub change_controller_key : Malloc → Sizes → Input → ℕ → ℕ → Bool → Outcome
change_controller_key malloc sizes input k scancode pressed =
    let owned = (controller_at input k).key_refs scancode in
    let global = input.key_refs scancode in
    if not (valid_scancode sizes scancode)
    then (input, none)
    else if pressed
    then (if (owned == ref_max) || (global == ref_max)
        then (input, some eoverflow)
        else reserving malloc input (global == 0)
            (set_owned k scancode (owned + 1) (global + 1) (global + 1 == 1) true))
    else if owned == 0
    then (input, none)
    else if ltb global owned
    then (input, some eproto)
    else reserving malloc input (global == 1)
        (set_owned k scancode (owned - 1) (global - 1) (global - 1 == 0) false)
