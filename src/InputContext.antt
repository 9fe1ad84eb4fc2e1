-- ===== src/InputContext.antt =====
-- src/ports/sword3/input_context.h and input_context.c: which layer of the game owns the input,
-- and how the tracker numbers the lifetimes of that answer.
pub mod Candidates
pub mod Resolve
pub mod Lifecycle
pub mod Track
mod Tests
use Prim.Native.String.{String}
use machismo_sword.Base.{
  ℕ, ◌+◌, ◌%◌, ◌^◌, Bool, true, false, not, ◌&&◌, ◌||◌, Option, none, some, List, [], ◌∷◌, bit_and,
  bit_or, ◌==◌, if◌then◌else◌,
}
use machismo_sword.Base.Bits.{◌<<<◌}
use machismo_sword.Base.Int.{ℤ, pos, eq_ℤ, truth}

-- `Sword3InputRoute`.
pub data Route : Type 0 where
  nowhere field pointer menu_opening system_menu title shop save_list save_load battle : Route
  host_battle host_menu caption host_cheat count : Route

-- The value of the enumerator.
abbrev pub number : Route → ℕ
number Route.nowhere = 0
number Route.field = 1
number Route.pointer = 2
number Route.menu_opening = 3
number Route.system_menu = 4
number Route.title = 5
number Route.shop = 6
number Route.save_list = 7
number Route.save_load = 8
number Route.battle = 9
number Route.host_battle = 10
number Route.host_menu = 11
number Route.caption = 12
number Route.host_cheat = 13
number Route.count = 14

-- `Sword3InputProbe`; its flags are `int`s.
pub record Probe : Type 0 where
  pub host_cheat : ℤ
  pub caption : ℤ
  pub host_menu : ℤ
  pub host_battle : ℤ
  pub battle : ℤ
  pub save_load : ℤ
  pub save_list : ℤ
  pub shop : ℤ
  pub title : ℤ
  pub system_menu : ℤ
  pub menu_opening : ℤ
  pub pointer : ℤ
  pub map_id : ℤ
  pub title_mode : ℤ
  pub menu_page : ℤ
  pub system_page : ℤ
  pub system_level : ℤ
  pub system_sub : ℤ
  pub battle_menu : ℤ

-- `Sword3InputContext`.
pub record Context : Type 0 where
  pub route : Route
  pub candidates : ℕ  -- uint32_t
  pub generation : ℕ  -- uint64_t
  pub map_id : ℤ
  pub title_mode : ℤ
  pub menu_page : ℤ
  pub system_page : ℤ
  pub system_level : ℤ
  pub system_sub : ℤ
  pub battle_menu : ℤ

-- `Sword3InputContextTracker`.
pub record Tracker : Type 0 where
  pub current : Context
  pub initialized : Bool

-- `SWORD3_INPUT_ROUTE_BIT`.
abbrev pub route_bit : Route → ℕ
route_bit r = 1 <<< number r

pub add_candidate : ℕ → Route → Bool → ℕ
add_candidate candidates r active = if active then bit_or candidates (route_bit r) else candidates

-- The test of an `if` over a mask.
abbrev pub any_bit : ℕ → Bool
any_bit n = not (n == 0)

abbrev pub priority : List Route
priority =
    Route.host_cheat ∷ Route.caption ∷ Route.host_menu ∷ Route.host_battle ∷ Route.battle
    ∷ Route.save_load ∷ Route.save_list ∷ Route.shop ∷ Route.menu_opening ∷ Route.title
    ∷ Route.system_menu ∷ Route.pointer ∷ Route.field ∷ []

-- The loop of `choose_route` over what is left of the priority table.
pub choose_from : List Route → ℕ → Route
choose_from [] candidates = Route.nowhere
choose_from (r ∷ rs) candidates =
    if any_bit (bit_and candidates (route_bit r)) then r else choose_from rs candidates

pub choose_route : ℕ → Route
unfolding choose_from
choose_route candidates = choose_from priority candidates

-- The candidate word that `sword3_input_context_resolve` gathers, in its order.
pub gather : Probe → ℕ
gather p =
    let c1 = add_candidate 0 Route.host_cheat (truth p.host_cheat) in
    let c2 = add_candidate c1 Route.caption (truth p.caption) in
    let c3 = add_candidate c2 Route.host_menu (truth p.host_menu) in
    let c4 = add_candidate c3 Route.host_battle (truth p.host_battle) in
    let c5 = add_candidate c4 Route.battle (truth p.battle) in
    let c6 = add_candidate c5 Route.save_load (truth p.save_load) in
    let c7 = add_candidate c6 Route.save_list (truth p.save_list) in
    let c8 = add_candidate c7 Route.shop (truth p.shop) in
    let c9 = add_candidate c8 Route.title (truth p.title) in
    let c10 = add_candidate c9 Route.system_menu (truth p.system_menu) in
    let c11 = add_candidate c10 Route.menu_opening (truth p.menu_opening) in
    let c12 = add_candidate c11 Route.pointer (truth p.pointer) in
    add_candidate c12 Route.field (not (truth p.title) && not (truth p.battle))

-- The context after `memset`.
abbrev pub zero_context : Context
zero_context = record {
  route = Route.nowhere;
  candidates = 0;
  generation = 0;
  map_id = pos 0;
  title_mode = pos 0;
  menu_page = pos 0;
  system_page = pos 0;
  system_level = pos 0;
  system_sub = pos 0;
  battle_menu = pos 0;
}

-- `sword3_input_context_resolve`; `none` is the null probe.
pub resolve : Option Probe → Context
resolve none = zero_context
resolve (some p) = record {
  route = choose_route (gather p);
  candidates = gather p;
  generation = 0;
  map_id = p.map_id;
  title_mode = p.title_mode;
  menu_page = p.menu_page;
  system_page = p.system_page;
  system_level = p.system_level;
  system_sub = p.system_sub;
  battle_menu = p.battle_menu;
}

abbrev pub title_routes : ℕ
title_routes = bit_or (route_bit Route.title) (route_bit Route.save_load)

abbrev pub save_routes : ℕ
save_routes = bit_or (route_bit Route.save_load) (route_bit Route.save_list)

abbrev pub battle_routes : ℕ
battle_routes = bit_or (route_bit Route.battle) (route_bit Route.host_battle)

pub same_lifecycle : Context → Context → Bool
same_lifecycle left right =
    if not (number left.route == number right.route)
      || not (left.candidates == right.candidates)
      || not (eq_ℤ left.map_id right.map_id)
    then false
    else if any_bit (bit_and left.candidates title_routes)
        && not (eq_ℤ left.title_mode right.title_mode)
    then false
    else if any_bit (bit_and left.candidates save_routes)
        && not (eq_ℤ left.menu_page right.menu_page)
    then false
    else if any_bit (bit_and left.candidates battle_routes)
        && not (eq_ℤ left.battle_menu right.battle_menu)
    then false
    else true

-- `generation + 1` in 64 bits, where 0 is replaced by 1.
pub next_generation : ℕ → ℕ
next_generation g = let n = (g + 1) % 2 ^ 64 in if n == 0 then 1 else n

-- `sword3_input_context_track` on pointers that are not null: the new tracker, the context that
-- is written out, and the returned flag.
pub track : Tracker → Option Probe → Tracker × Context × Bool
track tracker probe =
    let next = resolve probe in
    let changed = not tracker.initialized || not (same_lifecycle tracker.current next) in
    let generation =
      if not tracker.initialized
      then 1
      else if changed
      then next_generation tracker.current.generation
      else tracker.current.generation in
    let next' = record next { generation = generation } in
    (record { current = next'; initialized = true }, next', changed)

-- `sword3_input_context_track` with its guard: a null tracker or a null output is left alone.
pub track_guarded :
    Option Tracker → Option Probe → Option Context → Option Tracker × Option Context × Bool
track_guarded none probe out = (none, out, false)
track_guarded (some t) probe none = (some t, none, false)
track_guarded (some t) probe (some c) =
    let (t', c', changed) = track t probe in (some t', some c', changed)

-- `sword3_input_route_name`.
pub route_name : Route → String
route_name Route.nowhere = "none"
route_name Route.field = "field"
route_name Route.pointer = "pointer"
route_name Route.menu_opening = "menu-opening"
route_name Route.system_menu = "system-menu"
route_name Route.title = "title"
route_name Route.shop = "shop"
route_name Route.save_list = "save-list"
route_name Route.save_load = "save-load"
route_name Route.battle = "battle"
route_name Route.host_battle = "host-battle"
route_name Route.host_menu = "host-menu"
route_name Route.caption = "caption"
route_name Route.host_cheat = "host-cheat"
route_name Route.count = "invalid"
