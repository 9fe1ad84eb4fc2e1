-- ===== src/InputContext/Tests.antt =====
-- Runs of input_context.c on a battle over the title page.
use machismo_sword.Base.{
  ◌+◌, ◌≤◌, ◌<◌, ◌^◌, ◌≡◌, ◌≢◌, ◌↔◌, refl, true, false, not, none, some, [], ◌∷◌, arith, to_int,
}
use machismo_sword.Base.Bits.{bit_at}
use machismo_sword.Base.Int.{pos}
use machismo_sword.InputContext.{
  Route, number, Probe, Context, Tracker, resolve, same_lifecycle, track, zero_context,
  choose_route, choose_from, gather, add_candidate, next_generation,
}
use machismo_sword.InputContext.Candidates.{is_active}
use machismo_sword.InputContext.Resolve.{rank, resolve_wins, candidates-resolve}
use machismo_sword.InputContext.Lifecycle.{SameLife, same_lifecycle_iff}
use machismo_sword.InputContext.Track.{track_later, run, generation-run}

abbrev in_battle : Probe
in_battle = record {
  host_cheat = pos 0;
  caption = pos 0;
  host_menu = pos 0;
  host_battle = pos 0;
  battle = pos 1;
  save_load = pos 0;
  save_list = pos 0;
  shop = pos 0;
  title = pos 1;
  system_menu = pos 0;
  menu_opening = pos 0;
  pointer = pos 0;
  map_id = pos 12;
  title_mode = pos 2;
  menu_page = pos 0;
  system_page = pos 0;
  system_level = pos 0;
  system_sub = pos 0;
  battle_menu = pos 5;
}

abbrev battle_context : Context
battle_context = record zero_context {
  route = Route.battle;
  candidates = 544;
  generation = 1;
  map_id = pos 12;
  title_mode = pos 2;
  battle_menu = pos 4;
}

abbrev fresh_tracker : Tracker
fresh_tracker = record { current = zero_context; initialized = false }

-- A tracker at the last generation of the counter.
abbrev last_tracker : Tracker
last_tracker = record {
  current = record battle_context { generation = 18446744073709551615 };
  initialized = true;
}

abbrev early_tracker : Tracker
early_tracker = record { current = battle_context; initialized = true }

resolve_wins_example :
    let owner = (resolve (some in_battle)).route in
    (is_active in_battle owner ≡ true) × (rank owner ≤ rank Route.title)
resolve_wins_example = resolve_wins in_battle Route.title refl

candidates-resolve_example :
    bit_at (number Route.title) (resolve (some in_battle)).candidates
    ≡ to_int (is_active in_battle Route.title)
candidates-resolve_example = candidates-resolve in_battle Route.title

same_lifecycle_example :
    (same_lifecycle battle_context battle_context ≡ true) ↔ SameLife battle_context battle_context
same_lifecycle_example = same_lifecycle_iff battle_context battle_context

track_later_example :
    let (t', out, changed) = track last_tracker (some in_battle) in
    (t'.current ≡ out)
    × (t'.initialized ≡ true)
    × (changed ≡ not (same_lifecycle last_tracker.current (resolve (some in_battle))))
    × ((changed ≡ true) ↔ (out.generation ≢ last_tracker.current.generation))
    × (1 ≤ out.generation)
    × (out.generation < 2 ^ 64)
track_later_example = track_later last_tracker (some in_battle) refl (omega arith) (omega arith)

generation-run_example :
    let (t', n) = run early_tracker (some in_battle ∷ none ∷ some in_battle ∷ []) in
    t'.current.generation ≡ 1 + n
generation-run_example =
    generation-run early_tracker (some in_battle ∷ none ∷ some in_battle ∷ []) refl (omega arith)

-- The battle wins over the title, and the wrapped counter goes on at 1.
battle_wins : (resolve (some in_battle)).route ≡ Route.battle
unfolding resolve choose_route choose_from gather add_candidate
battle_wins = refl

generation_wraps : (track last_tracker (some in_battle)).1.generation ≡ 1
unfolding track resolve same_lifecycle next_generation choose_route choose_from gather add_candidate
generation_wraps = refl
