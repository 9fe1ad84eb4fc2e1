-- ===== src/Input/Stream/Session.antt =====
-- A whole session of the input: SDL events one after another, from an input that was just created.
use machismo_sword.Base.{ℕ, ◌≡◌, ap, ◌∙◌, Bool, true, false, List, [], ◌∷◌, arith}
use machismo_sword.Input.{Event, Input, Malloc, Sizes, is_down, valid_scancode}
use machismo_sword.Input.Queue.Contents.{contents, IsRing}
use machismo_sword.Input.Events.{SdlEvent, handle_event}
use machismo_sword.Input.Mapping.{Names, zero_input, set_default_mappings}
use machismo_sword.Input.Stream.{is_held, after_event, Plays, Emits, Emits-refl, Emits-trans}
use machismo_sword.Input.Stream.Events.{Countable}
use machismo_sword.Input.Stream.Devices.{handle_event-Emits}
use machismo_sword.Input.Stream.Shorts.{Narrow}
use machismo_sword.Input.Stream.Shorts.Events.{handle_event-Narrow}

-- The events handled in order, each with the answers that malloc gives meanwhile.
abbrev pub run : Sizes → Input → List (Malloc × SdlEvent) → Input
run sizes input [] = input
run sizes input ((malloc, event) ∷ es) = run sizes (handle_event malloc sizes input event).0 es

run-Emits :
    (sizes : Sizes) (input : Input) (es : List (Malloc × SdlEvent))
    → Countable sizes
    → IsRing input
    → Narrow input
    → Emits input (run sizes input es)
run-Emits sizes input [] fits v s = Emits-refl input v
run-Emits sizes input ((malloc, event) ∷ es) fits v s =
    let next = (handle_event malloc sizes input event).0 in
    let first = handle_event-Emits malloc sizes input event fits v s.0 in
    Emits-trans input next (run sizes next es) first
      (run-Emits sizes next es fits first.ring (handle_event-Narrow malloc sizes input event v s))

-- What a client believes after the events that are queued.
abbrev pub replay : (ℕ → Bool) → List Event → ℕ → Bool
replay down [] = down
replay down (e ∷ es) = replay (after_event down e) es

replay-Plays :
    (before : ℕ → Bool) (es : List Event) (after : ℕ → Bool) (j : ℕ)
    → Plays before es after
    → replay before es j ≡ after j
replay-Plays before [] after j p = p j
replay-Plays before (e ∷ es) after j p = replay-Plays (after_event before e) es after j p.1

-- With fewer than 2^31 scancodes, after any SDL events with any answers of malloc from an input
-- that was just created: a client that has seen no key down and replays the queued events knows
-- of every valid scancode what sword3_input_is_down answers.
pub is_down-replay :
    (names : Names) (callback : Bool) (sizes : Sizes) (es : List (Malloc × SdlEvent)) (j : ℕ)
    → Countable sizes
    → valid_scancode sizes j ≡ true
    → let input = run sizes (set_default_mappings names (zero_input callback)) es in
      replay (λ _. false) (contents input) j ≡ is_down sizes input j
unfolding is_down set_default_mappings
is_down-replay names callback sizes es j fits valid =
    let start = set_default_mappings names (zero_input callback) in
    let ring : IsRing start = record {
      room = omega arith;
      small = omega arith;
      head_in = omega arith;
    } in
    let emits = run-Emits sizes start es fits ring ((λ k. omega arith), tt) in
    let input = run sizes start es in
    rw valid (
      ap (λ (queued : List Event). replay (λ _. false) queued j) emits.queued
      ∙ replay-Plays (λ _. false) emits.events (is_held input.key_refs) j emits.plays)
