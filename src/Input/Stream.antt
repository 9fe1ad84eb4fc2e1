-- ===== src/Input/Stream.antt =====
-- The stream of key events against the keys that are down: what a client that replays the events
-- of input.c believes is what `sword3_input_is_down` answers.
pub mod Keys
pub mod Loops
pub mod Release
pub mod Events
pub mod Devices
pub mod Shorts
pub mod Session
pub mod Counting
use machismo_sword.Base.{
  ℕ, zero, suc, ◌+◌, ◌≤◌, ◌<◌, ◌≡◌, refl, sym, ap, ◌∙◌, Bool, true, false, not, ◌&&◌, Option, none,
  some, List, [], ◌∷◌, ◌++◌, arith, ltb, ◌==◌, if◌then◌else◌,
}
use mathlib.Core.List.{append-nil, append_assoc}
use machismo_sword.Input.{Event, Input, Error, Malloc, update}
use machismo_sword.Input.Queue.{reserve_queue}
use machismo_sword.Input.Queue.Contents.{contents, IsRing, Reserves, reserve_queue_lem}

-- A key is down for the whole input.
abbrev pub is_held : (ℕ → ℕ) → ℕ → Bool
is_held refs scancode = not (refs scancode == 0)

-- A client's belief after one event.
abbrev pub after_event : (ℕ → Bool) → Event → ℕ → Bool
after_event down e = update down e.scancode e.pressed

-- Replaying events turns one belief into another, and each event changes its key: no press of a
-- key that is down, and no release of one that is up.
abbrev pub Plays : (ℕ → Bool) → List Event → (ℕ → Bool) → Type 0
Plays before [] after = (scancode : ℕ) → before scancode ≡ after scancode
Plays before (e ∷ es) after =
    (before e.scancode ≡ not e.pressed) × Plays (after_event before e) es after

pub Plays-cong :
    (d d' : ℕ → Bool) (es : List Event) (f : ℕ → Bool)
    → ((j : ℕ) → d j ≡ d' j)
    → Plays d es f
    → Plays d' es f
Plays-cong d d' [] f h p = λ j. sym (h j) ∙ p j
Plays-cong d d' (e ∷ es) f h p = (
  sym (h e.scancode) ∙ p.0,
  Plays-cong (after_event d e) (after_event d' e) es f (λ j. ground (arith, h j)) p.1,
)

pub Plays-append :
    (d : ℕ → Bool) (es : List Event) (f : ℕ → Bool) (fs : List Event) (g : ℕ → Bool)
    → Plays d es f
    → Plays f fs g
    → Plays d (es ++ fs) g
Plays-append d [] f fs g p q = Plays-cong f d fs g (λ j. sym (p j)) q
Plays-append d (e ∷ es) f fs g p q = (p.0, Plays-append (after_event d e) es f fs g p.1 q)

-- An operation queued some events behind those that were queued, and replaying them takes the
-- keys held before to the keys held after.
pub record Emits (before after : Input) : Type 0 where
  pub ring : IsRing after
  pub events : List Event
  pub queued : contents after ≡ contents before ++ events
  pub plays : Plays (is_held before.key_refs) events (is_held after.key_refs)

pub Emits-trans : (a b c : Input) → Emits a b → Emits b c → Emits a c
Emits-trans a b c p q = record {
  ring = q.ring;
  events = p.events ++ q.events;
  queued =
      q.queued ∙ ap (λ es. es ++ q.events) p.queued ∙ append_assoc (contents a) p.events q.events;
  plays =
      Plays-append (is_held a.key_refs) p.events (is_held b.key_refs) q.events (is_held c.key_refs)
        p.plays q.plays;
}

-- A step that leaves the queue and the held keys alone emits nothing.
pub Emits-nothing :
    (a b : Input)
    → IsRing b
    → contents b ≡ contents a
    → ((j : ℕ) → is_held a.key_refs j ≡ is_held b.key_refs j)
    → Emits a b
Emits-nothing a b v q h = record {
  ring = v;
  events = [];
  queued = q ∙ sym (append-nil (contents a));
  plays = h;
}

pub Emits-refl : (a : Input) → IsRing a → Emits a a
Emits-refl a v = Emits-nothing a a v refl (λ j. refl)

-- A reservation emits nothing.
pub reserve_queue-Emits :
    (malloc : Malloc) (input : Input) (n : ℕ)
    → IsRing input
    → Emits input (reserve_queue malloc input n).0
reserve_queue-Emits malloc input n v =
    let r = reserve_queue_lem malloc input n v in
    Emits-nothing input (reserve_queue malloc input n).0 r.ring r.kept
      (λ j. ap (λ (i : Input). is_held i.key_refs j) (sym r.rest))
