-- ===== src/Input/Stream/Shorts.antt =====
-- The reference counts of the keys, of the whole input and of each controller, stay `unsigned
-- short`s, whatever the events of input.c are.
pub mod Changes
pub mod Events
use machismo_sword.Base.{
  ℕ, zero, suc, ◌-◌, ◌≤◌, ◌≡◌, ap, sym, subst, List, [], ◌∷◌, get_or, set, Bool, true, false, arith,
}
use machismo_sword.Input.{Input, Controller, no_controller, update, controller_at, set_controller}
use machismo_sword.Input.Queue.{enqueue_reserved}
use machismo_sword.Input.Keys.{with_refs, on_edge, set_global, set_owned}
use machismo_sword.Input.Stream.Keys.{Ready, refs-Ready}
use machismo_sword.Input.Stream.Events.{Shorts}

-- A count written within 16 bits.
pub Shorts-update :
    (refs : ℕ → ℕ) (k v : ℕ)
    → ((j : ℕ) → refs j ≤ 65535)
    → v ≤ 65535
    → (j : ℕ) → update refs k v j ≤ 65535
Shorts-update refs k v s small j = ground (arith, s j)

-- The counts of each controller are `unsigned short`s, too.
abbrev pub Owned : List Controller → Type 0
Owned [] = Unit {0}
Owned (c ∷ cs) = ((j : ℕ) → c.key_refs j ≤ 65535) × Owned cs

-- All counts of keys of an input, its own and those of its controllers, have 16 bits.
abbrev pub Narrow : Input → Type 0
Narrow input = Shorts input × Owned input.controllers

pub Owned-at :
    (cs : List Controller) (k : ℕ)
    → Owned cs
    → (j : ℕ) → (get_or cs k no_controller).key_refs j ≤ 65535
Owned-at [] k s j = omega arith
Owned-at (c ∷ cs) zero (s, rest) j = s j
Owned-at (c ∷ cs) (suc k) (s, rest) j = Owned-at cs k rest j

Owned-set :
    (cs : List Controller) (k : ℕ) (c : Controller)
    → Owned cs
    → ((j : ℕ) → c.key_refs j ≤ 65535)
    → Owned (set cs k c)
Owned-set [] k c s h = tt
Owned-set (x ∷ cs) zero c (s, rest) h = (h, rest)
Owned-set (x ∷ cs) (suc k) c (s, rest) h = (s, Owned-set cs k c rest h)

pub Narrow-set_controller :
    (i : Input) (k : ℕ) (c : Controller)
    → Narrow i
    → ((j : ℕ) → c.key_refs j ≤ 65535)
    → Narrow (set_controller i k c)
Narrow-set_controller i k c s h = (s.0, Owned-set i.controllers k c s.1 h)

Narrow-on_edge :
    (edge : Bool) (scancode : ℕ) (pressed : Bool) (base : Input)
    → Narrow base
    → Narrow (on_edge edge scancode pressed base)
unfolding enqueue_reserved
Narrow-on_edge true scancode pressed base s = s
Narrow-on_edge false scancode pressed base s = s

-- A state that differs in its queue only.
pub Narrow-same :
    (input ready : Input)
    → ready.key_refs ≡ input.key_refs
    → ready.controllers ≡ input.controllers
    → Narrow input
    → Narrow ready
Narrow-same input ready refs controllers s =
    (subst (λ (f : ℕ → ℕ). (j : ℕ) → f j ≤ 65535) (sym refs) s.0, subst Owned (sym controllers) s.1)

-- Writing a count, or a controller's and the input's, and queueing the event on an edge.
pub Narrow-set_global :
    (input ready : Input) (wanted edge pressed : Bool) (scancode count : ℕ)
    → Ready input ready wanted
    → Narrow input
    → count ≤ 65535
    → Narrow (set_global scancode count edge pressed ready).0
Narrow-set_global input ready wanted edge pressed scancode count r s small =
    let n =
      Narrow-same input ready (refs-Ready input ready wanted r)
        (ap (λ (i : Input). i.controllers) r.rest) s in
    Narrow-on_edge edge scancode pressed
      (record ready { key_refs = update ready.key_refs scancode count })
      (Shorts-update ready.key_refs scancode count n.0 small, n.1)

pub Narrow-set_owned :
    (input ready : Input) (wanted edge pressed : Bool) (k scancode owned global : ℕ)
    → Ready input ready wanted
    → Narrow input
    → owned ≤ 65535
    → global ≤ 65535
    → Narrow (set_owned k scancode owned global edge pressed ready).0
Narrow-set_owned input ready wanted edge pressed k scancode owned global r s small few =
    let n =
      Narrow-same input ready (refs-Ready input ready wanted r)
        (ap (λ (i : Input). i.controllers) r.rest) s in
    Narrow-on_edge edge scancode pressed (with_refs ready k scancode owned global) (
      Narrow-set_controller (record ready { key_refs = update ready.key_refs scancode global }) k
        (record (controller_at ready k) {
          key_refs = update (controller_at ready k).key_refs scancode owned;
        })
        (Shorts-update ready.key_refs scancode global n.0 few, n.1)
        (Shorts-update (controller_at ready k).key_refs scancode owned
          (Owned-at ready.controllers k n.1) small))
