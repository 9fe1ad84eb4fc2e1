-- ===== src/InputContext/Resolve.antt =====
-- `sword3_input_context_resolve` picks the highest-priority layer among those a probe reports.
use machismo_sword.Base.{
  ℕ, suc, ◌≤◌, ◌<◌, ◌≡◌, refl, ◌∙◌, ap, inl, inr, true, some, List, [], ◌∷◌, arith, length, get_or,
  sym, to_int, Bool-cases, ◌==◌, if◌then◌else◌,
}
use machismo_sword.Base.Bits.{bit_at}
use machismo_sword.Base.Int.{truth}
use machismo_sword.InputContext.{
  Route, number, Probe, priority, choose_from, choose_route, gather, resolve,
}
use machismo_sword.InputContext.Candidates.{is_active, bit_at-gather, any_bit-gather}

-- The modal order of the layers: a lower rank owns the input.
abbrev pub rank : Route → ℕ
rank Route.host_cheat = 0
rank Route.caption = 1
rank Route.host_menu = 2
rank Route.host_battle = 3
rank Route.battle = 4
rank Route.save_load = 5
rank Route.save_list = 6
rank Route.shop = 7
rank Route.menu_opening = 8
rank Route.title = 9
rank Route.system_menu = 10
rank Route.pointer = 11
rank Route.field = 12
rank Route.nowhere = 13
rank Route.count = 13

first_active : Probe → List Route → Route
first_active p [] = Route.nowhere
first_active p (r ∷ rs) = if is_active p r then r else first_active p rs

-- The position of a route in a table.
index_of : List Route → Route → ℕ
index_of [] s = 0
index_of (r ∷ rs) s = if number r == number s then 0 else suc (index_of rs s)

all_routes : List Route
all_routes =
    Route.nowhere ∷ Route.field ∷ Route.pointer ∷ Route.menu_opening ∷ Route.system_menu
    ∷ Route.title ∷ Route.shop ∷ Route.save_list ∷ Route.save_load ∷ Route.battle
    ∷ Route.host_battle ∷ Route.host_menu ∷ Route.caption ∷ Route.host_cheat ∷ Route.count ∷ []

get_or-number : (r : Route) → get_or all_routes (number r) Route.nowhere ≡ r
unfolding all_routes
get_or-number Route.nowhere = refl
get_or-number _ = refl

pub number-injective : (r s : Route) → number r ≡ number s → r ≡ s
number-injective r s e =
    sym (get_or-number r) ∙ ap (λ (n : ℕ). get_or all_routes n Route.nowhere) e ∙ get_or-number s

choose_from-gather : (p : Probe) (rs : List Route) → choose_from rs (gather p) ≡ first_active p rs
unfolding choose_from first_active
choose_from-gather p [] = refl
choose_from-gather p (r ∷ rs) = rw (any_bit-gather p r, choose_from-gather p rs)

module _ (p : Probe) (s : Route) (active : is_active p s ≡ true) where
  -- An active route of the table makes the first active one active, and not behind it.
  first_active-wins :
      (rs : List Route)
      → index_of rs s < length rs
      → (is_active p (first_active p rs) ≡ true) × (index_of rs (first_active p rs) ≤ index_of rs s)
  unfolding first_active index_of
  first_active-wins [] h = absurd (omega arith)
  first_active-wins (r ∷ rs) h = elim (Bool-cases (is_active p r)) [
    | inl here ↦ rw here (here, ground arith)
    | inr later ↦
        let other : ¬ (number r ≡ number s) = λ e. cc (number-injective r s e, active, later) in
        rw later (ground (arith, other, first_active-wins rs))
  ]

rank_is_index : (r : Route) → index_of priority r ≡ rank r
unfolding index_of
rank_is_index Route.nowhere = refl
rank_is_index _ = refl

active_in_table : (p : Probe) (s : Route) → is_active p s ≡ true → rank s < 13
active_in_table p Route.nowhere h = cc
active_in_table p Route.count h = cc
active_in_table p _ h = omega arith

route-resolve : (p : Probe) → (resolve (some p)).route ≡ first_active p priority
unfolding resolve choose_route
route-resolve p = choose_from-gather p priority

rank-first_active :
    (p : Probe) (s : Route)
    → is_active p s ≡ true
    → (is_active p (first_active p priority) ≡ true) × (rank (first_active p priority) ≤ rank s)
rank-first_active p s h =
    let w =
      first_active-wins p s h priority (omega (arith, rank_is_index s, active_in_table p s h)) in
    (w.0, omega (arith, w.1, rank_is_index s, rank_is_index (first_active p priority)))

some_active : (p : Probe) → (s : Route) × (is_active p s ≡ true)
some_active p = elim (Bool-cases (truth p.title)) [
  | inl t ↦ (Route.title, t)
  | inr nt ↦ elim (Bool-cases (truth p.battle)) [
    | inl b ↦ (Route.battle, b)
    | inr nb ↦ (Route.field, ground arith)
  ]
]

-- The route that a probe resolves to is always one that the probe reports as active, so never the
-- empty route.
resolve-is_active : (p : Probe) → is_active p (resolve (some p)).route ≡ true
resolve-is_active p = let (s, h) = some_active p in rw (route-resolve p) (rank-first_active p s h).0

-- For a layer that the probe reports as active: the resolved route is itself a layer that the
-- probe reports as active, and it does not stand behind the given one in the modal order.
pub resolve_wins :
    (p : Probe) (s : Route)
    → is_active p s ≡ true
    → let owner = (resolve (some p)).route in (is_active p owner ≡ true) × (rank owner ≤ rank s)
resolve_wins p s h = (resolve-is_active p, rw (route-resolve p) (rank-first_active p s h).1)

-- The candidate word of a resolved context has the bit of a route set exactly when the probe
-- reports that layer.
pub candidates-resolve :
    (p : Probe) (r : Route)
    → bit_at (number r) (resolve (some p)).candidates ≡ to_int (is_active p r)
unfolding resolve
candidates-resolve p r = bit_at-gather p r
