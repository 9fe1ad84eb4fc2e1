-- ===== src/InputContext/Candidates.antt =====
-- The candidate word of input_context.c: each route's bit is set exactly when its layer is active.
use machismo_sword.Base.{
  ℕ, ◌≡◌, refl, ◌∙◌, Bool, true, false, not, ◌&&◌, arith, bit_and, to_int, to_int_one, ap, ◌==◌,
  if◌then◌else◌,
}
use machismo_sword.Base.Bits.{bit_at, bit_at-or_pow, any-bit_at, bit_at-zero}
use machismo_sword.Base.Int.{truth}
use machismo_sword.InputContext.{Route, number, Probe, add_candidate, any_bit, route_bit, gather}

-- Which layers a probe reports, with no word in sight.
abbrev pub is_active : Probe → Route → Bool
is_active p Route.nowhere = false
is_active p Route.field = not (truth p.title) && not (truth p.battle)
is_active p Route.pointer = truth p.pointer
is_active p Route.menu_opening = truth p.menu_opening
is_active p Route.system_menu = truth p.system_menu
is_active p Route.title = truth p.title
is_active p Route.shop = truth p.shop
is_active p Route.save_list = truth p.save_list
is_active p Route.save_load = truth p.save_load
is_active p Route.battle = truth p.battle
is_active p Route.host_battle = truth p.host_battle
is_active p Route.host_menu = truth p.host_menu
is_active p Route.caption = truth p.caption
is_active p Route.host_cheat = truth p.host_cheat
is_active p Route.count = false

-- Adding a candidate changes the bit of that route only.
bit_at-add_candidate :
    (i c : ℕ) (r : Route) (active : Bool)
    → bit_at i (add_candidate c r active) ≡ (if number r == i && active then 1 else bit_at i c)
unfolding add_candidate
bit_at-add_candidate i c r false = ground arith
bit_at-add_candidate i c r true = ground (arith, bit_at-or_pow i c (number r))

-- The last route added for an index decides its bit.
abbrev bit_of : Probe → ℕ → ℕ
bit_of p i =
    if 1 == i && (not (truth p.title) && not (truth p.battle))
    then 1
    else if 2 == i && truth p.pointer
    then 1
    else if 3 == i && truth p.menu_opening
    then 1
    else if 4 == i && truth p.system_menu
    then 1
    else if 5 == i && truth p.title
    then 1
    else if 6 == i && truth p.shop
    then 1
    else if 7 == i && truth p.save_list
    then 1
    else if 8 == i && truth p.save_load
    then 1
    else if 9 == i && truth p.battle
    then 1
    else if 10 == i && truth p.host_battle
    then 1
    else if 11 == i && truth p.host_menu
    then 1
    else if 12 == i && truth p.caption
    then 1
    else if 13 == i && truth p.host_cheat
    then 1
    else 0

bit_of-gather : (p : Probe) (i : ℕ) → bit_at i (gather p) ≡ bit_of p i
unfolding gather
bit_of-gather p i = simp (bit_at-add_candidate, bit_at-zero)

bit_of-number : (p : Probe) (r : Route) → bit_of p (number r) ≡ to_int (is_active p r)
bit_of-number p Route.nowhere = refl
bit_of-number p _ = refl

-- The bit of a route is set exactly when its layer is active.
pub bit_at-gather : (p : Probe) (r : Route) → bit_at (number r) (gather p) ≡ to_int (is_active p r)
bit_at-gather p r = bit_of-gather p (number r) ∙ bit_of-number p r

-- So the test of `choose_route` against a route's mask asks whether its layer is active.
pub any_bit-gather :
    (p : Probe) (r : Route) → any_bit (bit_and (gather p) (route_bit r)) ≡ is_active p r
any_bit-gather p r =
    any-bit_at (number r) (gather p)
    ∙ ap (λ (t : ℕ). t == 1) (bit_at-gather p r)
    ∙ to_int_one (is_active p r)
