-- ===== src/InputContext/Lifecycle.antt =====
-- `same_lifecycle` of input_context.c against the relation that it decides.
use machismo_sword.Base.{
  ℕ, ◌≡◌, ◌∙◌, ap, ap₂, subst, sym, ◌↔◌, Bool, true, false, not, ◌&&◌, ◌||◌, arith, bit_and, bit_or,
  ◌==◌, ==_iff, if◌then◌else◌,
}
use machismo_sword.Base.Bits.{bit_at, any-or, any-bit_at}
use machismo_sword.Base.Int.{eq_ℤ, eq_ℤ_iff}
use machismo_sword.InputContext.{Route, number, Context, any_bit, route_bit, same_lifecycle}
use machismo_sword.InputContext.Resolve.{number-injective}

-- A route is among the candidates of a context.
abbrev pub Holds : Context → Route → Type 0
Holds c r = bit_at (number r) c.candidates ≡ 1

-- One lifetime of the input owner: the same stack on the same map, and for each layer present
-- the page that identifies its session.
pub record SameLife (a b : Context) : Type 0 where
  pub route : a.route ≡ b.route
  pub candidates : a.candidates ≡ b.candidates
  pub map_id : a.map_id ≡ b.map_id
  pub title : Holds a Route.title → a.title_mode ≡ b.title_mode
  pub title_load : Holds a Route.save_load → a.title_mode ≡ b.title_mode
  pub load_page : Holds a Route.save_load → a.menu_page ≡ b.menu_page
  pub list_page : Holds a Route.save_list → a.menu_page ≡ b.menu_page
  pub battle : Holds a Route.battle → a.battle_menu ≡ b.battle_menu
  pub host_battle : Holds a Route.host_battle → a.battle_menu ≡ b.battle_menu

-- A mask of two routes asks for either bit.
any-two :
    (c : ℕ) (r s : Route)
    → any_bit (bit_and c (bit_or (route_bit r) (route_bit s)))
      ≡ (bit_at (number r) c == 1) || (bit_at (number s) c == 1)
any-two c r s =
    any-or c (route_bit r) (route_bit s)
    ∙ ap₂ ◌||◌ (any-bit_at (number r) c) (any-bit_at (number s) c)

-- The ladder of `same_lifecycle` over the outcomes of its tests: the three comparisons that
-- always count, the three masks, and the three that count under a mask.
abbrev ladder : Bool → Bool → Bool → Bool → Bool → Bool → Bool → Bool → Bool → Bool
ladder route candidates map t s b title page menu =
    if not route || not candidates || not map
    then false
    else if t && not title
    then false
    else if s && not page
    then false
    else if b && not menu
    then false
    else true

either : ℕ → ℕ → Bool
either x y = (x == 1) || (y == 1)

module _ (route candidates map title page menu : Bool) (t l s b h : ℕ) where
  abbrev passes : Bool
  passes = ladder route candidates map (either t l) (either l s) (either b h) title page menu

  abbrev Facts : Type 0
  Facts =
      (route ≡ true)
      × (candidates ≡ true)
      × (map ≡ true)
      × (t ≡ 1 → title ≡ true)
      × (l ≡ 1 → title ≡ true)
      × (l ≡ 1 → page ≡ true)
      × (s ≡ 1 → page ≡ true)
      × (b ≡ 1 → menu ≡ true)
      × (h ≡ 1 → menu ≡ true)

  facts_of_passes : passes ≡ true → Facts
  unfolding either
  facts_of_passes e = (
    ground arith,
    ground arith,
    ground arith,
    λ x. ground arith,
    λ x. ground arith,
    λ x. ground arith,
    λ x. ground arith,
    λ x. ground arith,
    λ x. ground arith,
  )

  passes_of_facts : Facts → passes ≡ true
  unfolding either
  passes_of_facts f = ground arith

same_lifecycle-passes :
    (a b : Context)
    → let bit = λ (r : Route). bit_at (number r) a.candidates in
      same_lifecycle a b
      ≡ passes
          (number a.route == number b.route)
          (a.candidates == b.candidates)
          (eq_ℤ a.map_id b.map_id)
          (eq_ℤ a.title_mode b.title_mode)
          (eq_ℤ a.menu_page b.menu_page)
          (eq_ℤ a.battle_menu b.battle_menu)
          (bit Route.title)
          (bit Route.save_load)
          (bit Route.save_list)
          (bit Route.battle)
          (bit Route.host_battle)
unfolding same_lifecycle either
same_lifecycle-passes a b = λ i.
    ladder (number a.route == number b.route) (a.candidates == b.candidates)
      (eq_ℤ a.map_id b.map_id) (any-two a.candidates Route.title Route.save_load i)
      (any-two a.candidates Route.save_load Route.save_list i)
      (any-two a.candidates Route.battle Route.host_battle i) (eq_ℤ a.title_mode b.title_mode)
      (eq_ℤ a.menu_page b.menu_page) (eq_ℤ a.battle_menu b.battle_menu)

SameLife-of_same : (a b : Context) → same_lifecycle a b ≡ true → SameLife a b
SameLife-of_same a b e =
    let f = facts_of_passes _ _ _ _ _ _ _ _ _ _ _ (sym (same_lifecycle-passes a b) ∙ e) in
    record {
      route = number-injective a.route b.route ((==_iff _ _).0 f.0);
      candidates = (==_iff _ _).0 f.1;
      map_id = (eq_ℤ_iff _ _).0 f.2;
      title = λ h. (eq_ℤ_iff _ _).0 (f.3 h);
      title_load = λ h. (eq_ℤ_iff _ _).0 (f.4 h);
      load_page = λ h. (eq_ℤ_iff _ _).0 (f.5 h);
      list_page = λ h. (eq_ℤ_iff _ _).0 (f.6 h);
      battle = λ h. (eq_ℤ_iff _ _).0 (f.7 h);
      host_battle = λ h. (eq_ℤ_iff _ _).0 (f.8 h);
    }

same_of_SameLife : (a b : Context) → SameLife a b → same_lifecycle a b ≡ true
same_of_SameLife a b s =
    same_lifecycle-passes a b
    ∙ passes_of_facts _ _ _ _ _ _ _ _ _ _ _ (
      (==_iff _ _).1 (ap number s.route),
      (==_iff _ _).1 s.candidates,
      (eq_ℤ_iff _ _).1 s.map_id,
      λ h. (eq_ℤ_iff _ _).1 (s.title h),
      λ h. (eq_ℤ_iff _ _).1 (s.title_load h),
      λ h. (eq_ℤ_iff _ _).1 (s.load_page h),
      λ h. (eq_ℤ_iff _ _).1 (s.list_page h),
      λ h. (eq_ℤ_iff _ _).1 (s.battle h),
      λ h. (eq_ℤ_iff _ _).1 (s.host_battle h),
    )

-- same_lifecycle answers yes exactly when the two contexts have the same route, candidates and
-- map, and agree on the title mode where title or save-load is a candidate, on the menu page
-- where save-load or save-list is, and on the battle menu where a battle layer is.
pub same_lifecycle_iff : (a b : Context) → (same_lifecycle a b ≡ true) ↔ SameLife a b
same_lifecycle_iff a b = (SameLife-of_same a b, same_of_SameLife a b)

pub SameLife-trans : (a b c : Context) → SameLife a b → SameLife b c → SameLife a c
SameLife-trans a b c s t =
    let move =
      λ (r : Route) (h : Holds a r). subst (λ (w : ℕ). bit_at (number r) w ≡ 1) s.candidates h in
    record {
      route = s.route ∙ t.route;
      candidates = s.candidates ∙ t.candidates;
      map_id = s.map_id ∙ t.map_id;
      title = λ h. s.title h ∙ t.title (move Route.title h);
      title_load = λ h. s.title_load h ∙ t.title_load (move Route.save_load h);
      load_page = λ h. s.load_page h ∙ t.load_page (move Route.save_load h);
      list_page = λ h. s.list_page h ∙ t.list_page (move Route.save_list h);
      battle = λ h. s.battle h ∙ t.battle (move Route.battle h);
      host_battle = λ h. s.host_battle h ∙ t.host_battle (move Route.host_battle h);
    }
