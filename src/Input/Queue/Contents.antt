-- ===== src/Input/Queue/Contents.antt =====
-- The event ring of input.c read as the list of its events, oldest first.
use native.Mathlib.Nat.{mod-eq_of_lt, pow-suc}
use machismo_sword.Base.{
  ℕ, zero, suc, ◌+◌, ◌-◌, ◌*◌, ◌/◌, ◌%◌, ◌^◌, ◌≤◌, ◌<◌, ◌≡◌, ◌≢◌, inl, inr, refl, ap, ap₂, ◌∙◌,
  Option, some, none, List, [], ◌∷◌, ◌++◌, arith, ltb, leb, if◌then◌else◌, Bool-cases, Option-cases,
  ◌&&◌,
}
use machismo_sword.Input.{Event, Input, Error, Outcome, Malloc, update, add_size}
use machismo_sword.Input.Queue.{
  grow, start_capacity, new_capacity_for, copy_queue, reserve_queue, size_max, event_size,
}

-- The values of a function at `n` indices from `i` on.
abbrev pub segment {ℓ} : {A : Type ℓ} → (ℕ → A) → ℕ → ℕ → List A
segment f i zero = []
segment f i (suc n) = f i ∷ segment f (i + 1) n

abbrev pub slot : Input → ℕ → Event
slot input j = input.queue ((input.queue_head + j) % input.queue_capacity)

-- The events that are queued, oldest first.
abbrev pub contents : Input → List Event
contents input = segment (slot input) 0 input.queue_count

-- The ring is within its block, and the block is one that malloc could give.
pub record RingOf (count capacity head : ℕ) : Type 0 where
  pub room : count ≤ capacity
  pub small : capacity ≤ size_max / event_size
  pub head_in : head ≤ capacity - 1

abbrev pub IsRing : Input → Type 0
IsRing input = RingOf input.queue_count input.queue_capacity input.queue_head

module _ {ℓ} {A : Type ℓ} where
  pub segment-cong :
      (f g : ℕ → A) (i n : ℕ)
      → ((j : ℕ) → i ≤ j → j < i + n → f j ≡ g j)
      → segment f i n ≡ segment g i n
  segment-cong f g i zero h = refl
  segment-cong f g i (suc n) h =
      ap₂ ◌∷◌ (h i (omega arith) (omega arith))
        (segment-cong f g (i + 1) n (λ j lo hi. h j (omega arith) (omega arith)))

  pub segment-snoc : (f : ℕ → A) (i n : ℕ) → segment f i (suc n) ≡ segment f i n ++ (f (i + n) ∷ [])
  segment-snoc f i zero = ap (λ k. f k ∷ []) (omega arith)
  segment-snoc f i (suc n) =
      ap (◌∷◌ (f i))
        (segment-snoc f (i + 1) n ∙ ap (λ k. segment f (i + 1) n ++ (f k ∷ [])) (omega arith))

  pub segment-shift : (f : ℕ → A) (i n : ℕ) → segment f (i + 1) n ≡ segment (λ j. f (j + 1)) i n
  segment-shift f i zero = refl
  segment-shift f i (suc n) = ap (◌∷◌ (f (i + 1))) (segment-shift f (i + 1) n)

-- The doubling loop ends at the required capacity or past it, once the fuel allows the doubles.
grow-le : (fuel c required : ℕ) → required ≤ c * 2 ^ fuel → required ≤ grow fuel c required
unfolding grow
grow-le zero c required h = omega arith
grow-le (suc fuel) c required h = ground (
  arith,
  grow-le fuel (c * 2) required
      (omega (arith, pow-suc 2 fuel, ap (λ (t : ℕ). c * t) (pow-suc 2 fuel))),
)

start_capacity_pos : (old required : ℕ) → old < required → 1 ≤ start_capacity old required
unfolding start_capacity
start_capacity_pos old required h = ground arith

-- The capacity asked of malloc has room for what is required.
pub new_capacity_for-le :
    (old required : ℕ)
    → old < required
    → required ≤ size_max
    → required ≤ new_capacity_for old required
unfolding new_capacity_for
new_capacity_for-le old required h h' =
    let start = start_capacity_pos old required h in
    grow-le 64 (start_capacity old required) required (omega arith)

copy_queue_at :
    (input : Input) (n i j : ℕ) (block : ℕ → Event)
    → copy_queue input n i block j ≡ (
        if leb i j && ltb j (i + n)
        then input.queue (add_size input.queue_head j % input.queue_capacity)
        else block j)
unfolding copy_queue
copy_queue_at input zero i j block = ground arith
copy_queue_at input (suc n) i j block = ground (
  arith,
  copy_queue_at input n (i + 1) j
      (update block i (input.queue (add_size input.queue_head i % input.queue_capacity))),
)

-- The copy puts the queued events in order at the start of the block.
copy_queue_in :
    (input : Input) (j : ℕ) (block : ℕ → Event)
    → j < input.queue_count
    → copy_queue input input.queue_count 0 block j
      ≡ input.queue (add_size input.queue_head j % input.queue_capacity)
copy_queue_in input j block h = ground (arith, copy_queue_at input input.queue_count 0 j block)

-- A ring with its block replaced by a larger one that starts with the queued events.
moved-contents :
    (input : Input) (block : ℕ → Event) (capacity : ℕ)
    → IsRing input
    → input.queue_capacity < capacity
    → contents (record input {
      queue = copy_queue input input.queue_count 0 block;
      queue_capacity = capacity;
      queue_head = 0;
    })
      ≡ contents input
moved-contents input block capacity v h = segment-cong _ (slot input) 0 input.queue_count λ j lo hi.
    ap (copy_queue input input.queue_count 0 block)
      (mod-eq_of_lt {n = 0 + j} {m = capacity} (omega arith) ∙ omega arith)
    ∙ copy_queue_in input j block (omega arith)
    ∙ ap (λ k. input.queue (k % input.queue_capacity)) (omega arith)

-- What a reservation promises: on success there is room for the new events and the queued ones
-- are kept in order; nothing but the block is touched; on failure nothing is touched at all.
pub record Reserves (input : Input) (additional : ℕ) (out : Input × Option Error) : Type 0 where
  pub failure : out.1 ≢ none → out.0 ≡ input
  pub ring : IsRing out.0
  pub kept : contents out.0 ≡ contents input
  pub rest : out.0 ≡ record input {
    queue = out.0.queue;
    queue_capacity = out.0.queue_capacity;
    queue_head = out.0.queue_head;
  }
  pub room : out.1 ≡ none → out.0.queue_count + additional ≤ out.0.queue_capacity

reserve_nothing :
    (input : Input) (additional : ℕ) (failed : Option Error)
    → IsRing input
    → (failed ≡ none → input.queue_count + additional ≤ input.queue_capacity)
    → Reserves input additional (input, failed)
reserve_nothing input additional failed v h = record {
  failure = λ _. refl;
  ring = v;
  kept = refl;
  rest = refl;
  room = h;
}

reserve_moved :
    (input : Input) (additional capacity : ℕ) (block : ℕ → Event)
    → IsRing input
    → input.queue_capacity < capacity
    → input.queue_count + additional ≤ capacity
    → capacity ≤ size_max / event_size
    → Reserves input additional (
      record input {
        queue = copy_queue input input.queue_count 0 block;
        queue_capacity = capacity;
        queue_head = 0;
      },
      none,
    )
reserve_moved input additional capacity block v h fits small = record {
  failure = λ ne. absurd (ne refl);
  ring = record { room = omega arith; small = small; head_in = omega arith };
  kept = moved-contents input block capacity v h;
  rest = refl;
  room = λ _. fits;
}

-- `reserve_queue` keeps that promise, whatever malloc answers.
pub reserve_queue_lem :
    (malloc : Malloc) (input : Input) (additional : ℕ)
    → IsRing input
    → Reserves input additional (reserve_queue malloc input additional)
unfolding reserve_queue
reserve_queue_lem malloc input additional v =
    elim (Bool-cases (ltb (size_max - input.queue_count) additional)) [
      | inl over ↦ rw over (reserve_nothing input additional _ v (λ e. cc))
      | inr fits ↦
          rw fits (elim (Bool-cases (ltb input.queue_capacity (input.queue_count + additional))) [
            | inr roomy ↦ rw roomy (reserve_nothing input additional _ v (λ _. ground arith))
            | inl tight ↦
                let required = input.queue_count + additional in
                let capacity = new_capacity_for input.queue_capacity required in
                let enough =
                  new_capacity_for-le input.queue_capacity required (ground arith) (ground arith) in
                rw tight (elim (Bool-cases (ltb (size_max / event_size) capacity)) [
                  | inl huge ↦ rw huge (reserve_nothing input additional _ v (λ e. cc))
                  | inr small ↦ rw small (elim (Option-cases (malloc (capacity * event_size))) [
                    | inl none_left ↦ rw none_left (reserve_nothing input additional _ v (λ e. cc))
                    | inr (block, given) ↦ rw given (
                        reserve_moved input additional capacity block v (ground arith) (omega arith)
                          (ground arith))
                  ])
                ])
          ])
    ]

-- The same promise by the outcome: a failure changes nothing; a success keeps the queued events in
-- order, touches nothing but the block, and leaves room for `additional` more.
abbrev pub Reserved : Input → ℕ → Outcome → Type 0
Reserved input additional (out, some e) = out ≡ input
Reserved input additional (out, none) =
    IsRing out
    × (contents out ≡ contents input)
    × (out ≡ record input {
      queue = out.queue;
      queue_capacity = out.queue_capacity;
      queue_head = out.queue_head;
    })
    × (out.queue_count + additional ≤ out.queue_capacity)

Reserved-of_Reserves :
    (input : Input) (additional : ℕ) (out : Outcome)
    → Reserves input additional out
    → Reserved input additional out
Reserved-of_Reserves input additional (out, some e) r = r.failure (λ n. cc)
Reserved-of_Reserves input additional (out, none) r = (r.ring, r.kept, r.rest, r.room refl)

-- For a valid ring and any answer of malloc: when reserve_queue fails the input is unchanged;
-- when it succeeds the ring is valid, holds the same events in the same order, has room for the
-- additional ones, and no other field is touched.
pub reserve_queue-Reserved :
    (malloc : Malloc) (input : Input) (additional : ℕ)
    → IsRing input
    → Reserved input additional (reserve_queue malloc input additional)
reserve_queue-Reserved malloc input additional v =
    Reserved-of_Reserves input additional _ (reserve_queue_lem malloc input additional v)
