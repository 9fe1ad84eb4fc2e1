-- ===== src/Input/Stream/Loops.antt =====
-- The release loops of input.c: they queue one event for each key that they let go, and the
-- reservation made before them counts those keys.
use machismo_sword.Base.{
  ℕ, zero, suc, ◌+◌, ◌^◌, ◌≤◌, ◌<◌, ◌≡◌, refl, ap, ◌∙◌, subst, Bool, true, false, not, arith, ◌==◌,
  ==_iff, to_int, Bool-cases, inl, inr,
}
use machismo_sword.Input.{Input, update, add_size, for_scancodes}
use machismo_sword.Input.Queue.{enqueue_reserved}
use machismo_sword.Input.Queue.Contents.{IsRing}
use machismo_sword.Input.Queue.Ends.{enqueue_reserved_lem, update_other}
use machismo_sword.Input.Events.{count_down, release_down}
use machismo_sword.Input.Stream.{is_held, Emits, Emits-refl, Emits-trans}
use machismo_sword.Input.Stream.Keys.{Emits-edge, held_after}

-- How many of `n` scancodes from `scancode` on pass a test.
abbrev pub tally : (ℕ → Bool) → ℕ → ℕ → ℕ
tally test zero scancode = 0
tally test (suc n) scancode = to_int (test scancode) + tally test n (scancode + 1)

pub tally-cong :
    (f g : ℕ → Bool) (n scancode : ℕ)
    → ((j : ℕ) → scancode ≤ j → f j ≡ g j)
    → tally f n scancode ≡ tally g n scancode
tally-cong f g zero scancode h = refl
tally-cong f g (suc n) scancode h =
    let first = h scancode (omega arith) in
    rw first (
      ap (λ (t : ℕ). to_int (g scancode) + t)
        (tally-cong f g n (scancode + 1) (λ j lo. h j (omega arith))))

pub tally-le : (f : ℕ → Bool) (n scancode : ℕ) → tally f n scancode ≤ n
tally-le f zero scancode = omega arith
tally-le f (suc n) scancode = ground (arith, tally-le f n (scancode + 1))

-- What one round of a release loop does, for the keys that `fires` names.
pub record Round (fires : Input → ℕ → Bool) (scancode : ℕ) (input out : Input) : Type 0 where
  pub emits : Emits input out
  pub count : out.queue_count ≡ input.queue_count + to_int (fires input scancode)
  pub capacity : out.queue_capacity ≡ input.queue_capacity
  pub others : (j : ℕ) → scancode < j → fires out j ≡ fires input j

-- A loop of such rounds emits its edges, if there is room for all of them beforehand. `Allowed` is
-- what a round needs of its key; a round keeps it for the keys to come.
pub for_scancodes-Emits :
    (body : ℕ → Input → Input) (fires : Input → ℕ → Bool) (Allowed : Input → ℕ → Type 0)
    → ((scancode : ℕ) (input : Input)
        → IsRing input
        → Allowed input scancode
        → (fires input scancode ≡ true → input.queue_count < input.queue_capacity)
        → Round fires scancode input (body scancode input))
    → ((scancode j : ℕ) (input : Input)
        → scancode < j
        → Allowed input j
        → Allowed (body scancode input) j)
    → (n scancode : ℕ) (input : Input) → IsRing input
    → ((j : ℕ) → scancode ≤ j → j < scancode + n → Allowed input j)
    → input.queue_count + tally (fires input) n scancode ≤ input.queue_capacity
    → Emits input (for_scancodes body n scancode input)
unfolding for_scancodes
for_scancodes-Emits body fires Allowed one keeps zero scancode input v allowed room =
    Emits-refl input v
for_scancodes-Emits body fires Allowed one keeps (suc n) scancode input v allowed room =
    let r =
      one scancode input v (allowed scancode (omega arith) (omega arith))
        (λ e. omega (arith, ap to_int e)) in
    let next = body scancode input in
    Emits-trans input next (for_scancodes body n (scancode + 1) next) r.emits (
      for_scancodes-Emits body fires Allowed one keeps n (scancode + 1) next r.emits.ring
        (λ j lo hi. keeps scancode j input (omega arith) (allowed j (omega arith) (omega arith)))
        (omega (
          arith,
          r.count,
          r.capacity,
          tally-cong (fires next) (fires input) n (scancode + 1) (λ j lo. r.others j (omega arith)),
        )))

-- The keys that `sword3_input_release_all` lets go, as it counts them.
pub count_down-tally :
    (refs : ℕ → ℕ) (n scancode releases : ℕ)
    → releases + n < 2 ^ 64
    → count_down refs n scancode releases ≡ releases + tally (is_held refs) n scancode
unfolding count_down
count_down-tally refs zero scancode releases h = omega arith
count_down-tally refs (suc n) scancode releases h = elim (Bool-cases (refs scancode == 0)) [
  | inl up ↦ rw up (count_down-tally refs n (scancode + 1) releases (omega arith) ∙ omega arith)
  | inr down ↦
      rw down
        (count_down-tally refs n (scancode + 1) (add_size releases 1) (omega arith) ∙ omega arith)
]

pub release_down-Round :
    (scancode : ℕ) (input : Input)
    → IsRing input
    → (is_held input.key_refs scancode ≡ true → input.queue_count < input.queue_capacity)
    → Round (λ i. is_held i.key_refs) scancode input (release_down scancode input)
unfolding release_down enqueue_reserved
release_down-Round scancode input v room = elim (Bool-cases (input.key_refs scancode == 0)) [
  | inl up ↦ rw up (record {
    emits = Emits-refl input v;
    count = rw up (omega arith);
    capacity = refl;
    others = λ j lo. refl;
  })
  | inr down ↦
      let held : is_held input.key_refs scancode ≡ true = rw down in
      let base = record input { key_refs = update input.key_refs scancode 0 } in
      rw down (record {
        emits =
            Emits-edge input base scancode false v (room held) refl held
              (λ j. held_after input scancode 0 false j refl);
        count = rw down ((enqueue_reserved_lem base scancode false v (room held)).2);
        capacity = refl;
        others = λ j lo.
            ap (λ (n : ℕ). not (n == 0))
              (update_other input.key_refs scancode j 0 (λ e. absurd (omega arith)));
      })
]

release_down_refs :
    (scancode : ℕ) (input : Input) (j : ℕ)
    → (release_down scancode input).key_refs j ≡ update input.key_refs scancode 0 j
unfolding release_down enqueue_reserved
release_down_refs scancode input j = elim (Bool-cases (input.key_refs scancode == 0)) [
  | inr down ↦ rw down
  | inl up ↦ rw up (elim (Bool-cases (scancode == j)) [
    | inl here ↦ rw here (
        subst (λ (i : ℕ). input.key_refs i ≡ 0) ((==_iff scancode j).0 here)
          ((==_iff (input.key_refs scancode) 0).0 up))
    | inr there ↦ rw there
  ])
]

stays_up :
    (n scancode : ℕ) (input : Input) (j : ℕ)
    → input.key_refs j ≡ 0
    → (for_scancodes release_down n scancode input).key_refs j ≡ 0
unfolding for_scancodes
stays_up zero scancode input j h = h
stays_up (suc n) scancode input j h =
    stays_up n (scancode + 1) (release_down scancode input) j
      (release_down_refs scancode input j ∙ ground (arith, h))

-- After the loop of `sword3_input_release_all` no key in its range is held.
pub for_scancodes-release_down :
    (n scancode : ℕ) (input : Input) (j : ℕ)
    → scancode ≤ j
    → j < scancode + n
    → (for_scancodes release_down n scancode input).key_refs j ≡ 0
unfolding for_scancodes
for_scancodes-release_down zero scancode input j lo hi = absurd (omega arith)
for_scancodes-release_down (suc n) scancode input j lo hi = elim (Bool-cases (scancode == j)) [
  | inl here ↦
      stays_up n (scancode + 1) (release_down scancode input) j
        (release_down_refs scancode input j ∙ rw here)
  | inr later ↦
      for_scancodes-release_down n (scancode + 1) (release_down scancode input) j (ground arith)
        (omega arith)
]
