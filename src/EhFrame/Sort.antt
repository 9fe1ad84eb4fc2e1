-- ===== src/EhFrame/Sort.antt =====
-- The insertion sort of `collect_entries` in src/eh_frame.c and the sizes of the functions.
use machismo_sword.Base.{
  ℕ, ◌+◌, ◌-◌, ◌%◌, ◌^◌, ◌≤◌, ◌<◌, ◌≡◌, refl, inl, inr, Bool, List, [], ◌∷◌, ltb, to_int, arith,
  Bool-cases,
}
use machismo_sword.EhFrame.Register.{Function, insert_back, sort_entries, sizes_back, sort_and_size}

-- The first function of a list is not above a bound.
abbrev Top : ℕ → List Function → Type 0
Top n [] = Unit {0}
Top n (e ∷ es) = e.func_offset ≤ n

abbrev Descending : List Function → Type 0
Descending [] = Unit {0}
Descending (e ∷ es) = Top e.func_offset es × Descending es

-- How many functions have what a test asks of the offset, the encoding and the LSDA.
abbrev pub count : (ℕ → ℕ → ℕ → Bool) → List Function → ℕ
count test [] = 0
count test (e ∷ es) = to_int (test e.func_offset e.encoding e.lsda_offset) + count test es

insert_back-Top :
    (tmp : Function) (es : List Function) (n : ℕ)
    → tmp.func_offset ≤ n
    → Top n es
    → Top n (insert_back tmp es)
unfolding insert_back
insert_back-Top tmp [] n h t = h
insert_back-Top tmp (e ∷ es) n h t = elim (Bool-cases (ltb tmp.func_offset e.func_offset)) [
  | inl below ↦ rw below t
  | inr above ↦ rw above h
]

insert_back-Descending :
    (tmp : Function) (es : List Function) → Descending es → Descending (insert_back tmp es)
unfolding insert_back
insert_back-Descending tmp [] d = (tt, tt)
insert_back-Descending tmp (e ∷ es) (top, d) =
    elim (Bool-cases (ltb tmp.func_offset e.func_offset)) [
      | inl below ↦
          let less : tmp.func_offset ≤ e.func_offset = ground arith in
          rw below (insert_back-Top tmp es e.func_offset less top, insert_back-Descending tmp es d)
      | inr above ↦ rw above (ground arith, (top, d))
    ]

count-insert_back :
    (test : ℕ → ℕ → ℕ → Bool) (tmp : Function) (es : List Function)
    → count test (insert_back tmp es) ≡ count test (tmp ∷ es)
unfolding insert_back
count-insert_back test tmp [] = refl
count-insert_back test tmp (e ∷ es) = elim (Bool-cases (ltb tmp.func_offset e.func_offset)) [
  | inl below ↦ rw below (omega (arith, count-insert_back test tmp es))
  | inr above ↦ rw above refl
]

sort_entries_lem :
    (sorted entries : List Function) → Descending sorted → Descending (sort_entries sorted entries)
unfolding sort_entries
sort_entries_lem sorted [] d = d
sort_entries_lem sorted (e ∷ es) d =
    sort_entries_lem (insert_back e sorted) es (insert_back-Descending e sorted d)

count-sort_entries :
    (test : ℕ → ℕ → ℕ → Bool) (sorted entries : List Function)
    → count test (sort_entries sorted entries) ≡ count test sorted + count test entries
unfolding sort_entries
count-sort_entries test sorted [] = omega arith
count-sort_entries test sorted (e ∷ es) =
    omega
      (arith, count-sort_entries test (insert_back e sorted) es, count-insert_back test e sorted)

-- Each function ends where the next one starts, and the last one has 256 bytes.
abbrev pub Tiled : List Function → Type 0
Tiled [] = Unit {0}
Tiled (e ∷ []) = e.func_size ≡ 256
Tiled (e ∷ next ∷ es) = (e.func_offset + e.func_size ≡ next.func_offset) × Tiled (next ∷ es)

-- The offsets have 32 bits.
abbrev pub Offsets32 : List Function → Type 0
Offsets32 [] = Unit {0}
Offsets32 (e ∷ es) = (e.func_offset < 2 ^ 32) × Offsets32 es

-- A function that stands before a list.
abbrev Joins : List Function → List Function → Type 0
Joins [] done = Unit {0}
Joins (e ∷ before) [] = Unit {0}
Joins (e ∷ before) (next ∷ done) = e.func_offset ≤ next.func_offset

Joins-Top :
    (before : List Function) (e : Function) (es : List Function)
    → Top e.func_offset before
    → Joins before (e ∷ es)
Joins-Top [] e es top = tt
Joins-Top (b ∷ before) e es top = top

sizes_back-Tiled :
    (before done : List Function)
    → Descending before
    → Joins before done
    → Offsets32 before
    → Offsets32 done
    → Tiled done
    → Tiled (sizes_back before done)
unfolding sizes_back
sizes_back-Tiled [] done d j o p t = t
sizes_back-Tiled (e ∷ before) [] (top, d) j (o, os) p t =
    sizes_back-Tiled before (record e { func_size = 256 } ∷ []) d (Joins-Top before _ [] top) os
      (o, tt) refl
sizes_back-Tiled (e ∷ before) (next ∷ done) (top, d) j (o, os) (p, ps) t =
    sizes_back-Tiled before _ d (Joins-Top before _ (next ∷ done) top) os (o, (p, ps))
      (omega arith, t)

Offsets32-insert_back :
    (tmp : Function) (es : List Function)
    → tmp.func_offset < 2 ^ 32
    → Offsets32 es
    → Offsets32 (insert_back tmp es)
unfolding insert_back
Offsets32-insert_back tmp [] h o = (h, tt)
Offsets32-insert_back tmp (e ∷ es) h (o, os) =
    elim (Bool-cases (ltb tmp.func_offset e.func_offset)) [
      | inl below ↦ rw below (o, Offsets32-insert_back tmp es h os)
      | inr above ↦ rw above (h, (o, os))
    ]

Offsets32-sort_entries :
    (sorted entries : List Function)
    → Offsets32 sorted
    → Offsets32 entries
    → Offsets32 (sort_entries sorted entries)
unfolding sort_entries
Offsets32-sort_entries sorted [] s o = s
Offsets32-sort_entries sorted (e ∷ es) s (o, os) =
    Offsets32-sort_entries (insert_back e sorted) es (Offsets32-insert_back e sorted o s) os

count-sizes_back :
    (test : ℕ → ℕ → ℕ → Bool) (before done : List Function)
    → count test (sizes_back before done) ≡ count test before + count test done
unfolding sizes_back
count-sizes_back test [] done = omega arith
count-sizes_back test (e ∷ before) [] =
    omega (arith, count-sizes_back test before (record e { func_size = 256 } ∷ []))
count-sizes_back test (e ∷ before) (next ∷ done) = omega (
  arith,
  count-sizes_back test before (
      record e { func_size = (2 ^ 32 + next.func_offset - e.func_offset) % 2 ^ 32 }
      ∷ (next ∷ done)),
)

-- For functions with offsets of 32 bits: in the result each ends where the next one starts and
-- the last has 256 bytes, and any test on offset, encoding and LSDA holds of as many functions as
-- before.
pub sort_and_size_lem :
    (entries : List Function) (test : ℕ → ℕ → ℕ → Bool)
    → Offsets32 entries
    → Tiled (sort_and_size entries) × (count test (sort_and_size entries) ≡ count test entries)
sort_and_size_lem entries test small = (
  sizes_back-Tiled (sort_entries [] entries) [] (sort_entries_lem [] entries tt)
      (Joins-nil (sort_entries [] entries)) (Offsets32-sort_entries [] entries tt small) tt tt,
  omega (
    arith,
    count-sizes_back test (sort_entries [] entries) [],
    count-sort_entries test [] entries,
  ),
)
  where
    Joins-nil : (before : List Function) → Joins before []
    Joins-nil [] = tt
    Joins-nil (e ∷ before) = tt
