-- ===== src/EhFrame/Records.antt =====
-- The records of a synthetic .eh_frame in src/eh_frame.c: their layout, their sizes, and that the
-- size in front is the right one.
use mathlib.Core.List.{append_assoc}
use machismo_sword.Base.{
  ℕ, zero, suc, ◌+◌, ◌-◌, ◌/◌, ◌%◌, ◌^◌, ◌≤◌, ◌<◌, ◌≡◌, refl, sym, ap, ◌∙◌, inl, inr, List, [], ◌∷◌,
  ◌++◌, length, length-append, ◌==◌, arith, Bool-cases,
}
use machismo_sword.EhFrame.{ehf_uint, patch, padding, close_record}

pub length-ehf_uint : (n v : ℕ) → length (ehf_uint n v) ≡ n
unfolding ehf_uint
length-ehf_uint zero v = refl
length-ehf_uint (suc n) v = ap suc (length-ehf_uint n (v / 2 ^ 8))

patch_front : (bs xs b : List ℕ) → length xs ≡ length bs → patch 0 bs (xs ++ b) ≡ bs ++ b
unfolding patch
patch_front [] [] b h = refl
patch_front [] (x ∷ xs) b h = absurd (omega arith)
patch_front (c ∷ bs) [] b h = absurd (omega arith)
patch_front (c ∷ bs) (x ∷ xs) b h = ap (◌∷◌ c) (patch_front bs xs b (omega arith))

patch_nil : (start : ℕ) (buf : List ℕ) → patch start [] buf ≡ buf
unfolding patch
patch_nil start buf = refl

patch_lem :
    (a bs xs b : List ℕ)
    → length xs ≡ length bs
    → patch (length a) bs (a ++ (xs ++ b)) ≡ a ++ (bs ++ b)
unfolding patch
patch_lem [] bs xs b h = patch_front bs xs b h
patch_lem (c ∷ a) [] [] b h = refl
patch_lem (c ∷ a) [] (x ∷ xs) b h = absurd (omega arith)
patch_lem (c ∷ a) (d ∷ bs) xs b h = ap (◌∷◌ c) (patch_lem a (d ∷ bs) xs b h)

padding_lem :
    (fuel position : ℕ)
    → (8 - position % 8) % 8 ≤ fuel
    → length (padding fuel 8 position) ≡ (8 - position % 8) % 8
unfolding padding
padding_lem zero position h = omega arith
padding_lem (suc fuel) position h = elim (Bool-cases (position % 8 == 0)) [
  | inl aligned ↦ rw aligned (ground arith)
  | inr off ↦
      let odd : 0 < position % 8 = ground arith in
      rw off (omega (arith, padding_lem fuel (position + 1) (omega arith)))
]

-- What follows the size field of a record, with its padding.
abbrev pub padded : List ℕ → List ℕ → List ℕ
padded buf body = body ++ padding 8 8 (length buf + (4 + length body))

-- A record: the size of what follows, and that.
abbrev pub record_of : List ℕ → List ℕ → List ℕ
record_of buf body = ehf_uint 4 (length (padded buf body)) ++ padded buf body

pub close_record_lem :
    (buf body : List ℕ)
    → close_record (length buf) (buf ++ (ehf_uint 4 0 ++ body)) ≡ buf ++ record_of buf body
unfolding close_record
close_record_lem buf body =
    let place : length (buf ++ (ehf_uint 4 0 ++ body)) ≡ length buf + (4 + length body) = omega (
      arith,
      length-append buf (ehf_uint 4 0 ++ body),
      length-append (ehf_uint 4 0) body,
      length-ehf_uint 4 0,
    ) in
    let zeros = padding 8 8 (length buf + (4 + length body)) in
    let whole : (buf ++ (ehf_uint 4 0 ++ body)) ++ zeros
        ≡ buf ++ (ehf_uint 4 0 ++ (body ++ zeros)) =
      append_assoc buf (ehf_uint 4 0 ++ body) zeros
      ∙ ap (◌++◌ buf) (append_assoc (ehf_uint 4 0) body zeros) in
    let size : length (buf ++ (ehf_uint 4 0 ++ (body ++ zeros))) - (length buf + 4)
        ≡ length (body ++ zeros) =
      omega (
        arith,
        length-append buf (ehf_uint 4 0 ++ (body ++ zeros)),
        length-append (ehf_uint 4 0) (body ++ zeros),
        length-ehf_uint 4 0,
      ) in
    rw (place, whole, size)
      (patch_lem buf (ehf_uint 4 (length (body ++ zeros))) (ehf_uint 4 0) (body ++ zeros)
        (length-ehf_uint 4 0 ∙ sym (length-ehf_uint 4 (length (body ++ zeros)))))

pub length-record_of :
    (buf body : List ℕ)
    → length buf % 8 ≡ 0
    → (length (record_of buf body) ≤ length body + 11) × (length (record_of buf body) % 8 ≡ 0)
length-record_of buf body h =
    let zeros = padding_lem 8 (length buf + (4 + length body)) (omega arith) in
    let parts = length-append body (padding 8 8 (length buf + (4 + length body))) in
    let whole = length-append (ehf_uint 4 (length (padded buf body))) (padded buf body) in
    let front = length-ehf_uint 4 (length (padded buf body)) in (omega arith, omega arith)

pub length-padded : (buf body : List ℕ) → length (padded buf body) ≤ length body + 7
length-padded buf body = omega (
  arith,
  padding_lem 8 (length buf + (4 + length body)) (omega arith),
  length-append body (padding 8 8 (length buf + (4 + length body))),
)
