-- ===== src/EhFrame/Table.antt =====
-- The synthetic section of src/eh_frame.c is read back as it was emitted, one record after the other.
use native.Mathlib.Nat.{pow-suc}
use mathlib.Core.List.{append_assoc}
use machismo_sword.Base.{
  ℕ, zero, suc, ◌+◌, ◌*◌, ◌/◌, ◌^◌, ◌≤◌, ◌<◌, ◌≡◌, refl, ap, ◌∙◌, List, [], ◌∷◌, ◌++◌, length,
  length-append, arith,
}
use machismo_sword.EhFrame.{ehf_uint, read_uint, from, padding}
use machismo_sword.EhFrame.Leb.{pow_seven}
use machismo_sword.EhFrame.Records.{length-ehf_uint, padded, record_of}
use machismo_sword.EhFrame.Register.{walk_records}

pow_eight : (k : ℕ) → 2 ^ (k + 8) ≡ 2 ^ k * 256
pow_eight k = omega (
  arith,
  pow_seven k,
  pow-suc 2 (k + 7),
  ap (λ (t : ℕ). 2 ^ t) {x = k + 8} {y = suc (k + 7)} (omega arith),
)

pub read_uint-ehf_uint :
    (n v : ℕ) (s : List ℕ) → v < 2 ^ (n * 8) → read_uint n (ehf_uint n v ++ s) ≡ v
unfolding read_uint ehf_uint
read_uint-ehf_uint zero v s h = omega arith
read_uint-ehf_uint (suc n) v s h =
    let size = pow_eight (n * 8) in
    let top : 2 ^ (suc n * 8) ≡ 2 ^ (n * 8 + 8) = ap (λ (t : ℕ). 2 ^ t) (omega arith) in
    omega (arith, read_uint-ehf_uint n (v / 2 ^ 8) s (omega arith))

from-append : (a b : List ℕ) (i k : ℕ) → i ≡ length a + k → from i (a ++ b) ≡ from k b
unfolding from
from-append [] b i k e = let same : i ≡ k = omega arith in ap (λ j. from j b) same
from-append (c ∷ a) b zero k e = absurd (omega arith)
from-append (c ∷ a) b (suc i) k e = from-append a b i k (omega arith)

from_zero : (s : List ℕ) → from 0 s ≡ s
unfolding from
from_zero s = refl

module _ (at : ℕ) (buf rest tail : List ℕ) (id : ℕ) where
  abbrev body : List ℕ
  body = ehf_uint 4 id ++ rest

  abbrev after_id : List ℕ
  after_id = rest ++ (padding 8 8 (length buf + (4 + length body)) ++ tail)

  -- The section with the record of that body, and what follows it.
  abbrev section : List ℕ
  section = buf ++ (record_of buf body ++ tail)

  size_field :
      length (padded buf body) < 2 ^ 32
      → read_uint 4 (from (length buf) section) ≡ length (padded buf body)
  size_field small =
      let size = length (padded buf body) in
      rw
        (
          from-append buf (record_of buf body ++ tail) (length buf) 0 (omega arith),
          from_zero (record_of buf body ++ tail),
          append_assoc (ehf_uint 4 size) (padded buf body) tail,
        )
        (read_uint-ehf_uint 4 size (padded buf body ++ tail) small)

  behind_size : from (length buf + 4) section ≡ padded buf body ++ tail
  behind_size =
      let size = length (padded buf body) in
      from-append buf (record_of buf body ++ tail) (length buf + 4) 4 refl
      ∙ ap (from 4) (append_assoc (ehf_uint 4 size) (padded buf body) tail)
      ∙ from-append (ehf_uint 4 size) (padded buf body ++ tail) 4 0
          (omega (arith, length-ehf_uint 4 size))
      ∙ from_zero (padded buf body ++ tail)

  inner : padded buf body ++ tail ≡ ehf_uint 4 id ++ after_id
  inner =
      let zeros = padding 8 8 (length buf + (4 + length body)) in
      append_assoc body zeros tail ∙ append_assoc (ehf_uint 4 id) rest (zeros ++ tail)

  id_field : id < 2 ^ 32 → read_uint 4 (from (length buf + 4) section) ≡ id
  id_field small = rw (behind_size, inner) (read_uint-ehf_uint 4 id after_id small)

  behind_id : from (length buf + 8) section ≡ after_id
  behind_id =
      let size = length (padded buf body) in
      from-append buf (record_of buf body ++ tail) (length buf + 8) 8 refl
      ∙ ap (from 8) (append_assoc (ehf_uint 4 size) (padded buf body) tail)
      ∙ from-append (ehf_uint 4 size) (padded buf body ++ tail) 8 4
          (omega (arith, length-ehf_uint 4 size))
      ∙ ap (from 4) inner
      ∙ from-append (ehf_uint 4 id) after_id 4 0 (omega (arith, length-ehf_uint 4 id))
      ∙ from_zero after_id

  length-record : length (record_of buf body) ≡ 4 + length (padded buf body)
  length-record =
      let size = length (padded buf body) in
      omega (arith, length-append (ehf_uint 4 size) (padded buf body), length-ehf_uint 4 size)

  length-section : length buf + (4 + length (padded buf body)) ≤ length section
  length-section = omega (
    arith,
    length-append buf (record_of buf body ++ tail),
    length-append (record_of buf body) tail,
    length-record,
  )

  filled : 4 ≤ length (padded buf body)
  filled = omega (
    arith,
    length-append body (padding 8 8 (length buf + (4 + length body))),
    length-append (ehf_uint 4 id) rest,
    length-ehf_uint 4 id,
  )

  -- One round of the walk, over a CIE and over an FDE.
  pub walk_cie :
      (fuel : ℕ)
      → length (padded buf body) < 2 ^ 32
      → id ≡ 0
      → walk_records (suc fuel) at section (length buf)
        ≡ walk_records fuel at section (length buf + length (record_of buf body))
  unfolding walk_records
  walk_cie fuel small zero_id =
      ground
        (arith, size_field small, id_field (omega arith), length-record, length-section, filled)

  pub walk_fde :
      (fuel address : ℕ) (more : List ℕ)
      → length (padded buf body) < 2 ^ 32
      → 0 < id
      → id < 2 ^ 32
      → address < 2 ^ 64
      → rest ≡ ehf_uint 8 address ++ more
      → walk_records (suc fuel) at section (length buf)
        ≡ record { initial_location = address; fde_ptr = at + length buf }
          ∷ walk_records fuel at section (length buf + length (record_of buf body))
  unfolding walk_records
  walk_fde fuel address more small positive id_small address_small shape =
      let zeros = padding 8 8 (length buf + (4 + length body)) in
      let field : read_uint 8 (from (length buf + 8) section) ≡ address =
        ap (read_uint 8) (
          behind_id
          ∙ ap (λ r. r ++ (zeros ++ tail)) shape
          ∙ append_assoc (ehf_uint 8 address) more (zeros ++ tail))
        ∙ read_uint-ehf_uint 8 address (more ++ (zeros ++ tail)) address_small in
      ground
        (arith, size_field small, id_field id_small, length-record, length-section, filled, field)
