-- ===== src/EhFrame/Sizes.antt =====
-- The sizes of the records that src/eh_frame.c emits.
use machismo_sword.Base.{
  ℕ, zero, suc, ◌+◌, ◌-◌, ◌*◌, ◌/◌, ◌^◌, ◌≤◌, ◌<◌, ◌≡◌, refl, not, bit_and, bit_or, List, [], ◌∷◌,
  ◌++◌, length, length-append, leb, ◌==◌, if◌then◌else◌, arith,
}
use machismo_sword.EhFrame.{ehf_uint, uleb128_from, ehf_uleb128}
use machismo_sword.EhFrame.Emit.{
  fde_head, x_pair, d_pair, x_pairs, d_pairs, save_pairs, frame_cfi, frameless_cfi,
}
use machismo_sword.EhFrame.Leb.{uleb128_short}
use machismo_sword.EhFrame.Records.{length-ehf_uint}

length-uleb128_from : (fuel v : ℕ) → length (uleb128_from fuel v) ≤ fuel
unfolding uleb128_from
length-uleb128_from zero v = omega arith
length-uleb128_from (suc fuel) v = ground (arith, length-uleb128_from fuel (v / 2 ^ 7))

abbrev Small : List (ℕ × ℕ) → Type 0
Small [] = Unit {0}
Small ((mask, reg) ∷ table) = (reg < 100) × Small table

-- Pairs of a given size take at most that for each row of the table.
save_pairs_bound :
    (pair : ℕ → ℕ → List ℕ) (size : ℕ)
    → ((reg slot : ℕ) → reg < 100 → slot < 100 → length (pair reg slot) ≡ size)
    → (chosen : ℕ) (table : List (ℕ × ℕ)) (slot : ℕ) → Small table
    → slot + 2 * length table < 100
    → let r = save_pairs pair chosen table slot in
      (length r.0 ≤ size * length table) × (r.1 ≤ slot + 2 * length table)
unfolding save_pairs
save_pairs_bound pair size h chosen [] slot small room = (omega arith, omega arith)
save_pairs_bound pair size h chosen ((mask, reg) ∷ table) slot (s, ss) room =
    let skipped = save_pairs_bound pair size h chosen table slot ss (omega arith) in
    let rest = save_pairs_bound pair size h chosen table (slot + 2) ss (omega arith) in
    let p = length-append (pair reg slot) (save_pairs pair chosen table (slot + 2)).0 in
    let q = h reg slot s (omega arith) in
    let more : size * suc (length table) ≡ size + size * length table = omega arith in ground arith

length-x_pair : (reg slot : ℕ) → reg < 100 → slot < 100 → length (x_pair reg slot) ≡ 4
length-x_pair reg slot r s =
    rw (uleb128_short slot (omega arith), uleb128_short (slot + 1) (omega arith)) refl

length-d_pair : (reg slot : ℕ) → reg < 100 → slot < 100 → length (d_pair reg slot) ≡ 6
length-d_pair reg slot r s =
    rw
      (
        uleb128_short slot (omega arith),
        uleb128_short (slot + 1) (omega arith),
        uleb128_short reg (omega arith),
        uleb128_short (reg + 1) (omega arith),
      )
      refl

pub length-frame_cfi : (encoding : ℕ) → length (frame_cfi encoding) ≤ 52
unfolding frame_cfi uleb128_from
length-frame_cfi encoding =
    let x = save_pairs x_pair (bit_and encoding 0x1F) x_pairs 3 in
    let d = save_pairs d_pair (bit_and (encoding / 2 ^ 8) 0xF) d_pairs x.1 in
    let (xs, next) =
      save_pairs_bound x_pair 4 length-x_pair (bit_and encoding 0x1F) x_pairs 3
        (omega arith, (omega arith, (omega arith, (omega arith, (omega arith, tt)))))
        (omega arith) in
    let (ds, last) =
      save_pairs_bound d_pair 6 length-d_pair (bit_and (encoding / 2 ^ 8) 0xF) d_pairs x.1
        (omega arith, (omega arith, (omega arith, (omega arith, tt)))) (omega arith) in
    omega (arith, length-append x.0 d.0)

pub length-frameless_cfi : (encoding : ℕ) → length (frameless_cfi encoding) ≤ 52
unfolding frameless_cfi
length-frameless_cfi encoding =
    let stack = bit_and encoding 0xFFF000 / 2 ^ 12 * 16 in
    let one = uleb128_short 1 (omega arith) in
    let tail : List ℕ = if leb 8 stack then bit_or 0x80 30 ∷ ehf_uleb128 1 else [] in
    let tail_size : length tail ≤ 2 = rw one (ground arith) in
    let all = length-append (ehf_uleb128 stack) tail in
    let size = length-uleb128_from 10 stack in ground arith

pub length-fde_head :
    (position cie func_addr func_size lsda : ℕ)
    → length (fde_head position cie func_addr func_size lsda) ≤ 29
length-fde_head position cie func_addr func_size lsda =
    let zero_byte = uleb128_short 0 (omega arith) in
    let eight = uleb128_short 8 (omega arith) in
    rw (zero_byte, eight)
      (ground (
        arith,
        length-append (ehf_uint 4 (position - cie)) (
            ehf_uint 8 func_addr
            ++ (ehf_uint 8 func_size ++ (if not (lsda == 0) then 8 ∷ ehf_uint 8 lsda else 0 ∷ []))),
        length-append (ehf_uint 8 func_addr)
            (ehf_uint 8 func_size ++ (if not (lsda == 0) then 8 ∷ ehf_uint 8 lsda else 0 ∷ [])),
        length-append (ehf_uint 8 func_size)
            (if not (lsda == 0) then 8 ∷ ehf_uint 8 lsda else 0 ∷ []),
        length-ehf_uint 4 (position - cie),
        length-ehf_uint 8 func_addr,
        length-ehf_uint 8 func_size,
        length-ehf_uint 8 lsda,
      ))
