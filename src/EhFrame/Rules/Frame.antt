-- ===== src/EhFrame/Rules/Frame.antt =====
-- The unwind row of a FRAME function, from its compact encoding.
use mathlib.Core.List.{append_assoc, append-nil}
use machismo_sword.Base.{
  ℕ, zero, suc, ◌+◌, ◌-◌, ◌*◌, ◌/◌, ◌^◌, ◌≤◌, ◌≡◌, refl, sym, ap, ap₂, ◌∙◌, inl, inr, not, bit_and,
  some, List, [], ◌∷◌, ◌++◌, length, replicate, ◌==◌, if◌then◌else◌, arith, Bool-cases,
}
use machismo_sword.Base.Bits.{bit_at, bit_at-and, bit_at-le, any-bit_at}
use machismo_sword.EhFrame.{uleb128_from, uleb128_read}
use machismo_sword.EhFrame.Emit.{x_pair, d_pair, x_pairs, d_pairs, save_pairs, frame_cfi}
use machismo_sword.EhFrame.Rules.{
  Row, execute, slots, chosen_regs, grown, x_pair-run, d_pair-run, save_pairs-slot, save_pairs-run,
}

-- A pair of registers, if the bit of the encoding is set.
abbrev pub pair_at : ℕ → ℕ → ℕ → List ℕ
pair_at bit reg bits = if bit_at bit bits == 1 then reg ∷ (reg + 1) ∷ [] else []

-- The registers that a FRAME function saves, in the order of their places below the CFA: LR, FP,
-- the pairs of general registers of bits 0 to 4 and those of floating-point registers of bits 8
-- to 11.
abbrev pub saved_regs : ℕ → List ℕ
saved_regs encoding =
    30
    ∷ 29
    ∷ ((pair_at 0 19 encoding
          ++ (pair_at 1 21 encoding
              ++ (pair_at 2 23 encoding ++ (pair_at 3 25 encoding ++ pair_at 4 27 encoding))))
        ++ (pair_at 0 72 (encoding / 2 ^ 8)
            ++ (pair_at 1 74 (encoding / 2 ^ 8)
                ++ (pair_at 2 76 (encoding / 2 ^ 8) ++ pair_at 3 78 (encoding / 2 ^ 8)))))

-- The row of the CIE.
abbrev pub initial : Row
initial = record { cfa_register = 31; cfa_offset = 0; saved = [] }

execute_nops :
    (count fuel : ℕ) (row : Row) → count ≤ fuel → execute fuel (replicate count 0) row ≡ some row
unfolding execute
execute_nops zero fuel row h = refl
execute_nops (suc count) zero row h = absurd (omega arith)
execute_nops (suc count) (suc fuel) row h = execute_nops count fuel row (omega arith)

length-chosen_regs :
    (chosen : ℕ) (table : List (ℕ × ℕ)) → length (chosen_regs chosen table) ≤ 2 * length table
length-chosen_regs chosen [] = omega arith
length-chosen_regs chosen ((mask, reg) ∷ table) = ground (arith, length-chosen_regs chosen table)

-- The test of a mask with one bit, below a mask that keeps the bit.
kept_bit :
    (i bits mask : ℕ)
    → bit_at i mask ≡ 1
    → (bit_and (bit_and bits mask) (1 * 2 ^ i) == 0) ≡ not (bit_at i bits == 1)
kept_bit i bits mask h =
    let same : bit_at i (bit_and bits mask) ≡ bit_at i bits =
      omega (arith, bit_at-and i bits mask, bit_at-le i bits) in
    let test : not (bit_and (bit_and bits mask) (1 * 2 ^ i) == 0) ≡ (bit_at i bits == 1) =
      any-bit_at i (bit_and bits mask) ∙ ap (λ b. b == 1) same in
    ground (arith, test)

chosen_cons :
    (i bits mask reg : ℕ) (table : List (ℕ × ℕ)) (rest : List ℕ)
    → bit_at i mask ≡ 1
    → chosen_regs (bit_and bits mask) table ≡ rest
    → chosen_regs (bit_and bits mask) ((1 * 2 ^ i, reg) ∷ table) ≡ pair_at i reg bits ++ rest
chosen_cons i bits mask reg table rest h e = elim (Bool-cases (bit_at i bits == 1)) [
  | inl set ↦ rw (kept_bit i bits mask h, set, e) refl
  | inr clear ↦ rw (kept_bit i bits mask h, clear, e) refl
]

x_regs :
    (bits : ℕ)
    → chosen_regs (bit_and bits 0x1F) x_pairs
      ≡ pair_at 0 19 bits
        ++ (pair_at 1 21 bits ++ (pair_at 2 23 bits ++ (pair_at 3 25 bits ++ pair_at 4 27 bits)))
x_regs bits =
    chosen_cons 0 bits 0x1F 19 ((0x2, 21) ∷ (0x4, 23) ∷ (0x8, 25) ∷ (0x10, 27) ∷ []) _ refl (
      chosen_cons 1 bits 0x1F 21 ((0x4, 23) ∷ (0x8, 25) ∷ (0x10, 27) ∷ []) _ refl (
        chosen_cons 2 bits 0x1F 23 ((0x8, 25) ∷ (0x10, 27) ∷ []) _ refl (
          chosen_cons 3 bits 0x1F 25 ((0x10, 27) ∷ []) _ refl
            (chosen_cons 4 bits 0x1F 27 [] [] refl refl ∙ append-nil (pair_at 4 27 bits)))))

d_regs :
    (bits : ℕ)
    → chosen_regs (bit_and bits 0xF) d_pairs
      ≡ pair_at 0 72 bits ++ (pair_at 1 74 bits ++ (pair_at 2 76 bits ++ pair_at 3 78 bits))
d_regs bits = chosen_cons 0 bits 0xF 72 ((0x2, 74) ∷ (0x4, 76) ∷ (0x8, 78) ∷ []) _ refl (
    chosen_cons 1 bits 0xF 74 ((0x4, 76) ∷ (0x8, 78) ∷ []) _ refl (
      chosen_cons 2 bits 0xF 76 ((0x8, 78) ∷ []) _ refl
        (chosen_cons 3 bits 0xF 78 [] [] refl refl ∙ append-nil (pair_at 3 78 bits))))

slots-append :
    (slot k : ℕ) (xs ys : List ℕ)
    → k ≡ slot + length xs
    → slots slot (xs ++ ys) ≡ slots slot xs ++ slots k ys
slots-append slot k [] ys e = let same : slot ≡ k = omega arith in ap (λ j. slots j ys) same
slots-append slot k (x ∷ xs) ys e =
    ap (◌∷◌ (x, slot * 8)) (slots-append (slot + 1) k xs ys (omega arith))

-- The instructions before the pairs.
execute_prologue :
    (encoding fuel : ℕ) (s : List ℕ)
    → let x = save_pairs x_pair (bit_and encoding 0x1F) x_pairs 3 in
      let d = save_pairs d_pair (bit_and (encoding / 2 ^ 8) 0xF) d_pairs x.1 in
      execute (suc (suc (suc (suc fuel)))) (frame_cfi encoding ++ s) initial
      ≡ execute fuel
          ((x.0 ++ d.0) ++ s)
          (record { cfa_register = 29; cfa_offset = 16; saved = slots 1 (30 ∷ 29 ∷ []) })
unfolding execute frame_cfi uleb128_from uleb128_read
execute_prologue encoding fuel s = refl

-- Executed as DWARF defines them from the row of the CIE, the instructions of a FRAME function
-- and the nops behind them say that the frame address is FP + 16 and that LR, FP, the general
-- pairs of bits 0 to 4 and the floating-point pairs of bits 8 to 11 are saved in this order, one
-- below the other, from 8 bytes below it.
pub execute-frame_cfi :
    (encoding count fuel : ℕ)
    → 22 + count ≤ fuel
    → execute fuel (frame_cfi encoding ++ replicate count 0) initial
      ≡ some (record { cfa_register = 29; cfa_offset = 16; saved = slots 1 (saved_regs encoding) })
execute-frame_cfi encoding count fuel enough =
    let high = encoding / 2 ^ 8 in
    let xs = chosen_regs (bit_and encoding 0x1F) x_pairs in
    let ds = chosen_regs (bit_and high 0xF) d_pairs in
    let x = save_pairs x_pair (bit_and encoding 0x1F) x_pairs 3 in
    let d = save_pairs d_pair (bit_and high 0xF) d_pairs x.1 in
    let nops : List ℕ = replicate count 0 in
    let row : Row = record { cfa_register = 29; cfa_offset = 16; saved = slots 1 (30 ∷ 29 ∷ []) } in
    let x_few = length-chosen_regs (bit_and encoding 0x1F) x_pairs in
    let d_few = length-chosen_regs (bit_and high 0xF) d_pairs in
    let next = save_pairs-slot x_pair 63 x_pair-run (bit_and encoding 0x1F) x_pairs 3 in
    let third : ℕ = fuel - 4 - length xs - length ds in
    let second : ℕ = length ds + third in
    let first : ℕ = length xs + second in
    let whole : fuel ≡ suc (suc (suc (suc first))) = omega arith in
    ap (λ k. execute k (frame_cfi encoding ++ nops) initial) whole
    ∙ execute_prologue encoding first nops
    ∙ ap (λ t. execute first t row) (append_assoc x.0 d.0 nops)
    ∙ save_pairs-run x_pair 63 x_pair-run (bit_and encoding 0x1F) x_pairs 3 second first
        (d.0 ++ nops) row
        (omega arith, (omega arith, (omega arith, (omega arith, (omega arith, tt))))) (omega arith)
        refl
    ∙ save_pairs-run d_pair 100 d_pair-run (bit_and high 0xF) d_pairs x.1 third second nops
        (grown row (slots 3 xs)) (omega arith, (omega arith, (omega arith, (omega arith, tt))))
        (omega arith) refl
    ∙ execute_nops count third (grown (grown row (slots 3 xs)) (slots x.1 ds)) (omega arith)
    ∙ ap (λ l. some (record row { saved = l }))
        (ap (λ r. (30, 8) ∷ (29, 16) ∷ r) (sym (slots-append 3 x.1 xs ds next))
          ∙ ap (λ r. slots 1 (30 ∷ 29 ∷ r)) (ap₂ ◌++◌ (x_regs encoding) (d_regs high)))
