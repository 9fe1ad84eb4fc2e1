-- ===== src/EhFrame/Rules.antt =====
-- What the instructions that src/eh_frame.c emits for a FRAME function mean to an unwinder.
pub mod Frame
use mathlib.Core.List.{append_assoc, append-nil}
use machismo_sword.Base.{
  ℕ, zero, suc, ◌+◌, ◌-◌, ◌*◌, ◌/◌, ◌%◌, ◌^◌, ◌≤◌, ◌<◌, ◌≡◌, refl, sym, ap, ◌∙◌, inl, inr, Bool,
  true, false, not, bit_and, bit_or, Option, none, some, List, [], ◌∷◌, ◌++◌, length, length-append,
  replicate, ltb, ◌==◌, if◌then◌else◌, arith, Bool-cases,
}
use machismo_sword.Base.Bits.{bit_at, bit_at-and, bit_at-le, any-bit_at, or-field}
use machismo_sword.EhFrame.{uleb128_from, ehf_uleb128, eh_read_uleb128}
use machismo_sword.EhFrame.Emit.{x_pair, d_pair, x_pairs, d_pairs, save_pairs, frame_cfi}
use machismo_sword.EhFrame.Leb.{uleb128-read}

-- The rules of an unwind row: the canonical frame address is a register plus an offset, and each
-- saved register lies so many bytes below it.
pub record Row : Type 0 where
  pub cfa_register : ℕ
  pub cfa_offset : ℕ
  pub saved : List (ℕ × ℕ)

abbrev pub save : ℕ → ℕ → Row → Row
save reg slot row = record row { saved = row.saved ++ ((reg, slot * 8) ∷ []) }

-- The instructions as DWARF defines them, with the data alignment -8; `none` is an unknown one.
pub execute : ℕ → List ℕ → Row → Option Row
execute fuel [] row = some row
execute zero (op ∷ s) row = none
execute (suc fuel) (op ∷ s) row =
    let first = eh_read_uleb128 s in
    let second = eh_read_uleb128 first.1 in
    let nop = execute fuel s row in
    let offset = execute fuel first.1 (save (op % 64) first.0 row) in
    let extended = execute fuel second.1 (save first.0 second.0 row) in
    let def_cfa =
      execute fuel second.1 (record row { cfa_register = first.0; cfa_offset = second.0 }) in
    let def_cfa_offset = execute fuel first.1 (record row { cfa_offset = first.0 }) in
    if op / 64 == 1
    then nop
    else if op / 64 == 2
    then offset
    else if op == 0
    then nop
    else if op == 0x05
    then extended
    else if op == 0x0C
    then def_cfa
    else if op == 0x0E
    then def_cfa_offset
    else none

-- Registers that are saved one below the other from a slot on.
abbrev pub slots : ℕ → List ℕ → List (ℕ × ℕ)
slots slot [] = []
slots slot (reg ∷ regs) = (reg, slot * 8) ∷ slots (slot + 1) regs

-- The registers of the chosen pairs of a table.
abbrev pub chosen_regs : ℕ → List (ℕ × ℕ) → List ℕ
chosen_regs chosen [] = []
chosen_regs chosen ((mask, reg) ∷ table) =
    if bit_and chosen mask == 0
    then chosen_regs chosen table
    else reg ∷ (reg + 1) ∷ chosen_regs chosen table

execute_offset :
    (fuel reg slot : ℕ) (s : List ℕ) (row : Row)
    → reg < 64
    → slot < 128
    → execute (suc fuel) (bit_or 0x80 reg ∷ (ehf_uleb128 slot ++ s)) row
      ≡ execute fuel s (save reg slot row)
unfolding execute
execute_offset fuel reg slot s row r h =
    let op : bit_or 0x80 reg ≡ 128 + reg = or-field 7 1 reg (omega arith) in
    let high : (128 + reg) / 64 ≡ 2 = omega arith in
    let low : (128 + reg) % 64 ≡ reg = omega arith in
    rw (op, high, low, uleb128-read slot s (omega arith)) refl

execute_extended :
    (fuel reg slot : ℕ) (s : List ℕ) (row : Row)
    → reg < 128
    → slot < 128
    → execute (suc fuel) (0x05 ∷ (ehf_uleb128 reg ++ (ehf_uleb128 slot ++ s))) row
      ≡ execute fuel s (save reg slot row)
unfolding execute
execute_extended fuel reg slot s row r h =
    rw (uleb128-read reg (ehf_uleb128 slot ++ s) (omega arith), uleb128-read slot s (omega arith))
      refl

abbrev pub grown : Row → List (ℕ × ℕ) → Row
grown row more = record row { saved = row.saved ++ more }

pub x_pair-run :
    (fuel reg slot : ℕ) (s : List ℕ) (row : Row)
    → reg < 63
    → slot < 100
    → execute (suc (suc fuel)) (x_pair reg slot ++ s) row
      ≡ execute fuel s (save (reg + 1) (slot + 1) (save reg slot row))
x_pair-run fuel reg slot s row r h =
    ap (λ t. execute (suc (suc fuel)) (bit_or 0x80 reg ∷ t) row)
      (append_assoc (ehf_uleb128 slot) (bit_or 0x80 (reg + 1) ∷ ehf_uleb128 (slot + 1)) s)
    ∙ execute_offset (suc fuel) reg slot (bit_or 0x80 (reg + 1) ∷ (ehf_uleb128 (slot + 1) ++ s)) row
        (omega arith) (omega arith)
    ∙ execute_offset fuel (reg + 1) (slot + 1) s (save reg slot row) (omega arith) (omega arith)

pub d_pair-run :
    (fuel reg slot : ℕ) (s : List ℕ) (row : Row)
    → reg < 100
    → slot < 100
    → execute (suc (suc fuel)) (d_pair reg slot ++ s) row
      ≡ execute fuel s (save (reg + 1) (slot + 1) (save reg slot row))
d_pair-run fuel reg slot s row r h =
    ap (λ t. execute (suc (suc fuel)) (0x05 ∷ t) row)
      (append_assoc (ehf_uleb128 reg)
          (ehf_uleb128 slot ++ (0x05 ∷ (ehf_uleb128 (reg + 1) ++ ehf_uleb128 (slot + 1)))) s
        ∙ ap (◌++◌ (ehf_uleb128 reg)) (
            append_assoc (ehf_uleb128 slot)
              (0x05 ∷ (ehf_uleb128 (reg + 1) ++ ehf_uleb128 (slot + 1))) s
            ∙ ap (λ t. ehf_uleb128 slot ++ (0x05 ∷ t))
                (append_assoc (ehf_uleb128 (reg + 1)) (ehf_uleb128 (slot + 1)) s)))
    ∙ execute_extended (suc fuel) reg slot
        (0x05 ∷ (ehf_uleb128 (reg + 1) ++ (ehf_uleb128 (slot + 1) ++ s))) row (omega arith)
        (omega arith)
    ∙ execute_extended fuel (reg + 1) (slot + 1) s (save reg slot row) (omega arith) (omega arith)

abbrev pub Under : ℕ → List (ℕ × ℕ) → Type 0
Under limit [] = Unit {0}
Under limit ((mask, reg) ∷ table) = (reg < limit) × Under limit table

grown_pair :
    (row : Row) (reg slot : ℕ) (regs : List ℕ)
    → grown (save (reg + 1) (slot + 1) (save reg slot row)) (slots (slot + 2) regs)
      ≡ grown row (slots slot (reg ∷ (reg + 1) ∷ regs))
grown_pair row reg slot regs =
    let two : slot + 2 ≡ slot + 1 + 1 = omega arith in
    ap (λ l. record row { saved = l })
      (ap
          (λ k.
            ((row.saved ++ ((reg, slot * 8) ∷ [])) ++ ((reg + 1, (slot + 1) * 8) ∷ []))
            ++ slots k regs)
          two
        ∙ append_assoc (row.saved ++ ((reg, slot * 8) ∷ [])) ((reg + 1, (slot + 1) * 8) ∷ [])
            (slots (slot + 1 + 1) regs)
        ∙ append_assoc row.saved ((reg, slot * 8) ∷ [])
            ((reg + 1, (slot + 1) * 8) ∷ slots (slot + 1 + 1) regs))

grown_nil : (row : Row) → grown row [] ≡ row
grown_nil row = ap (λ l. record row { saved = l }) (append-nil row.saved)

module _ (pair : ℕ → ℕ → List ℕ) (limit : ℕ)
    (pair_run : (fuel reg slot : ℕ) (s : List ℕ) (row : Row)
      → reg < limit
      → slot < 100
      → execute (suc (suc fuel)) (pair reg slot ++ s) row
        ≡ execute fuel s (save (reg + 1) (slot + 1) (save reg slot row))) where
  pub save_pairs-slot :
      (chosen : ℕ) (table : List (ℕ × ℕ)) (slot : ℕ)
      → (save_pairs pair chosen table slot).1 ≡ slot + length (chosen_regs chosen table)
  unfolding save_pairs
  save_pairs-slot chosen [] slot = omega arith
  save_pairs-slot chosen ((mask, reg) ∷ table) slot =
      ground (arith, save_pairs-slot chosen table slot, save_pairs-slot chosen table (slot + 2))

  pub save_pairs-run :
      (chosen : ℕ) (table : List (ℕ × ℕ)) (slot fuel m : ℕ) (s : List ℕ) (row : Row)
      → Under limit table
      → slot + 2 * length table < 100
      → m ≡ length (chosen_regs chosen table) + fuel
      → execute m ((save_pairs pair chosen table slot).0 ++ s) row
        ≡ execute fuel s (grown row (slots slot (chosen_regs chosen table)))
  unfolding save_pairs
  save_pairs-run chosen [] slot fuel m s row under room e =
      let same : m ≡ fuel = omega arith in
      ap (λ k. execute k s row) same ∙ ap (execute fuel s) (sym (grown_nil row))
  save_pairs-run chosen ((mask, reg) ∷ table) slot fuel m s row (u, us) room e =
      elim (Bool-cases (bit_and chosen mask == 0)) [
        | inl out ↦
            let e' : m ≡ length (chosen_regs chosen table) + fuel = rw out at e in
            rw out (save_pairs-run chosen table slot fuel m s row us (omega arith) e')
        | inr chosen_pair ↦
            let regs = chosen_regs chosen table in
            let e' : m ≡ suc (suc (length regs)) + fuel = rw chosen_pair at e in
            let m' : ℕ = length regs + fuel in
            let two : m ≡ suc (suc m') = omega arith in
            let more = (save_pairs pair chosen table (slot + 2)).0 in
            rw chosen_pair (
              ap (λ k. execute k ((pair reg slot ++ more) ++ s) row) two
              ∙ ap (λ t. execute (suc (suc m')) t row) (append_assoc (pair reg slot) more s)
              ∙ pair_run m' reg slot (more ++ s) row u (omega arith)
              ∙ save_pairs-run chosen table (slot + 2) fuel m' s
                  (save (reg + 1) (slot + 1) (save reg slot row)) us (omega arith) refl
              ∙ ap (execute fuel s) (grown_pair row reg slot regs))
      ]
