-- ===== src/EhFrame/Emit.antt =====
-- The records of a synthetic .eh_frame in src/eh_frame.c: `emit_cie` and the three emitters of FDEs.
use machismo_sword.Base.{
  ℕ, ◌+◌, ◌-◌, ◌*◌, ◌/◌, ◌^◌, not, bit_and, bit_or, List, [], ◌∷◌, ◌++◌, length, ltb, leb, ◌==◌,
  if◌then◌else◌,
}
use machismo_sword.Base.Int.{negsuc}
use machismo_sword.EhFrame.{ehf_uint, ehf_uleb128, ehf_sleb128, close_record}

abbrev pub reg_fp : ℕ
reg_fp = 29

abbrev pub reg_lr : ℕ
reg_lr = 30

abbrev pub reg_sp : ℕ
reg_sp = 31

abbrev pub dw_cfa_advance_loc : ℕ
dw_cfa_advance_loc = 0x40

abbrev pub dw_cfa_offset : ℕ
dw_cfa_offset = 0x80

abbrev pub dw_cfa_offset_extended : ℕ
dw_cfa_offset_extended = 0x05

abbrev pub dw_cfa_def_cfa : ℕ
dw_cfa_def_cfa = 0x0C

abbrev pub dw_cfa_def_cfa_offset : ℕ
dw_cfa_def_cfa_offset = 0x0E

-- The augmentation and the code factors of a CIE.
abbrev pub cie_body : ℕ → List ℕ
cie_body personality =
    if not (personality == 0)
    then b'z' ∷ b'P' ∷ b'L' ∷ b'R' ∷ 0 ∷ []
      ++ ehf_uleb128 4
      ++ ehf_sleb128 (negsuc 7)
      ++ ehf_uleb128 reg_lr
      ++ ehf_uleb128 11
      ++ (0 ∷ ehf_uint 8 personality)
      ++ (0 ∷ 0 ∷ [])
    else b'z' ∷ b'R' ∷ 0 ∷ []
      ++ ehf_uleb128 4
      ++ ehf_sleb128 (negsuc 7)
      ++ ehf_uleb128 reg_lr
      ++ ehf_uleb128 1
      ++ (0 ∷ [])

-- `emit_cie` on the buffer; its result, the offset of the CIE, is the length of the buffer before.
unfoldable pub emit_cie : ℕ → List ℕ → List ℕ
unfolding close_record
emit_cie personality buf = close_record (length buf) (
    buf
    ++ (ehf_uint 4 0
        ++ (ehf_uint 4 0
            ++ (1
                ∷ (cie_body personality
                    ++ (dw_cfa_def_cfa ∷ (ehf_uleb128 reg_sp ++ ehf_uleb128 0)))))))

-- The fields of an FDE up to its instructions; `position` is that of the CIE pointer.
abbrev pub fde_head : ℕ → ℕ → ℕ → ℕ → ℕ → List ℕ
fde_head position cie func_addr func_size lsda =
    ehf_uint 4 (position - cie)
    ++ (ehf_uint 8 func_addr
        ++ (ehf_uint 8 func_size
            ++ (if not (lsda == 0) then ehf_uleb128 8 ++ ehf_uint 8 lsda else ehf_uleb128 0)))

-- A pair of general registers.
abbrev pub x_pair : ℕ → ℕ → List ℕ
x_pair reg slot =
    bit_or dw_cfa_offset reg
    ∷ (ehf_uleb128 slot ++ (bit_or dw_cfa_offset (reg + 1) ∷ ehf_uleb128 (slot + 1)))

-- A pair of floating-point registers.
abbrev pub d_pair : ℕ → ℕ → List ℕ
d_pair reg slot =
    dw_cfa_offset_extended
    ∷ (ehf_uleb128 reg
        ++ (ehf_uleb128 slot
            ++ (dw_cfa_offset_extended ∷ (ehf_uleb128 (reg + 1) ++ ehf_uleb128 (slot + 1)))))

-- The masks and first registers of the pairs.
abbrev pub x_pairs : List (ℕ × ℕ)
x_pairs = (0x1, 19) ∷ (0x2, 21) ∷ (0x4, 23) ∷ (0x8, 25) ∷ (0x10, 27) ∷ []

abbrev pub d_pairs : List (ℕ × ℕ)
d_pairs = (0x1, 72) ∷ (0x2, 74) ∷ (0x4, 76) ∷ (0x8, 78) ∷ []

-- The conditional emission of pairs: the bytes, and the next slot.
unfoldable pub save_pairs : (ℕ → ℕ → List ℕ) → ℕ → List (ℕ × ℕ) → ℕ → List ℕ × ℕ
save_pairs pair chosen [] slot = ([], slot)
save_pairs pair chosen ((mask, reg) ∷ table) slot =
    let skipped = save_pairs pair chosen table slot in
    let rest = save_pairs pair chosen table (slot + 2) in
    if bit_and chosen mask == 0 then skipped else (pair reg slot ++ rest.0, rest.1)

-- The instructions of a FRAME function.
unfoldable pub frame_cfi : ℕ → List ℕ
unfolding save_pairs
frame_cfi encoding =
    let x = save_pairs x_pair (bit_and encoding 0x1F) x_pairs 3 in
    let d = save_pairs d_pair (bit_and (encoding / 2 ^ 8) 0xF) d_pairs x.1 in
    bit_or dw_cfa_advance_loc 1
    ∷ (dw_cfa_def_cfa
        ∷ (ehf_uleb128 reg_fp
            ++ (ehf_uleb128 16
                ++ (bit_or dw_cfa_offset reg_lr
                    ∷ (ehf_uleb128 1
                        ++ (bit_or dw_cfa_offset reg_fp ∷ (ehf_uleb128 2 ++ (x.0 ++ d.0))))))))

-- The instructions of a FRAMELESS function.
unfoldable pub frameless_cfi : ℕ → List ℕ
frameless_cfi encoding =
    let stack_size = bit_and encoding 0xFFF000 / 2 ^ 12 * 16 in
    if ltb 0 stack_size
    then bit_or dw_cfa_advance_loc 1
      ∷ (dw_cfa_def_cfa_offset
          ∷ (ehf_uleb128 stack_size
              ++ (if leb 8 stack_size then bit_or dw_cfa_offset reg_lr ∷ ehf_uleb128 1 else [])))
    else []

-- An FDE with its instructions.
unfoldable pub emit_fde : List ℕ → ℕ → ℕ → ℕ → ℕ → List ℕ → List ℕ
unfolding close_record
emit_fde cfi cie func_addr func_size lsda buf =
    close_record (length buf)
      (buf ++ (ehf_uint 4 0 ++ (fde_head (length buf + 4) cie func_addr func_size lsda ++ cfi)))

-- `emit_fde_frame`, `emit_fde_frameless` and `emit_fde_minimal`.
abbrev pub emit_fde_frame : ℕ → ℕ → ℕ → ℕ → ℕ → List ℕ → List ℕ
emit_fde_frame cie func_addr func_size encoding lsda =
    emit_fde (frame_cfi encoding) cie func_addr func_size lsda

abbrev pub emit_fde_frameless : ℕ → ℕ → ℕ → ℕ → ℕ → List ℕ → List ℕ
emit_fde_frameless cie func_addr func_size encoding lsda =
    emit_fde (frameless_cfi encoding) cie func_addr func_size lsda

abbrev pub emit_fde_minimal : ℕ → ℕ → ℕ → ℕ → List ℕ → List ℕ
emit_fde_minimal cie func_addr func_size lsda = emit_fde [] cie func_addr func_size lsda
