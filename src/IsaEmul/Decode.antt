-- ===== src/IsaEmul/Decode.antt =====
-- `decode_lse` and `decode_bcax` of isa_emul.c.
use machismo_sword.Base.{ℕ, Option, none, some, bit_and, ◌==◌, if◌then◌else◌}
use machismo_sword.Base.Bits.{◌>>>◌}

-- `enum lse_op`.
pub data LseOp : Type 0 where
  ldadd ldclr ldeor ldset ldsmax ldsmin ldumax ldumin swp cas nothing : LseOp

-- `struct lse_decoded`.
pub record Decoded : Type 0 where
  pub op : LseOp
  pub size : ℕ
  pub acquire : ℕ
  pub release : ℕ
  pub rs : ℕ
  pub rt : ℕ
  pub rn : ℕ

-- The switch on `opc`, which is below 8.
unfoldable pub lse_op : ℕ → LseOp
lse_op opc =
    if opc == 0
    then LseOp.ldadd
    else if opc == 1
    then LseOp.ldclr
    else if opc == 2
    then LseOp.ldeor
    else if opc == 3
    then LseOp.ldset
    else if opc == 4
    then LseOp.ldsmax
    else if opc == 5
    then LseOp.ldsmin
    else if opc == 6
    then LseOp.ldumax
    else if opc == 7
    then LseOp.ldumin
    else LseOp.nothing

-- `decode_lse`; `none` where it returns 0.
unfoldable pub decode_lse : ℕ → Option Decoded
decode_lse instr =
    if bit_and instr 0x3F200C00 == 0x38200000
    then some (record {
      op = if bit_and (instr >>> 15) 1 == 1 then LseOp.swp else lse_op (bit_and (instr >>> 12) 7);
      size = bit_and (instr >>> 30) 3;
      acquire = bit_and (instr >>> 23) 1;
      release = bit_and (instr >>> 22) 1;
      rs = bit_and (instr >>> 16) 0x1F;
      rt = bit_and instr 0x1F;
      rn = bit_and (instr >>> 5) 0x1F;
    })
    else if bit_and instr 0x3FA07C00 == 0x08A07C00
    then some (record {
      op = LseOp.cas;
      size = bit_and (instr >>> 30) 3;
      acquire = bit_and (instr >>> 23) 1;
      release = bit_and (instr >>> 15) 1;
      rs = bit_and (instr >>> 16) 0x1F;
      rt = bit_and instr 0x1F;
      rn = bit_and (instr >>> 5) 0x1F;
    })
    else none

-- The operands of a BCAX.
pub record Bcax : Type 0 where
  pub vd : ℕ
  pub vn : ℕ
  pub vm : ℕ
  pub va : ℕ

-- `decode_bcax`.
unfoldable pub decode_bcax : ℕ → Option Bcax
decode_bcax instr =
    if bit_and instr 0xFFE08000 == 0xCE200000
    then some (record {
      vd = bit_and instr 0x1F;
      vn = bit_and (instr >>> 5) 0x1F;
      va = bit_and (instr >>> 10) 0x1F;
      vm = bit_and (instr >>> 16) 0x1F;
    })
    else none
