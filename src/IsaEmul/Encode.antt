-- ===== src/IsaEmul/Encode.antt =====
-- The encoders of isa_emul.c and arm64_enc.h. A register is a number below 32.
use machismo_sword.Base.{ℕ, ◌-◌, ◌%◌, ◌^◌, Bool, bit_and, bit_or, ◌==◌, if◌then◌else◌}
use machismo_sword.Base.Bits.{◌<<<◌}
use machismo_sword.Base.Int.{ℤ, pos, negsuc}

-- The cast of an integer to `uint32_t`.
unfoldable pub word_of : ℤ → ℕ
word_of (pos n) = n % 2 ^ 32
word_of (negsuc n) = 2 ^ 32 - 1 - n % 2 ^ 32

-- The C condition on a flag that is 0 or 1.
abbrev pub flag : ℕ → Bool
flag b = if b == 0 then Bool.false else Bool.true

unfoldable pub enc_b : ℤ → ℕ
unfolding word_of
enc_b word_offset = bit_or 0x14000000 (bit_and (word_of word_offset) 0x03FFFFFF)

unfoldable pub enc_cbnz_w : ℕ → ℤ → ℕ
unfolding word_of
enc_cbnz_w rt word_offset =
    bit_or (bit_or 0x35000000 (bit_and (word_of word_offset) 0x7FFFF <<< 5)) rt

unfoldable pub enc_str_pre : ℕ → ℕ
enc_str_pre rt = bit_or 0xF81F0FE0 rt

unfoldable pub enc_ldr_post : ℕ → ℕ
enc_ldr_post rt = bit_or 0xF84107E0 rt

unfoldable pub enc_mrs_nzcv : ℕ → ℕ
enc_mrs_nzcv rt = bit_or 0xD53B4200 rt

unfoldable pub enc_msr_nzcv : ℕ → ℕ
enc_msr_nzcv rt = bit_or 0xD51B4200 rt

unfoldable pub enc_ldxr : ℕ → ℕ → ℕ → ℕ → ℕ
enc_ldxr size acquire rt rn =
    let base = if flag acquire then bit_or 0x08407C00 (1 <<< 15) else 0x08407C00 in
    bit_or (bit_or (bit_or base (size <<< 30)) (rn <<< 5)) rt

unfoldable pub enc_stxr : ℕ → ℕ → ℕ → ℕ → ℕ → ℕ
enc_stxr size release rs rt rn =
    let base = if flag release then bit_or 0x08007C00 (1 <<< 15) else 0x08007C00 in
    bit_or (bit_or (bit_or (bit_or base (size <<< 30)) (rs <<< 16)) (rn <<< 5)) rt

-- Three registers under an opcode.
unfoldable pub enc_three : ℕ → ℕ → ℕ → ℕ → ℕ
enc_three opcode rd rn rm = bit_or (bit_or (bit_or opcode (rm <<< 16)) (rn <<< 5)) rd

unfoldable pub enc_add : Bool → ℕ → ℕ → ℕ → ℕ
unfolding enc_three
enc_add is64 rd rn rm = enc_three (if is64 then 0x8B000000 else 0x0B000000) rd rn rm

unfoldable pub enc_bic : Bool → ℕ → ℕ → ℕ → ℕ
unfolding enc_three
enc_bic is64 rd rn rm = enc_three (if is64 then 0x8A200000 else 0x0A200000) rd rn rm

unfoldable pub enc_eor : Bool → ℕ → ℕ → ℕ → ℕ
unfolding enc_three
enc_eor is64 rd rn rm = enc_three (if is64 then 0xCA000000 else 0x4A000000) rd rn rm

unfoldable pub enc_orr : Bool → ℕ → ℕ → ℕ → ℕ
unfolding enc_three
enc_orr is64 rd rn rm = enc_three (if is64 then 0xAA000000 else 0x2A000000) rd rn rm

unfoldable pub enc_cmp : Bool → ℕ → ℕ → ℕ
unfolding enc_three
enc_cmp is64 rn rm = enc_three (if is64 then 0xEB000000 else 0x6B000000) 31 rn rm

unfoldable pub enc_csel : Bool → ℕ → ℕ → ℕ → ℕ → ℕ
enc_csel is64 rd rn rm cond =
    bit_or
      (bit_or (bit_or (bit_or (if is64 then 0x9A800000 else 0x1A800000) (rm <<< 16)) (cond <<< 12))
        (rn <<< 5))
      rd

unfoldable pub enc_mov : Bool → ℕ → ℕ → ℕ
unfolding enc_orr
enc_mov is64 rd rn = enc_orr is64 rd 31 rn

unfoldable pub enc_sxtb : ℕ → ℕ → ℕ
enc_sxtb rd rn = bit_or (bit_or 0x13001C00 (rn <<< 5)) rd

unfoldable pub enc_sxth : ℕ → ℕ → ℕ
enc_sxth rd rn = bit_or (bit_or 0x13003C00 (rn <<< 5)) rd

-- The condition codes.
abbrev pub cond_gt : ℕ
cond_gt = 0xC

abbrev pub cond_lt : ℕ
cond_lt = 0xB

abbrev pub cond_hi : ℕ
cond_hi = 0x8

abbrev pub cond_lo : ℕ
cond_lo = 0x3

abbrev pub cond_ne : ℕ
cond_ne = 0x1

-- The vector instructions of the islands for BCAX.
unfoldable pub enc_neon_bic : ℕ → ℕ → ℕ → ℕ
unfolding enc_three
enc_neon_bic vd vn vm = enc_three 0x4E601C00 vd vn vm

unfoldable pub enc_neon_eor : ℕ → ℕ → ℕ → ℕ
unfolding enc_three
enc_neon_eor vd vn vm = enc_three 0x6E201C00 vd vn vm

unfoldable pub enc_str_q_pre : ℕ → ℕ
enc_str_q_pre vt = bit_or 0x3C9F0FE0 vt

unfoldable pub enc_ldr_q_post : ℕ → ℕ
enc_ldr_q_post vt = bit_or 0x3CC107E0 vt
