-- ===== src/EhFrame/Tests.antt =====
-- Runs of eh_frame.c.
use machismo_sword.Base.{
  ℕ, zero, suc, ◌-◌, ◌^◌, ◌≤◌, ◌<◌, ◌≡◌, refl, Bool, false, some, List, [], ◌∷◌, ◌++◌, length,
  replicate, ◌==◌, arith,
}
use machismo_sword.Base.Int.{negsuc}
use machismo_sword.ItemMenu.Memory.{Bytes, read_u32}
use machismo_sword.EhFrame.{
  ehf_uint, uleb128_from, sleb128_from, ehf_sleb128, read_uint, from, patch, padding, close_record,
}
use machismo_sword.EhFrame.Emit.{emit_cie, save_pairs, frame_cfi, emit_fde, emit_fde_frame}
use machismo_sword.EhFrame.Register.{
  Function, HdrEntry, emit_cies, build, capacity_for, walk_records, sort_and_size, sort_entries,
  insert_back, sizes_back,
}
use machismo_sword.EhFrame.Build.{placed}
use machismo_sword.EhFrame.Whole.{walk_records-build}
use machismo_sword.EhFrame.Capacity.{length-build-capacity_for}
use machismo_sword.EhFrame.Rules.{execute, slots}
use machismo_sword.EhFrame.Rules.Frame.{saved_regs, initial, execute-frame_cfi}
use machismo_sword.EhFrame.Sort.{Tiled, count, sort_and_size_lem}
use machismo_sword.EhFrame.Collect.{search_lsda}
use machismo_sword.EhFrame.Search.{function_at, lsda_at, search_lsda-finds}
use machismo_sword.EhFrame.Native.{parse_native, field, sleb128_read, eh_read_sleb128}
use machismo_sword.EhFrame.Native.Ends.{Plain, parse_native_ends}

cie_size : length (emit_cie 0 []) ≡ 24
unfolding emit_cie close_record patch padding ehf_uint uleb128_from sleb128_from
cie_size = refl

-- The largest record takes 88 bytes.
largest : length (emit_fde_frame 0 0x1000 64 0x44000F1F 0x2000 (emit_cie 0 [])) - 24 ≡ 88
unfolding emit_cie emit_fde close_record patch padding ehf_uint uleb128_from sleb128_from frame_cfi
    save_pairs
largest = refl

minus_eight : eh_read_sleb128 (ehf_sleb128 (negsuc 7)) ≡ (2 ^ 64 - 8, [])
unfolding sleb128_from sleb128_read
minus_eight = refl

abbrev frame_function : Function
frame_function = record {
  func_offset = 0x400;
  func_size = 0;
  encoding = 0x54000103;
  lsda_offset = 0x9000;
}

abbrev frameless_function : Function
frameless_function = record {
  func_offset = 0x100;
  func_size = 0;
  encoding = 0x02001000;
  lsda_offset = 0;
}

abbrev functions : List Function
functions = frame_function ∷ frameless_function ∷ []

walk_records-build_example :
    let cies = emit_cies (0 ∷ 0x7000 ∷ []) [] in
    walk_records 10 0x5000 (build 0x1000 (0x7000 ∷ []) functions) 0
    ≡ placed 0x5000 0x1000 cies.1 functions cies.0
walk_records-build_example =
    walk_records-build 0x5000 0x1000 (0x7000 ∷ []) functions 10 (omega arith) (omega arith)

length-build-capacity_for_example : length (build 0x1000 (0x7000 ∷ []) functions) ≤ capacity_for 2
length-build-capacity_for_example =
    length-build-capacity_for 0x1000 (0x7000 ∷ []) functions (omega arith) (omega arith)

execute-frame_cfi_example :
    execute 30 (frame_cfi 0x54000103 ++ replicate 3 0) initial
    ≡ some (record { cfa_register = 29; cfa_offset = 16; saved = slots 1 (saved_regs 0x54000103) })
execute-frame_cfi_example = execute-frame_cfi 0x54000103 3 30 (omega arith)

-- The registers of that encoding.
saves : saved_regs 0x54000103 ≡ 30 ∷ 29 ∷ 19 ∷ 20 ∷ 21 ∷ 22 ∷ 72 ∷ 73 ∷ []
saves = refl

abbrev without_lsda : ℕ → ℕ → ℕ → Bool
without_lsda offset encoding lsda = lsda == 0

sorts :
    sort_and_size functions
    ≡ record frameless_function { func_size = 0x300 }
      ∷ record frame_function { func_size = 256 }
      ∷ []
unfolding sort_entries insert_back sizes_back
sorts = refl

sort_and_size_lem_example :
    Tiled (sort_and_size functions)
    × (count without_lsda (sort_and_size functions) ≡ count without_lsda functions)
sort_and_size_lem_example =
    sort_and_size_lem functions without_lsda (omega arith, (omega arith, tt))

-- A memory in which the byte at an address is the address.
abbrev ramp : Bytes
ramp a = a

rises : (i j : ℕ) → i < j → j < 3 → function_at ramp 16 i < function_at ramp 16 j
unfolding read_u32
rises i j h k = omega arith

search_lsda-finds_example : search_lsda ramp 16 (function_at ramp 16 2) 4 0 3 ≡ lsda_at ramp 16 2
search_lsda-finds_example = search_lsda-finds ramp 16 3 rises 2 (omega arith)

-- Bytes below 255 are no extended size.
abbrev Low : List ℕ → Type 0
Low [] = Unit {0}
Low (c ∷ s) = (c < 255) × Low s

from-Low : (n : ℕ) (s : List ℕ) → Low s → Low (from n s)
unfolding from
from-Low zero s h = h
from-Low (suc n) [] h = h
from-Low (suc n) (c ∷ s) (h, hs) = from-Low n s hs

four_bytes : (s : List ℕ) → Low s → (read_uint 4 s == 0xFFFFFFFF) ≡ false
unfolding read_uint
four_bytes [] h = refl
four_bytes (a ∷ []) (ha, h) = ground arith
four_bytes (a ∷ b ∷ []) (ha, (hb, h)) = ground arith
four_bytes (a ∷ b ∷ c ∷ []) (ha, (hb, (hc, h))) = ground arith
four_bytes (a ∷ b ∷ c ∷ d ∷ s) (ha, (hb, (hc, (hd, h)))) = ground arith

-- A record of four bytes and the end.
abbrev section : List ℕ
section = 4 ∷ 0 ∷ 0 ∷ 0 ∷ 0 ∷ 0 ∷ 0 ∷ 0 ∷ 0 ∷ 0 ∷ 0 ∷ 0 ∷ []

short : (position : ℕ) → (field 4 position section == 0xFFFFFFFF) ≡ false
short position =
    let low : Low section = (
      omega arith,
      (
        omega arith,
        (
          omega arith,
          (
            omega arith,
            (
              omega arith,
              (
                omega arith,
                (
                  omega arith,
                  (omega arith, (omega arith, (omega arith, (omega arith, (omega arith, tt))))),
                ),
              ),
            ),
          ),
        ),
      ),
    ) in
    four_bytes (from position section) (from-Low position section low)

plain : (position : ℕ) → Plain 0x5000 (λ a. 0) section position
plain position extended = let other = short position in cc

parse_native_ends_example :
    (es : List HdrEntry) × (parse_native 0x5000 (λ a. 0) section 13 0 ≡ some es)
parse_native_ends_example =
    parse_native_ends 0x5000 (λ a. 0) section plain 13 0 (omega arith) (omega arith)
