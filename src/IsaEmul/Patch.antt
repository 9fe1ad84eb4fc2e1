-- ===== src/IsaEmul/Patch.antt =====
-- `isa_emul_patch` of isa_emul.c over one memory of words, which holds the code and the pool.
use machismo_sword.Base.{
  ℕ, zero, suc, ◌+◌, ◌==◌, Bool, ◌||◌, Option, none, some, List, [], ◌∷◌, length, ltb,
  if◌then◌else◌,
}
use machismo_sword.Base.Int.{pos, negsuc, sub_ℕ, ltb_ℤ}
use machismo_sword.IsaEmul.Encode.{enc_b}
use machismo_sword.IsaEmul.Decode.{decode_lse, decode_bcax}
use machismo_sword.IsaEmul.Island.{emit_island, emit_bcax_island}

-- The memory, the next free word of the pool and the number of patches.
pub record Patcher : Type 0 where
  pub memory : ℕ → ℕ
  pub island : ℕ
  pub patched : ℕ

abbrev pub store : (ℕ → ℕ) → ℕ → ℕ → ℕ → ℕ
store memory at word j = if at == j then word else memory j

-- The words of an island, written from `at` on.
unfoldable pub store_words : (ℕ → ℕ) → ℕ → List ℕ → ℕ → ℕ
store_words memory at [] = memory
store_words memory at (w ∷ ws) = store_words (store memory at w) (at + 1) ws

-- The test that an island is out of reach of a branch.
unfoldable pub out_of_range : ℕ → ℕ → Bool
out_of_range island at =
    let offset = sub_ℕ island at in
    ltb_ℤ (pos 0x01FFFFFF) offset || ltb_ℤ offset (negsuc 0x01FFFFFF)

-- Writing an island and the branch to it.
unfoldable pub redirect : Patcher → ℕ → List ℕ → Patcher
redirect p at words = if length words == 0 then p else record {
  memory = store (store_words p.memory p.island words) at (enc_b (sub_ℕ p.island at));
  island = p.island + length words;
  patched = p.patched + 1;
}

-- What one round of the loop does with a word that is to be replaced; `none` is the `break` when
-- the pool is used up.
unfoldable pub place : ℕ → ℕ → Patcher → ℕ → List ℕ → Option Patcher
place needed pool_end p at words =
    if ltb pool_end (p.island + needed)
    then none
    else if out_of_range p.island at
    then some p
    else some (redirect p at words)

-- One round of the loop at the word `at`.
unfoldable pub patch_word : ℕ → Patcher → ℕ → Option Patcher
patch_word pool_end p at = elim (decode_lse (p.memory at)) [
  | some d ↦ place 24 pool_end p at (emit_island d p.island at)
  | none ↦ elim (decode_bcax (p.memory at)) [
    | some b ↦ place 5 pool_end p at (emit_bcax_island b p.island at)
    | none ↦ some p
  ]
]

-- The loop over a number of words from `at` on.
unfoldable pub patch_from : ℕ → ℕ → ℕ → Patcher → Patcher
patch_from pool_end zero at p = p
patch_from pool_end (suc n) at p = elim (patch_word pool_end p at) [
  | none ↦ p
  | some p' ↦ patch_from pool_end n (at + 1) p'
]

-- `isa_emul_patch` on `count` words at `code`, with the free pool from `pool` to `pool_end`.
unfoldable pub isa_emul_patch : (ℕ → ℕ) → ℕ → ℕ → ℕ → ℕ → Patcher
isa_emul_patch memory code count pool pool_end =
    patch_from pool_end count code (record { memory = memory; island = pool; patched = 0 })
