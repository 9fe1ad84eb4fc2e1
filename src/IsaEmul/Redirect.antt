-- ===== src/IsaEmul/Redirect.antt =====
-- What `isa_emul_patch` leaves behind: every word of the code is as it was, or branches to an island
-- of the pool that was made for it, and nothing else is touched.
pub mod Run
use native.Mathlib.Decide.{dec_lt}
use machismo_sword.Base.{
  ℕ, zero, suc, ◌+◌, ◌≤◌, ◌<◌, ◌≡◌, ◌≢◌, ◌⊎◌, inl, inr, refl, sym, ap, ◌∙◌, subst, true, false,
  Option, none, some, List, [], ◌∷◌, arith, length, get_or, ltb, ◌==◌, Bool-cases, Option-cases,
}
use machismo_sword.Base.Int.{sub_ℕ}
use machismo_sword.IsaEmul.Encode.{enc_b}
use machismo_sword.IsaEmul.Decode.{Decoded, decode_lse, Bcax, decode_bcax}
use machismo_sword.IsaEmul.Island.{emit_island, emit_bcax_island}
use machismo_sword.IsaEmul.Patch.{
  Patcher, store, store_words, out_of_range, redirect, place, patch_word, patch_from,
  isa_emul_patch,
}
use machismo_sword.IsaEmul.Branch.{Near}
use machismo_sword.IsaEmul.Length.{length-emit_island, length-emit_bcax_island}

pub store_words-outside :
    (memory : ℕ → ℕ) (at : ℕ) (ws : List ℕ) (j : ℕ)
    → (j < at) ⊎ (at + length ws ≤ j)
    → store_words memory at ws j ≡ memory j
unfolding store_words
store_words-outside memory at [] j h = refl
store_words-outside memory at (w ∷ ws) j h =
    store_words-outside (store memory at w) (at + 1) ws j (ground arith) ∙ ground arith

pub store_words-inside :
    (memory : ℕ → ℕ) (at : ℕ) (ws : List ℕ) (i : ℕ)
    → i < length ws
    → store_words memory at ws (at + i) ≡ get_or ws i 0
unfolding store_words
store_words-inside memory at [] i h = absurd (omega arith)
store_words-inside memory at (w ∷ ws) zero h =
    store_words-outside (store memory at w) (at + 1) ws (at + 0) (inl (omega arith)) ∙ ground arith
store_words-inside memory at (w ∷ ws) (suc i) h =
    ap (store_words (store memory at w) (at + 1) ws) {x = at + suc i} {y = at + 1 + i} (omega arith)
    ∙ store_words-inside (store memory at w) (at + 1) ws i (omega arith)

pub Near-of_range : (island at : ℕ) → out_of_range island at ≡ false → Near (sub_ℕ island at)
unfolding out_of_range
Near-of_range island at h = ground arith

-- The words of an island that stands for a word of code.
abbrev pub Replaces : ℕ → ℕ → ℕ → List ℕ → Type 0
Replaces word island at words =
    ((d : Decoded) × (decode_lse word ≡ some d) × (words ≡ emit_island d island at))
    ⊎ ((b : Bcax) × (decode_lse word ≡ none)
        × (decode_bcax word ≡ some b)
        × (words ≡ emit_bcax_island b island at))

-- A word of code branches to an island that was made for it.
pub record Redirected (before memory : ℕ → ℕ) (pool top at : ℕ) : Type 0 where
  pub island : ℕ
  pub words : List ℕ
  pub made : Replaces (before at) island at words
  pub above : pool ≤ island
  pub below : island + length words ≤ top
  pub near : Near (sub_ℕ island at)
  pub branch : memory at ≡ enc_b (sub_ℕ island at)
  pub stored : (m : ℕ) → m < length words → memory (island + m) ≡ get_or words m 0

-- Why a word is left alone: it is none to replace, its island would have been out of reach, or the
-- pool had no room for one more island.
abbrev pub Spared : ℕ → ℕ → ℕ → ℕ → ℕ → Type 0
Spared word pool pool_end top at =
    ((decode_lse word ≡ none) × (decode_bcax word ≡ none))
    ⊎ ((k : ℕ) × (pool ≤ k) × (k ≤ top) × (out_of_range k at ≡ true))
    ⊎ (pool_end < top + 24)

abbrev pub Done : (before memory : ℕ → ℕ) → ℕ → ℕ → ℕ → ℕ → Type 0
Done before memory pool pool_end top at =
    ((memory at ≡ before at) × Spared (before at) pool pool_end top at)
    ⊎ Redirected before memory pool top at

-- What a run over `count` words at `code` leaves behind.
pub record Patched (before : ℕ → ℕ) (code count pool pool_end : ℕ) (p : Patcher) : Type 0 where
  pub low : pool ≤ p.island
  pub high : p.island ≤ pool_end
  pub elsewhere :
      (j : ℕ)
      → (j < code) ⊎ (code + count ≤ j)
      → (j < pool) ⊎ (p.island ≤ j)
      → p.memory j ≡ before j
  pub each : (j : ℕ) → code ≤ j → j < code + count → Done before p.memory pool pool_end p.island j

Spared-later :
    (word pool pool_end top top' at : ℕ)
    → top ≤ top'
    → Spared word pool pool_end top at
    → Spared word pool pool_end top' at
Spared-later word pool pool_end top top' at h (inl s) = inl s
Spared-later word pool pool_end top top' at h (inr (inl (k, lo, hi, r))) =
    inr (inl (k, lo, omega arith, r))
Spared-later word pool pool_end top top' at h (inr (inr s)) = inr (inr (omega arith))

-- Done words stay done when the memory changes elsewhere.
pub Done-later :
    (before m m' : ℕ → ℕ) (pool pool_end top top' at : ℕ)
    → top ≤ top'
    → m' at ≡ m at
    → ((j : ℕ) → pool ≤ j → j < top → m' j ≡ m j)
    → Done before m pool pool_end top at
    → Done before m' pool pool_end top' at
Done-later before m m' pool pool_end top top' at h here there (inl (same, s)) =
    inl (here ∙ same, Spared-later (before at) pool pool_end top top' at h s)
Done-later before m m' pool pool_end top top' at h here there (inr r) = inr (record {
  island = r.island;
  words = r.words;
  made = r.made;
  above = r.above;
  below = omega (arith, r.below);
  near = r.near;
  branch = here ∙ r.branch;
  stored = λ i lt.
      there (r.island + i) (omega (arith, r.above)) (omega (arith, r.below)) ∙ r.stored i lt;
})
