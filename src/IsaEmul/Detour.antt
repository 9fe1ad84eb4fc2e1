-- ===== src/IsaEmul/Detour.antt =====
-- Control flow of patched code: from a replaced instruction to its island and back behind it.
use machismo_sword.Base.{
  ℕ, ◌+◌, ◌^◌, ◌≤◌, ◌<◌, ◌≡◌, ◌⊎◌, inl, inr, refl, sym, subst, List, [], ◌∷◌, ◌++◌, arith, length,
  get_or, length-append,
}
use machismo_sword.Base.Int.{pos, sub_ℕ}
use machismo_sword.IsaEmul.Encode.{enc_b}
use machismo_sword.IsaEmul.Island.{
  emit_island, emit_bcax_island, with_return, words_for, bcax_words,
}
use machismo_sword.IsaEmul.Patch.{isa_emul_patch}
use machismo_sword.IsaEmul.Branch.{Near, IsBranch, branch_target, enc_b-target}
use machismo_sword.IsaEmul.Length.{length-emit_island, length-emit_bcax_island}
use machismo_sword.IsaEmul.Redirect.Run.{isa_emul_patch-Patched}
use machismo_sword.IsaEmul.Redirect.{Replaces, Redirected, Spared}

get_or-last : (ws : List ℕ) (x : ℕ) → get_or (ws ++ (x ∷ [])) (length ws) 0 ≡ x
get_or-last [] x = refl
get_or-last (w ∷ ws) x = get_or-last ws x

-- The word is an unconditional branch that goes from one word to another.
abbrev pub Branches : ℕ → ℕ → ℕ → Type 0
Branches word at target = IsBranch word × (branch_target at word ≡ pos target)

-- The last word of an island branches to the word after the instruction, within reach.
Ends : List ℕ → ℕ → ℕ → Type 0
Ends words island at =
    (i : ℕ) × (i + 1 ≡ length words)
    × (Near (sub_ℕ (at + 1) (island + i)) → Branches (get_or words i 0) (island + i) (at + 1))

with_return-Ends : (ws : List ℕ) (island at : ℕ) → Ends (with_return ws island at) island at
unfolding Ends with_return
with_return-Ends ws island at = (
  length ws,
  omega (arith, length-append ws (enc_b (sub_ℕ (at + 1) (island + length ws)) ∷ [])),
  λ near.
      subst (λ (w : ℕ). Branches w (island + length ws) (at + 1)) (sym (get_or-last ws _))
        (enc_b-target (island + length ws) (at + 1) near),
)

Replaces-Ends :
    (word island at : ℕ) (words : List ℕ)
    → Replaces word island at words
    → Ends words island at × (3 ≤ length words) × (length words ≤ 19)
unfolding emit_island emit_bcax_island
Replaces-Ends word island at words (inl (d, e, made)) =
    subst (λ (ws : List ℕ). Ends ws island at × (3 ≤ length ws) × (length ws ≤ 19)) (sym made)
      (
        with_return-Ends (words_for d.op d) island at,
        (length-emit_island d island at).0,
        (length-emit_island d island at).1,
      )
Replaces-Ends word island at words (inr (b, e, f, made)) =
    subst (λ (ws : List ℕ). Ends ws island at × (3 ≤ length ws) × (length ws ≤ 19)) (sym made)
      (
        with_return-Ends (bcax_words b) island at,
        (length-emit_bcax_island b island at).0,
        omega (arith, length-emit_bcax_island b island at),
      )

-- The way round: at the instruction a branch to the first word of an island that was made for it
-- and stands in the pool, and at the island's last word a branch back behind the instruction.
abbrev pub Detour : (ℕ → ℕ) → (ℕ → ℕ) → ℕ → ℕ → ℕ → Type 0
Detour before memory pool top at =
    (r : Redirected before memory pool top at) × (i : ℕ) × (i + 1 ≡ length r.words)
    × Branches (memory at) at r.island
    × Branches (memory (r.island + i)) (r.island + i) (at + 1)

back-Near :
    (at island i : ℕ)
    → Near (sub_ℕ island at)
    → island + 17 ≤ at + 2 ^ 25
    → 2 ≤ i
    → i ≤ 18
    → Near (sub_ℕ (at + 1) (island + i))
back-Near at island i near far many few = ground arith

Redirected-Detour :
    (before memory : ℕ → ℕ) (pool top at : ℕ)
    → Redirected before memory pool top at
    → top + 17 ≤ at + 2 ^ 25
    → Detour before memory pool top at
unfolding Ends
Redirected-Detour before memory pool top at r far =
    let (ends, many, few) = Replaces-Ends (before at) r.island at r.words r.made in
    let (i, in_words, back) = ends in
    (
      r,
      i,
      in_words,
      subst (λ (w : ℕ). Branches w at r.island) (sym r.branch) (enc_b-target at r.island r.near),
      subst (λ (w : ℕ). Branches w (r.island + i) (at + 1))
          (sym (r.stored i (omega (arith, in_words))))
          (back (
            back-Near at r.island i r.near (omega (arith, r.below)) (omega (arith, in_words, many))
              (omega (arith, in_words, few)))),
    )

-- For code and pool that do not overlap, with the pool ending 17 words inside the reach of a
-- branch from the first word: after a run, every word of the code either is as it was, with a
-- reason to spare it, or is an unconditional branch to the first word of an island of the pool
-- that was made for it, and the last word of that island is an unconditional branch to the word
-- after it.
pub isa_emul_patch-Detour :
    (before : ℕ → ℕ) (code count pool pool_end j : ℕ)
    → (code + count ≤ pool) ⊎ (pool_end ≤ code)
    → pool ≤ pool_end
    → pool_end + 17 ≤ code + 2 ^ 25
    → code ≤ j
    → j < code + count
    → let p = isa_emul_patch before code count pool pool_end in
      ((p.memory j ≡ before j) × Spared (before j) pool pool_end p.island j)
      ⊎ Detour before p.memory pool p.island j
isa_emul_patch-Detour before code count pool pool_end j apart h far lo hi =
    let p = isa_emul_patch before code count pool pool_end in
    let patched = isa_emul_patch-Patched before code count pool pool_end apart h in
    elim (patched.each j lo hi) [
      | inl spared ↦ inl spared
      | inr r ↦
          inr (Redirected-Detour before p.memory pool p.island j r (omega (arith, patched.high)))
    ]
