-- ===== src/IsaEmul/Redirect/Run.antt =====
-- The loop of `isa_emul_patch`, word by word.
use native.Mathlib.Decide.{dec_lt}
use machismo_sword.Base.{
  ℕ, zero, suc, ◌+◌, ◌≤◌, ◌<◌, ◌≡◌, ◌≢◌, ◌⊎◌, inl, inr, refl, sym, ap, ◌∙◌, subst, false, Option,
  none, some, List, arith, length, ltb, ◌==◌, Bool-cases, Option-cases,
}
use machismo_sword.Base.Int.{sub_ℕ}
use machismo_sword.IsaEmul.Encode.{enc_b}
use machismo_sword.IsaEmul.Decode.{decode_lse, decode_bcax}
use machismo_sword.IsaEmul.Island.{emit_island, emit_bcax_island}
use machismo_sword.IsaEmul.Patch.{
  Patcher, store, store_words, out_of_range, redirect, place, patch_word, patch_from,
  isa_emul_patch,
}
use machismo_sword.IsaEmul.Branch.{Near}
use machismo_sword.IsaEmul.Length.{length-emit_island, length-emit_bcax_island}
use machismo_sword.IsaEmul.Redirect.{
  store_words-outside, store_words-inside, Near-of_range, Replaces, Spared, Done, Patched,
  Done-later,
}

module _ (before : ℕ → ℕ) (code count pool pool_end : ℕ)
    (apart : (code + count ≤ pool) ⊎ (pool_end ≤ code)) where
  -- The run has come to the word `at`.
  record Reached (at : ℕ) (p : Patcher) : Type 0 where
    low : pool ≤ p.island
    high : p.island ≤ pool_end
    elsewhere :
        (j : ℕ) → (j < code) ⊎ (at ≤ j) → (j < pool) ⊎ (p.island ≤ j) → p.memory j ≡ before j
    each : (j : ℕ) → code ≤ j → j < at → Done before p.memory pool pool_end p.island j

  -- The word to come next is as it was.
  next_word :
      (at : ℕ) (p : Patcher)
      → Reached at p
      → code ≤ at
      → at < code + count
      → p.memory at ≡ before at
  next_word at p r lo hi = r.elsewhere at (inr (omega arith)) (ground (arith, r.low, r.high, apart))

  skip_word :
      (at : ℕ) (p : Patcher)
      → Reached at p
      → code ≤ at
      → at < code + count
      → Spared (before at) pool pool_end p.island at
      → Reached (at + 1) p
  skip_word at p r lo hi s = record {
    low = r.low;
    high = r.high;
    elsewhere = λ j c q. r.elsewhere j (ground (arith, c)) q;
    each = λ j a b. elim (dec_lt j at) [
      | yes e ↦ r.each j a e
      | no e ↦
          let here : at ≡ j = omega arith in
          subst (λ (t : ℕ). Done before p.memory pool pool_end p.island t) here
            (inl (next_word at p r lo hi, s))
    ];
  }

  redirect_word :
      (at : ℕ) (p : Patcher) (words : List ℕ)
      → Reached at p
      → code ≤ at
      → at < code + count
      → Replaces (before at) p.island at words
      → 1 ≤ length words
      → p.island + length words ≤ pool_end
      → Near (sub_ℕ p.island at)
      → Reached (at + 1) (redirect p at words)
  unfolding redirect
  redirect_word at p words r lo hi made some_words fits near =
      let nonempty : (length words == 0) ≡ false = ground arith in
      let top = p.island + length words in
      let m = store_words p.memory p.island words in
      let m' = store m at (enc_b (sub_ℕ p.island at)) in
      let outside : (j : ℕ) → j ≢ at → (j < p.island) ⊎ (top ≤ j) → m' j ≡ p.memory j = λ j ne q.
        let other : (at == j) ≡ false = ground (arith, ne) in
        rw other (store_words-outside p.memory p.island words j q) in
      let self : m' at ≡ enc_b (sub_ℕ p.island at) = ground arith in
      rw nonempty (record {
        low = omega (arith, r.low);
        high = fits;
        elsewhere = λ j c q.
            outside j (ground (arith, c)) (ground (arith, q))
            ∙ r.elsewhere j (ground (arith, c)) (ground (arith, q));
        each = λ j a b. elim (dec_lt j at) [
          | yes e ↦
              Done-later before p.memory m' pool pool_end p.island top j (omega arith)
                (outside j (λ q. ground (arith, q)) (ground (arith, apart, r.low, fits)))
                (λ i l h. outside i (ground (arith, apart, r.high)) (inl h)) (r.each j a e)
          | no e ↦
              let here : at ≡ j = omega arith in
              subst (λ (t : ℕ). Done before m' pool pool_end top t) here
                (inr (record {
                  island = p.island;
                  words = words;
                  made = made;
                  above = r.low;
                  below = omega arith;
                  near = near;
                  branch = self;
                  stored = λ i lt.
                      let other : (at == p.island + i) ≡ false =
                        ground (arith, apart, r.low, fits) in
                      rw other (store_words-inside p.memory p.island words i lt);
                }))
        ];
      })

  -- A round that goes on has come to the next word; one that stops had no room for an island.
  abbrev After : ℕ → Patcher → Option Patcher → Type 0
  After at p none = pool_end < p.island + 24
  After at p (some p') = Reached (at + 1) p'

  place-After :
      (needed at : ℕ) (p : Patcher) (words : List ℕ)
      → Reached at p
      → code ≤ at
      → at < code + count
      → Replaces (before at) p.island at words
      → (3 ≤ length words) × (length words ≤ needed)
      → needed ≤ 24
      → After at p (place needed pool_end p at words)
  unfolding place
  place-After needed at p words r lo hi made (some_words, few) small =
      elim (Bool-cases (ltb pool_end (p.island + needed))) [
        | inl full ↦ rw full (ground arith)
        | inr roomy ↦ rw roomy (elim (Bool-cases (out_of_range p.island at)) [
          | inl far ↦
              rw far (skip_word at p r lo hi (inr (inl (p.island, r.low, omega arith, far))))
          | inr near ↦ rw near (
              redirect_word at p words r lo hi made (omega arith) (ground arith)
                (Near-of_range p.island at near))
        ])
      ]

  patch_word-After :
      (at : ℕ) (p : Patcher)
      → Reached at p
      → code ≤ at
      → at < code + count
      → After at p (patch_word pool_end p at)
  unfolding patch_word
  patch_word-After at p r lo hi =
      let word = next_word at p r lo hi in
      let lse : decode_lse (before at) ≡ decode_lse (p.memory at) = ap decode_lse (sym word) in
      let bcax : decode_bcax (before at) ≡ decode_bcax (p.memory at) = ap decode_bcax (sym word) in
      elim (Option-cases (decode_lse (p.memory at))) [
        | inr (d, e) ↦
            let n = length-emit_island d p.island at in
            rw (After, e, patch_word)
              (place-After 24 at p (emit_island d p.island at) r lo hi (inl (d, lse ∙ e, refl))
                (omega (arith, n)) (omega arith))
        | inl e ↦
            rw (After, e, patch_word)
              (elim (Option-cases (decode_bcax (p.memory at))) [
                | inr (b, f) ↦
                    let n = length-emit_bcax_island b p.island at in
                    rw (After, f)
                      (place-After 5 at p (emit_bcax_island b p.island at) r lo hi
                        (inr (b, lse ∙ e, bcax ∙ f, refl)) (omega (arith, n)) (omega arith))
                | inl f ↦ rw (After, f) (skip_word at p r lo hi (inl (lse ∙ e, bcax ∙ f)))
              ])
      ]

  -- Where the run ends, the words that are left are as they were.
  finish :
      (at : ℕ) (p : Patcher)
      → Reached at p
      → (at ≡ code + count) ⊎ (pool_end < p.island + 24)
      → at ≤ code + count
      → Patched before code count pool pool_end p
  finish at p r why hi = record {
    low = r.low;
    high = r.high;
    elsewhere = λ j c q. r.elsewhere j (ground (arith, c)) q;
    each = λ j a b. elim (dec_lt j at) [
      | yes e ↦ r.each j a e
      | no e ↦ inl (
        r.elsewhere j (inr (omega arith)) (ground (arith, r.low, r.high, apart)),
        inr (inr (ground (arith, why))),
      )
    ];
  }

  patch_from-Patched :
      (n at : ℕ) (p : Patcher)
      → Reached at p
      → code ≤ at
      → at + n ≡ code + count
      → Patched before code count pool pool_end (patch_from pool_end n at p)
  unfolding patch_from
  patch_from-Patched zero at p r lo e = finish at p r (inl (omega arith)) (omega arith)
  patch_from-Patched (suc n) at p r lo e =
      let after = patch_word-After at p r lo (omega arith) in
      elim (Option-cases (patch_word pool_end p at)) [
        | inl stop ↦ rw (stop, patch_from) (finish at p r (inr (rw stop at after)) (omega arith))
        | inr (p', go) ↦
            rw (go, patch_from)
              (patch_from-Patched n (at + 1) p' (rw go at after) (omega arith) (omega arith))
      ]

  -- For code and pool that do not overlap: the run stays in the pool, writes nothing but the code
  -- and the part of the pool that it uses up, and every word of the code either is as it was,
  -- with a reason to spare it, or is a branch within reach to an island in the used part that
  -- holds the words made for it.
  pub isa_emul_patch-Patched :
      pool ≤ pool_end
      → Patched before code count pool pool_end (isa_emul_patch before code count pool pool_end)
  unfolding isa_emul_patch
  isa_emul_patch-Patched h =
      patch_from-Patched count code _
        (record {
          low = omega arith;
          high = h;
          elsewhere = λ j c q. refl;
          each = λ j a b. absurd (omega arith);
        })
        (omega arith) refl
