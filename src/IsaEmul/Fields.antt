-- ===== src/IsaEmul/Fields.antt =====
-- The fields that `decode_lse` gives.
use native.Mathlib.Nat.{mod-lt, one-le-pow}
use machismo_sword.Base.{
  ℕ, ◌-◌, ◌^◌, ◌<◌, ◌≡◌, ◌≢◌, refl, ap, subst, inl, inr, Bool, true, false, Option, none, some,
  arith, bit_and, ◌==◌, ==_iff, if◌then◌else◌, Bool-cases,
}
use machismo_sword.Base.Bits.{◌>>>◌, bit_at, bit_at-and, and-mask}
use machismo_sword.IsaEmul.Decode.{LseOp, Decoded, lse_op, decode_lse}

-- Registers of five bits, a size of two and flags of one; an operation is named; and a CAS always
-- asks for acquire order.
pub record InRange (d : Decoded) : Type 0 where
  pub rs : d.rs < 32
  pub rt : d.rt < 32
  pub rn : d.rn < 32
  pub size : d.size < 4
  pub acquire : d.acquire < 2
  pub release : d.release < 2
  pub op : d.op ≢ LseOp.nothing
  pub cas : d.op ≡ LseOp.cas → d.acquire ≡ 1

masked-lt : (k a : ℕ) → bit_and a (2 ^ k - 1) < 2 ^ k
masked-lt k a = omega (arith, and-mask k a, mod-lt a {m = 2 ^ k} (one-le-pow k 2 (omega arith)))

abbrev is_nothing : LseOp → Bool
is_nothing LseOp.nothing = true
is_nothing _ = false

abbrev is_cas : LseOp → Bool
is_cas LseOp.cas = true
is_cas _ = false

lse_op-named :
    (opc : ℕ) → opc < 8 → (is_nothing (lse_op opc) ≡ false) × (is_cas (lse_op opc) ≡ false)
unfolding lse_op
lse_op-named opc h = ground arith

cas-acquires : (word : ℕ) → bit_and word 0x3FA07C00 ≡ 0x08A07C00 → bit_and (word >>> 23) 1 ≡ 1
cas-acquires word e =
    omega (arith, and-mask 1 (word >>> 23), bit_at-and 23 word 0x3FA07C00, ap (bit_at 23) e)

swap_or :
    (b : Bool) (opc : ℕ)
    → opc < 8
    → let op = if b then LseOp.swp else lse_op opc in (is_nothing op ≡ false) × (is_cas op ≡ false)
swap_or true opc h = (refl, refl)
swap_or false opc h = lse_op-named opc h

-- Both forms cut their fields out of the word in the same way.
InRange-cut :
    (w : ℕ) (d : Decoded)
    → (d.rs ≡ bit_and (w >>> 16) 31)
    → (d.rt ≡ bit_and w 31)
    → (d.rn ≡ bit_and (w >>> 5) 31)
    → (d.size ≡ bit_and (w >>> 30) 3)
    → (d.acquire ≡ bit_and (w >>> 23) 1)
    → d.release < 2
    → d.op ≢ LseOp.nothing
    → (d.op ≡ LseOp.cas → d.acquire ≡ 1)
    → InRange d
InRange-cut w d rs rt rn size acquire release op cas = record {
  rs = omega (arith, rs, masked-lt 5 (w >>> 16));
  rt = omega (arith, rt, masked-lt 5 w);
  rn = omega (arith, rn, masked-lt 5 (w >>> 5));
  size = omega (arith, size, masked-lt 2 (w >>> 30));
  acquire = omega (arith, acquire, masked-lt 1 (w >>> 23));
  release = release;
  op = op;
  cas = cas;
}

abbrev Fine : Option Decoded → Type 0
Fine none = Unit {0}
Fine (some d) = InRange d

decode_lse-Fine : (w : ℕ) → Fine (decode_lse w)
unfolding decode_lse
decode_lse-Fine w = elim (Bool-cases (bit_and w 0x3F200C00 == 0x38200000)) [
  | inl e ↦
      let is_swap = bit_and (w >>> 15) 1 == 1 in
      let named = swap_or is_swap (bit_and (w >>> 12) 7) (masked-lt 3 (w >>> 12)) in
      rw (Fine, e)
        (InRange-cut w _ refl refl refl refl refl (masked-lt 1 (w >>> 22))
          (λ x. cc (ap is_nothing x, named.0)) (λ x. cc (ap is_cas x, named.1)))
  | inr e ↦
      rw (Fine, e)
        (elim (Bool-cases (bit_and w 0x3FA07C00 == 0x08A07C00)) [
          | inl f ↦
              rw (Fine, f)
                (InRange-cut w _ refl refl refl refl refl (masked-lt 1 (w >>> 15)) (λ x. cc x)
                  (λ x. cas-acquires w ((==_iff _ _).0 f)))
          | inr f ↦ rw (Fine, f) tt
        ])
]

-- Whatever word decodes, its registers have five bits, its size two and its flags one, its
-- operation is named, and a CAS always asks for acquire order.
pub decode_lse-InRange : (w : ℕ) (d : Decoded) → decode_lse w ≡ some d → InRange d
decode_lse-InRange w d e = subst Fine e (decode_lse-Fine w)
