-- ===== src/NbrMap/Claims.antt =====
-- `NbrMap::earmark` of nbrmap/nbrmap.cpp without its locks: what its loops leave in the map's field
-- and in `diff`.
pub mod Bytes
pub mod Ret
use btrx.Prelude.{
  ℕ, zero, suc, ◌+◌, ◌-◌, ◌*◌, ◌/◌, ◌%◌, ◌≤◌, ◌<◌, ◌≡◌, refl, ap, subst, ◌∙◌, sym, bit_and, bit_xor,
  Bool, true, false, not, ◌&&◌, ◌||◌, List, [], ◌∷◌, ◌++◌, ok, ◌==◌, ltb, if◌then◌else◌, get_or,
  length, arith, Bool-cases, inl, inr,
}
use mathlib.Core.Bool.{xor}
use btrx.Prelude.Bits.{testbit, bit_mask, bit_mask_lem, mask_test, testbit_zero}
use btrx.Rwlock.{Rwlocks}
use btrx.Bfield.{Bfield}
use btrx.Bfield.Has.{has, toggled}
use btrx.Bfield.Members.{with_piece, has-with_piece, length-with_piece, flip_at-with_piece}
use btrx.Bfield.Locked.{IsIdle}
use btrx.NbrMap.{earmark_bits, earmark_bytes}

pub record Claimed : Type 0 where
  pub field : List ℕ
  pub byte : ℕ
  pub ret : Bool

abbrev claimed : ℕ → ℕ → Claimed → Claimed
claimed i j c = record {
  field = with_piece c.field (i * 8 + j);
  byte = if not (has c.field (i * 8 + j)) then c.byte else bit_xor c.byte (bit_mask j) % 256;
  ret = not (has c.field (i * 8 + j));
}

-- One round of the inner loop.
pub claim_bit : ℕ → ℕ → Claimed → Claimed
claim_bit i j c = if testbit c.byte j then claimed i j c else c

claim_bit_set : (i j : ℕ) (c : Claimed) → testbit c.byte j ≡ true → claim_bit i j c ≡ claimed i j c
unfolding claim_bit
claim_bit_set i j c e = rw e

claim_bit_unset : (i j : ℕ) (c : Claimed) → testbit c.byte j ≡ false → claim_bit i j c ≡ c
unfolding claim_bit
claim_bit_unset i j c e = rw e

pub claim_bits : ℕ → ℕ → ℕ → Claimed → Claimed
claim_bits zero i j c = c
claim_bits (suc rounds) i j c = claim_bits rounds i (j + 1) (claim_bit i j c)

pub length-claim_bit : (i j : ℕ) (c : Claimed) → length (claim_bit i j c).field ≡ length c.field
unfolding claim_bit
length-claim_bit i j c = ground (arith, length-with_piece c.field (i * 8 + j))

pub length-claim_bits :
    (n i j : ℕ) (c : Claimed) → length (claim_bits n i j c).field ≡ length c.field
unfolding claim_bits
length-claim_bits zero i j c = refl
length-claim_bits (suc n) i j c =
    length-claim_bits n i (j + 1) (claim_bit i j c) ∙ length-claim_bit i j c

pub has-claim_bit :
    (i j q : ℕ) (c : Claimed)
    → i < length c.field
    → j < 8
    → has (claim_bit i j c).field q ≡ (i * 8 + j == q && testbit c.byte j) || has c.field q
unfolding claim_bit
has-claim_bit i j q c h k = ground (arith, has-with_piece c.field (i * 8 + j) q)

pub testbit-claim_bit :
    (i j k : ℕ) (c : Claimed)
    → j < 8
    → k < 8
    → testbit (claim_bit i j c).byte k ≡ testbit c.byte k && not (j == k && has c.field (i * 8 + j))
unfolding claim_bit xor
testbit-claim_bit i j k c h q = ground (arith, toggled c.byte j k h q)

-- The inner loop from digit `j` on claims the pieces of the byte from there on.
pub has-claim_bits :
    (n i j q : ℕ) (c : Claimed)
    → i < length c.field
    → j + n ≤ 8
    → has (claim_bits n i j c).field q
      ≡ (q / 8 == i && testbit c.byte (q % 8) && not (ltb (q % 8) j) && ltb (q % 8) (j + n))
        || has c.field q
unfolding claim_bits
has-claim_bits zero i j q c h b = ground arith
has-claim_bits (suc n) i j q c h b = ground (
  arith,
  has-claim_bits n i (j + 1) q (claim_bit i j c),
  has-claim_bit i j q c,
  testbit-claim_bit i j (q % 8) c,
  length-claim_bit i j c,
)

pub testbit-claim_bits :
    (n i j k : ℕ) (c : Claimed)
    → i < length c.field
    → j + n ≤ 8
    → k < 8
    → testbit (claim_bits n i j c).byte k
      ≡ testbit c.byte k && (ltb k j || not (ltb k (j + n)) || not (has c.field (i * 8 + k)))
unfolding claim_bits
testbit-claim_bits zero i j k c h b q = ground arith
testbit-claim_bits (suc n) i j k c h b q = ground (
  arith,
  testbit-claim_bits n i (j + 1) k (claim_bit i j c),
  has-claim_bit i j (i * 8 + k) c,
  testbit-claim_bit i j k c,
  length-claim_bit i j c,
)

byte_test : (x j : ℕ) → j < 8 → (bit_and x (bit_mask j) == bit_mask j) ≡ testbit x j
byte_test x j h = rw (bit_mask_lem j h) (mask_test x j)

module _ {L : Type 0} (pt : Rwlocks L) where
  pub earmark_bits-claim_bits :
      (n i j : ℕ) (c : Claimed) (b : Bfield L)
      → IsIdle pt b
      → i < length c.field
      → j + n ≤ 8
      → let r = claim_bits n i j c in
        earmark_bits pt n i j c.byte (record b { bfield = c.field }) c.ret
        ≡ ok (record b { bfield = r.field }, r.byte, r.ret)
  unfolding earmark_bits claim_bits
  earmark_bits-claim_bits zero i j c b idle h q = refl
  earmark_bits-claim_bits (suc n) i j c b idle h q = elim (Bool-cases (testbit c.byte j)) [
    | inl e ↦
        let t = byte_test c.byte j (omega arith) ∙ e in
        rw
          (
            t,
            earmark_bits,
            flip_at-with_piece pt (record b { bfield = c.field }) i j idle h (omega arith),
            claim_bits,
            claim_bit_set i j c e,
          )
          (earmark_bits-claim_bits n i (j + 1) (claimed i j c) b idle
            (omega (arith, length-with_piece c.field (i * 8 + j))) (omega arith))
    | inr e ↦
        let t = byte_test c.byte j (omega arith) ∙ e in
        rw (t, earmark_bits, claim_bits, claim_bit_unset i j c e)
          (earmark_bits-claim_bits n i (j + 1) c b idle h (omega arith))
  ]
