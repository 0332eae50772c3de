-- ===== src/NbrMap/Claims/Bytes.antt =====
-- The outer loop of `NbrMap::earmark` of nbrmap/nbrmap.cpp without its locks.
use btrx.Prelude.{
  ℕ, zero, suc, ◌+◌, ◌-◌, ◌*◌, ◌/◌, ◌%◌, ◌≤◌, ◌<◌, ◌≡◌, refl, ap, ◌∙◌, Bool, not, ◌&&◌, ◌||◌, List,
  [], ◌∷◌, ok, ltb, get_or, length, arith,
}
use btrx.Prelude.Bits.{testbit, testbit_zero}
use btrx.Rwlock.{Rwlocks}
use btrx.Bfield.{Bfield}
use btrx.Bfield.Has.{has}
use btrx.Bfield.Locked.{IsIdle}
use btrx.NbrMap.{earmark_bytes}
use btrx.NbrMap.Claims.{
  Claimed, claim_bits, length-claim_bits, has-claim_bits, testbit-claim_bits,
  earmark_bits-claim_bits,
}

-- The outer loop, over the bytes of `diff` from index `i`.
pub record AllClaimed : Type 0 where
  pub field : List ℕ
  pub bytes : List ℕ
  pub ret : Bool

unfoldable pub claim_bytes : ℕ → List ℕ → List ℕ → Bool → AllClaimed
claim_bytes i [] field ret = record { field = field; bytes = []; ret = ret }
claim_bytes i (byte ∷ bytes) field ret =
    let c = claim_bits 8 i 0 (record { field = field; byte = byte; ret = ret }) in
    let rest = claim_bytes (i + 1) bytes c.field c.ret in
    record { field = rest.field; bytes = c.byte ∷ rest.bytes; ret = rest.ret }

-- Bit `k` of byte `w` of a list of bytes.
abbrev pub digit_at : List ℕ → ℕ → ℕ → Bool
digit_at bytes w k = testbit (get_or bytes w 0) k

pub length-claim_bytes :
    (i : ℕ) (bytes field : List ℕ) (ret : Bool)
    → (length (claim_bytes i bytes field ret).field ≡ length field)
      × (length (claim_bytes i bytes field ret).bytes ≡ length bytes)
unfolding claim_bytes
length-claim_bytes i [] field ret = (refl, refl)
length-claim_bytes i (byte ∷ bytes) field ret =
    let c : Claimed = record { field = field; byte = byte; ret = ret } in
    let (l, l') =
      length-claim_bytes (i + 1) bytes (claim_bits 8 i 0 c).field (claim_bits 8 i 0 c).ret in
    (l ∙ length-claim_bits 8 i 0 c, ap suc l')

pub has-claim_bytes :
    (i q : ℕ) (bytes field : List ℕ) (ret : Bool)
    → i + length bytes ≤ length field
    → has (claim_bytes i bytes field ret).field q
      ≡ (not (ltb (q / 8) i) && digit_at bytes (q / 8 - i) (q % 8)) || has field q
unfolding claim_bytes
has-claim_bytes i q [] field ret h = ground (arith, testbit_zero (q % 8))
has-claim_bytes i q (byte ∷ bytes) field ret h =
    let c : Claimed = record { field = field; byte = byte; ret = ret } in
    let r = claim_bits 8 i 0 c in
    ground (
      arith,
      has-claim_bytes (i + 1) q bytes r.field r.ret,
      has-claim_bits 8 i 0 q c,
      length-claim_bits 8 i 0 c,
    )

pub digit_at-claim_bytes :
    (i w k : ℕ) (bytes field : List ℕ) (ret : Bool)
    → i + length bytes ≤ length field
    → k < 8
    → digit_at (claim_bytes i bytes field ret).bytes w k
      ≡ digit_at bytes w k && not (has field ((i + w) * 8 + k))
unfolding claim_bytes
digit_at-claim_bytes i w k [] field ret h q = rw testbit_zero
digit_at-claim_bytes i zero k (byte ∷ bytes) field ret h q =
    let c : Claimed = record { field = field; byte = byte; ret = ret } in
    testbit-claim_bits 8 i 0 k c (omega arith) (omega arith) q
    ∙ (let e : i * 8 + k ≡ (i + 0) * 8 + k = omega arith in ground (arith, ap (has field) e))
digit_at-claim_bytes i (suc w) k (byte ∷ bytes) field ret h q =
    let c : Claimed = record { field = field; byte = byte; ret = ret } in
    let r = claim_bits 8 i 0 c in
    digit_at-claim_bytes (i + 1) w k bytes r.field r.ret (omega (arith, length-claim_bits 8 i 0 c))
      q
    ∙ (let e : (i + 1 + w) * 8 + k ≡ (i + suc w) * 8 + k = omega arith in
        ground (arith, ap (has field) e, has-claim_bits 8 i 0 ((i + 1 + w) * 8 + k) c))

module _ {L : Type 0} (pt : Rwlocks L) where
  pub earmark_bytes-claim_bytes :
      (i : ℕ) (bytes field : List ℕ) (ret : Bool) (b : Bfield L)
      → IsIdle pt b
      → i + length bytes ≤ length field
      → let r = claim_bytes i bytes field ret in
        earmark_bytes pt i bytes (record b { bfield = field }) ret
        ≡ ok (record b { bfield = r.field }, r.bytes, r.ret)
  unfolding earmark_bytes claim_bytes
  earmark_bytes-claim_bytes i [] field ret b idle h = refl
  earmark_bytes-claim_bytes i (byte ∷ bytes) field ret b idle h =
      let c : Claimed = record { field = field; byte = byte; ret = ret } in
      let r = claim_bits 8 i 0 c in
      rw
        (
          earmark_bits-claim_bits pt 8 i 0 c b idle (omega arith) (omega arith),
          earmark_bytes-claim_bytes (i + 1) bytes r.field r.ret b idle
              (omega (arith, length-claim_bits 8 i 0 c)),
        )
        refl
