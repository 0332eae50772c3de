-- ===== src/NbrMap/Claims/Ret.antt =====
-- The local `ret` of `NbrMap::earmark` of nbrmap/nbrmap.cpp: each attempt to claim a piece
-- overwrites it, so that it tells of the last wanted piece alone.
use btrx.Prelude.{
  ℕ, zero, suc, ◌+◌, ◌*◌, ◌≤◌, ◌<◌, ◌≡◌, refl, ap, ◌∙◌, Bool, true, false, not, List, [], ◌∷◌, ◌==◌,
  if◌then◌else◌, length, arith, Bool-cases, inl, inr, ==_iff,
}
use btrx.Prelude.Bits.{testbit, testbit_zero}
use btrx.Bfield.Has.{has}
use btrx.NbrMap.Claims.{
  Claimed, claim_bit, claim_bits, has-claim_bit, testbit-claim_bit, length-claim_bit,
  has-claim_bits, length-claim_bits,
}
use btrx.NbrMap.Claims.Bytes.{claim_bytes, digit_at}

ret-claim_bit :
    (i j : ℕ) (c : Claimed)
    → (claim_bit i j c).ret ≡ (if testbit c.byte j then not (has c.field (i * 8 + j)) else c.ret)
unfolding claim_bit
ret-claim_bit i j c = ground arith

-- With no digit set from `j` on, `ret` stays.
ret_quiet :
    (n i j : ℕ) (c : Claimed)
    → j + n ≤ 8
    → i < length c.field
    → ((k : ℕ) → k < 8 → j ≤ k → testbit c.byte k ≡ false)
    → (claim_bits n i j c).ret ≡ c.ret
unfolding claim_bits
ret_quiet zero i j c h l quiet = refl
ret_quiet (suc n) i j c h l quiet =
    ret_quiet n i (j + 1) (claim_bit i j c) (omega arith) (omega (arith, length-claim_bit i j c))
      (λ k below from.
        testbit-claim_bit i j k c (omega arith) below ∙ (rw (quiet k below (omega arith))))
    ∙ ret-claim_bit i j c
    ∙ (rw (quiet j (omega arith) (omega arith)))

-- Otherwise it tells whether the highest digit's piece was free.
ret_last :
    (n i j k : ℕ) (c : Claimed)
    → j + n ≡ 8
    → j ≤ k
    → k < 8
    → i < length c.field
    → testbit c.byte k ≡ true
    → ((k' : ℕ) → k' < 8 → k < k' → testbit c.byte k' ≡ false)
    → (claim_bits n i j c).ret ≡ not (has c.field (i * 8 + k))
unfolding claim_bits
ret_last zero i j k c e from below l here quiet = absurd (omega arith)
ret_last (suc n) i j k c e from below l here quiet = elim (Bool-cases (j == k)) [
  | inl same ↦
      let k_eq : j ≡ k = (==_iff j k).0 same in
      ret_quiet n i (j + 1) (claim_bit i j c) (omega arith) (omega (arith, length-claim_bit i j c))
        (λ k' below' from'.
          testbit-claim_bit i j k' c (omega arith) below' ∙ (rw (quiet k' below' (omega arith))))
      ∙ ret-claim_bit i j c
      ∙ (rw (k_eq, here))
  | inr later ↦
      ret_last n i (j + 1) k (claim_bit i j c) (omega arith) (ground arith) below
        (omega (arith, length-claim_bit i j c))
        (testbit-claim_bit i j k c (omega arith) below ∙ (rw (here, later)))
        (λ k' below' from'.
          testbit-claim_bit i j k' c (omega arith) below' ∙ (rw (quiet k' below' from')))
      ∙ (ground (arith, has-claim_bit i j (i * 8 + k) c))
]

-- The same for the outer loop: with no digit set, `ret` stays.
ret_quiet_bytes :
    (i : ℕ) (bytes field : List ℕ) (ret : Bool)
    → i + length bytes ≤ length field
    → ((w k : ℕ) → k < 8 → digit_at bytes w k ≡ false)
    → (claim_bytes i bytes field ret).ret ≡ ret
unfolding claim_bytes
ret_quiet_bytes i [] field ret h quiet = refl
ret_quiet_bytes i (byte ∷ bytes) field ret h quiet =
    let c : Claimed = record { field = field; byte = byte; ret = ret } in
    let r = claim_bits 8 i 0 c in
    ret_quiet_bytes (i + 1) bytes r.field r.ret (omega (arith, length-claim_bits 8 i 0 c))
      (λ w k below. quiet (suc w) k below)
    ∙ ret_quiet 8 i 0 c (omega arith) (omega arith) (λ k below _. quiet 0 k below)

-- Otherwise it tells whether the highest piece was free.
pub ret_last_bytes :
    (i w k : ℕ) (bytes field : List ℕ) (ret : Bool)
    → i + length bytes ≤ length field
    → k < 8
    → digit_at bytes w k ≡ true
    → ((w' k' : ℕ) → k' < 8 → w * 8 + k < w' * 8 + k' → digit_at bytes w' k' ≡ false)
    → (claim_bytes i bytes field ret).ret ≡ not (has field ((i + w) * 8 + k))
unfolding claim_bytes
ret_last_bytes i w k [] field ret h below here quiet = ground (arith, testbit_zero k)
ret_last_bytes i zero k (byte ∷ bytes) field ret h below here quiet =
    let c : Claimed = record { field = field; byte = byte; ret = ret } in
    let r = claim_bits 8 i 0 c in
    let e : i * 8 + k ≡ (i + 0) * 8 + k = omega arith in
    ret_quiet_bytes (i + 1) bytes r.field r.ret (omega (arith, length-claim_bits 8 i 0 c))
      (λ w k' below'. quiet (suc w) k' below' (omega arith))
    ∙ ret_last 8 i 0 k c refl (omega arith) below (omega arith) here
        (λ k' below' from. quiet 0 k' below' (omega arith))
    ∙ ap (λ t. not (has field t)) e
ret_last_bytes i (suc w) k (byte ∷ bytes) field ret h below here quiet =
    let c : Claimed = record { field = field; byte = byte; ret = ret } in
    let r = claim_bits 8 i 0 c in
    let e : (i + 1 + w) * 8 + k ≡ (i + suc w) * 8 + k = omega arith in
    ret_last_bytes (i + 1) w k bytes r.field r.ret (omega (arith, length-claim_bits 8 i 0 c)) below
      here (λ w' k' below' from. quiet (suc w') k' below' (omega arith))
    ∙ (ground (arith, ap (has field) e, has-claim_bits 8 i 0 ((i + 1 + w) * 8 + k) c))
