-- ===== src/Handler/Requests.antt =====
-- What a connection of handler/handler.cpp asks for: from the bit fields to its requests.
use btrx.Prelude.{
  inr, inl, Bool-cases, ◌⊎◌, ℕ, zero, suc, ◌+◌, ◌-◌, ◌*◌, ◌/◌, ◌%◌, ◌≤◌, ◌<◌, ◌≡◌, Bool, true, not,
  ◌&&◌, some, List, [], ◌∷◌, ok, ltb, ◌==◌, bit_and, if◌then◌else◌, length, arith,
}
use btrx.Prelude.Assoc.{find, erase, assign, find-assign, find-erase}
use btrx.Prelude.Bits.{testbit, testbit_zero, bit_mask, bit_mask_lem, mask_test}
use btrx.Rwlock.{Rwlocks}
use btrx.Bfield.{Bfield}
use btrx.Bfield.Has.{has}
use btrx.Bfield.Locked.{IsIdle}
use btrx.NbrMap.{NbrMap, earmark}
use btrx.NbrMap.Earmark.{earmark_grants}
use btrx.NbrMap.Claims.Bytes.{digit_at}
use btrx.Handler.{diff_bits, diff_to_reqs}

tested : (byte j : ℕ) → j < 8 → (bit_and byte (bit_mask j) == bit_mask j) ≡ testbit byte j
tested byte j h = rw (bit_mask_lem j h) (mask_test byte j)

find-diff_bits :
    (rounds i j byte q : ℕ) (reqs : List (ℕ × Bool))
    → rounds + j ≤ 8
    → find q (diff_bits rounds i j byte reqs) ≡ (
        if (q / 8 == i)
          && (not (ltb (q % 8) j) && (ltb (q % 8) (j + rounds) && testbit byte (q % 8)))
        then some true
        else find q reqs)
unfolding diff_bits
find-diff_bits zero i j byte q reqs h = ground arith
find-diff_bits (suc rounds) i j byte q reqs h =
    let t = tested byte j (omega arith) in
    ground (
      arith,
      find-diff_bits rounds i (j + 1) byte q
          (if testbit byte j then assign (i * 8 + j) true reqs else reqs) (omega arith),
      find-assign q (i * 8 + j) true reqs,
      t,
    )

pub find-diff_to_reqs :
    (i q : ℕ) (reqs : List (ℕ × Bool)) (diff : List ℕ)
    → find q (diff_to_reqs i reqs diff) ≡ (
        if not (ltb (q / 8) i) && digit_at diff (q / 8 - i) (q % 8) then some true else find q reqs)
unfolding diff_to_reqs
find-diff_to_reqs i q reqs [] = ground (arith, testbit_zero (q % 8))
find-diff_to_reqs i q reqs (byte ∷ diff) = ground (
  arith,
  find-diff_to_reqs (i + 1) q (diff_bits 8 i 0 byte reqs) diff,
  find-diff_bits 8 i 0 byte q reqs (omega arith),
)

-- A piece that is asked for.
abbrev pub Asks : List (ℕ × Bool) → ℕ → Type 0
Asks reqs q = (b : Bool) × (find q reqs ≡ some b)

pub Asks-erase : (k q : ℕ) (reqs : List (ℕ × Bool)) → Asks (erase k reqs) q → Asks reqs q
Asks-erase k q reqs (b, at) = (b, ground (arith, find-erase q k reqs, at))

pub Asks-diff_to_reqs :
    (q : ℕ) (reqs : List (ℕ × Bool)) (diff : List ℕ)
    → Asks (diff_to_reqs 0 reqs diff) q
    → Asks reqs q ⊎ (digit_at diff (q / 8) (q % 8) ≡ true)
Asks-diff_to_reqs q reqs diff (b, at) = elim (Bool-cases (digit_at diff (q / 8) (q % 8))) [
  | inl set ↦ inr set
  | inr unset ↦ inl (b, ground (arith, find-diff_to_reqs 0 q reqs diff, unset, at))
]

module _ {L M : Type 0} (pt : Rwlocks L) (m : NbrMap L M) (node : Bfield L) (peer : List ℕ) where
  -- The first bit field of a peer, on an idle map and field, with the peer's and the map's fields at
  -- least as long as the node's: `earmark` returns, and `diff_to_reqs` of what it leaves enters a
  -- piece of the node's field into the requests exactly if the peer has it, the node lacks it and
  -- no connection has spoken for it; other requests stay.
  diff_to_reqs-earmark :
      (reqs : List (ℕ × Bool)) (p : ℕ)
      → IsIdle pt m.bfield
      → IsIdle pt node
      → length node.bfield ≤ length peer
      → length node.bfield ≤ length m.bfield.bfield
      → p / 8 < length node.bfield
      → (m' : NbrMap L M) × (diff : List ℕ) × (ret : Bool) × (earmark pt m node peer []
          ≡ ok (m', node, diff, ret))
        × (find p (diff_to_reqs 0 reqs diff) ≡ (
            if (has peer p && not (has node.bfield p)) && not (has m.bfield.bfield p)
            then some true
            else find p reqs))
  diff_to_reqs-earmark reqs p idle idle' short wide below =
      let (m', diff, ret, returned, kept, _) =
        earmark_grants pt m node peer p idle idle' short wide below in
      (m', diff, ret, returned, rw (← kept) (ground (arith, find-diff_to_reqs 0 p reqs diff)))
