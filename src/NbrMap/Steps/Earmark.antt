-- ===== src/NbrMap/Steps/Earmark.antt =====
-- `earmark` of nbrmap/nbrmap.cpp as a chain of calls of the two fields.
use btrx.Prelude.{
  ℕ, zero, suc, ◌+◌, ◌≤◌, ◌≡◌, Bool, false, List, [], ◌∷◌, ok, ok_of_bind, ok_injective, subst,
  Bool-cases, inl, inr, Chain, stays, one, chain_trans, chain_map, arith, bit_and, ◌==◌, false,
}
use btrx.Prelude.Bits.{bit_mask}
use btrx.Rwlock.{Rwlocks}
use btrx.Mutex.{Mutexes}
use btrx.Bfield
use btrx.Bfield.{Bfield}
use btrx.Bfield.Steps as Calls
use btrx.Bfield.Steps.{FieldStep}
use btrx.NbrMap.{NbrMap, earmark_bits, earmark_bytes, earmark}
use btrx.NbrMap.Steps.{MapStep, claims}

module _ {L : Type 0} (pt : Rwlocks L) where
  abbrev pub Flips : Bfield L → Bfield L → Type 0
  Flips b b' = Chain (FieldStep pt) b b'

  pub earmark_bits-Flips :
      (rounds i j byte : ℕ) (field : Bfield L) (ret : Bool) {r : Bfield L × ℕ × Bool}
      → j + rounds ≤ 8
      → earmark_bits pt rounds i j byte field ret ≡ ok r
      → Flips field r.0
  unfolding earmark_bits
  earmark_bits-Flips zero i j byte field ret h e =
      subst (λ (r : Bfield L × ℕ × Bool). Flips field r.0) (ok_injective e) stays
  earmark_bits-Flips (suc rounds) i j byte field ret {r} h e =
      elim (Bool-cases (bit_and byte (bit_mask j) == bit_mask j)) [
        | inl wanted ↦
            let e' = rw (earmark_bits, wanted) at e in
            let ((field', ret'), flipped, rest) = ok_of_bind (Bfield.flip_at pt field i j) _ e' in
            chain_trans (one (Calls.claims field field' i j ret' (omega arith) flipped))
              (earmark_bits-Flips rounds i (j + 1) _ field' ret' {r = r} (omega arith) rest)
        | inr other ↦
            earmark_bits-Flips rounds i (j + 1) byte field ret {r = r} (omega arith)
              (rw (earmark_bits, other) at e)
      ]

  pub earmark_bytes-Flips :
      (i : ℕ) (diff : List ℕ) (field : Bfield L) (ret : Bool) {r : Bfield L × List ℕ × Bool}
      → earmark_bytes pt i diff field ret ≡ ok r
      → Flips field r.0
  unfolding earmark_bytes
  earmark_bytes-Flips i [] field ret e =
      subst (λ (r : Bfield L × List ℕ × Bool). Flips field r.0) (ok_injective e) stays
  earmark_bytes-Flips i (byte ∷ bytes) field ret e =
      let ((field', byte', ret'), bits, rest) =
        ok_of_bind (earmark_bits pt 8 i 0 byte field ret) _ e in
      let ((field'', bytes', ret''), others, rest1) =
        ok_of_bind (earmark_bytes pt (i + 1) bytes field' ret') _ rest in
      subst (λ (r : Bfield L × List ℕ × Bool). Flips field r.0) (ok_injective rest1)
        (chain_trans
          (earmark_bits-Flips 8 i 0 byte field ret {r = (field', byte', ret')} (omega arith) bits)
          (earmark_bytes-Flips (i + 1) bytes field' ret' {r = (field'', bytes', ret'')} others))

  module _ {M : Type 0} (mx : Mutexes M) (m : NbrMap L M) where
    abbrev pub Marks : Bfield L → NbrMap L M × Bfield L × List ℕ × Bool → Type 0
    Marks node r = FieldStep pt node r.1 × Chain (MapStep pt mx) m r.0

    -- One call of the node's field, and a chain of flips in the map's.
    pub earmark-Marks :
        (node : Bfield L) (peer diff : List ℕ) {r : NbrMap L M × Bfield L × List ℕ × Bool}
        → earmark pt m node peer diff ≡ ok r
        → Marks node r
    unfolding earmark
    earmark-Marks node peer diff e =
        let ((node', wanted), compared, rest) = ok_of_bind (Bfield.diff pt node peer diff) _ e in
        let ((field, diff', ret), marked, rest1) =
          ok_of_bind (earmark_bytes pt 0 wanted m.bfield false) _ rest in
        subst (Marks node) (ok_injective rest1) (
          Calls.compares node node' peer diff wanted compared,
          chain_map {R = FieldStep pt} {Q = MapStep pt mx} (λ b. record m { bfield = b })
              (λ b b' step. claims (record m { bfield = b }) b' step)
              (earmark_bytes-Flips 0 wanted m.bfield false {r = (field, diff', ret)} marked),
        )
