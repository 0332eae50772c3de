-- ===== src/NbrMap/Steps/Grants.antt =====
-- What `earmark` of nbrmap/nbrmap.cpp leaves in `diff`, whatever the locks do: pieces that nobody had
-- spoken for.
mod Bits
pub use Bits.{Granted}
use btrx.Prelude.{
  ==_iff, ==_self, ℕ, zero, suc, ◌+◌, ◌*◌, ◌/◌, ◌%◌, ◌≤◌, ◌<◌, ◌≡◌, ◌≢◌, refl, ap, ◌∙◌, sym, subst,
  Bool, true, false, not, List, [], ◌∷◌, ok, ok_of_bind, ok_injective, stays, next, Bool-cases, inl,
  inr, arith, bit_and, bit_xor, ◌==◌, if◌then◌else◌,
}
use btrx.Prelude.Bits.{testbit, testbit_zero, bit_mask, bit_mask_lem, mask_test}
use mathlib.Core.Bool.{xor}
use btrx.Rwlock.{Rwlocks}
use btrx.Bfield
use btrx.Bfield.{Bfield, flip_bytes}
use btrx.Bfield.Has.{has, raised, has-raised, toggled}
use btrx.Bfield.Steps.{
  claims, Grows, Grows-refl, Grows-trans, Grows-FieldStep, flip_at-bytes, flip_bytes-piece,
}
use btrx.NbrMap.{NbrMap, earmark_bits, earmark_bytes, earmark}
use btrx.NbrMap.Claims.Bytes.{digit_at}
use btrx.NbrMap.Steps.Earmark.{Flips, earmark_bits-Flips, earmark_bytes-Flips}
use btrx.NbrMap.Steps.Grants.Bits.{Grows-Flips, free_before, earmark_bits-Granted}

-- A bit of a list of bytes is one of the first byte, or of the others.
either_byte :
    (i k w : ℕ) (old mid new : List ℕ) (byte : ℕ) (bytes : List ℕ)
    → digit_at (byte ∷ bytes) w k ≡ true
    → Grows old mid
    → Grows mid new
    → (testbit byte k ≡ true → Granted old mid (i * 8 + k))
    → ((v : ℕ) → digit_at bytes v k ≡ true → Granted mid new ((i + 1 + v) * 8 + k))
    → Granted old new ((i + w) * 8 + k)
either_byte i k zero old mid new byte bytes set before after first later =
    let (free, taken) = first set in
    let here : i * 8 + k ≡ (i + 0) * 8 + k = omega arith in
    subst (λ p. Granted old new p) here (free, after.held (i * 8 + k) taken)
either_byte i k (suc v) old mid new byte bytes set before after first later =
    let (free, taken) = later v set in
    let there : (i + 1 + v) * 8 + k ≡ (i + suc v) * 8 + k = omega arith in
    subst (λ p. Granted old new p) there
      (free_before old mid ((i + 1 + v) * 8 + k) before free, taken)

module _ {L : Type 0} (pt : Rwlocks L) where
  earmark_bytes-Granted :
      (i w k : ℕ) (diff : List ℕ) (field : Bfield L) (ret : Bool) {r : Bfield L × List ℕ × Bool}
      → k < 8
      → earmark_bytes pt i diff field ret ≡ ok r
      → digit_at r.1 w k ≡ true
      → Granted field.bfield r.0.bfield ((i + w) * 8 + k)
  unfolding earmark_bytes
  earmark_bytes-Granted i w k [] field ret h e set =
      let none_left = ap (λ (r : Bfield L × List ℕ × Bool). digit_at r.1 w k) (ok_injective e) in
      let zero_bit = testbit_zero k in absurd (ground (arith, none_left, zero_bit, set))
  earmark_bytes-Granted i w k (byte ∷ bytes) field ret {r} h e set =
      let ((field1, byte1, ret1), bits, rest) =
        ok_of_bind (earmark_bits pt 8 i 0 byte field ret) _ e in
      let ((field2, bytes2, ret2), others, rest1) =
        ok_of_bind (earmark_bytes pt (i + 1) bytes field1 ret1) _ rest in
      let same : (field2, byte1 ∷ bytes2, ret2) ≡ r = ok_injective rest1 in
      let set' : digit_at (byte1 ∷ bytes2) w k ≡ true =
        ap (λ (r : Bfield L × List ℕ × Bool). digit_at r.1 w k) same ∙ set in
      let before = Grows-Flips pt (
        earmark_bits-Flips pt 8 i 0 byte field ret {r = (field1, byte1, ret1)} (omega arith)
          bits) in
      let after =
        Grows-Flips pt
          (earmark_bytes-Flips pt (i + 1) bytes field1 ret1 {r = (field2, bytes2, ret2)} others) in
      subst (λ (r : Bfield L × List ℕ × Bool). Granted field.bfield r.0.bfield ((i + w) * 8 + k))
        same
        (either_byte i k w field.bfield field1.bfield field2.bfield byte1 bytes2 set' before after
          (λ t.
            earmark_bits-Granted pt 8 i 0 byte k field ret {r = (field1, byte1, ret1)} (omega arith)
              (omega arith) (omega arith) bits t)
          (λ v t.
            earmark_bytes-Granted (i + 1) v k bytes field1 ret1 {r = (field2, bytes2, ret2)} h
              others t))

  module _ {M : Type 0} (m : NbrMap L M) where
    -- Where `earmark` returns, each piece that it leaves in `diff` was free before, and is spoken for.
    pub earmark-Granted :
        (node : Bfield L) (peer diff : List ℕ) (p : ℕ) {r : NbrMap L M × Bfield L × List ℕ × Bool}
        → earmark pt m node peer diff ≡ ok r
        → digit_at r.2 (p / 8) (p % 8) ≡ true
        → Granted m.bfield.bfield r.0.bfield.bfield p
    unfolding earmark
    earmark-Granted node peer diff p {r} e set =
        let ((node', wanted), _, rest) = ok_of_bind (Bfield.diff pt node peer diff) _ e in
        let ((field, diff', ret), marked, rest1) =
          ok_of_bind (earmark_bytes pt 0 wanted m.bfield false) _ rest in
        let same : (record m { bfield = field }, node', diff', ret) ≡ r = ok_injective rest1 in
        let set' : digit_at diff' (p / 8) (p % 8) ≡ true =
          ap (λ (r : NbrMap L M × Bfield L × List ℕ × Bool). digit_at r.2 (p / 8) (p % 8)) same
          ∙ set in
        let granted =
          earmark_bytes-Granted 0 (p / 8) (p % 8) wanted m.bfield false {r = (field, diff', ret)}
            (omega arith) marked set' in
        let whole : (0 + p / 8) * 8 + p % 8 ≡ p = omega arith in
        subst
          (λ (r : NbrMap L M × Bfield L × List ℕ × Bool).
            Granted m.bfield.bfield r.0.bfield.bfield p)
          same (subst (λ q. Granted m.bfield.bfield field.bfield q) whole granted)
