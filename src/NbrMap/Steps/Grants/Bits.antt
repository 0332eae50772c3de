-- ===== src/NbrMap/Steps/Grants/Bits.antt =====
-- What the inner loop of `earmark` of nbrmap/nbrmap.cpp leaves of a byte, whatever the locks do.
use btrx.Prelude.{
  ==_iff, ==_self, ℕ, zero, suc, ◌+◌, ◌*◌, ◌%◌, ◌≤◌, ◌<◌, ◌≡◌, ◌≢◌, refl, ap, ◌∙◌, sym, subst, Bool,
  true, false, not, List, ok, ok_of_bind, ok_injective, stays, next, Bool-cases, inl, inr, arith,
  bit_and, bit_xor, ◌==◌, if◌then◌else◌,
}
use btrx.Prelude.Bits.{testbit, bit_mask, bit_mask_lem, mask_test}
use mathlib.Core.Bool.{xor}
use btrx.Rwlock.{Rwlocks}
use btrx.Bfield
use btrx.Bfield.{Bfield, flip_bytes}
use btrx.Bfield.Has.{has, raised, has-raised, toggled}
use btrx.Bfield.Steps.{
  claims, Grows, Grows-refl, Grows-trans, Grows-FieldStep, flip_at-bytes, flip_bytes-piece,
}
use btrx.NbrMap.{earmark_bits}
use btrx.NbrMap.Steps.Earmark.{Flips, earmark_bits-Flips}

-- The piece was free in the old field and is taken in the new one.
abbrev pub Granted : List ℕ → List ℕ → ℕ → Type 0
Granted old new p = (has old p ≡ false) × (has new p ≡ true)

module _ {L : Type 0} (pt : Rwlocks L) where
  pub Grows-Flips : {b b' : Bfield L} → Flips pt b b' → Grows b.bfield b'.bfield
  Grows-Flips {b} stays = Grows-refl b.bfield
  Grows-Flips (next r step) = Grows-trans (Grows-Flips r) (Grows-FieldStep pt step)

  -- A flip tells whether the piece was free, and it is taken afterwards.
  flip_at-tells :
      (b b' : Bfield L) (i j : ℕ) (ret : Bool)
      → j < 8
      → Bfield.flip_at pt b i j ≡ ok (b', ret)
      → (ret ≡ not (has b.bfield (i * 8 + j))) × (has b'.bfield (i * 8 + j) ≡ true)
  flip_at-tells b b' i j ret small e =
      let p = i * 8 + j in
      let (below, told, after) =
        flip_bytes-piece b.bfield b'.bfield i j ret small (flip_at-bytes pt b b' i j ret e) in
      elim (Bool-cases (has b.bfield p)) [
        | inl taken ↦
            let same : b'.bfield ≡ b.bfield = after ∙ rw taken refl in
            (told, ap (λ t. has t p) same ∙ taken)
        | inr free ↦
            let same : b'.bfield ≡ raised b.bfield p = after ∙ rw free refl in
            (
              told,
              ap (λ t. has t p) same ∙ has-raised b.bfield p p below free ∙ rw (==_self p) refl,
            )
      ]

pub free_before : (old mid : List ℕ) (p : ℕ) → Grows old mid → has mid p ≡ false → has old p ≡ false
free_before old mid p grown free = elim (Bool-cases (has old p)) [
  | inl taken ↦ let still = grown.held p taken in absurd (ground (arith, free, still))
  | inr was_free ↦ was_free
]

-- The byte behind a flip of bit `j` with this result.
abbrev kept : ℕ → ℕ → Bool → ℕ
kept byte j ret = if ret then byte else bit_xor byte (bit_mask j) % 256

testbit-kept_other :
    (byte j k : ℕ) (ret : Bool)
    → j < 8
    → k < 8
    → j ≢ k
    → testbit (kept byte j ret) k ≡ testbit byte k
unfolding xor
testbit-kept_other byte j k true h h' ne = refl
testbit-kept_other byte j k false h h' ne = ground (arith, toggled byte j k h h', ne)

testbit-kept_same :
    (byte j : ℕ) → j < 8 → testbit byte j ≡ true → testbit (kept byte j false) j ≡ false
unfolding xor
testbit-kept_same byte j h set = ground (arith, toggled byte j j h h, set, ==_self j)

wanted-testbit : (byte j : ℕ) → j < 8 → (bit_and byte (bit_mask j) == bit_mask j) ≡ testbit byte j
wanted-testbit byte j h = rw (bit_mask_lem j h) (mask_test byte j)

-- A bit that was wanted and is kept is of a piece that was free.
granted_here :
    (byte j : ℕ) (ret : Bool) {taken : Bool}
    → j < 8
    → testbit byte j ≡ true
    → testbit (kept byte j ret) j ≡ true
    → ret ≡ not taken
    → taken ≡ false
granted_here byte j true {taken} h was set told = ground arith
granted_here byte j false {taken} h was set told =
    let gone = testbit-kept_same byte j h was in absurd (ground (arith, gone, set))

module _ {L : Type 0} (pt : Rwlocks L) where
  -- The inner loop leaves the bits before its first alone.
  testbit-earmark_bits :
      (rounds i j byte k : ℕ) (field : Bfield L) (ret : Bool) {r : Bfield L × ℕ × Bool}
      → j + rounds ≤ 8
      → k < j
      → earmark_bits pt rounds i j byte field ret ≡ ok r
      → testbit r.1 k ≡ testbit byte k
  unfolding earmark_bits
  testbit-earmark_bits zero i j byte k field ret h below e =
      ap (λ (r : Bfield L × ℕ × Bool). testbit r.1 k) (sym (ok_injective e))
  testbit-earmark_bits (suc rounds) i j byte k field ret {r} h below e =
      elim (Bool-cases (bit_and byte (bit_mask j) == bit_mask j)) [
        | inl wanted ↦
            let e' = rw (earmark_bits, wanted) at e in
            let ((field', ret'), _, rest) = ok_of_bind (Bfield.flip_at pt field i j) _ e' in
            testbit-earmark_bits rounds i (j + 1) (kept byte j ret') k field' ret' {r = r}
              (omega arith) (omega arith) rest
            ∙ testbit-kept_other byte j k ret' (omega arith) (omega arith) (omega arith)
        | inr other ↦
            testbit-earmark_bits rounds i (j + 1) byte k field ret {r = r} (omega arith)
              (omega arith) (rw (earmark_bits, other) at e)
      ]

  pub earmark_bits-Granted :
      (rounds i j byte k : ℕ) (field : Bfield L) (ret : Bool) {r : Bfield L × ℕ × Bool}
      → j + rounds ≤ 8
      → j ≤ k
      → k < j + rounds
      → earmark_bits pt rounds i j byte field ret ≡ ok r
      → testbit r.1 k ≡ true
      → Granted field.bfield r.0.bfield (i * 8 + k)
  unfolding earmark_bits
  earmark_bits-Granted zero i j byte k field ret h from below e set = absurd (omega arith)
  earmark_bits-Granted (suc rounds) i j byte k field ret {r} h from below e set =
      elim (Bool-cases (bit_and byte (bit_mask j) == bit_mask j)) [
        | inl wanted ↦
            let e' = rw (earmark_bits, wanted) at e in
            let ((field', ret'), flipped, rest) = ok_of_bind (Bfield.flip_at pt field i j) _ e' in
            let (told, taken) = flip_at-tells pt field field' i j ret' (omega arith) flipped in
            elim (Bool-cases (j == k)) [
              | inl here ↦
                  let same : j ≡ k = (==_iff j k).0 here in
                  let bit : testbit (kept byte j ret') k ≡ true =
                    sym (
                      testbit-earmark_bits rounds i (j + 1) (kept byte j ret') k field' ret' {r = r}
                        (omega arith) (omega arith) rest)
                    ∙ set in
                  let grown = Grows-Flips pt (
                    earmark_bits-Flips pt rounds i (j + 1) (kept byte j ret') field' ret' {r = r}
                      (omega arith) rest) in
                  let was : testbit byte j ≡ true =
                    sym (wanted-testbit byte j (omega arith)) ∙ wanted in
                  subst (λ k. Granted field.bfield r.0.bfield (i * 8 + k)) same
                    (
                      granted_here byte j ret' (omega arith) was
                          (subst (λ k. testbit (kept byte j ret') k ≡ true) (sym same) bit) told,
                      grown.held (i * 8 + j) taken,
                    )
              | inr there ↦
                  let later =
                    earmark_bits-Granted rounds i (j + 1) (kept byte j ret') k field' ret' {r = r}
                      (omega arith) (ground (arith, there)) (omega arith) rest set in
                  let step =
                    Grows-FieldStep pt (claims field field' i j ret' (omega arith) flipped) in
                  (free_before field.bfield field'.bfield (i * 8 + k) step later.0, later.1)
            ]
        | inr other ↦
            let e' = rw (earmark_bits, other) at e in
            elim (Bool-cases (j == k)) [
              | inl here ↦
                  let same : j ≡ k = (==_iff j k).0 here in
                  let unset : testbit byte k ≡ false =
                    subst (λ k. testbit byte k ≡ false) same
                      (sym (wanted-testbit byte j (omega arith)) ∙ other) in
                  let bit =
                    testbit-earmark_bits rounds i (j + 1) byte k field ret {r = r} (omega arith)
                      (omega arith) e' in
                  absurd (ground (arith, unset, bit, set))
              | inr there ↦
                  earmark_bits-Granted rounds i (j + 1) byte k field ret {r = r} (omega arith)
                    (ground (arith, there)) (omega arith) e' set
            ]
      ]
