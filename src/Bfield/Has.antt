-- ===== src/Bfield/Has.antt =====
-- The abstract view of a bit field: which pieces it holds, and what the byte operations of
-- objstore/bfield.cpp do to that.
use btrx.Prelude.{
  ℕ, zero, suc, ◌/◌, ◌%◌, ◌≤◌, ◌<◌, ◌≡◌, refl, ap, ◌∙◌, bit_or, bit_xor, Bool, true, false, not,
  ◌&&◌, ◌||◌, List, [], ◌∷◌, ◌++◌, ok, undefined, ◌==◌, if◌then◌else◌, get_or, set, length, arith,
  get_elem?_of_lt, get_or-set_self, get_or-set_ne, Bool-cases, inl, inr, ==_iff,
}
use btrx.Prelude.Bits.{
  testbit, bit_mask, bit_mask_lem, mask_test, testbit-bit_or, testbit-bit_xor, testbit-pow,
  testbit-mod,
}
use mathlib.Core.Bool.{xor}
use mathlib.Core.List.{append-nil, append_assoc}
use btrx.Bfield.{diff_loop, flip_bytes}

-- Piece `p` is bit `p % 8` of byte `p / 8`.
abbrev pub has : List ℕ → ℕ → Bool
has field p = testbit (get_or field (p / 8) 0) (p % 8)

-- A write of one byte changes the pieces of that byte.
pub has-set :
    (field : List ℕ) (w x p : ℕ)
    → w < length field
    → has (set field w x) p ≡ (if p / 8 == w then testbit x (p % 8) else has field p)
has-set field w x p h = elim (Bool-cases (p / 8 == w)) [
  | inl here ↦ rw (here, (==_iff (p / 8) w).0 here, get_or-set_self field w x 0 h)
  | inr there ↦
      rw there (ap (λ t. testbit t (p % 8)) (get_or-set_ne field w (p / 8) x 0 (ground arith)))
]

pub toggled :
    (x j k : ℕ)
    → j < 8
    → k < 8
    → testbit (bit_xor x (bit_mask j) % 256) k ≡ xor (testbit x k) (j == k)
toggled x j k p q =
    testbit-mod (bit_xor x (bit_mask j)) k q
    ∙ testbit-bit_xor x (bit_mask j) k
    ∙ ap (xor (testbit x k)) (ap (λ t. testbit t k) (bit_mask_lem j p) ∙ testbit-pow j k)

-- What a flip that finds the bit unset leaves.
abbrev pub raised : List ℕ → ℕ → List ℕ
raised field p = set field (p / 8) (bit_xor (get_or field (p / 8) 0) (bit_mask (p % 8)) % 256)

same_byte :
    (field : List ℕ) (p q : ℕ)
    → q / 8 ≡ p / 8
    → has field p ≡ false
    → xor (testbit (get_or field (p / 8) 0) (q % 8)) (p % 8 == q % 8)
      ≡ p == q || testbit (get_or field (p / 8) 0) (q % 8)
unfolding xor
same_byte field p q same unset = ground arith

pub has-raised :
    (field : List ℕ) (p q : ℕ)
    → p / 8 < length field
    → has field p ≡ false
    → has (raised field p) q ≡ (p == q) || has field q
unfolding xor
has-raised field p q h unset = elim (Bool-cases (q / 8 == p / 8)) [
  | inl here ↦
      rw
        (
          has-set field (p / 8) _ q h,
          here,
          toggled _ (p % 8) (q % 8) (omega arith) (omega arith),
          (==_iff (q / 8) (p / 8)).0 here,
        )
        (same_byte field p q ((==_iff (q / 8) (p / 8)).0 here) unset)
  | inr there ↦ rw (has-set field (p / 8) _ q h, there) (ground arith)
]

-- A flip sets the bit, and tells whether it was unset before.
pub flip_bytes-has :
    (field : List ℕ) (p : ℕ)
    → p / 8 < length field
    → flip_bytes field (p / 8) (bit_mask (p % 8))
      ≡ (if has field p then ok (field, false) else ok (raised field p, true))
unfolding flip_bytes
flip_bytes-has field p h =
    rw (get_elem?_of_lt field (p / 8) 0 h) (rw (bit_mask_lem (p % 8) (omega arith), mask_test) refl)

-- The bytes that `diff` appends.
unfoldable pub missing : List ℕ → List ℕ → List ℕ
missing [] right = []
missing (l ∷ left) [] = []
missing (l ∷ left) (r ∷ right) = bit_xor l (bit_or l r) % 256 ∷ missing left right

pub length-missing :
    (left right : List ℕ) → length left ≤ length right → length (missing left right) ≡ length left
unfolding missing
length-missing [] right h = refl
length-missing (l ∷ left) [] h = absurd (omega arith)
length-missing (l ∷ left) (r ∷ right) h = ap suc (length-missing left right (omega arith))

pub diff_loop-missing :
    (left right out : List ℕ)
    → length left ≤ length right
    → diff_loop left right out ≡ ok (out ++ missing left right)
unfolding diff_loop missing
diff_loop-missing [] right out h = rw append-nil
diff_loop-missing (l ∷ left) [] out h = absurd (omega arith)
diff_loop-missing (l ∷ left) (r ∷ right) out h = rw (
  diff_loop-missing left right (out ++ bit_xor l (bit_or l r) % 256 ∷ []) (omega arith),
  append_assoc,
)

pub diff_loop_short :
    (left right out : List ℕ) → length right < length left → diff_loop left right out ≡ undefined
unfolding diff_loop
diff_loop_short [] right out h = absurd (omega arith)
diff_loop_short (l ∷ left) [] out h = refl
diff_loop_short (l ∷ left) (r ∷ right) out h = diff_loop_short left right _ (omega arith)

testbit-mask :
    (l r k : ℕ)
    → k < 8
    → testbit (bit_xor l (bit_or l r) % 256) k ≡ testbit r k && not (testbit l k)
unfolding xor
testbit-mask l r k h = ground (
  arith,
  testbit-mod (bit_xor l (bit_or l r)) k h,
  testbit-bit_xor l (bit_or l r) k,
  testbit-bit_or l r k,
)

missing_digit :
    (left right : List ℕ) (w k : ℕ)
    → length left ≤ length right
    → w < length left
    → k < 8
    → testbit (get_or (missing left right) w 0) k
      ≡ testbit (get_or right w 0) k && not (testbit (get_or left w 0) k)
unfolding missing
missing_digit [] right w k h below q = absurd (omega arith)
missing_digit (l ∷ left) [] w k h below q = absurd (omega arith)
missing_digit (l ∷ left) (r ∷ right) zero k h below q = testbit-mask l r k q
missing_digit (l ∷ left) (r ∷ right) (suc w) k h below q =
    missing_digit left right w k (omega arith) (omega arith) q

pub has-missing :
    (left right : List ℕ) (p : ℕ)
    → length left ≤ length right
    → p / 8 < length left
    → has (missing left right) p ≡ has right p && not (has left p)
has-missing left right p h below = missing_digit left right (p / 8) (p % 8) h below (omega arith)
