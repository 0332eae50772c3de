-- ===== src/Prelude/Bits.antt =====
-- Binary digits of native numbers, and what the bit operations do to each.
use Prim.Native.Nat.{
  ℕ, zero, suc, ◌+◌, ◌*◌, ◌/◌, ◌%◌, ◌^◌, ◌≤◌, ◌<◌, min, max, bit_and, bit_or, bit_xor, digits,
  differ, bit_and-bitwise, bit_or-bitwise, bit_xor-bitwise,
}
use mathlib.Core.Path.{◌≡◌, refl, sym, ap, ◌∙◌}
use mathlib.Core.Bool.{Bool, false, not, xor, ◌&&◌, ◌||◌}
use native.Mathlib.Omega.{arith}
use native.Mathlib.Nat.{pow-suc}
use btrx.Prelude.Tests.{◌==◌, if◌then◌else◌}

-- Digit `j` of `x`.
unfoldable pub testbit : ℕ → ℕ → Bool
testbit x zero = x % 2 == 1
testbit x (suc j) = testbit (x / 2) j

module _ (z : ℕ → ℕ) (f : ℕ → ℕ → ℕ) where
  -- Counts of digits that suffice agree.
  digits_enough : (n m a b : ℕ) → a ≤ n → a ≤ m → digits z f n a b ≡ digits z f m a b
  digits_enough zero zero a b p q = refl
  digits_enough zero (suc m) zero b p q = refl
  digits_enough zero (suc m) (suc a) b p q = absurd (omega arith)
  digits_enough (suc n) zero zero b p q = refl
  digits_enough (suc n) zero (suc a) b p q = absurd (omega arith)
  digits_enough (suc n) (suc m) zero b p q = refl
  digits_enough (suc n) (suc m) (suc a) b p q =
      ap (λ t. t * 2 + f (suc a % 2) (b % 2))
        (digits_enough n m (suc a / 2) (b / 2) (omega arith) (omega arith))

  -- An operation that treats a number with no digits like one with zeros satisfies its digit law.
  digits_step :
      (a b : ℕ)
      → z b ≡ z (b / 2) * 2 + f 0 (b % 2)
      → digits z f a a b ≡ digits z f (a / 2) (a / 2) (b / 2) * 2 + f (a % 2) (b % 2)
  digits_step zero b h = h
  digits_step (suc a) b h =
      ap (λ t. t * 2 + f (suc a % 2) (b % 2))
        (digits_enough a (suc a / 2) (suc a / 2) (b / 2) (omega arith) (omega arith))

pub bit_and_step : (a b : ℕ) → bit_and a b ≡ bit_and (a / 2) (b / 2) * 2 + min (a % 2) (b % 2)
bit_and_step a b =
    bit_and-bitwise a b
    ∙ digits_step (λ b. zero) min a b (omega arith)
    ∙ ap (λ t. t * 2 + min (a % 2) (b % 2)) (sym (bit_and-bitwise (a / 2) (b / 2)))

pub bit_or_step : (a b : ℕ) → bit_or a b ≡ bit_or (a / 2) (b / 2) * 2 + max (a % 2) (b % 2)
bit_or_step a b =
    bit_or-bitwise a b
    ∙ digits_step (λ b. b) max a b (omega arith)
    ∙ ap (λ t. t * 2 + max (a % 2) (b % 2)) (sym (bit_or-bitwise (a / 2) (b / 2)))

pub bit_xor_step : (a b : ℕ) → bit_xor a b ≡ bit_xor (a / 2) (b / 2) * 2 + differ (a % 2) (b % 2)
bit_xor_step a b =
    bit_xor-bitwise a b
    ∙ digits_step (λ b. b) differ a b (omega arith)
    ∙ ap (λ t. t * 2 + differ (a % 2) (b % 2)) (sym (bit_xor-bitwise (a / 2) (b / 2)))

differ_le : (x y : ℕ) → x < 2 → y < 2 → differ x y < 2
differ_le zero y p q = q
differ_le (suc zero) zero p q = omega arith
differ_le (suc zero) (suc y) p q = omega arith
differ_le (suc (suc x)) y p q = absurd (omega arith)

half-bit_and : (a b : ℕ) → bit_and a b / 2 ≡ bit_and (a / 2) (b / 2)
half-bit_and a b = omega (arith, bit_and_step a b)

half-bit_or : (a b : ℕ) → bit_or a b / 2 ≡ bit_or (a / 2) (b / 2)
half-bit_or a b = omega (arith, bit_or_step a b)

half-bit_xor : (a b : ℕ) → bit_xor a b / 2 ≡ bit_xor (a / 2) (b / 2)
half-bit_xor a b =
    omega (arith, bit_xor_step a b, differ_le (a % 2) (b % 2) (omega arith) (omega arith))

pub testbit-bit_and : (a b j : ℕ) → testbit (bit_and a b) j ≡ testbit a j && testbit b j
unfolding testbit
testbit-bit_and a b zero = ground (arith, bit_and_step a b)
testbit-bit_and a b (suc j) = rw half-bit_and (testbit-bit_and (a / 2) (b / 2) j)

pub testbit-bit_or : (a b j : ℕ) → testbit (bit_or a b) j ≡ testbit a j || testbit b j
unfolding testbit
testbit-bit_or a b zero = ground (arith, bit_or_step a b)
testbit-bit_or a b (suc j) = rw half-bit_or (testbit-bit_or (a / 2) (b / 2) j)

differ-xor : (x y : ℕ) → x < 2 → y < 2 → (differ x y == 1) ≡ xor (x == 1) (y == 1)
unfolding xor
differ-xor zero zero p q = refl
differ-xor zero (suc zero) p q = refl
differ-xor (suc zero) zero p q = refl
differ-xor (suc zero) (suc zero) p q = refl
differ-xor x y p q = absurd (omega arith)

digit-bit_xor : (a b : ℕ) → bit_xor a b % 2 ≡ differ (a % 2) (b % 2)
digit-bit_xor a b =
    omega (arith, bit_xor_step a b, differ_le (a % 2) (b % 2) (omega arith) (omega arith))

pub testbit-bit_xor : (a b j : ℕ) → testbit (bit_xor a b) j ≡ xor (testbit a j) (testbit b j)
unfolding testbit
testbit-bit_xor a b zero =
    ap (λ t. t == 1) (digit-bit_xor a b) ∙ differ-xor (a % 2) (b % 2) (omega arith) (omega arith)
testbit-bit_xor a b (suc j) = rw half-bit_xor (testbit-bit_xor (a / 2) (b / 2) j)

pub testbit_zero : (j : ℕ) → testbit 0 j ≡ false
unfolding testbit
testbit_zero zero = refl
testbit_zero (suc j) = testbit_zero j

half-pow : (k : ℕ) → 2 ^ suc k / 2 ≡ 2 ^ k
half-pow k = omega (arith, pow-suc 2 k)

pub testbit-pow : (k j : ℕ) → testbit (2 ^ k) j ≡ (k == j)
unfolding testbit
testbit-pow zero zero = refl
testbit-pow zero (suc j) = testbit_zero j ∙ (ground arith)
testbit-pow (suc k) zero = ground (arith, pow-suc 2 k)
testbit-pow (suc k) (suc j) = rw half-pow (testbit-pow k j ∙ (ground arith))

zero_of_le : (a : ℕ) → a ≤ 0 → a ≡ 0
zero_of_le a h = omega arith

bit_and-zero_below : (n a : ℕ) → a ≤ n → bit_and a 0 ≡ 0
bit_and-zero_below zero a h = rw (zero_of_le a h)
bit_and-zero_below (suc n) zero h = refl
bit_and-zero_below (suc n) (suc a) h =
    omega (arith, bit_and_step (suc a) 0, bit_and-zero_below n (suc a / 2) (omega arith))

pub bit_and-pow : (x j : ℕ) → bit_and x (2 ^ j) ≡ (if testbit x j then 2 ^ j else 0)
unfolding testbit
bit_and-pow x zero =
    ground (arith, bit_and_step x 1, bit_and-zero_below (x / 2) (x / 2) (omega arith))
bit_and-pow x (suc j) =
    ground (arith, bit_and_step x (2 ^ suc j), half-pow j, bit_and-pow (x / 2) j, pow-suc 2 j)

pow-pos : (j : ℕ) → 0 < 2 ^ j
pow-pos zero = omega arith
pow-pos (suc j) = omega (arith, pow-suc 2 j, pow-pos j)

twice_power : (n y : ℕ) → y * 2 ^ suc n ≡ 2 * (y * 2 ^ n)
twice_power n y = omega (arith, ap (λ (t : ℕ). y * t) (pow-suc 2 n))

-- Digits below `n` are those of the remainder by `2 ^ n`.
testbit_low : (n x y : ℕ) (j : ℕ) → j < n → testbit (x + y * 2 ^ n) j ≡ testbit x j
unfolding testbit
testbit_low zero x y j h = absurd (omega arith)
testbit_low (suc n) x y zero h = ground (arith, twice_power n y)
testbit_low (suc n) x y (suc j) h =
    ap (λ t. testbit t j) (omega (arith, twice_power n y)) ∙ testbit_low n (x / 2) y j (omega arith)

-- The test `(x & mask) == mask` at a mask of one digit.
pub mask_test : (x j : ℕ) → (bit_and x (2 ^ j) == 2 ^ j) ≡ testbit x j
mask_test x j = ground (arith, bit_and-pow x j, pow-pos j)

-- The test `x & mask` at a mask of one digit.
pub mask_nonzero : (x j : ℕ) → not (bit_and x (2 ^ j) == 0) ≡ testbit x j
mask_nonzero x j = ground (arith, bit_and-pow x j, pow-pos j)

-- Cutting a number down to a byte keeps its low digits.
pub testbit-mod : (x j : ℕ) → j < 8 → testbit (x % 256) j ≡ testbit x j
testbit-mod x j h =
    sym (testbit_low 8 (x % 256) (x / 256) j h) ∙ ap (λ t. testbit t j) (omega arith)

-- The byte `(uint8_t)1 << j`.
abbrev pub bit_mask : ℕ → ℕ
bit_mask j = 2 ^ j % 256

pub bit_mask_lem : (j : ℕ) → j < 8 → bit_mask j ≡ 2 ^ j
bit_mask_lem zero h = refl
bit_mask_lem (suc zero) h = refl
bit_mask_lem (suc (suc zero)) h = refl
bit_mask_lem (suc (suc (suc zero))) h = refl
bit_mask_lem (suc (suc (suc (suc zero)))) h = refl
bit_mask_lem (suc (suc (suc (suc (suc zero))))) h = refl
bit_mask_lem (suc (suc (suc (suc (suc (suc zero)))))) h = refl
bit_mask_lem (suc (suc (suc (suc (suc (suc (suc zero))))))) h = refl
bit_mask_lem (suc (suc (suc (suc (suc (suc (suc (suc j)))))))) h = absurd (omega arith)
