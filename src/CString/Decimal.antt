-- ===== src/CString/Decimal.antt =====
-- A number printed by `%d` and read back by `strtol`.
use native.Mathlib.Nat.{pow-suc}
use btrx.Prelude.{
  ℕ, zero, suc, ◌+◌, ◌-◌, ◌*◌, ◌/◌, ◌%◌, ◌^◌, ◌≤◌, ◌<◌, ◌≡◌, ◌≢◌, refl, ap, ◌∙◌, false, List, [],
  ◌∷◌, ◌++◌, ltb, arith, Bool-cases, inl, inr,
}
use btrx.CString.{digits_from, decimal}
use btrx.CString.Tokens.{digits_value, strtol, to_int}

abbrev pub AllDigits : List ℕ → Type 0
AllDigits [] = Unit {0}
AllDigits (c ∷ cs) = (48 ≤ c) × (c ≤ 57) × AllDigits cs

AllDigits-digits_from :
    (rounds n : ℕ) (rest : List ℕ) → AllDigits rest → AllDigits (digits_from rounds n rest)
unfolding digits_from
AllDigits-digits_from zero n rest h = h
AllDigits-digits_from (suc rounds) n rest h =
    let here : AllDigits ((b'0' + n % 10) ∷ rest) = (omega arith, omega arith, h) in
    elim (Bool-cases (ltb n 10)) [
      | inl small ↦ rw small here
      | inr large ↦ rw large (AllDigits-digits_from rounds (n / 10) ((b'0' + n % 10) ∷ rest) here)
    ]

digits_from-ne-nil : (rounds n c : ℕ) (rest : List ℕ) → digits_from rounds n (c ∷ rest) ≢ []
unfolding digits_from
digits_from-ne-nil zero n c rest = λ e. cc
digits_from-ne-nil (suc rounds) n c rest = elim (Bool-cases (ltb n 10)) [
  | inl small ↦ rw small (λ e. cc)
  | inr large ↦ rw large (digits_from-ne-nil rounds (n / 10) (b'0' + n % 10) (c ∷ rest))
]

-- Reading the digits of `n` in front of others is to start these with `n`.
digits_value-digits_from :
    (rounds n : ℕ) (rest : List ℕ)
    → n < 10 ^ rounds
    → digits_value (digits_from rounds n rest) 0 ≡ digits_value rest n
unfolding digits_from digits_value
digits_value-digits_from zero n rest h = ap (digits_value rest) (let e : 0 ≡ n = omega arith in e)
digits_value-digits_from (suc rounds) n rest h =
    let tenth = digits_value-digits_from rounds (n / 10) ((b'0' + n % 10) ∷ rest) in
    let shrinks : n / 10 < 10 ^ rounds = omega (arith, pow-suc 10 rounds) in
    let same : n / 10 * 10 + (48 + n % 10 - 48) ≡ n = omega arith in
    ground (arith, tenth shrinks, ap (digits_value rest) same)

pub AllDigits-decimal : (n : ℕ) → AllDigits (decimal n)
unfolding decimal
AllDigits-decimal n = AllDigits-digits_from 10 n [] tt

pub decimal-ne-nil : (n : ℕ) → decimal n ≢ []
unfolding decimal digits_from
decimal-ne-nil n = elim (Bool-cases (ltb n 10)) [
  | inl small ↦ rw small (λ e. cc)
  | inr large ↦ rw large (digits_from-ne-nil 9 (n / 10) (b'0' + n % 10) [])
]

strtol-digits : (s : List ℕ) → AllDigits s → strtol s ≡ (false, digits_value s 0)
unfolding strtol digits_value
strtol-digits [] h = refl
strtol-digits (c ∷ cs) h = ground arith

pub strtol-decimal : (n : ℕ) → n < 10 ^ 10 → strtol (decimal n) ≡ (false, n)
unfolding decimal digits_value
strtol-decimal n h =
    strtol-digits (decimal n) (AllDigits-decimal n)
    ∙ ap (λ t. (false, t)) (digits_value-digits_from 10 n [] h)

-- A number of type `int` is read back as it was printed.
pub to_int-strtol-decimal : (n : ℕ) → n < 2 ^ 31 → to_int (strtol (decimal n)) ≡ n
unfolding to_int
to_int-strtol-decimal n h = rw (strtol-decimal n (omega arith)) (ground arith)

digits_value-line :
    (s : List ℕ) (n : ℕ) → AllDigits s → digits_value (s ++ 10 ∷ []) n ≡ digits_value s n
unfolding digits_value
digits_value-line [] n h = refl
digits_value-line (c ∷ s) n h = ground (arith, digits_value-line s (n * 10 + (c - 48)) h.2)

strtol-line : (s : List ℕ) → s ≢ [] → AllDigits s → strtol (s ++ 10 ∷ []) ≡ strtol s
unfolding strtol digits_value
strtol-line [] ne h = absurd (ne refl)
strtol-line (c ∷ s) ne h = ground (arith, digits_value-line s (0 * 10 + (c - 48)) h.2)

-- The same at the end of a line.
pub to_int-strtol-line : (n : ℕ) → n < 2 ^ 31 → to_int (strtol (decimal n ++ 10 ∷ [])) ≡ n
to_int-strtol-line n h =
    ap to_int (strtol-line (decimal n) (decimal-ne-nil n) (AllDigits-decimal n))
    ∙ to_int-strtol-decimal n h
