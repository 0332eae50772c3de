-- ===== src/CString/Copy.antt =====
-- Copying a C string into a buffer of n bytes and out again: its first n - 1 bytes, and NULs.
use btrx.Prelude.{
  ℕ, zero, suc, ◌-◌, ◌≤◌, ◌<◌, ◌≡◌, ◌≢◌, refl, ap, some, List, [], ◌∷◌, ◌++◌, ok, ◌==◌, length,
  take, drop, replicate, arith, inl, inr, false, Option-cases,
}
use mathlib.Core.List.{append_assoc}
use btrx.CString.{c_string, strncpy, snprintf}

-- No byte is NUL.
abbrev pub NoNul : List ℕ → Type 0
NoNul [] = Unit {0}
NoNul (c ∷ cs) = (c ≢ 0) × NoNul cs

pub c_string-NoNul : (src s : List ℕ) → c_string src ≡ some s → NoNul s
unfolding c_string
c_string-NoNul [] s h = absurd (ground arith)
c_string-NoNul (c ∷ cs) [] h = tt
c_string-NoNul (c ∷ cs) (d ∷ s) h = elim (Option-cases (c_string cs)) [
  | inl e ↦ absurd (ground arith)
  | inr (t, e) ↦ ground (arith, c_string-NoNul cs s)
]

NoNul-take : (n : ℕ) (s : List ℕ) → NoNul s → NoNul (take n s)
NoNul-take zero s h = tt
NoNul-take (suc n) [] h = tt
NoNul-take (suc n) (c ∷ s) h = (h.0, NoNul-take n s h.1)

length-take-le : (n : ℕ) (s : List ℕ) → length (take n s) ≤ n
length-take-le zero s = omega arith
length-take-le (suc n) [] = omega arith
length-take-le (suc n) (c ∷ s) = omega (arith, length-take-le n s)

-- `strncpy` of a terminated string that is shorter than n.
pub strncpy_terminated :
    (n : ℕ) (s rest : List ℕ)
    → NoNul s
    → length s < n
    → strncpy n (s ++ 0 ∷ rest) ≡ ok (s ++ replicate (n - length s) 0)
unfolding strncpy
strncpy_terminated zero s rest clean h = absurd (omega arith)
strncpy_terminated (suc n) [] rest clean h =
    ap (λ t. ok (replicate {A = ℕ} t 0)) (let e : suc n ≡ suc n - 0 = omega arith in e)
strncpy_terminated (suc n) (c ∷ s) rest clean h =
    let t : (c == 0) ≡ false = ground arith in
    rw (t, strncpy_terminated n s rest clean.1 (omega arith))
      (ap (λ t. ok (c ∷ (s ++ replicate t 0)))
        (let e : n - length s ≡ suc n - suc (length s) = omega arith in e))

-- What `snprintf` leaves in a buffer of n bytes, read back by `strncpy`.
pub strncpy-snprintf :
    (n : ℕ) (buf src s : List ℕ)
    → length buf ≡ suc n
    → c_string src ≡ some s
    → (stored : List ℕ) × (snprintf buf src ≡ ok stored)
      × (strncpy (suc n) stored ≡ ok (take n s ++ replicate (suc n - length (take n s)) 0))
unfolding snprintf
strncpy-snprintf n buf src s size e =
    let one_less : length buf - 1 ≡ n = omega arith in
    let some_room : (length buf == 0) ≡ false = ground arith in
    let written = take n s ++ 0 ∷ [] in
    (
      written ++ drop (length written) buf,
      rw (e, snprintf, one_less, some_room) refl,
      rw (append_assoc) (
          strncpy_terminated (suc n) (take n s) (drop (length written) buf)
            (NoNul-take n s (c_string-NoNul src s e)) (omega (arith, length-take-le n s))),
    )
