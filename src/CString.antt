-- ===== src/CString.antt =====
-- The C string functions that the program calls, on buffers of bytes: `strncpy` and
-- `snprintf(buf, n, "%s", src)`.
pub mod Copy
pub mod Tokens
pub mod Decimal
pub mod Words
use Prim.Native.Char.{code}
use Prim.Native.String.{String}
use btrx.Prelude.{
  ℕ, zero, suc, ◌+◌, ◌-◌, ◌/◌, ◌%◌, ltb, Option, none, some, List, [], ◌∷◌, ◌++◌, Outcome, ok,
  undefined, ◌>>=◌, defined, ◌==◌, if◌then◌else◌, length, take, drop, replicate, arith,
}

-- The bytes before the first NUL; `none` where there is no NUL in the buffer.
unfoldable pub c_string : List ℕ → Option (List ℕ)
c_string [] = none
c_string (c ∷ cs) =
    if c == 0 then some [] else elim (c_string cs) [ some s ↦ some (c ∷ s) | none ↦ none ]

-- `strncpy(dst, src, n)`: what it leaves in `dst`. It stops at a NUL and fills up with NULs.
unfoldable pub strncpy : ℕ → List ℕ → Outcome (List ℕ)
strncpy zero src = ok []
strncpy (suc n) [] = undefined
strncpy (suc n) (c ∷ cs) =
    let rest = strncpy n cs in
    if c == 0 then ok (replicate (suc n) 0) else (do r ← rest; ok (c ∷ r))

-- `snprintf(buf, n, "%s", src)` where `buf` has n bytes: at most n - 1 of them and a NUL; the bytes
-- behind the NUL stay.
unfoldable pub snprintf : List ℕ → List ℕ → Outcome (List ℕ)
unfolding c_string
snprintf buf src = do
  s ← defined (c_string src)
  let written = take (length buf - 1) s ++ 0 ∷ []
  ok (if length buf == 0 then buf else written ++ drop (length written) buf)

-- The decimal digits of n, highest first, in front of `rest`; a digit is made for each round.
digits_from : ℕ → ℕ → List ℕ → List ℕ
digits_from zero n rest = rest
digits_from (suc rounds) n rest =
    let more = digits_from rounds (n / 10) ((b'0' + n % 10) ∷ rest) in
    if ltb n 10 then (b'0' + n % 10) ∷ rest else more

-- `%d` and `%u` of a number below 2 ^ 32, which has ten digits at most.
unfoldable pub decimal : ℕ → List ℕ
unfolding digits_from
decimal n = digits_from 10 n []

-- The bytes of a literal, which is ASCII.
abbrev pub bytes_of : String → List ℕ
bytes_of String.[] = []
bytes_of (String.◌∷◌ c s) = code c ∷ bytes_of s
