-- ===== src/CString/Tokens.antt =====
-- The calls of the C library that read a configuration: `getline`, `strtok` and `strtol`.
use btrx.Prelude.{
  ℕ, ◌+◌, ◌-◌, ◌*◌, ◌%◌, ◌^◌, Bool, true, false, not, ◌&&◌, ◌||◌, Option, none, some, List, [], ◌∷◌,
  ltb, ◌==◌, if◌then◌else◌,
}

abbrev push : ℕ → List (List ℕ) → List (List ℕ)
push c [] = (c ∷ []) ∷ []
push c (l ∷ ls) = (c ∷ l) ∷ ls

-- What the calls of `getline` give in turn: the lines, each with the newline that ends it.
unfoldable pub lines : List ℕ → List (List ℕ)
lines [] = []
lines (c ∷ cs) = if c == b'\n' then (c ∷ []) ∷ lines cs else push c (lines cs)

-- The bytes before the first NUL of a buffer that ends in one.
unfoldable pub before_nul : List ℕ → List ℕ
before_nul [] = []
before_nul (c ∷ cs) = if c == 0 then [] else c ∷ before_nul cs

-- The bytes before the first space, and those behind it.
unfoldable pub span : List ℕ → List ℕ × List ℕ
span [] = ([], [])
span (c ∷ cs) = if c == b' ' then ([], cs) else (c ∷ (span cs).0, (span cs).1)

-- `strtok(s, " ")`: the token, and what the next `strtok(NULL, " ")` starts with.
unfoldable pub strtok : List ℕ → Option (List ℕ × List ℕ)
unfolding span
strtok [] = none
strtok (c ∷ cs) = if c == b' ' then strtok cs else some (span (c ∷ cs))

abbrev is_space : ℕ → Bool
is_space c = c == 32 || (ltb 8 c && ltb c 14)

abbrev is_digit : ℕ → Bool
is_digit c = ltb 47 c && ltb c 58

unfoldable pub digits_value : List ℕ → ℕ → ℕ
digits_value [] n = n
digits_value (c ∷ cs) n =
    let rest = digits_value cs (n * 10 + (c - 48)) in if is_digit c then rest else n

-- `strtol(s, NULL, 10)`: whether there is a minus sign, and the number behind it with no bound.
unfoldable pub strtol : List ℕ → Bool × ℕ
unfolding digits_value
strtol [] = (false, 0)
strtol (c ∷ cs) =
    let rest = strtol cs in
    if is_space c
    then rest
    else (if c == b'-'
        then (true, digits_value cs 0)
        else (if c == b'+' then (false, digits_value cs 0) else (false, digits_value (c ∷ cs) 0)))

abbrev min : ℕ → ℕ → ℕ
min a b = if ltb a b then a else b

-- The result of `strtol`, a 64-bit `long` that stops at its bounds, as an `int`: its low 32 bits,
-- which below 2 ^ 31 are the number itself.
unfoldable pub to_int : Bool × ℕ → ℕ
to_int (false, n) = min n (2 ^ 63 - 1) % 2 ^ 32
to_int (true, n) = (2 ^ 64 - min n (2 ^ 63)) % 2 ^ 32

-- The same as a `bool`.
unfoldable pub to_bool : Bool × ℕ → Bool
to_bool (neg, n) = not (n == 0)
