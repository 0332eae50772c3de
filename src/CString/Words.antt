-- ===== src/CString/Words.antt =====
-- Words, without a space, a newline or a NUL, in the lines that `getline` and `strtok` take apart.
use btrx.Prelude.{ℕ, ◌≡◌, ◌≢◌, refl, some, List, [], ◌∷◌, ◌++◌, ◌==◌, false, arith}
use btrx.CString.Tokens.{lines, before_nul, span, strtok}
use btrx.CString.{decimal}
use btrx.CString.Decimal.{AllDigits, AllDigits-decimal, decimal-ne-nil}

-- No newline and no NUL.
abbrev pub OneLine : List ℕ → Type 0
OneLine [] = Unit {0}
OneLine (c ∷ cs) = (c ≢ 10) × (c ≢ 0) × OneLine cs

abbrev pub NoSpace : List ℕ → Type 0
NoSpace [] = Unit {0}
NoSpace (c ∷ cs) = (c ≢ 32) × NoSpace cs

pub record IsWord (s : List ℕ) : Type 0 where
  pub some_byte : s ≢ []
  pub one_line : OneLine s
  pub no_space : NoSpace s

pub OneLine-append : (s t : List ℕ) → OneLine s → OneLine t → OneLine (s ++ t)
OneLine-append [] t h k = k
OneLine-append (c ∷ s) t h k = (h.0, h.1, OneLine-append s t h.2 k)

pub OneLine-AllDigits : (s : List ℕ) → AllDigits s → OneLine s
OneLine-AllDigits [] h = tt
OneLine-AllDigits (c ∷ s) h = (omega arith, omega arith, OneLine-AllDigits s h.2)

pub NoSpace-AllDigits : (s : List ℕ) → AllDigits s → NoSpace s
NoSpace-AllDigits [] h = tt
NoSpace-AllDigits (c ∷ s) h = (omega arith, NoSpace-AllDigits s h.2)

-- The first line of a text is what stands before its first newline, and that.
pub lines-line :
    (s rest : List ℕ) → OneLine s → lines (s ++ 10 ∷ rest) ≡ (s ++ 10 ∷ []) ∷ lines rest
unfolding lines
lines-line [] rest h = refl
lines-line (c ∷ s) rest h =
    let t : (c == 10) ≡ false = ground arith in rw (t, lines-line s rest h.2) refl

pub before_nul-line : (s : List ℕ) → OneLine s → before_nul (s ++ 10 ∷ []) ≡ s ++ 10 ∷ []
unfolding before_nul
before_nul-line [] h = refl
before_nul-line (c ∷ s) h =
    let t : (c == 0) ≡ false = ground arith in rw (t, before_nul-line s h.2) refl

span-word : (s rest : List ℕ) → NoSpace s → span (s ++ 32 ∷ rest) ≡ (s, rest)
unfolding span
span-word [] rest h = refl
span-word (c ∷ s) rest h =
    let t : (c == 32) ≡ false = ground arith in rw (t, span-word s rest h.1) refl

-- A word in front of a space is the first token.
pub strtok-word : (s rest : List ℕ) → IsWord s → strtok (s ++ 32 ∷ rest) ≡ some (s, rest)
unfolding strtok
strtok-word [] rest w = absurd (w.some_byte refl)
strtok-word (c ∷ s) rest w =
    let t : (c == 32) ≡ false = ground (arith, w.no_space.0) in
    rw (t, span-word s rest w.no_space.1) refl

span-line : (s : List ℕ) → NoSpace s → span (s ++ 10 ∷ []) ≡ (s ++ 10 ∷ [], [])
unfolding span
span-line [] h = refl
span-line (c ∷ s) h = let t : (c == 32) ≡ false = ground arith in rw (t, span-line s h.1) refl

-- The last token of a line is the word with the newline.
pub strtok-line : (s : List ℕ) → IsWord s → strtok (s ++ 10 ∷ []) ≡ some (s ++ 10 ∷ [], [])
unfolding strtok
strtok-line [] w = absurd (w.some_byte refl)
strtok-line (c ∷ s) w =
    let t : (c == 32) ≡ false = ground (arith, w.no_space.0) in
    rw (t, span-line s w.no_space.1) refl

pub decimal-IsWord : (n : ℕ) → IsWord (decimal n)
decimal-IsWord n = record {
  some_byte = decimal-ne-nil n;
  one_line = OneLine-AllDigits (decimal n) (AllDigits-decimal n);
  no_space = NoSpace-AllDigits (decimal n) (AllDigits-decimal n);
}
