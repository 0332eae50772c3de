-- ===== src/Prelude/Ends.antt =====
-- How a C++ call ends: it returns, the process leaves by `_exit`, an exception is thrown, or the
-- call runs into undefined behaviour (an index out of range, a null or dangling pointer).
use mathlib.Core.Option.{Option, none, some}
use mathlib.Core.Logic.{◌⊎◌, inl, inr}
use mathlib.Core.Path.{◌≡◌, refl, ap}
use native.Mathlib.Omega.{arith}
use Prim.Native.Nat.{ℕ}

pub data Outcome {ℓ} (A : Type ℓ) : Type ℓ where
  ok : A → Outcome A
  exits : ℕ → Outcome A
  throws : Outcome A
  undefined : Outcome A

infixl 5 ◌>>=◌
abbrev pub ◌>>=◌ {ℓ κ} : {A : Type ℓ} {B : Type κ} → Outcome A → (A → Outcome B) → Outcome B
ok a >>= f = f a
exits n >>= f = exits n
throws >>= f = throws
undefined >>= f = undefined

-- A read that is undefined where there is nothing to read.
abbrev pub defined {ℓ} : {A : Type ℓ} → Option A → Outcome A
defined none = undefined
defined (some a) = ok a

-- A call of the JSON library that throws where the value does not have the shape asked for.
abbrev pub or_throw {ℓ} : {A : Type ℓ} → Option A → Outcome A
or_throw none = throws
or_throw (some a) = ok a

-- A chain that returns has a first call that returned.
pub ok_of_bind {ℓ κ} :
    {A : Type ℓ} {B : Type κ} (r : Outcome A) (f : A → Outcome B) {b : B}
    → (r >>= f) ≡ ok b
    → (a : A) × (r ≡ ok a) × (f a ≡ ok b)
ok_of_bind (ok a) f e = (a, refl, e)
ok_of_bind (exits n) f e = absurd (ground arith)
ok_of_bind throws f e = absurd (ground arith)
ok_of_bind undefined f e = absurd (ground arith)

pub ok_injective {ℓ} : {A : Type ℓ} {a b : A} → ok a ≡ ok b → a ≡ b
ok_injective {a = a} e = ap (λ r. elim r [ ok x ↦ x | _ ↦ a ]) e

pub Outcome-cases {ℓ} :
    {A : Type ℓ} (r : Outcome A)
    → ((a : A) × (r ≡ ok a)) ⊎ ((r ≡ throws) ⊎ ((r ≡ undefined) ⊎ ((n : ℕ) × (r ≡ exits n))))
Outcome-cases (ok a) = inl (a, refl)
Outcome-cases (exits n) = inr (inr (inr (n, refl)))
Outcome-cases throws = inr (inl refl)
Outcome-cases undefined = inr (inr (inl refl))

pub >>=_assoc {ℓ κ μ} :
    {A : Type ℓ} {B : Type κ} {C : Type μ} (r : Outcome A) (f : A → Outcome B) (g : B → Outcome C)
    → ((r >>= f) >>= g) ≡ (r >>= (λ a. f a >>= g))
>>=_assoc (ok a) f g = refl
>>=_assoc (exits n) f g = refl
>>=_assoc throws f g = refl
>>=_assoc undefined f g = refl

pub defined-some {ℓ} : {A : Type ℓ} (o : Option A) {a : A} → defined o ≡ ok a → o ≡ some a
defined-some none e = absurd (ground arith)
defined-some (some a) e = ap some (ok_injective e)
