-- ===== src/Prelude/Places.antt =====
-- Where the elements of a list are after a change of it.
use Prim.Native.Nat.{ℕ, zero, suc}
use mathlib.Core.Path.{◌≡◌, refl, ap}
use mathlib.Core.List.{List, [], ◌∷◌, ◌++◌}
use mathlib.Core.Option.{some, some_inj}
use mathlib.Core.Logic.{◌⊎◌, inl, inr}
use native.Mathlib.Omega.{arith}
use btrx.Prelude.Lists.{get_elem?, set, erase_idx}

-- The place, in a list, of what stands at `k` once the place `i` is taken out.
abbrev pub past : ℕ → ℕ → ℕ
past zero k = suc k
past (suc i) zero = zero
past (suc i) (suc k) = suc (past i k)

pub past_injective : (i k l : ℕ) → past i k ≡ past i l → k ≡ l
past_injective zero k l e = omega arith
past_injective (suc i) zero zero e = refl
past_injective (suc i) zero (suc l) e = absurd (omega arith)
past_injective (suc i) (suc k) zero e = absurd (omega arith)
past_injective (suc i) (suc k) (suc l) e = ap suc (past_injective i k l (omega arith))

module _ {A : Type 0} where
  pub get_elem?-erase_idx :
      (xs : List A) (i k : ℕ) → get_elem? (erase_idx xs i) k ≡ get_elem? xs (past i k)
  get_elem?-erase_idx [] i k = refl
  get_elem?-erase_idx (x ∷ xs) zero k = refl
  get_elem?-erase_idx (x ∷ xs) (suc i) zero = refl
  get_elem?-erase_idx (x ∷ xs) (suc i) (suc k) = get_elem?-erase_idx xs i k

  pub get_elem?-set_cases :
      (xs : List A) (i k : ℕ) (y : A) {d : A}
      → get_elem? (set xs i y) k ≡ some d
      → ((k ≡ i) × (y ≡ d)) ⊎ (get_elem? xs k ≡ some d)
  get_elem?-set_cases [] i k y e = inr e
  get_elem?-set_cases (x ∷ xs) zero zero y e = inl (refl, some_inj.0 e)
  get_elem?-set_cases (x ∷ xs) zero (suc k) y e = inr e
  get_elem?-set_cases (x ∷ xs) (suc i) zero y e = inr e
  get_elem?-set_cases (x ∷ xs) (suc i) (suc k) y e = elim (get_elem?-set_cases xs i k y e) [
    | inl (same, new) ↦ inl (ap suc same, new)
    | inr old ↦ inr old
  ]

  pub get_elem?-append_cases :
      (xs : List A) (k : ℕ) (y : A) {d : A}
      → get_elem? (xs ++ y ∷ []) k ≡ some d
      → (y ≡ d) ⊎ (get_elem? xs k ≡ some d)
  get_elem?-append_cases [] zero y e = inl (some_inj.0 e)
  get_elem?-append_cases [] (suc k) y e = inr e
  get_elem?-append_cases (x ∷ xs) zero y e = inr e
  get_elem?-append_cases (x ∷ xs) (suc k) y e = get_elem?-append_cases xs k y e
