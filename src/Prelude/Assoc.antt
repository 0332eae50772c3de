-- ===== src/Prelude/Assoc.antt =====
-- `unordered_map<uint32_t, V>` as an association list: `insert` keeps an existing entry.
use Prim.Native.Nat.{ℕ}
use mathlib.Core.Path.{◌≡◌, refl}
use mathlib.Core.List.{List, [], ◌∷◌}
use mathlib.Core.Option.{Option, none, some}
use native.Mathlib.Omega.{arith}
use btrx.Prelude.Tests.{◌==◌, if◌then◌else◌}

module _ {ℓ} {V : Type ℓ} where
  unfoldable pub find : ℕ → List (ℕ × V) → Option V
  find k [] = none
  find k ((j, v) ∷ m) = if j == k then some v else find k m

  unfoldable pub erase : ℕ → List (ℕ × V) → List (ℕ × V)
  erase k [] = []
  erase k ((j, v) ∷ m) = if j == k then erase k m else (j, v) ∷ erase k m

  -- `insert` does nothing where the key is there.
  unfoldable pub insert : ℕ → V → List (ℕ × V) → List (ℕ × V)
  insert k v [] = (k, v) ∷ []
  insert k v ((j, w) ∷ m) = if j == k then (j, w) ∷ m else (j, w) ∷ insert k v m

  -- `m[k] = v`.
  unfoldable pub assign : ℕ → V → List (ℕ × V) → List (ℕ × V)
  assign k v [] = (k, v) ∷ []
  assign k v ((j, w) ∷ m) = if j == k then (j, v) ∷ m else (j, w) ∷ assign k v m

  pub find-insert :
      (q k : ℕ) (v : V) (m : List (ℕ × V))
      → find q (insert k v m)
        ≡ elim (find q m) [ some w ↦ some w | none ↦ if k == q then some v else none ]
  unfolding find insert
  find-insert q k v [] = refl
  find-insert q k v ((j, w) ∷ m) = ground (arith, find-insert q k v m)

  pub find-erase :
      (q k : ℕ) (m : List (ℕ × V)) → find q (erase k m) ≡ (if k == q then none else find q m)
  unfolding find erase
  find-erase q k [] = ground arith
  find-erase q k ((j, w) ∷ m) = ground (arith, find-erase q k m)

  pub find-assign :
      (q k : ℕ) (v : V) (m : List (ℕ × V))
      → find q (assign k v m) ≡ (if k == q then some v else find q m)
  unfolding find assign
  find-assign q k v [] = refl
  find-assign q k v ((j, w) ∷ m) = ground (arith, find-assign q k v m)
