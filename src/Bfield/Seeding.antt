-- ===== src/Bfield/Seeding.antt =====
-- What the constructor `Bfield(bool, bool, int)` of objstore/bfield.cpp puts into a new field.
use btrx.Prelude.{
  ℕ, zero, suc, ◌+◌, ◌/◌, ◌%◌, ◌<◌, ◌≡◌, refl, ◌∙◌, Bool, true, false, ◌||◌, List, [], ◌∷◌, ◌++◌,
  ok, ◌==◌, if◌then◌else◌, get_or, length, replicate, arith, length-append, length-replicate,
  Bool-cases, inl, inr,
}
use btrx.Prelude.Bits.{testbit, testbit_zero}
use btrx.Rwlock.{Rwlocks}
use btrx.Bfield.{Bfield, initial_bytes, create_bfield, init_lock}
use btrx.Bfield.Has.{has}

module _ (x y : ℕ) where
  get_or-replicate : (n i : ℕ) (ys : List ℕ) → i < n → get_or (replicate n x ++ ys) i 0 ≡ x
  get_or-replicate zero i ys h = absurd (omega arith)
  get_or-replicate (suc n) zero ys h = refl
  get_or-replicate (suc n) (suc i) ys h = get_or-replicate n i ys (omega arith)

  get_or-replicate_self : (n i : ℕ) → i < n → get_or (replicate n x) i 0 ≡ x
  get_or-replicate_self zero i h = absurd (omega arith)
  get_or-replicate_self (suc n) zero h = refl
  get_or-replicate_self (suc n) (suc i) h = get_or-replicate_self n i (omega arith)

  get_or-append_last : (n i : ℕ) → i ≡ n → get_or (replicate n x ++ y ∷ []) i 0 ≡ y
  get_or-append_last zero zero h = refl
  get_or-append_last zero (suc i) h = absurd (omega arith)
  get_or-append_last (suc n) zero h = absurd (omega arith)
  get_or-append_last (suc n) (suc i) h = get_or-append_last n i (omega arith)

get_or-replicate_zero : (n i : ℕ) → get_or (replicate {A = ℕ} n 0) i 0 ≡ 0
get_or-replicate_zero zero i = refl
get_or-replicate_zero (suc n) zero = refl
get_or-replicate_zero (suc n) (suc i) = get_or-replicate_zero n i

get_or-zeros : (n i : ℕ) → get_or (replicate {A = ℕ} n 0 ++ 0 ∷ []) i 0 ≡ 0
get_or-zeros zero zero = refl
get_or-zeros zero (suc i) = refl
get_or-zeros (suc n) zero = refl
get_or-zeros (suc n) (suc i) = get_or-zeros n i

testbit_full : (j : ℕ) → j < 8 → testbit 255 j ≡ true
unfolding testbit
testbit_full zero h = refl
testbit_full (suc zero) h = refl
testbit_full (suc (suc zero)) h = refl
testbit_full (suc (suc (suc zero))) h = refl
testbit_full (suc (suc (suc (suc zero)))) h = refl
testbit_full (suc (suc (suc (suc (suc zero))))) h = refl
testbit_full (suc (suc (suc (suc (suc (suc zero)))))) h = refl
testbit_full (suc (suc (suc (suc (suc (suc (suc zero))))))) h = refl
testbit_full (suc (suc (suc (suc (suc (suc (suc (suc j)))))))) h = absurd (omega arith)

testbit_one : (j : ℕ) → testbit 1 j ≡ (j == 0)
unfolding testbit
testbit_one zero = refl
testbit_one (suc j) = testbit_zero j ∙ (ground arith)

length-initial_bytes :
    (hasfile : Bool) (npcs : ℕ) → length (initial_bytes hasfile npcs) ≡ (npcs + 7) / 8
unfolding initial_bytes
length-initial_bytes hasfile npcs =
    let x : ℕ = if hasfile then 1 else 0 in
    ground (
      arith,
      length-replicate (npcs / 8) x,
      length-append (replicate (npcs / 8) x) (255 ∷ []),
      length-append (replicate (npcs / 8) x) (0 ∷ []),
    )

initial_bytes_full :
    (npcs p : ℕ)
    → p / 8 < (npcs + 7) / 8
    → has (initial_bytes true npcs) p ≡ (p % 8 == 0) || (p / 8 == npcs / 8)
unfolding initial_bytes
initial_bytes_full npcs p h = elim (Bool-cases (npcs % 8 == 0)) [
  | inl e ↦
      rw (e, get_or-replicate_self 1 0 (npcs / 8) (p / 8) (ground arith), testbit_one)
        (ground arith)
  | inr e ↦ elim (Bool-cases (p / 8 == npcs / 8)) [
    | inl last ↦
        rw (e, get_or-append_last 1 255 (npcs / 8) (p / 8) (ground arith), last)
          (testbit_full (p % 8) (omega arith) ∙ (ground arith))
    | inr early ↦
        rw
          (e, get_or-replicate 1 0 (npcs / 8) (p / 8) (255 ∷ []) (ground arith), testbit_one, early)
          (ground arith)
  ]
]

initial_bytes_empty : (npcs p : ℕ) → has (initial_bytes false npcs) p ≡ false
unfolding initial_bytes
initial_bytes_empty npcs p = elim (Bool-cases (npcs % 8 == 0)) [
  | inl e ↦ rw (e, get_or-replicate_zero) (testbit_zero (p % 8))
  | inr e ↦ rw (e, get_or-zeros) (testbit_zero (p % 8))
]

module _ {L : Type 0} (pt : Rwlocks L) (junk : L) (npcs : ℕ) {l : L} where
  -- The field of a peer without the file: where its lock can be initialised, the constructor returns
  -- a field with room for every piece that holds none.
  create_bfield_empty :
      (p : ℕ)
      → pt.init pt.initializer ≡ (0, l)
      → (b : Bfield L) × (create_bfield pt junk false true npcs ≡ ok b)
        × (length b.bfield ≡ (npcs + 7) / 8)
        × (has b.bfield p ≡ false)
  unfolding create_bfield init_lock
  create_bfield_empty p h = (
    record { rwlock = l; needlock = true; bfield = initial_bytes false npcs },
    rw h refl,
    length-initial_bytes false npcs,
    initial_bytes_empty npcs p,
  )

  -- The field of a peer with the file: where its lock can be initialised, the constructor returns a
  -- field with room for every piece; of each byte but a partial last one only the lowest bit is set,
  -- and of a partial last one every bit.
  pub create_bfield_full :
      (p : ℕ)
      → pt.init pt.initializer ≡ (0, l)
      → p / 8 < (npcs + 7) / 8
      → (b : Bfield L) × (create_bfield pt junk true true npcs ≡ ok b)
        × (length b.bfield ≡ (npcs + 7) / 8)
        × (has b.bfield p ≡ (p % 8 == 0) || (p / 8 == npcs / 8))
  unfolding create_bfield init_lock
  create_bfield_full p h below = (
    record { rwlock = l; needlock = true; bfield = initial_bytes true npcs },
    rw h refl,
    length-initial_bytes true npcs,
    initial_bytes_full npcs p below,
  )
