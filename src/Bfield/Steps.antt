-- ===== src/Bfield/Steps.antt =====
-- What one call does to a field of objstore/bfield.cpp, whatever the locks do.
use btrx.Prelude.{
  not, if◌then◌else◌, ℕ, ◌+◌, ◌*◌, ◌/◌, ◌%◌, ◌<◌, ◌≡◌, refl, ap, ◌∙◌, sym, subst, Bool, true, false,
  List, ok, arith, defined, ok_of_bind, ok_injective, Bool-cases, inl, inr, length, get_elem?,
  lt_of_get_elem?, Option-cases, length-set, ◌⊎◌,
}
use mathlib.Core.Path.{ap₂}
use btrx.Prelude.Bits.{bit_mask}
use btrx.Rwlock.{Rwlocks}
use btrx.Bfield.{
  Bfield, rd_lock, wr_lock, un_lock, flip_bytes, diff, diff_loop, exists, flip_at, flip, clone,
}
use btrx.Bfield.Has.{has, raised, has-raised, flip_bytes-has}

module _ {L : Type 0} (pt : Rwlocks L) where
  -- One call that returns.
  pub data FieldStep : Bfield L → Bfield L → Type 0 where
    clones : (b b' : Bfield L) (vec : List ℕ) → clone pt b ≡ ok (b', vec) → FieldStep b b'
    compares :
        (b b' : Bfield L) (right out out' : List ℕ)
        → diff pt b right out ≡ ok (b', out')
        → FieldStep b b'
    looks :
        (b b' : Bfield L) (pos : ℕ) (ret : Bool) → exists pt b pos ≡ ok (b', ret) → FieldStep b b'
    flips : (b b' : Bfield L) (pcno : ℕ) → flip pt b pcno ≡ ok b' → FieldStep b b'
    claims :
        (b b' : Bfield L) (i j : ℕ) (ret : Bool)
        → j < 8
        → flip_at pt b i j ≡ ok (b', ret)
        → FieldStep b b'

-- The field has the same bytes as far as their number goes, and holds what it held.
pub record Grows (old new : List ℕ) : Type 0 where
  pub size : length new ≡ length old
  pub held : (p : ℕ) → has old p ≡ true → has new p ≡ true

pub Grows-refl : (field : List ℕ) → Grows field field
Grows-refl field = record { size = refl; held = λ p h. h }

pub Grows-trans : {a b c : List ℕ} → Grows a b → Grows b c → Grows a c
Grows-trans g h = record { size = h.size ∙ g.size; held = λ p t. h.held p (g.held p t) }

Grows-raised :
    (field : List ℕ) (p : ℕ)
    → p / 8 < length field
    → has field p ≡ false
    → Grows field (raised field p)
Grows-raised field p below unset = record {
  size = length-set field (p / 8) _;
  held = λ q there. rw (has-raised field p q below unset, there) (ground arith);
}

-- A flip that returns is of a piece within the bytes; it tells whether the piece was missing.
pub flip_bytes-piece :
    (field field' : List ℕ) (w j : ℕ) (ret : Bool)
    → j < 8
    → flip_bytes field w (bit_mask j) ≡ ok (field', ret)
    → ((w * 8 + j) / 8 < length field)
      × (ret ≡ not (has field (w * 8 + j)))
      × (field' ≡ (if has field (w * 8 + j) then field else raised field (w * 8 + j)))
unfolding flip_bytes
flip_bytes-piece field field' w j ret small e = elim (Option-cases (get_elem? field w)) [
  | inl outside ↦ absurd (ground (arith, outside, e))
  | inr (byte, at) ↦
      let p = w * 8 + j in
      let below : p / 8 < length field = omega (arith, lt_of_get_elem? field w at) in
      let here : w ≡ p / 8 = omega arith in
      let bit : j ≡ p % 8 = omega arith in
      let e' =
        subst (λ (t : ℕ × ℕ). flip_bytes field t.0 (bit_mask t.1) ≡ ok (field', ret))
          (ap₂ (λ (a b : ℕ). (a, b)) here bit) e in
      let known = flip_bytes-has field p below in
      elim (Bool-cases (has field p)) [
        | inl set ↦ (below, ground (arith, set, e', known), ground (arith, set, e', known))
        | inr unset ↦ (below, ground (arith, unset, e', known), ground (arith, unset, e', known))
      ]
]

Grows-flip_bytes :
    (field field' : List ℕ) (w j : ℕ) (ret : Bool)
    → j < 8
    → flip_bytes field w (bit_mask j) ≡ ok (field', ret)
    → Grows field field'
Grows-flip_bytes field field' w j ret small e =
    let (below, _, after) = flip_bytes-piece field field' w j ret small e in
    elim (Bool-cases (has field (w * 8 + j))) [
      | inl set ↦ subst (Grows field) (sym (after ∙ (rw set refl))) (Grows-refl field)
      | inr unset ↦
          subst (Grows field) (sym (after ∙ (rw unset refl)))
            (Grows-raised field (w * 8 + j) below unset)
    ]

module _ {L : Type 0} (pt : Rwlocks L) where
  rd_lock-bytes : (b b' : Bfield L) → rd_lock pt b ≡ ok b' → b'.bfield ≡ b.bfield
  unfolding rd_lock
  rd_lock-bytes b b' e = ground arith

  wr_lock-bytes : (b b' : Bfield L) → wr_lock pt b ≡ ok b' → b'.bfield ≡ b.bfield
  unfolding wr_lock
  wr_lock-bytes b b' e = ground arith

  un_lock-bytes : (b b' : Bfield L) → un_lock pt b ≡ ok b' → b'.bfield ≡ b.bfield
  unfolding un_lock
  un_lock-bytes b b' e = ground arith

  pub flip_at-bytes :
      (b b' : Bfield L) (i j : ℕ) (ret : Bool)
      → flip_at pt b i j ≡ ok (b', ret)
      → flip_bytes b.bfield i (bit_mask j) ≡ ok (b'.bfield, ret)
  unfolding flip_at
  flip_at-bytes b b' i j ret e =
      let (b1, locked, rest) = ok_of_bind (wr_lock pt b) _ e in
      let ((field, ret'), flipped, rest1) =
        ok_of_bind (flip_bytes b1.bfield i (bit_mask j)) _ rest in
      let (b2, freed, rest2) = ok_of_bind (un_lock pt (record b1 { bfield = field })) _ rest1 in
      let before = wr_lock-bytes b b1 locked in
      let after = un_lock-bytes (record b1 { bfield = field }) b2 freed in
      subst (λ (r : Bfield L × Bool). flip_bytes b.bfield i (bit_mask j) ≡ ok (r.0.bfield, r.1))
        (ok_injective rest2) (rw (← before, after) flipped)

  -- The bytes stay, or one bit of a byte is flipped.
  abbrev pub Flips : Bfield L → Bfield L → Type 0
  Flips b b' =
      (b'.bfield ≡ b.bfield)
      ⊎ ((w : ℕ) × (j : ℕ) × (ret : Bool) × (j < 8)
          × (flip_bytes b.bfield w (bit_mask j) ≡ ok (b'.bfield, ret)))

  Flips-read :
      (b b1 b2 b' : Bfield L) → rd_lock pt b ≡ ok b1 → un_lock pt b1 ≡ ok b2 → b2 ≡ b' → Flips b b'
  Flips-read b b1 b2 b' read freed same =
      inl (ap (λ b. b.bfield) (sym same) ∙ un_lock-bytes b1 b2 freed ∙ rd_lock-bytes b b1 read)

  Flips-flip :
      (b b1 b' : Bfield L) (w j : ℕ) (field : List ℕ) (ret : Bool)
      → j < 8
      → wr_lock pt b ≡ ok b1
      → flip_bytes b1.bfield w (bit_mask j) ≡ ok (field, ret)
      → un_lock pt (record b1 { bfield = field }) ≡ ok b'
      → Flips b b'
  Flips-flip b b1 b' w j field ret small locked flipped freed =
      let before = wr_lock-bytes b b1 locked in
      let after = un_lock-bytes (record b1 { bfield = field }) b' freed in
      inr (w, j, ret, small, rw (← before, after) flipped)

  FieldStep-Flips : {b b' : Bfield L} → FieldStep pt b b' → Flips b b'
  unfolding clone diff exists flip flip_at
  FieldStep-Flips (clones b b' vec e) =
      let (b1, read, rest) = ok_of_bind (rd_lock pt b) _ e in
      let (b2, freed, rest1) = ok_of_bind (un_lock pt b1) _ rest in
      Flips-read b b1 b2 b' read freed (ap (λ (r : Bfield L × List ℕ). r.0) (ok_injective rest1))
  FieldStep-Flips (compares b b' right out out' e) =
      let (b1, read, rest) = ok_of_bind (rd_lock pt b) _ e in
      let (b2, freed, rest1) = ok_of_bind (un_lock pt b1) _ rest in
      let (_, _, rest2) = ok_of_bind (diff_loop b1.bfield right out) _ rest1 in
      Flips-read b b1 b2 b' read freed (ap (λ (r : Bfield L × List ℕ). r.0) (ok_injective rest2))
  FieldStep-Flips (looks b b' pos ret e) =
      let (b1, read, rest) = ok_of_bind (rd_lock pt b) _ e in
      let (_, _, rest1) = ok_of_bind (defined (get_elem? b1.bfield (pos / 8))) _ rest in
      let (b2, freed, rest2) = ok_of_bind (un_lock pt b1) _ rest1 in
      Flips-read b b1 b2 b' read freed (ap (λ (r : Bfield L × Bool). r.0) (ok_injective rest2))
  FieldStep-Flips (flips b b' pcno e) =
      let (b1, locked, rest) = ok_of_bind (wr_lock pt b) _ e in
      let ((field, ret), flipped, freed) =
        ok_of_bind (flip_bytes b1.bfield (pcno / 8) (bit_mask (pcno % 8))) _ rest in
      Flips-flip b b1 b' (pcno / 8) (pcno % 8) field ret (omega arith) locked flipped freed
  FieldStep-Flips (claims b b' i j ret small e) =
      inr (i, j, ret, small, flip_at-bytes b b' i j ret e)

  -- What a flip keeps of the bytes, every call keeps.
  pub FieldStep_keeps {κ} :
      (P : List ℕ → Type κ)
      → ((field field' : List ℕ) (w j : ℕ) (ret : Bool)
          → j < 8
          → flip_bytes field w (bit_mask j) ≡ ok (field', ret)
          → P field
          → P field')
      → {b b' : Bfield L} → FieldStep pt b b'
      → P b.bfield
      → P b'.bfield
  FieldStep_keeps P keeps {b} {b'} step before = elim (FieldStep-Flips step) [
    | inl same ↦ subst P (sym same) before
    | inr (w, j, ret, small, e) ↦ keeps b.bfield b'.bfield w j ret small e before
  ]

  -- No call takes a piece out of a field or changes the number of its bytes.
  pub Grows-FieldStep : {b b' : Bfield L} → FieldStep pt b b' → Grows b.bfield b'.bfield
  Grows-FieldStep {b} step = FieldStep_keeps (Grows b.bfield) grow step (Grows-refl b.bfield)
    where
      grow :
          (field field' : List ℕ) (w j : ℕ) (ret : Bool)
          → j < 8
          → flip_bytes field w (bit_mask j) ≡ ok (field', ret)
          → Grows b.bfield field
          → Grows b.bfield field'
      grow field field' w j ret small e before =
          Grows-trans before (Grows-flip_bytes field field' w j ret small e)
