-- ===== src/Bfield/Members.antt =====
-- What the member functions of objstore/bfield.cpp do to the set of pieces, on a field whose lock
-- nobody holds.
use btrx.Prelude.{
  ℕ, ◌+◌, ◌*◌, ◌/◌, ◌%◌, ◌≤◌, ◌<◌, ◌≡◌, refl, ap, subst, bit_xor, ◌∙◌, sym, true, false, not, ◌&&◌,
  ◌||◌, List, ◌++◌, ok, undefined, ◌==◌, if◌then◌else◌, get_or, length, arith, get_elem?_of_lt,
  get_elem?_of_le, length-set, Bool-cases, inl, inr, ==_iff, ==_self,
}
use btrx.Prelude.Bits.{bit_mask, bit_mask_lem, mask_nonzero}
use mathlib.Core.Path.{ap₂}
use btrx.Rwlock.{Rwlocks}
use btrx.Bfield.{Bfield, diff, exists, flip, flip_at, flip_bytes, clone}
use btrx.Bfield.Has.{
  has, raised, has-raised, flip_bytes-has, missing, has-missing, length-missing, diff_loop-missing,
  diff_loop_short,
}
use btrx.Bfield.Locked.{IsIdle, rd_lock-un_lock, wr_lock-un_lock}

-- The bytes with one more piece.
unfoldable pub with_piece : List ℕ → ℕ → List ℕ
with_piece field p = if has field p then field else raised field p

pub has-with_piece :
    (field : List ℕ) (p q : ℕ)
    → p / 8 < length field
    → has (with_piece field p) q ≡ (p == q) || has field q
unfolding with_piece
has-with_piece field p q h = elim (Bool-cases (has field p)) [
  | inl old ↦ elim (Bool-cases (p == q)) [
    | inl e ↦ rw (old, e) (subst (λ t. has field t ≡ true) ((==_iff p q).0 e) old)
    | inr e ↦ rw (old, e)
  ]
  | inr new ↦ rw new (has-raised field p q h new)
]

pub length-with_piece : (field : List ℕ) (p : ℕ) → length (with_piece field p) ≡ length field
unfolding with_piece
length-with_piece field p =
    ground
      (arith, length-set field (p / 8) (bit_xor (get_or field (p / 8) 0) (bit_mask (p % 8)) % 256))

flip_bytes-with_piece :
    (field : List ℕ) (p : ℕ)
    → p / 8 < length field
    → flip_bytes field (p / 8) (bit_mask (p % 8)) ≡ ok (with_piece field p, not (has field p))
unfolding with_piece
flip_bytes-with_piece field p h = flip_bytes-has field p h ∙ (ground arith)

flip_at_bytes :
    (field : List ℕ) (i j : ℕ)
    → i < length field
    → j < 8
    → flip_bytes field i (bit_mask j)
      ≡ ok (with_piece field (i * 8 + j), not (has field (i * 8 + j)))
flip_at_bytes field i j h q =
    let quot : (i * 8 + j) / 8 ≡ i = omega arith in
    let rem : (i * 8 + j) % 8 ≡ j = omega arith in
    ap₂ (λ w k. flip_bytes field w (bit_mask k)) (sym quot) (sym rem)
    ∙ flip_bytes-with_piece field (i * 8 + j) (omega arith)

module _ {L : Type 0} (pt : Rwlocks L) (b : Bfield L) where
  pub exists-has :
      (p : ℕ) → IsIdle pt b → p / 8 < length b.bfield → exists pt b p ≡ ok (b, has b.bfield p)
  unfolding exists
  exists-has p idle h =
      let (b', locked, same, unlocked) = rd_lock-un_lock pt b idle in
      rw
        (
          locked,
          same,
          get_elem?_of_lt b.bfield (p / 8) 0 h,
          bit_mask_lem (p % 8) (omega arith),
          mask_nonzero,
          unlocked,
        )
        refl

  pub exists_out : (p : ℕ) → IsIdle pt b → length b.bfield ≤ p / 8 → exists pt b p ≡ undefined
  unfolding exists
  exists_out p idle h =
      let (b', locked, same, unlocked) = rd_lock-un_lock pt b idle in
      rw (locked, same, get_elem?_of_le b.bfield (p / 8) h) refl

  pub flip_at-with_piece :
      (i j : ℕ)
      → IsIdle pt b
      → i < length b.bfield
      → j < 8
      → flip_at pt b i j
        ≡ ok (record b { bfield = with_piece b.bfield (i * 8 + j) }, not (has b.bfield (i * 8 + j)))
  unfolding flip_at
  flip_at-with_piece i j idle h q =
      let (b', locked, same, unlocked) =
        wr_lock-un_lock pt b (with_piece b.bfield (i * 8 + j)) idle in
      rw (locked, same, flip_at_bytes b.bfield i j h q, unlocked) refl

  pub flip-with_piece :
      (p : ℕ)
      → IsIdle pt b
      → p / 8 < length b.bfield
      → flip pt b p ≡ ok (record b { bfield = with_piece b.bfield p })
  unfolding flip
  flip-with_piece p idle h =
      let (b', locked, same, unlocked) = wr_lock-un_lock pt b (with_piece b.bfield p) idle in
      rw (locked, same, flip_bytes-with_piece b.bfield p h, unlocked) refl

  pub diff-missing :
      (right out : List ℕ)
      → IsIdle pt b
      → length b.bfield ≤ length right
      → diff pt b right out ≡ ok (b, out ++ missing b.bfield right)
  unfolding diff
  diff-missing right out idle h =
      let (b', locked, same, unlocked) = rd_lock-un_lock pt b idle in
      rw (locked, unlocked, same, diff_loop-missing b.bfield right out h) refl

  pub diff_short :
      (right out : List ℕ)
      → IsIdle pt b
      → length right < length b.bfield
      → diff pt b right out ≡ undefined
  unfolding diff
  diff_short right out idle h =
      let (b', locked, same, unlocked) = rd_lock-un_lock pt b idle in
      rw (locked, unlocked, same, diff_loop_short b.bfield right out h) refl

  pub clone_lem : IsIdle pt b → clone pt b ≡ ok (b, b.bfield)
  unfolding clone
  clone_lem idle =
      let (b', locked, same, unlocked) = rd_lock-un_lock pt b idle in
      rw (locked, unlocked, same) refl

  -- On an idle field that is no longer than `right`, `diff` leaves the field and the bytes that `diff` had, and appends as many bytes as the field
  -- has: those of the pieces that `right` has and the field lacks.
  diff_lem :
      (right out : List ℕ) (p : ℕ)
      → IsIdle pt b
      → length b.bfield ≤ length right
      → p / 8 < length b.bfield
      → (added : List ℕ) × (diff pt b right out ≡ ok (b, out ++ added))
        × (length added ≡ length b.bfield)
        × (has added p ≡ has right p && not (has b.bfield p))
  diff_lem right out p idle h below = (
    missing b.bfield right,
    diff-missing right out idle h,
    length-missing b.bfield right h,
    has-missing b.bfield right p h below,
  )

module _ {L : Type 0} (pt : Rwlocks L) (b : Bfield L) where
  -- On an idle field, after `flip` of a piece within its bytes, `exists` finds that piece and those
  -- that were there, and no other.
  pub exists_after_flip :
      (p q : ℕ)
      → IsIdle pt b
      → p / 8 < length b.bfield
      → q / 8 < length b.bfield
      → (b' : Bfield L) × (flip pt b p ≡ ok b')
        × (exists pt b' q ≡ ok (b', (p == q) || has b.bfield q))
  exists_after_flip p q idle below below' =
      let b' = record b { bfield = with_piece b.bfield p } in
      (
        b',
        flip-with_piece pt b p idle below,
        exists-has pt b' q idle (omega (arith, length-with_piece b.bfield p))
            ∙ ap (λ t. ok (b', t)) (has-with_piece b.bfield p q below),
      )

  -- On an idle field, the first `flip` of a bit of its bytes tells whether it was unset, and a second one returns false and
  -- changes nothing.
  flip_at_twice :
      (i j : ℕ)
      → IsIdle pt b
      → i < length b.bfield
      → j < 8
      → (b' : Bfield L) × (flip_at pt b i j ≡ ok (b', not (has b.bfield (i * 8 + j))))
        × (has b'.bfield (i * 8 + j) ≡ true)
        × (flip_at pt b' i j ≡ ok (b', false))
  unfolding with_piece
  flip_at_twice i j idle below small =
      let p = i * 8 + j in
      let b' = record b { bfield = with_piece b.bfield p } in
      let there : has b'.bfield p ≡ true =
        has-with_piece b.bfield p p (omega arith) ∙ (rw (==_self p)) in
      (
        b',
        flip_at-with_piece pt b i j idle below small,
        there,
        flip_at-with_piece pt b' i j idle (omega (arith, length-with_piece b.bfield p)) small
            ∙ ap
                (λ t. ok (record b { bfield = if t then b'.bfield else raised b'.bfield p }, not t))
                there,
      )
