-- ===== src/Bfield/Locked.antt =====
-- The lock discipline of objstore/bfield.cpp: on a field whose lock nobody holds, each member
-- function's lock and unlock succeed and leave it as it was.
use btrx.Prelude.{ℕ, ◌≡◌, refl, ◌⊎◌, inl, inr, false, List, ok, arith, Bool-cases}
use btrx.Rwlock.{Rwlocks, IsFree}
use btrx.Bfield.{Bfield, rd_lock, wr_lock, un_lock}

-- No lock is needed, or nobody holds it.
abbrev pub IsIdle : {L : Type 0} → Rwlocks L → Bfield L → Type 0
IsIdle pt b = (b.needlock ≡ false) ⊎ IsFree pt b.rwlock

module _ {L : Type 0} (pt : Rwlocks L) (b : Bfield L) where
  pub rd_lock-un_lock :
      IsIdle pt b
      → (b' : Bfield L) × (rd_lock pt b ≡ ok b') × (b'.bfield ≡ b.bfield) × (un_lock pt b' ≡ ok b)
  unfolding rd_lock un_lock
  rd_lock-un_lock (inl e) = (b, rw e, refl, rw e)
  rd_lock-un_lock (inr f) = elim (Bool-cases b.needlock) [
    | inl e ↦ (record b { rwlock = f.held }, ground arith, refl, ground arith)
    | inr e ↦ (b, rw e, refl, rw e)
  ]

  pub wr_lock-un_lock :
      (field : List ℕ)
      → IsIdle pt b
      → (b' : Bfield L) × (wr_lock pt b ≡ ok b')
        × (b'.bfield ≡ b.bfield)
        × (un_lock pt (record b' { bfield = field }) ≡ ok (record b { bfield = field }))
  unfolding wr_lock un_lock
  wr_lock-un_lock field (inl e) = (b, rw e, refl, rw e)
  wr_lock-un_lock field (inr f) = elim (Bool-cases b.needlock) [
    | inl e ↦ (record b { rwlock = f.held_wr }, ground arith, refl, ground arith)
    | inr e ↦ (b, rw e, refl, rw e)
  ]
