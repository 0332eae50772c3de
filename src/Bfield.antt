-- ===== src/Bfield.antt =====
-- objstore/bfield.cpp and include/objstore/bfield.h: the bit field of pieces, one bit to a piece,
-- with its optional read-write lock.
pub mod Has
mod Examples
pub mod Locked
pub mod Members
pub mod Seeding
pub mod Steps
use btrx.Prelude.{
  ℕ, zero, suc, ◌+◌, ◌/◌, ◌%◌, ◌^◌, bit_and, bit_or, bit_xor, Bool, true, false, not, List, [], ◌∷◌,
  ◌++◌, Outcome, ok, undefined, ◌>>=◌, defined, ◌==◌, if◌then◌else◌, get_elem?, set, replicate,
}
use btrx.Prelude.Bits.{bit_mask}
use btrx.Rwlock.{Rwlocks, checked}

pub record Bfield (L : Type 0) : Type 0 where
  pub rwlock : L
  pub needlock : Bool
  pub bfield : List ℕ

-- `Bfield()`. The lock member is left indeterminate: `junk`.
pub default_bfield : {L : Type 0} → L → Bfield L
default_bfield junk = record { rwlock = junk; needlock = false; bfield = [] }

-- `Bfield(vector<uint8_t> &)`.
pub copy_bfield : {L : Type 0} → L → List ℕ → Bfield L
copy_bfield junk field = record { rwlock = junk; needlock = false; bfield = field }

-- `for(int i=0; i<8; i++) mask ^= ((uint8_t)1<<i);` with the rounds left.
unfoldable pub full_mask : ℕ → ℕ → ℕ → ℕ
full_mask zero i mask = mask
full_mask (suc rounds) i mask = full_mask rounds (i + 1) (bit_xor mask (bit_mask i) % 256)

-- The bytes of `Bfield(hasfile, needlock, npcs)`.
unfoldable pub initial_bytes : Bool → ℕ → List ℕ
unfolding full_mask
initial_bytes hasfile npcs =
    let wholes = npcs / 8 in
    let lftovr = npcs % 8 in
    let field = replicate wholes (if hasfile then 1 else 0) in
    if lftovr == 0
    then field
    else (if hasfile then field ++ full_mask 8 0 0 ∷ [] else field ++ 0 ∷ [])

-- The loop of `diff`: `right[i]` is undefined where `right` is the shorter one.
unfoldable pub diff_loop : List ℕ → List ℕ → List ℕ → Outcome (List ℕ)
diff_loop [] right diff = ok diff
diff_loop (l ∷ left) [] diff = undefined
diff_loop (l ∷ left) (r ∷ right) diff =
    diff_loop left right (diff ++ bit_xor l (bit_or l r) % 256 ∷ [])

flip_byte : List ℕ → ℕ → ℕ → ℕ → Outcome (List ℕ × Bool)
flip_byte field wholes mask byte =
    if bit_and byte mask == mask
    then ok (field, false)
    else ok (set field wholes (bit_xor byte mask % 256), true)

-- The body of both `flip`s under the lock: the bytes, and whether a bit was set.
unfoldable pub flip_bytes : List ℕ → ℕ → ℕ → Outcome (List ℕ × Bool)
unfolding flip_byte
flip_bytes field wholes mask = do
  byte ← defined (get_elem? field wholes)
  flip_byte field wholes mask byte

module _ {L : Type 0} (pt : Rwlocks L) where
  -- The last lines of both locking constructors.
  unfoldable pub init_lock : Bfield L → Outcome (Bfield L)
  init_lock b =
      if b.needlock
      then (do l ← checked (pt.init pt.initializer); ok (record b { rwlock = l }))
      else ok b

  -- `Bfield(bool needlock, int npcs)`: a byte to a piece.
  unfoldable pub zeroed_bfield : L → Bool → ℕ → Outcome (Bfield L)
  unfolding init_lock
  zeroed_bfield junk needlock npcs =
      init_lock (record { rwlock = junk; needlock = needlock; bfield = replicate npcs 0 })

  -- `Bfield(bool hasfile, bool needlock, int npcs)`: a bit to a piece.
  unfoldable pub create_bfield : L → Bool → Bool → ℕ → Outcome (Bfield L)
  unfolding init_lock
  create_bfield junk hasfile needlock npcs =
      init_lock (record { rwlock = junk; needlock = needlock; bfield = initial_bytes hasfile npcs })

  unfoldable pub destroy : Bfield L → Outcome (Bfield L)
  destroy b =
      if b.needlock
      then (do l ← checked (pt.destroy b.rwlock); ok (record b { rwlock = l }))
      else ok b

  unfoldable pub rd_lock : Bfield L → Outcome (Bfield L)
  rd_lock b =
      if b.needlock
      then (do l ← checked (pt.rdlock b.rwlock); ok (record b { rwlock = l }))
      else ok b

  unfoldable pub wr_lock : Bfield L → Outcome (Bfield L)
  wr_lock b =
      if b.needlock
      then (do l ← checked (pt.wrlock b.rwlock); ok (record b { rwlock = l }))
      else ok b

  unfoldable pub un_lock : Bfield L → Outcome (Bfield L)
  un_lock b =
      if b.needlock
      then (do l ← checked (pt.unlock b.rwlock); ok (record b { rwlock = l }))
      else ok b

  -- `diff(right, diff)`: the object and `diff` afterwards.
  unfoldable pub diff : Bfield L → List ℕ → List ℕ → Outcome (Bfield L × List ℕ)
  diff b right out = do
    b' ← rd_lock b
    b'' ← un_lock b'
    out' ← diff_loop b'.bfield right out
    ok (b'', out')

  pub exists : Bfield L → ℕ → Outcome (Bfield L × Bool)
  exists b pos = do
    let wholes = pos / 8
    let lftovr = pos % 8
    b' ← rd_lock b
    byte ← defined (get_elem? b'.bfield wholes)
    let ret = not (bit_and byte (bit_mask lftovr) == 0)
    b'' ← un_lock b'
    ok (b'', ret)

  -- `bool flip(int wholes, int lftover)`.
  unfoldable pub flip_at : Bfield L → ℕ → ℕ → Outcome (Bfield L × Bool)
  flip_at b wholes lftover = do
    b' ← wr_lock b
    (field, ret) ← flip_bytes b'.bfield wholes (bit_mask lftover)
    b'' ← un_lock (record b' { bfield = field })
    ok (b'', ret)

  -- `void flip(int pcno)`.
  pub flip : Bfield L → ℕ → Outcome (Bfield L)
  flip b pcno = do
    let wholes = pcno / 8
    let lftover = pcno % 8
    b' ← wr_lock b
    (field, _) ← flip_bytes b'.bfield wholes (bit_mask lftover)
    un_lock (record b' { bfield = field })

  unfoldable pub clone : Bfield L → Outcome (Bfield L × List ℕ)
  clone b = do b' ← rd_lock b; let vec = b'.bfield; b'' ← un_lock b'; ok (b'', vec)
