-- ===== src/ObjStore.antt =====
-- objstore/objstore.cpp and include/objstore/objstore.h: the pieces of the shared file, a bit field
-- over a cache.
mod Examples
pub mod Pieces
pub mod Steps
use Prim.Native.String.{String}
use btrx.Prelude.{
  ℕ, ◌+◌, Bool, true, false, not, Option, none, some, List, [], ◌∷◌, ◌++◌, Outcome, ok, exits,
  undefined, ◌>>=◌, defined, ◌==◌, ltb, if◌then◌else◌, length,
}
use btrx.Rwlock.{Rwlocks}
use btrx.Files.{Files}
use btrx.CString.{decimal, bytes_of}
use btrx.Bfield
use btrx.Bfield.{Bfield}
use btrx.Cache
use btrx.Cache.{Cache}

pub record ObjStore (L F : Type 0) : Type 0 where
  pub fsz : ℕ
  pub fname : List ℕ
  pub cache : Cache L F
  -- `none` is the null pointer.
  pub bfield : Option (Bfield L)
  pub pcsz : ℕ
  pub npcs : ℕ

-- What `sprintf` makes of "/usr/bin/head -c %d /dev/zero > %s".
pub head_command : ℕ → List ℕ → List ℕ
head_command fsz fname =
    bytes_of "/usr/bin/head -c " ++ decimal fsz ++ bytes_of " /dev/zero > " ++ fname

module _ {L F : Type 0} (pt : Rwlocks L) where
  -- The cache is assigned from a temporary, which is destroyed at once and so closes `junk`.
  unfoldable pub create_objstore : Files F → F → ℕ → ℕ → ℕ → List ℕ → Outcome (ObjStore L F)
  create_objstore fs junk fsz pcsz npcs fname = do
    cache ← Cache.create_cache pt fs junk pcsz npcs
    _ ← Cache.destroy pt fs cache
    ok (record { fsz = fsz; fname = fname; cache = cache; bfield = none; pcsz = pcsz; npcs = npcs })

  -- `system` may change what the file calls do; `junk` is the lock of the new field before it is
  -- initialised.
  unfoldable pub bfield_init :
      Files F → (List ℕ → Files F → Files F) → L → ObjStore L F → Bool → Outcome (ObjStore L F)
  bfield_init fs system junk o hasfile = do
    field ← Bfield.create_bfield pt junk hasfile true o.npcs
    let cmd = head_command o.fsz o.fname
    fs' ←
        if hasfile then ok fs else (if ltb (length cmd) 512 then ok (system cmd fs) else undefined)
    let (cache, opened) = Cache.file_open pt fs' o.cache o.fname
    if opened == 0 then exits 1 else ok (record o { bfield = some field; cache = cache })

module _ {L F : Type 0} (pt : Rwlocks L) (fs : Files F) where
  -- The destructor, with that of the cache behind it.
  unfoldable pub destroy : ObjStore L F → Outcome (ObjStore L F)
  destroy o = do
    field ← elim o.bfield [ none ↦ ok none | some b ↦ do b' ← Bfield.destroy pt b; ok (some b') ]
    cache ← Cache.destroy pt fs o.cache
    ok (record o { bfield = field; cache = cache })

  pub add_piece : ObjStore L F → ℕ → List ℕ → List ℕ → Outcome (ObjStore L F × ℕ)
  add_piece o pcno piece junk = do
    field ← defined o.bfield
    (field', there) ← Bfield.exists pt field pcno
    let absent = (do
      cache ← Cache.put pt fs o.cache pcno piece junk
      field'' ← Bfield.flip pt field' pcno
      ok (record o { cache = cache; bfield = some field'' }, 1))
    if there then ok (record o { bfield = some field' }, 0) else absent

  -- The caller's buffer comes in and goes out.
  pub get_piece : ObjStore L F → ℕ → List ℕ → List ℕ → Outcome (ObjStore L F × ℕ × List ℕ)
  get_piece o pcno buf junk = do
    field ← defined o.bfield
    (field', there) ← Bfield.exists pt field pcno
    let present = (do
      (cache, buf') ← Cache.get pt fs o.cache pcno junk
      ok (record o { cache = cache; bfield = some field' }, 1, buf'))
    if there then present else ok (record o { bfield = some field' }, 0, buf)

  pub exists : ObjStore L F → ℕ → Outcome (ObjStore L F × Bool)
  exists o pcno = do
    (cache, ret) ← Cache.exists pt fs o.cache pcno
    ok (record o { cache = cache }, ret)
