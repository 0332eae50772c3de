-- ===== src/Cache.antt =====
-- objstore/cache.cpp and include/objstore/cache.h: the cache of pieces in front of the file.
-- Numbers of type `int` are non-negative here; the one product, of a piece's number and the piece
-- size, is undefined where it leaves the range of `int`.
-- A pointer to an `Access` is its place in `accesses`; a deleted one is `none` there, and to read it
-- is undefined.
mod Examples
pub mod Index
pub mod Stale
pub mod RoundTrip
pub mod Capacity
pub mod Reachable
use btrx.Prelude.{
  ℕ, zero, suc, ◌+◌, ◌*◌, ◌/◌, ◌^◌, Bool, true, false, Option, none, some, List, [], ◌∷◌, ◌++◌,
  Outcome, ok, exits, undefined, ◌>>=◌, defined, ◌==◌, ltb, if◌then◌else◌, get_elem?, set,
  erase_idx, length, take, drop,
}
use btrx.Prelude.Assoc.{find, erase, insert}
use btrx.Rwlock.{Rwlocks, checked}
use btrx.Files.{Files}
use btrx.CString.{strncpy, snprintf}

-- `CACHESZ` of include/defs.h.
abbrev pub cachesz : ℕ
cachesz = 10027008

pub record Access : Type 0 where
  pub pos : ℕ
  pub buf : List ℕ

pub record Cache (L F : Type 0) : Type 0 where
  pub cmap : List (ℕ × ℕ)
  pub cvec : List ℕ
  pub accesses : List (Option Access)
  pub fd : F
  pub pcsz : ℕ
  pub npcs : ℕ
  pub maxsz : ℕ
  pub rwlock : L

-- `*acc`.
pub deref : List (Option Access) → ℕ → Outcome Access
deref accesses ptr = do acc ← defined (get_elem? accesses ptr); defined acc

-- `deque::pop_front`.
abbrev pub pop_front : List ℕ → List ℕ
pop_front [] = []
pop_front (ptr ∷ rest) = rest

module _ {L F : Type 0} where
  -- `pcsz * pcno` as an `int`.
  unfoldable pub get_pos : Cache L F → ℕ → Outcome ℕ
  get_pos c pcno = if ltb (c.pcsz * pcno) (2 ^ 31) then ok (c.pcsz * pcno) else undefined

  -- The branch of `update_cache` for a position in the map, at index `idx`.
  pub promote : Cache L F → ℕ → ℕ → Outcome (Cache L F)
  promote c pos idx = do
    old_acc ← defined (get_elem? c.cvec 0)
    _ ← defined (get_elem? c.cvec idx)
    let cvec = erase_idx c.cvec idx
    let cmap = erase pos c.cmap
    ok (record c { cmap = insert pos (length cvec) cmap; cvec = cvec ++ old_acc ∷ [] })

  -- Dropping the front entry.
  pub evict : Cache L F → Outcome (Cache L F)
  evict c = do
    ptr ← defined (get_elem? c.cvec 0)
    old_acc ← deref c.accesses ptr
    ok (record c {
      cvec = pop_front c.cvec;
      cmap = erase old_acc.pos c.cmap;
      accesses = set c.accesses ptr none;
    })

  -- The other branch.
  pub add_entry : Cache L F → ℕ → List ℕ → Outcome (Cache L F)
  add_entry c pos buf = do
    let new_acc = length c.accesses
    let c' = record c { accesses = c.accesses ++ some (record { pos = pos; buf = buf }) ∷ [] }
    c'' ← if length c'.cvec == c'.maxsz then evict c' else ok c'
    ok (record c'' {
      cmap = insert pos (length c''.cvec) c''.cmap;
      cvec = c''.cvec ++ new_acc ∷ [];
    })

  pub update_cache : Cache L F → ℕ → List ℕ → Outcome (Cache L F)
  update_cache c pos buf = elim (find pos c.cmap) [
    | some idx ↦ promote c pos idx
    | none ↦ add_entry c pos buf
  ]

module _ {L F : Type 0} (pt : Rwlocks L) (fs : Files F) where
  -- `Cache(int pcsz, int npcs)`; `fd` is left indeterminate.
  unfoldable pub create_cache : F → ℕ → ℕ → Outcome (Cache L F)
  create_cache junk pcsz npcs = if npcs == 0 then undefined else (do
    l ← checked (pt.init pt.initializer)
    ok (record {
      cmap = [];
      cvec = [];
      accesses = [];
      fd = junk;
      pcsz = pcsz;
      npcs = npcs;
      maxsz = cachesz / npcs;
      rwlock = l;
    }))

  unfoldable pub destroy : Cache L F → Outcome (Cache L F)
  destroy c = do l ← checked (pt.destroy c.rwlock); ok (record c { rwlock = l; fd = fs.close c.fd })

  pub rd_lock : Cache L F → Outcome (Cache L F)
  rd_lock c = do l ← checked (pt.rdlock c.rwlock); ok (record c { rwlock = l })

  pub wr_lock : Cache L F → Outcome (Cache L F)
  wr_lock c = do l ← checked (pt.wrlock c.rwlock); ok (record c { rwlock = l })

  pub un_lock : Cache L F → Outcome (Cache L F)
  un_lock c = do l ← checked (pt.unlock c.rwlock); ok (record c { rwlock = l })

  -- The result is 0 where the file cannot be opened.
  unfoldable pub file_open : Cache L F → List ℕ → Cache L F × ℕ
  file_open c fname = elim (fs.open_rdwr fname) [
    | none ↦ (c, 0)
    | some fd ↦ (record c { fd = fd }, 1)
  ]

  -- The read of a miss: a failed `lseek` is only logged, and a short read leaves the rest of the new
  -- buffer as it was, `junk`.
  pub fetch : Cache L F → ℕ → List ℕ → Outcome (Cache L F × List ℕ)
  fetch c pos junk = do
    c' ← wr_lock c
    let fd' = (fs.lseek c'.fd pos).0
    let (fd'', bytes) = fs.read fd' c'.pcsz
    store ← elim bytes [ none ↦ exits 1 | some bs ↦ ok (bs ++ drop (length bs) junk) ]
    c'' ← un_lock (record c' { fd = fd'' })
    ok (c'', store)

  -- `store` of a hit.
  pub cached_buf : Cache L F → ℕ → Outcome (Cache L F × List ℕ)
  cached_buf c idx = do
    ptr ← defined (get_elem? c.cvec idx)
    acc ← deref c.accesses ptr
    ok (c, acc.buf)

  -- The cache, and what is copied into the caller's buffer; `junk` is what a new buffer holds.
  pub get : Cache L F → ℕ → List ℕ → Outcome (Cache L F × List ℕ)
  get c pcno junk = do
    pos ← get_pos c pcno
    c1 ← rd_lock c
    let itr = find pos c1.cmap
    c2 ← un_lock c1
    (c3, store) ← elim itr [ some idx ↦ cached_buf c2 idx | none ↦ fetch c2 pos junk ]
    c4 ← wr_lock c3
    c5 ← update_cache c4 pos store
    c6 ← un_lock c5
    buf ← strncpy c6.pcsz store
    ok (c6, buf)

  pub put : Cache L F → ℕ → List ℕ → List ℕ → Outcome (Cache L F)
  put c pcno piece junk = do
    pos ← get_pos c pcno
    c1 ← wr_lock c
    let (fd', sought) = fs.lseek c1.fd pos
    fd1 ← if sought then ok fd' else exits 1
    bytes ← if ltb (length piece) c1.pcsz then undefined else ok (take c1.pcsz piece)
    let (fd'', written) = fs.write fd1 bytes
    fd2 ← if written then ok fd'' else exits 1
    buf ← snprintf junk piece
    c2 ← update_cache (record c1 { fd = fd2 }) pos buf
    un_lock c2

  -- The test is on the piece number, where the keys of the map are positions.
  pub exists : Cache L F → ℕ → Outcome (Cache L F × Bool)
  exists c pcno = do
    c1 ← rd_lock c
    let ret : Bool = elim (find pcno c1.cmap) [ some _ ↦ true | none ↦ false ]
    c2 ← un_lock c1
    ok (c2, ret)
