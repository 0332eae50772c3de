-- ===== src/Cache/RoundTrip.antt =====
-- `get` and `put` of objstore/cache.cpp while the index is right: what is read back.
use btrx.Prelude.{
  ℕ, suc, ◌-◌, ◌*◌, ◌^◌, ◌≤◌, ◌<◌, ◌≡◌, refl, ap, ◌∙◌, true, false, none, some, List, [], ◌∷◌, ◌++◌,
  ok, ltb, get_elem?, erase_idx, length, take, replicate, arith, lt→ltb, ==_self,
  get_elem?-append_length,
}
use btrx.Prelude.Assoc.{find, insert, erase, find-insert}
use btrx.Rwlock.{Rwlocks, IsFree}
use btrx.Files.{Files}
use btrx.CString.{c_string, strncpy, snprintf}
use btrx.CString.Copy.{strncpy-snprintf}
use btrx.Cache.{
  Access, Cache, get_pos, deref, promote, update_cache, rd_lock, wr_lock, un_lock, cached_buf, get,
  put, exists,
}
use btrx.Cache.Stale.{get_elem?_first}
use btrx.Cache.Index.{EntryAt, IsIndexed, grown, update_cache-grown, grown-IsIndexed}

module _ {L F : Type 0} (pt : Rwlocks L) (fs : Files F) (c : Cache L F) where
  -- A hit on a right index reads the entry of the piece.
  pub get_hit :
      (pcno i p : ℕ) (junk : List ℕ) (a : Access) {buf : List ℕ}
      → IsFree pt c.rwlock
      → c.pcsz * pcno < 2 ^ 31
      → find (c.pcsz * pcno) c.cmap ≡ some i
      → get_elem? c.cvec 0 ≡ some p
      → EntryAt c i a
      → strncpy c.pcsz a.buf ≡ ok buf
      → (c' : Cache L F) × (get pt fs c pcno junk ≡ ok (c', buf)) × (c'.rwlock ≡ c.rwlock)
  unfolding get get_pos rd_lock wr_lock un_lock update_cache promote cached_buf deref
  get_hit pcno i p junk a free range hit first (ptr, at, there) copied =
      let t : ltb (c.pcsz * pcno) (2 ^ 31) ≡ true = lt→ltb (c.pcsz * pcno) (2 ^ 31) range in
      (
        record c {
          cmap =
              insert (c.pcsz * pcno) (length (erase_idx c.cvec i)) (erase (c.pcsz * pcno) c.cmap);
          cvec = erase_idx c.cvec i ++ p ∷ [];
        },
        rw
            (
              t, free.rdlock_ok, free.unlock_rd, hit, cached_buf, at, deref, there, free.wrlock_ok,
              update_cache, hit, promote, first, at, free.unlock_wr, copied,
            )
            refl,
        refl,
      )

  -- A put of a piece that is not cached, with room for it.
  abbrev pub after_put : ℕ → List ℕ → List ℕ → Cache L F
  after_put pcno piece stored =
      let fd = (fs.write (fs.lseek c.fd (c.pcsz * pcno)).0 (take c.pcsz piece)).0 in
      grown (record c { fd = fd }) (c.pcsz * pcno) stored

  put_grown :
      (pcno : ℕ) (piece junk stored : List ℕ)
      → IsFree pt c.rwlock
      → c.pcsz * pcno < 2 ^ 31
      → c.pcsz ≤ length piece
      → find (c.pcsz * pcno) c.cmap ≡ none
      → length c.cvec < c.maxsz
      → (fs.lseek c.fd (c.pcsz * pcno)).1 ≡ true
      → (fs.write (fs.lseek c.fd (c.pcsz * pcno)).0 (take c.pcsz piece)).1 ≡ true
      → snprintf junk piece ≡ ok stored
      → put pt fs c pcno piece junk ≡ ok (after_put pcno piece stored)
  unfolding put get_pos wr_lock un_lock
  put_grown pcno piece junk stored free range long absent room sought written printed =
      let t : ltb (c.pcsz * pcno) (2 ^ 31) ≡ true = lt→ltb (c.pcsz * pcno) (2 ^ 31) range in
      let u : ltb (length piece) c.pcsz ≡ false = ground arith in
      let fd = (fs.write (fs.lseek c.fd (c.pcsz * pcno)).0 (take c.pcsz piece)).0 in
      rw
        (
          t,
          free.wrlock_ok,
          sought,
          u,
          written,
          printed,
          update_cache-grown (record c { rwlock = free.held_wr; fd = fd }) (c.pcsz * pcno) stored
              absent room,
          free.unlock_wr,
        )
        refl

module _ {L F : Type 0} (pt : Rwlocks L) (fs : Files F) (c : Cache L F) where
  -- On a cache with a free lock, a right index and room, a piece whose position is in range and not
  -- cached is put and read back, if it is a C string in a buffer of at least the piece size and the
  -- file accepts it: the index stays right, and what is read is, of its bytes before the first NUL,
  -- as many as fit beside a NUL; the rest of the buffer is NULs. So the last byte of a piece without
  -- NULs is lost.
  pub put-get :
      (pcno n : ℕ) (piece junk junk' s : List ℕ)
      → IsFree pt c.rwlock
      → IsIndexed c
      → c.pcsz ≡ suc n
      → c.pcsz * pcno < 2 ^ 31
      → length junk ≡ c.pcsz
      → c.pcsz ≤ length piece
      → c_string piece ≡ some s
      → find (c.pcsz * pcno) c.cmap ≡ none
      → length c.cvec < c.maxsz
      → (fs.lseek c.fd (c.pcsz * pcno)).1 ≡ true
      → (fs.write (fs.lseek c.fd (c.pcsz * pcno)).0 (take c.pcsz piece)).1 ≡ true
      → (c' : Cache L F) × (c'' : Cache L F) × (put pt fs c pcno piece junk ≡ ok c')
        × IsIndexed c'
        × (get pt fs c' pcno junk' ≡ ok (c'', take n s ++ replicate (suc n - length (take n s)) 0))
  put-get pcno n piece junk junk' s free v size range room_junk long text absent room sought
        written =
      let (stored, printed, copied) = strncpy-snprintf n junk piece s (room_junk ∙ size) text in
      let pos = c.pcsz * pcno in
      let fd = (fs.write (fs.lseek c.fd pos).0 (take c.pcsz piece)).0 in
      let c' = after_put pt fs c pcno piece stored in
      let last = get_elem?-append_length c.cvec [] (length c.accesses) in
      let (p, first) = get_elem?_first c'.cvec (length c.cvec) last in
      let a : Access = record { pos = pos; buf = stored } in
      let (c'', read_back, _) =
        get_hit pt fs c' pcno (length c.cvec) p junk' a free range
          (find-insert pos pos (length c.cvec) c.cmap ∙ (rw (absent, ==_self pos))) first
          (length c.accesses, last, get_elem?-append_length c.accesses [] (some a))
          (ap (λ t. strncpy t stored) size ∙ copied) in
      (
        c',
        c'',
        put_grown pt fs c pcno piece junk stored free range long absent room sought written printed,
        grown-IsIndexed (record c { fd = fd }) pos stored
            (record { bounded = v.bounded; entries = v.entries; places = v.places }) absent room,
        read_back,
      )

  pub exists_cached :
      (pcno : ℕ)
      → IsFree pt c.rwlock
      → exists pt fs c pcno ≡ ok (c, elim (find pcno c.cmap) [ some _ ↦ true | none ↦ false ])
  unfolding exists rd_lock un_lock
  exists_cached pcno free = rw (free.rdlock_ok, free.unlock_rd) refl
