-- ===== src/ObjStore/Pieces.antt =====
-- What the pieces of objstore/objstore.cpp do: adding one, reading one, asking for one.
use btrx.Prelude.{
  ℕ, suc, ◌-◌, ◌*◌, ◌/◌, ◌%◌, ◌^◌, ◌≤◌, ◌<◌, ◌≡◌, ◌≢◌, refl, ◌∙◌, true, false, ◌||◌, none, some,
  List, ◌++◌, ok, ◌==◌, length, take, replicate, arith, Option-cases, inl, inr, ==_self,
}
use btrx.Prelude.Assoc.{find}
use btrx.Rwlock.{Rwlocks, IsFree}
use btrx.Files.{Files}
use btrx.CString.{c_string}
use btrx.Bfield.{Bfield}
use btrx.Bfield.Has.{has}
use btrx.Bfield.Locked.{IsIdle}
use btrx.Bfield.Members.{exists-has, flip-with_piece, with_piece, has-with_piece, length-with_piece}
use btrx.Cache.Index.{IsIndexed}
use btrx.Cache.RoundTrip.{put-get, exists_cached}
use btrx.ObjStore.{ObjStore, add_piece, get_piece, exists}

module _ {L F : Type 0} (pt : Rwlocks L) (fs : Files F) (o : ObjStore L F) (field : Bfield L)
    (init : o.bfield ≡ some field) where
  -- A piece that the node has is neither added nor written again.
  pub add_piece_again :
      (pcno : ℕ) (piece junk : List ℕ)
      → IsIdle pt field
      → pcno / 8 < length field.bfield
      → has field.bfield pcno ≡ true
      → add_piece pt fs o pcno piece junk ≡ ok (o, 0)
  unfolding add_piece
  add_piece_again pcno piece junk idle below old =
      rw (init, exists-has pt field pcno idle below, old) refl

  -- A piece that the node lacks cannot be read.
  pub get_piece_absent :
      (pcno : ℕ) (buf junk : List ℕ)
      → IsIdle pt field
      → pcno / 8 < length field.bfield
      → has field.bfield pcno ≡ false
      → get_piece pt fs o pcno buf junk ≡ ok (o, 0, buf)
  unfolding get_piece
  get_piece_absent pcno buf junk idle below new =
      rw (init, exists-has pt field pcno idle below, new) refl

  -- A piece that the store lacks is added and read back, under the conditions of a put on its cache
  -- (a free lock, a right index, room, a position in range and not cached, a C string of at least the
  -- piece size that the file accepts) and on an idle field: the call returns 1, the field then holds it beside what it
  -- held, and a read of it returns 1 and what the cache keeps of it: of its bytes before the first
  -- NUL all but the last of a full piece, and NULs.
  pub add_piece-get_piece :
      (pcno n q : ℕ) (piece junk junk' buf s : List ℕ)
      → IsIdle pt field
      → pcno / 8 < length field.bfield
      → has field.bfield pcno ≡ false
      → IsFree pt o.cache.rwlock
      → IsIndexed o.cache
      → o.cache.pcsz ≡ suc n
      → o.cache.pcsz * pcno < 2 ^ 31
      → length junk ≡ o.cache.pcsz
      → o.cache.pcsz ≤ length piece
      → c_string piece ≡ some s
      → find (o.cache.pcsz * pcno) o.cache.cmap ≡ none
      → length o.cache.cvec < o.cache.maxsz
      → (fs.lseek o.cache.fd (o.cache.pcsz * pcno)).1 ≡ true
      → (fs.write (fs.lseek o.cache.fd (o.cache.pcsz * pcno)).0 (take o.cache.pcsz piece)).1 ≡ true
      → (o' : ObjStore L F) × (o'' : ObjStore L F) × (field' : Bfield L) × (add_piece pt fs o pcno
            piece junk
          ≡ ok (o', 1))
        × (o'.bfield ≡ some field')
        × (has field'.bfield q ≡ (pcno == q) || has field.bfield q)
        × (get_piece pt fs o' pcno buf junk'
            ≡ ok (o'', 1, take n s ++ replicate (suc n - length (take n s)) 0))
  unfolding add_piece get_piece
  add_piece-get_piece pcno n q piece junk junk' buf s idle below new free v size range room_junk
        long text absent room sought written =
      let (c', c'', stored, _, read_back) =
        put-get pt fs o.cache pcno n piece junk junk' s free v size range room_junk long text absent
          room sought written in
      let field' = record field { bfield = with_piece field.bfield pcno } in
      let below' : pcno / 8 < length field'.bfield =
        omega (arith, length-with_piece field.bfield pcno) in
      let there : has field'.bfield pcno ≡ true =
        has-with_piece field.bfield pcno pcno below ∙ (rw (==_self pcno)) in
      (
        record o { cache = c'; bfield = some field' },
        record o { cache = c''; bfield = some field' },
        field',
        rw
            (
              init,
              exists-has pt field pcno idle below,
              new,
              stored,
              flip-with_piece pt field pcno idle below,
            )
            refl,
        refl,
        has-with_piece field.bfield pcno q below,
        rw (exists-has pt field' pcno idle below', there, read_back) refl,
      )

-- On a cache with a free lock whose keys are positions, multiples of the piece size, the look-up of a
-- piece by its number misses where the number is no such multiple, whether it is cached or not.
exists_misses :
    {L F : Type 0} (pt : Rwlocks L) (fs : Files F) (o : ObjStore L F) (pcno : ℕ)
    → IsFree pt o.cache.rwlock
    → ((pos i : ℕ) → find pos o.cache.cmap ≡ some i → pos % o.cache.pcsz ≡ 0)
    → pcno % o.cache.pcsz ≢ 0
    → exists pt fs o pcno ≡ ok (o, false)
unfolding exists
exists_misses pt fs o pcno free aligned odd =
    rw (exists_cached pt fs o.cache pcno free, unaligned) refl
  where
    unaligned : find pcno o.cache.cmap ≡ none
    unaligned = elim (Option-cases (find pcno o.cache.cmap)) [
      | inl e ↦ e
      | inr (i, e) ↦ absurd (odd (aligned pcno i e))
    ]
