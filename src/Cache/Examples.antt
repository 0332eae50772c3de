-- ===== src/Cache/Examples.antt =====
-- objstore/cache.cpp at concrete inputs: pieces of four bytes, a cache with room for two.
use btrx.Prelude.{
  ℕ, suc, ◌≡◌, ◌≢◌, refl, some, [], ◌∷◌, ok, ◌==◌, if◌then◌else◌, get_elem?, arith, zero,
}
use btrx.Prelude.Assoc.{find}
use btrx.CString.{c_string}
use btrx.Cache.{Access, Cache, update_cache, put, get}
use btrx.Cache.Index.{EntryAt, IsIndexed, update_cache-IsIndexed}
use btrx.Cache.Stale.{promote_wrong, evict_shifts}
use btrx.Cache.RoundTrip.{put-get}
use btrx.Host.{locks, free, Disk, files}

abbrev nothing : Cache ℕ Disk
nothing = record {
  cmap = [];
  cvec = [];
  accesses = [];
  fd = ([], 0);
  pcsz = 4;
  npcs = 5;
  maxsz = 2;
  rwlock = 0;
}

nothing-IsIndexed : IsIndexed nothing
unfolding find
nothing-IsIndexed = record {
  bounded = omega arith;
  entries = λ i ptr h. absurd (ground arith);
  places = λ pos i h. absurd (ground arith);
}

abbrev first_two : Cache ℕ Disk
first_two = record nothing {
  cmap = (0, 0) ∷ (4, 1) ∷ [];
  cvec = 0 ∷ 1 ∷ [];
  accesses =
      some (record { pos = 0; buf = 97 ∷ 0 ∷ 0 ∷ 0 ∷ [] })
      ∷ some (record { pos = 4; buf = 98 ∷ 0 ∷ 0 ∷ 0 ∷ [] })
      ∷ [];
}

first_two_entries :
    (i ptr : ℕ)
    → get_elem? first_two.cvec i ≡ some ptr
    → (a : Access) × (get_elem? first_two.accesses ptr ≡ some (some a))
      × (find a.pos first_two.cmap ≡ some i)
unfolding find
first_two_entries zero ptr h =
    let e : ptr ≡ 0 = ground arith in
    (record { pos = 0; buf = 97 ∷ 0 ∷ 0 ∷ 0 ∷ [] }, rw e refl, refl)
first_two_entries (suc zero) ptr h =
    let e : ptr ≡ 1 = ground arith in
    (record { pos = 4; buf = 98 ∷ 0 ∷ 0 ∷ 0 ∷ [] }, rw e refl, refl)
first_two_entries (suc (suc i)) ptr h = absurd (ground arith)

first_two_places :
    (pos i : ℕ)
    → find pos first_two.cmap ≡ some i
    → (a : Access) × EntryAt first_two i a × (a.pos ≡ pos)
unfolding find
first_two_places zero i h =
    let e : i ≡ 0 = ground arith in
    (record { pos = 0; buf = 97 ∷ 0 ∷ 0 ∷ 0 ∷ [] }, (0, rw e refl, refl), refl)
first_two_places (suc zero) i h = absurd (ground arith)
first_two_places (suc (suc zero)) i h = absurd (ground arith)
first_two_places (suc (suc (suc zero))) i h = absurd (ground arith)
first_two_places (suc (suc (suc (suc zero)))) i h =
    let e : i ≡ 1 = ground arith in
    (record { pos = 4; buf = 98 ∷ 0 ∷ 0 ∷ 0 ∷ [] }, (1, rw e refl, refl), refl)
first_two_places (suc (suc (suc (suc (suc n))))) i h = absurd (ground arith)

first_two-IsIndexed : IsIndexed first_two
unfolding find
first_two-IsIndexed = record {
  bounded = omega arith;
  entries = first_two_entries;
  places = first_two_places;
}

update_cache-IsIndexed_example :
    (c' : Cache ℕ Disk) × (update_cache nothing 4 (98 ∷ []) ≡ ok c')
    × IsIndexed c'
    × EntryAt c' 0 (record { pos = 4; buf = 98 ∷ [] })
    × (find 8 c'.cmap ≡ (if 4 == 8 then some 0 else find 8 nothing.cmap))
unfolding find
update_cache-IsIndexed_example =
    update_cache-IsIndexed nothing 4 (98 ∷ []) 8 nothing-IsIndexed refl (omega arith)

put-get_example :
    (c' : Cache ℕ Disk) × (c'' : Cache ℕ Disk) × (put locks files nothing 1
        (97 ∷ 98 ∷ 99 ∷ 100 ∷ 0 ∷ [])
        (7 ∷ 7 ∷ 7 ∷ 7 ∷ [])
      ≡ ok c')
    × IsIndexed c'
    × (get locks files c' 1 [] ≡ ok (c'', 97 ∷ 98 ∷ 99 ∷ 0 ∷ []))
unfolding find c_string
put-get_example =
    put-get locks files nothing 1 3 (97 ∷ 98 ∷ 99 ∷ 100 ∷ 0 ∷ []) (7 ∷ 7 ∷ 7 ∷ 7 ∷ []) []
      (97 ∷ 98 ∷ 99 ∷ 100 ∷ []) free nothing-IsIndexed refl (omega arith) refl (omega arith) refl
      refl (omega arith) refl refl

promote_wrong_example :
    (c' : Cache ℕ Disk) × (j : ℕ) × (b : Access) × (update_cache first_two 4 [] ≡ ok c')
    × (find 4 c'.cmap ≡ some j)
    × EntryAt c' j b
    × EntryAt first_two 0 b
    × (b.pos ≢ 4)
unfolding find
promote_wrong_example = promote_wrong first_two first_two-IsIndexed 4 0 [] refl

evict_shifts_example :
    (c' : Cache ℕ Disk) × (a : Access) × (b : Access) × (update_cache first_two 8 (99 ∷ []) ≡ ok c')
    × (a.pos ≡ 4)
    × EntryAt c' 0 a
    × (find 4 c'.cmap ≡ some 1)
    × EntryAt c' 1 b
    × (b.pos ≢ 4)
unfolding find
evict_shifts_example = evict_shifts first_two first_two-IsIndexed 8 (99 ∷ []) 4 0 refl refl refl
