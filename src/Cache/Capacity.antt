-- ===== src/Cache/Capacity.antt =====
-- How many entries the operations of objstore/cache.cpp leave in the cache.
use btrx.Prelude.{
  ℕ, ◌+◌, ◌≤◌, ◌<◌, ◌≡◌, refl, ap, sym, subst, none, some, List, [], ◌∷◌, ◌++◌, ok, exits,
  undefined, defined, ◌==◌, ltb, if◌then◌else◌, get_elem?, erase_idx, length, take, drop, arith,
  Bool-cases, Option-cases, inl, inr, ok_of_bind, ok_injective, length-append, length-erase_idx,
  lt_of_get_elem?,
}
use btrx.Prelude.Assoc.{find}
use btrx.Rwlock.{Rwlocks, checked}
use btrx.Files.{Files}
use btrx.CString.{snprintf, strncpy}
use btrx.Cache.{
  Cache, deref, pop_front, get_pos, promote, evict, add_entry, update_cache, rd_lock, wr_lock,
  un_lock, fetch, cached_buf, get, put,
}

-- There is room for `n` entries, and for one at least, and there are no more.
abbrev pub Fits : {L F : Type 0} → ℕ → Cache L F → Type 0
Fits n c = (0 < n) × (c.maxsz ≡ n) × (length c.cvec ≤ n)

length-pop_front : (ptrs : List ℕ) → 0 < length ptrs → length (pop_front ptrs) + 1 ≡ length ptrs
length-pop_front [] h = absurd (omega arith)
length-pop_front (p ∷ ptrs) h = omega arith

module _ {L F : Type 0} where
  length-evict :
      (c c' : Cache L F)
      → evict c ≡ ok c'
      → (length c'.cvec + 1 ≡ length c.cvec) × (c'.maxsz ≡ c.maxsz)
  unfolding evict
  length-evict c c' e = elim (Option-cases (get_elem? c.cvec 0)) [
    | inl empty ↦ absurd (ground (arith, empty))
    | inr (ptr, first) ↦
        let (p, at, rest) = ok_of_bind (defined (get_elem? c.cvec 0)) _ e in
        let (old, there, rest') = ok_of_bind (deref c.accesses p) _ rest in
        subst (λ c'. (length c'.cvec + 1 ≡ length c.cvec) × (c'.maxsz ≡ c.maxsz))
          (ok_injective rest') (length-pop_front c.cvec (lt_of_get_elem? c.cvec 0 first), refl)
  ]

module _ {L F : Type 0} {n : ℕ} where
  Fits-promote : (c c' : Cache L F) (pos idx : ℕ) → Fits n c → promote c pos idx ≡ ok c' → Fits n c'
  unfolding promote
  Fits-promote c c' pos idx fits e =
      let (old, first, rest) = ok_of_bind (defined (get_elem? c.cvec 0)) _ e in
      elim (Option-cases (get_elem? c.cvec idx)) [
        | inl outside ↦ absurd (ground (arith, rest, outside))
        | inr (ptr, at) ↦
            let (y, found, rest') = ok_of_bind (defined (get_elem? c.cvec idx)) _ rest in
            let moved = length-append (erase_idx c.cvec idx) (old ∷ []) in
            let one_less = length-erase_idx c.cvec idx (lt_of_get_elem? c.cvec idx at) in
            subst (Fits n) (ok_injective rest') (fits.0, fits.1, omega (arith, fits.2))
      ]

  Fits-add_entry :
      (c c' : Cache L F) (pos : ℕ) (buf : List ℕ)
      → Fits n c
      → add_entry c pos buf ≡ ok c'
      → Fits n c'
  unfolding add_entry
  Fits-add_entry c c' pos buf fits e =
      let new_acc = length c.accesses in
      let grown : Cache L F = record c {
        accesses = c.accesses ++ some (record { pos = pos; buf = buf }) ∷ [];
      } in
      let is_full = length c.cvec == c.maxsz in
      let (c1, made, rest) = ok_of_bind (if is_full then evict grown else ok grown) _ e in
      let longer = length-append c1.cvec (new_acc ∷ []) in
      elim (Bool-cases is_full) [
        | inl full ↦
            let evicted : evict grown ≡ ok c1 = ground (arith, full, made) in
            let (shorter, same) = length-evict grown c1 evicted in
            subst (Fits n) (ok_injective rest)
              (fits.0, omega (arith, fits.1), ground (arith, fits.1, fits.2))
        | inr room ↦
            let kept : ok grown ≡ ok c1 = ground (arith, room, made) in
            let same : grown ≡ c1 = ok_injective kept in
            let size : length c1.cvec ≡ length c.cvec = ap (λ c. length c.cvec) (sym same) in
            let maxsz : c1.maxsz ≡ c.maxsz = ap (λ c. c.maxsz) (sym same) in
            subst (Fits n) (ok_injective rest)
              (fits.0, omega (arith, fits.1), ground (arith, fits.1, fits.2))
      ]

  Fits-update_cache :
      (c c' : Cache L F) (pos : ℕ) (buf : List ℕ)
      → Fits n c
      → update_cache c pos buf ≡ ok c'
      → Fits n c'
  unfolding update_cache
  Fits-update_cache c c' pos buf fits e = elim (Option-cases (find pos c.cmap)) [
    | inl new ↦ Fits-add_entry c c' pos buf fits (ground (arith, new, e))
    | inr (idx, at) ↦ Fits-promote c c' pos idx fits (ground (arith, at, e))
  ]

module _ {L F : Type 0} {n : ℕ} (pt : Rwlocks L) (fs : Files F) where
  Fits-wr_lock : (c c' : Cache L F) → Fits n c → wr_lock pt fs c ≡ ok c' → Fits n c'
  unfolding wr_lock
  Fits-wr_lock c c' fits e =
      let (l, _, rest) = ok_of_bind (checked (pt.wrlock c.rwlock)) _ e in
      subst (Fits n) (ok_injective rest) fits

  pub Fits-rd_lock : (c c' : Cache L F) → Fits n c → rd_lock pt fs c ≡ ok c' → Fits n c'
  unfolding rd_lock
  Fits-rd_lock c c' fits e =
      let (l, _, rest) = ok_of_bind (checked (pt.rdlock c.rwlock)) _ e in
      subst (Fits n) (ok_injective rest) fits

  pub Fits-un_lock : (c c' : Cache L F) → Fits n c → un_lock pt fs c ≡ ok c' → Fits n c'
  unfolding un_lock
  Fits-un_lock c c' fits e =
      let (l, _, rest) = ok_of_bind (checked (pt.unlock c.rwlock)) _ e in
      subst (Fits n) (ok_injective rest) fits

  Fits-fetch :
      (c : Cache L F) (pos : ℕ) (junk : List ℕ) {r : Cache L F × List ℕ}
      → Fits n c
      → fetch pt fs c pos junk ≡ ok r
      → Fits n r.0
  unfolding fetch
  Fits-fetch c pos junk {r} fits e =
      let (c1, locked, rest) = ok_of_bind (wr_lock pt fs c) _ e in
      let (store, _, rest1) =
        ok_of_bind
          (elim (fs.read (fs.lseek c1.fd pos).0 c1.pcsz).1 [
            | none ↦ exits 1
            | some bs ↦ ok (bs ++ drop (length bs) junk)
          ])
          _ rest in
      let (c2, unlocked, rest2) =
        ok_of_bind (un_lock pt fs (record c1 { fd = (fs.read (fs.lseek c1.fd pos).0 c1.pcsz).0 })) _
          rest1 in
      subst (λ r. Fits n r.0) (ok_injective rest2)
        (Fits-un_lock (record c1 { fd = (fs.read (fs.lseek c1.fd pos).0 c1.pcsz).0 }) c2
          (Fits-wr_lock c c1 fits locked) unlocked)

  pub Fits-put :
      (c c' : Cache L F) (pcno : ℕ) (piece junk : List ℕ)
      → Fits n c
      → put pt fs c pcno piece junk ≡ ok c'
      → Fits n c'
  unfolding put
  Fits-put c c' pcno piece junk fits e =
      let (pos, _, rest) = ok_of_bind (get_pos c pcno) _ e in
      let (c1, locked, rest1) = ok_of_bind (wr_lock pt fs c) _ rest in
      let (fd', sought) = fs.lseek c1.fd pos in
      let (fd1, _, rest2) = ok_of_bind (if sought then ok fd' else exits 1) _ rest1 in
      let (bytes, _, rest3) =
        ok_of_bind (if ltb (length piece) c1.pcsz then undefined else ok (take c1.pcsz piece)) _
          rest2 in
      let (fd'', written) = fs.write fd1 bytes in
      let (fd2, _, rest4) = ok_of_bind (if written then ok fd'' else exits 1) _ rest3 in
      let (buf, _, rest5) = ok_of_bind (snprintf junk piece) _ rest4 in
      let (c2, updated, rest6) =
        ok_of_bind (update_cache (record c1 { fd = fd2 }) pos buf) _ rest5 in
      let fits1 : Fits n (record c1 { fd = fd2 }) = Fits-wr_lock c c1 fits locked in
      Fits-un_lock c2 c' (Fits-update_cache (record c1 { fd = fd2 }) c2 pos buf fits1 updated) rest6

  Fits-cached_buf :
      (c : Cache L F) (idx : ℕ) {r : Cache L F × List ℕ}
      → Fits n c
      → cached_buf pt fs c idx ≡ ok r
      → Fits n r.0
  unfolding cached_buf
  Fits-cached_buf c idx fits e =
      let (ptr, _, rest) = ok_of_bind (defined (get_elem? c.cvec idx)) _ e in
      let (acc, _, rest1) = ok_of_bind (deref c.accesses ptr) _ rest in
      subst (λ r. Fits n r.0) (ok_injective rest1) fits

  pub Fits-get :
      (c : Cache L F) (pcno : ℕ) (junk : List ℕ) {r : Cache L F × List ℕ}
      → Fits n c
      → get pt fs c pcno junk ≡ ok r
      → Fits n r.0
  unfolding get
  Fits-get c pcno junk fits e =
      let (pos, _, rest) = ok_of_bind (get_pos c pcno) _ e in
      let (c1, read, rest1) = ok_of_bind (rd_lock pt fs c) _ rest in
      let (c2, unlocked, rest2) = ok_of_bind (un_lock pt fs c1) _ rest1 in
      let fits2 : Fits n c2 = Fits-un_lock c1 c2 (Fits-rd_lock c c1 fits read) unlocked in
      let itr = find pos c1.cmap in
      let ((c3, store), loaded, rest3) =
        ok_of_bind
          (elim itr [ some idx ↦ cached_buf pt fs c2 idx | none ↦ fetch pt fs c2 pos junk ]) _
          rest2 in
      let fits3 : Fits n c3 = elim (Option-cases itr) [
        | inl miss ↦ Fits-fetch c2 pos junk {r = (c3, store)} fits2 (ground (arith, miss, loaded))
        | inr (idx, hit) ↦
            Fits-cached_buf c2 idx {r = (c3, store)} fits2 (ground (arith, hit, loaded))
      ] in
      let (c4, written, rest4) = ok_of_bind (wr_lock pt fs c3) _ rest3 in
      let (c5, updated, rest5) = ok_of_bind (update_cache c4 pos store) _ rest4 in
      let (c6, released, rest6) = ok_of_bind (un_lock pt fs c5) _ rest5 in
      let (buf, _, rest7) = ok_of_bind (strncpy c6.pcsz store) _ rest6 in
      let fits5 = Fits-update_cache c4 c5 pos store (Fits-wr_lock c3 c4 fits3 written) updated in
      subst (λ r. Fits n r.0) (ok_injective rest7) (Fits-un_lock c5 c6 fits5 released)
