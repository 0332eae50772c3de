-- ===== src/Cache/Stale.antt =====
-- Where `update_cache` of objstore/cache.cpp leaves the index wrong: after a hit that is not on the
-- front entry, and after an eviction.
use btrx.Prelude.{
  ℕ, zero, suc, ◌-◌, ◌≤◌, ◌≡◌, ◌≢◌, refl, ap, ◌∙◌, sym, subst, true, none, some, List, [], ◌∷◌,
  ◌++◌, ok, ◌==◌, get_elem?, set, erase_idx, length, arith, Option-cases, inl, inr, lt_of_get_elem?,
  get_elem?-append_length, ==_self,
}
use btrx.Prelude.Assoc.{find, insert, erase, find-insert, find-erase}
use btrx.Cache.{Access, Cache, deref, pop_front, promote, evict, add_entry, update_cache}
use btrx.Cache.Index.{EntryAt, IsIndexed, get_elem?-append_some}

pub get_elem?_first :
    (xs : List ℕ) (i : ℕ) {y : ℕ} → get_elem? xs i ≡ some y → (x : ℕ) × (get_elem? xs 0 ≡ some x)
get_elem?_first [] i h = absurd (ground arith)
get_elem?_first (x ∷ xs) i h = (x, refl)

le_of_get_elem? : (xs : List ℕ) (i : ℕ) → get_elem? xs i ≡ none → length xs ≤ i
le_of_get_elem? [] i h = omega arith
le_of_get_elem? (x ∷ xs) zero h = absurd (ground arith)
le_of_get_elem? (x ∷ xs) (suc i) h = omega (arith, le_of_get_elem? xs i h)

get_elem?-pop_front : (xs : List ℕ) (i : ℕ) → get_elem? (pop_front xs) i ≡ get_elem? xs (suc i)
get_elem?-pop_front [] i = refl
get_elem?-pop_front (x ∷ xs) i = refl

length-pop_front : (xs : List ℕ) → length (pop_front xs) ≡ length xs - 1
length-pop_front [] = omega arith
length-pop_front (x ∷ xs) = omega arith

get_elem?-set_ne :
    {A : Type 0} (xs : List A) (i j : ℕ) (y : A) → i ≢ j → get_elem? (set xs i y) j ≡ get_elem? xs j
get_elem?-set_ne [] i j y h = refl
get_elem?-set_ne (x ∷ xs) zero zero y h = absurd (h refl)
get_elem?-set_ne (x ∷ xs) zero (suc j) y h = refl
get_elem?-set_ne (x ∷ xs) (suc i) zero y h = refl
get_elem?-set_ne (x ∷ xs) (suc i) (suc j) y h = get_elem?-set_ne xs i j y (λ e. h (ap suc e))

module _ {L F : Type 0} (c : Cache L F) (v : IsIndexed c) where
  -- Two places with one position are one place.
  same_place : (i j : ℕ) (a b : Access) → EntryAt c i a → EntryAt c j b → a.pos ≡ b.pos → i ≡ j
  same_place i j a b (p, at, there) (q, at', there') e =
      let (a', here, found) = v.entries i p at in
      let (b', here', found') = v.entries j q at' in ground arith

  -- A hit on an entry behind the front one of a right index: the update returns, and then the map leads
  -- from the position to the former front entry, which is one of another position.
  pub promote_wrong :
      (pos i : ℕ) (buf : List ℕ)
      → find pos c.cmap ≡ some (suc i)
      → (c' : Cache L F) × (j : ℕ) × (b : Access) × (update_cache c pos buf ≡ ok c')
        × (find pos c'.cmap ≡ some j)
        × EntryAt c' j b
        × EntryAt c 0 b
        × (b.pos ≢ pos)
  unfolding update_cache promote
  promote_wrong pos i buf hit =
      let (a, (ptr, at, there), e) = v.places pos (suc i) hit in
      let (p, first) = get_elem?_first c.cvec (suc i) at in
      let (f, there_f, found_f) = v.entries 0 p first in
      let cvec = erase_idx c.cvec (suc i) in
      (
        record c { cmap = insert pos (length cvec) (erase pos c.cmap); cvec = cvec ++ p ∷ [] },
        length cvec,
        f,
        rw (update_cache, hit, promote, first, at),
        find-insert pos pos (length cvec) (erase pos c.cmap)
            ∙ (ground (arith, find-erase pos pos c.cmap, ==_self pos)),
        (p, get_elem?-append_length cvec [] p, there_f),
        (p, first, there_f),
        λ same. absurd (
            omega (
              arith,
              same_place 0 (suc i) f a (p, first, there_f) (ptr, at, there) (same ∙ sym e),
            )),
      )

  -- What an update at a new position leaves of a full cache whose front entry is `f`, at `p`.
  abbrev shifted : ℕ → List ℕ → ℕ → Access → Cache L F
  shifted pos buf p f = record c {
    cmap = insert pos (length (pop_front c.cvec)) (erase f.pos c.cmap);
    cvec = pop_front c.cvec ++ length c.accesses ∷ [];
    accesses = set (c.accesses ++ some (record { pos = pos; buf = buf }) ∷ []) p none;
  }

  update_cache-shifted :
      (pos : ℕ) (buf : List ℕ) (p : ℕ) (f : Access)
      → find pos c.cmap ≡ none
      → length c.cvec ≡ c.maxsz
      → get_elem? c.cvec 0 ≡ some p
      → get_elem? c.accesses p ≡ some (some f)
      → update_cache c pos buf ≡ ok (shifted pos buf p f)
  unfolding update_cache add_entry evict deref
  update_cache-shifted pos buf p f absent full first there =
      let t : (length c.cvec == c.maxsz) ≡ true = ground arith in
      rw (
        update_cache,
        absent,
        add_entry,
        t,
        evict,
        first,
        deref,
        get_elem?-append_some c.accesses (some (record { pos = pos; buf = buf }) ∷ []) p there,
      )

  -- The entry at a place behind the front one moves one place to the front.
  EntryAt-shifted :
      (pos : ℕ) (buf : List ℕ) (p : ℕ) (f : Access) (i : ℕ) (b : Access)
      → EntryAt c 0 f
      → get_elem? c.cvec 0 ≡ some p
      → EntryAt c (suc i) b
      → EntryAt (shifted pos buf p f) i b
  EntryAt-shifted pos buf p f i b (p', first', there_f) first (q, at, there) = (
    q,
    get_elem?-append_some (pop_front c.cvec) (length c.accesses ∷ []) i
        (get_elem?-pop_front c.cvec i ∙ at),
    get_elem?-set_ne (c.accesses ++ some (record { pos = pos; buf = buf }) ∷ []) p q none distinct
        ∙ get_elem?-append_some c.accesses (some (record { pos = pos; buf = buf }) ∷ []) q there,
  )
    where
      distinct : p ≢ q
      distinct = λ e. absurd (
          omega (arith, same_place 0 (suc i) b b (q, first ∙ ap some e, there) (q, at, there) refl))

  -- Behind it then stands an entry of another position, an old one or the new one.
  follower :
      (pos : ℕ) (buf : List ℕ) (p : ℕ) (f : Access) (q i : ℕ)
      → find pos c.cmap ≡ none
      → find q c.cmap ≡ some (suc i)
      → EntryAt c 0 f
      → get_elem? c.cvec 0 ≡ some p
      → (a : Access) × EntryAt c (suc i) a × (a.pos ≡ q)
      → (b : Access) × EntryAt (shifted pos buf p f) (suc i) b × (b.pos ≢ q)
  follower pos buf p f q i absent known at_front first (a, (ptr, at, there), e) =
      elim (Option-cases (get_elem? c.cvec (suc (suc i)))) [
        | inr (r, next) ↦
            let (b, there_b, found_b) = v.entries (suc (suc i)) r next in
            (
              b,
              EntryAt-shifted pos buf p f (suc i) b at_front first (r, next, there_b),
              λ same. absurd (
                  omega (
                    arith,
                    same_place (suc i) (suc (suc i)) a b (ptr, at, there) (r, next, there_b)
                        (e ∙ sym same),
                  )),
            )
        | inl last ↦
            let new : Access = record { pos = pos; buf = buf } in
            let size : length (pop_front c.cvec) ≡ suc i = omega (
              arith,
              le_of_get_elem? c.cvec (suc (suc i)) last,
              lt_of_get_elem? c.cvec (suc i) at,
              length-pop_front c.cvec,
            ) in
            (
              new,
              (
                length c.accesses,
                subst
                    (λ t.
                      get_elem? (pop_front c.cvec ++ length c.accesses ∷ []) t
                      ≡ some (length c.accesses))
                    size (get_elem?-append_length (pop_front c.cvec) [] (length c.accesses)),
                get_elem?-set_ne (c.accesses ++ some new ∷ []) p (length c.accesses) none (
                      let (p', first', there_f) = at_front in
                      let same : p' ≡ p = ground arith in
                      let below = lt_of_get_elem? c.accesses p' there_f in
                      λ clash. absurd (omega arith))
                    ∙ get_elem?-append_length c.accesses [] (some new),
              ),
              λ same. absurd (ground (arith, ap (λ t. find t c.cmap) same)),
            )
      ]

  -- When a full cache with a right index takes in a new position, every entry but the evicted one is kept, one place
  -- nearer to the front; the map still gives its old place, where another position's entry stands.
  pub evict_shifts :
      (pos : ℕ) (buf : List ℕ) (q i : ℕ)
      → find pos c.cmap ≡ none
      → length c.cvec ≡ c.maxsz
      → find q c.cmap ≡ some (suc i)
      → (c' : Cache L F) × (a : Access) × (b : Access) × (update_cache c pos buf ≡ ok c')
        × (a.pos ≡ q)
        × EntryAt c' i a
        × (find q c'.cmap ≡ some (suc i))
        × EntryAt c' (suc i) b
        × (b.pos ≢ q)
  evict_shifts pos buf q i absent full known =
      let (a, (ptr, at, there), e) = v.places q (suc i) known in
      let (p, first) = get_elem?_first c.cvec (suc i) at in
      let (f, there_f, found_f) = v.entries 0 p first in
      let (b, behind, other) =
        follower pos buf p f q i absent known (p, first, there_f) first (a, (ptr, at, there), e) in
      (
        shifted pos buf p f,
        a,
        b,
        update_cache-shifted pos buf p f absent full first there_f,
        e,
        EntryAt-shifted pos buf p f i a (p, first, there_f) first (ptr, at, there),
        find-insert q pos (length (pop_front c.cvec)) (erase f.pos c.cmap)
            ∙ (ground (arith, find-erase q f.pos c.cmap)),
        behind,
        other,
      )
