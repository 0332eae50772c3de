-- ===== src/Cache/Index.antt =====
-- The index of objstore/cache.cpp: what `update_cache` does to the positions that the map gives.
use btrx.Prelude.{
  ℕ, zero, suc, ◌≤◌, ◌<◌, ◌≡◌, refl, ap, ◌∙◌, sym, subst, true, false, Option, none, some, List, [],
  ◌∷◌, ◌++◌, ok, ◌==◌, if◌then◌else◌, get_elem?, length, arith, Bool-cases, Option-cases, inl, inr,
  ◌⊎◌, length-append, lt_of_get_elem?, get_elem?-append_left, get_elem?-append_length, ==_iff,
  ==_self,
}
use btrx.Prelude.Assoc.{find, insert, find-insert}
use btrx.Cache.{Access, Cache, add_entry, update_cache}

-- The entry at place `i`.
abbrev pub EntryAt : {L F : Type 0} → Cache L F → ℕ → Access → Type 0
EntryAt c i a =
    (ptr : ℕ) × (get_elem? c.cvec i ≡ some ptr) × (get_elem? c.accesses ptr ≡ some (some a))

-- The map and the deque agree: an entry's position leads to its place, and back.
pub record IsIndexed {L F : Type 0} (c : Cache L F) : Type 0 where
  pub bounded : length c.cvec ≤ c.maxsz
  pub entries :
      (i ptr : ℕ)
      → get_elem? c.cvec i ≡ some ptr
      → (a : Access) × (get_elem? c.accesses ptr ≡ some (some a)) × (find a.pos c.cmap ≡ some i)
  pub places : (pos i : ℕ) → find pos c.cmap ≡ some i → (a : Access) × EntryAt c i a × (a.pos ≡ pos)

-- Appending shows at the end alone.
module _ {ℓ} {A : Type ℓ} where
  get_elem?-append_cases :
      (xs : List A) (y : A) (i : ℕ) {z : A}
      → get_elem? (xs ++ y ∷ []) i ≡ some z
      → (get_elem? xs i ≡ some z) ⊎ ((i ≡ length xs) × (z ≡ y))
  get_elem?-append_cases [] y zero h = inr (refl, ground arith)
  get_elem?-append_cases [] y (suc i) h = absurd (ground arith)
  get_elem?-append_cases (x ∷ xs) y zero h = inl h
  get_elem?-append_cases (x ∷ xs) y (suc i) h = elim (get_elem?-append_cases xs y i h) [
    | inl old ↦ inl old
    | inr (e, same) ↦ inr (ap suc e, same)
  ]

  pub get_elem?-append_some :
      (xs ys : List A) (i : ℕ) {z : A} → get_elem? xs i ≡ some z → get_elem? (xs ++ ys) i ≡ some z
  get_elem?-append_some xs ys i h = get_elem?-append_left xs ys i (lt_of_get_elem? xs i h) ∙ h

module _ {L F : Type 0} (c : Cache L F) (pos : ℕ) (buf : List ℕ) where
  -- What `update_cache` leaves where the position is new and there is room.
  abbrev pub grown : Cache L F
  grown = record c {
    cmap = insert pos (length c.cvec) c.cmap;
    cvec = c.cvec ++ length c.accesses ∷ [];
    accesses = c.accesses ++ some (record { pos = pos; buf = buf }) ∷ [];
  }

  pub update_cache-grown :
      find pos c.cmap ≡ none → length c.cvec < c.maxsz → update_cache c pos buf ≡ ok grown
  unfolding update_cache add_entry
  update_cache-grown absent room =
      let t : (length c.cvec == c.maxsz) ≡ false = ground arith in
      rw (update_cache, absent, add_entry, t)

  grown_places :
      IsIndexed c
      → find pos c.cmap ≡ none
      → (q i : ℕ) → find q grown.cmap ≡ some i
      → (a : Access) × EntryAt grown i a × (a.pos ≡ q)
  grown_places v absent q i h =
      let h' = sym (find-insert q pos (length c.cvec) c.cmap) ∙ h in
      elim (Option-cases (find q c.cmap)) [
        | inl new ↦ elim (Bool-cases (pos == q)) [
          | inl same ↦ (
            record { pos = pos; buf = buf },
            (
              length c.accesses,
              subst (λ t. get_elem? grown.cvec t ≡ some (length c.accesses)) (ground arith)
                  (get_elem?-append_length c.cvec [] _),
              get_elem?-append_length c.accesses [] _,
            ),
            (==_iff pos q).0 same,
          )
          | inr other ↦ absurd (ground arith)
        ]
        | inr (j, old) ↦
            let (a, (ptr, there, at), e) = v.places q j old in
            (
              a,
              (
                ptr,
                subst (λ t. get_elem? grown.cvec t ≡ some ptr) (ground arith)
                    (get_elem?-append_some c.cvec _ j there),
                get_elem?-append_some c.accesses _ ptr at,
              ),
              e,
            )
      ]

  -- A new position with room keeps the index right.
  pub grown-IsIndexed :
      IsIndexed c → find pos c.cmap ≡ none → length c.cvec < c.maxsz → IsIndexed grown
  grown-IsIndexed v absent room = record {
    bounded = omega (arith, length-append c.cvec (length c.accesses ∷ []));
    entries = λ i ptr h. elim (get_elem?-append_cases c.cvec (length c.accesses) i h) [
      | inl old ↦
          let (a, there, at) = v.entries i ptr old in
          (
            a,
            get_elem?-append_some c.accesses _ ptr there,
            find-insert a.pos pos (length c.cvec) c.cmap ∙ (rw at),
          )
      | inr (e, same) ↦ (
        record { pos = pos; buf = buf },
        rw same (get_elem?-append_length c.accesses [] _),
        find-insert pos pos (length c.cvec) c.cmap ∙ (rw (absent, ==_self pos, e)),
      )
    ];
    places = grown_places v absent;
  }

  -- While there is room, `update_cache` at a new position keeps a right index right, and adds an entry
  -- with the new position and buffer; what the index said of the other positions it still says.
  pub update_cache-IsIndexed :
      (q : ℕ)
      → IsIndexed c
      → find pos c.cmap ≡ none
      → length c.cvec < c.maxsz
      → (c' : Cache L F) × (update_cache c pos buf ≡ ok c')
        × IsIndexed c'
        × EntryAt c' (length c.cvec) (record { pos = pos; buf = buf })
        × (find q c'.cmap ≡ (if pos == q then some (length c.cvec) else find q c.cmap))
  update_cache-IsIndexed q v absent room = (
    grown,
    update_cache-grown absent room,
    grown-IsIndexed v absent room,
    (
      length c.accesses,
      get_elem?-append_length c.cvec [] (length c.accesses),
      get_elem?-append_length c.accesses [] (some (record { pos = pos; buf = buf })),
    ),
    find-insert q pos (length c.cvec) c.cmap ∙ looked_up,
  )
    where
      same : (pos == q) ≡ true → find q c.cmap ≡ none
      same e = subst (λ t. find t c.cmap ≡ none) ((==_iff pos q).0 e) absent

      looked_up :
          ◌≡◌ {A = Option ℕ}
            (elim (find q c.cmap) [
              | some w ↦ some w
              | none ↦ if pos == q then some (length c.cvec) else none
            ])
            (if pos == q then some (length c.cvec) else find q c.cmap)
      looked_up = ground (arith, same)
