-- ===== src/NbrMap/Unchoking.antt =====
-- `select_unchoked` of nbrmap/nbrmap.cpp: whom it takes out of the choked neighbours, and when its
-- thread is to end.
use btrx.Prelude.{
  ℕ, zero, suc, ◌+◌, ◌-◌, ◌≤◌, ◌<◌, ◌≡◌, ◌≢◌, refl, ◌∙◌, sym, subst, Bool, true, false, not, some,
  List, [], ◌∷◌, ok, ◌==◌, if◌then◌else◌, get_elem?, get_or, set, length, arith, Bool-cases, inl,
  inr, ◌⊎◌, length-set, get_elem?_of_lt, lt_of_get_elem?,
}
use btrx.NbrMap.{
  Nbr, NbrMap, neighbour, is_waiting, insert_desc, collect, unchoke_loop, select_unchoked,
}
use btrx.NbrMap.Registry.{AllKnown, IsValid, neighbour_known, fresh}

-- How a heap is relaxed: some neighbours that were choked and interested are choked no longer.
abbrev pub Relaxed : List Nbr → List Nbr → Type 0
Relaxed [] [] = Unit {0}
Relaxed (a ∷ heap) (b ∷ heap') =
    ((b ≡ a) ⊎ (is_waiting a ≡ true) × (b ≡ record a { choked = false })) × Relaxed heap heap'
Relaxed _ _ = ⊥

abbrev pub choked_count : List Nbr → ℕ
choked_count [] = 0
choked_count (nbr ∷ heap) = (if nbr.choked then 1 else 0) + choked_count heap

abbrev pub AllPlaced : ℕ → List (ℕ × ℕ) → Type 0
AllPlaced n [] = Unit {0}
AllPlaced n ((_, p) ∷ reqs) = (p < n) × AllPlaced n reqs

AllPlaced-insert_desc :
    (n k p : ℕ) (reqs : List (ℕ × ℕ))
    → p < n
    → AllPlaced n reqs
    → AllPlaced n (insert_desc k p reqs)
unfolding insert_desc
AllPlaced-insert_desc n k p [] h all = (h, tt)
AllPlaced-insert_desc n k p ((j, q) ∷ reqs) h all =
    ground (arith, AllPlaced-insert_desc n k p reqs h all.1)

insert_desc-ne : (k p : ℕ) (reqs : List (ℕ × ℕ)) → insert_desc k p reqs ≢ []
unfolding insert_desc
insert_desc-ne k p [] = ground arith
insert_desc-ne k p ((j, q) ∷ reqs) = ground arith

Relaxed-refl : (heap : List Nbr) → Relaxed heap heap
Relaxed-refl [] = tt
Relaxed-refl (a ∷ heap) = (inl refl, Relaxed-refl heap)

Relaxed-set :
    (heap : List Nbr) (p : ℕ) {nbr : Nbr}
    → get_elem? heap p ≡ some nbr
    → is_waiting nbr ≡ true
    → Relaxed heap (set heap p (record nbr { choked = false }))
      × (choked_count heap ≡ choked_count (set heap p (record nbr { choked = false })) + 1)
unfolding is_waiting
Relaxed-set [] p e w = cc
Relaxed-set (a ∷ heap) zero e w =
    ((inr (ground arith, ground arith), Relaxed-refl heap), ground arith)
Relaxed-set (a ∷ heap) (suc p) e w =
    let (r, c) = Relaxed-set heap p e w in ((inl refl, r), omega arith)

Relaxed-trans : (a b c : List Nbr) → Relaxed a b → Relaxed b c → Relaxed a c
unfolding is_waiting
Relaxed-trans [] [] [] r s = tt
Relaxed-trans (x ∷ a) (y ∷ b) (z ∷ c) r s = (ground arith, Relaxed-trans a b c r.1 s.1)
Relaxed-trans [] (y ∷ b) c r s = absurd r
Relaxed-trans [] [] (z ∷ c) r s = absurd s
Relaxed-trans (x ∷ a) [] c r s = absurd r
Relaxed-trans (x ∷ a) (y ∷ b) [] r s = absurd s

-- The second loop ends, relaxes the heap, and frees no more neighbours than it has left to free.
abbrev pub Serves : ℕ → ℕ → List (ℕ × ℕ) → List Nbr → Type 0
Serves n j reqs heap =
    (heap' : List Nbr) × (unchoke_loop n reqs j heap ≡ ok heap')
    × Relaxed heap heap'
    × (j < n → choked_count heap ≤ choked_count heap' + (n - j))

module _ (n j k p : ℕ) (reqs : List (ℕ × ℕ)) (heap : List Nbr) (nbr : Nbr)
    (e : get_elem? heap p ≡ some nbr) where
  Serves-hit :
      is_waiting nbr ≡ true
      → Serves n (j + 1) reqs (set heap p (record nbr { choked = false }))
      → Serves n j ((k, p) ∷ reqs) heap
  unfolding unchoke_loop
  Serves-hit hit (heap', result, relaxed', fewer) =
      let freed = set heap p (record nbr { choked = false }) in
      let (relaxed, one_less) = Relaxed-set heap p e hit in
      elim (Bool-cases (j + 1 == n)) [
        | inl last ↦ (freed, rw (e, unchoke_loop, hit, last), relaxed, λ h. ground arith)
        | inr more ↦ (
          heap',
          rw (e, unchoke_loop, hit, more) result,
          Relaxed-trans heap freed heap' relaxed relaxed',
          λ h. ground (arith, fewer),
        )
      ]

  Serves-miss : is_waiting nbr ≡ false → Serves n j reqs heap → Serves n j ((k, p) ∷ reqs) heap
  unfolding unchoke_loop
  Serves-miss miss (heap', result, relaxed', fewer) = elim (Bool-cases (j == n)) [
    | inl last ↦ (heap, rw (e, unchoke_loop, miss, last), Relaxed-refl heap, λ h. ground arith)
    | inr more ↦ (heap', rw (e, unchoke_loop, miss, more) result, relaxed', fewer)
  ]

unchoke_loop-Serves :
    (n j : ℕ) (reqs : List (ℕ × ℕ)) (heap : List Nbr)
    → AllPlaced (length heap) reqs
    → Serves n j reqs heap
unfolding unchoke_loop
unchoke_loop-Serves n j [] heap all = (heap, refl, Relaxed-refl heap, λ h. omega arith)
unchoke_loop-Serves n j ((k, p) ∷ reqs) heap all =
    let nbr = get_or heap p fresh in
    let e = get_elem?_of_lt heap p fresh all.0 in
    let rest =
      subst (λ t. AllPlaced t reqs) (sym (length-set heap p (record nbr { choked = false })))
        all.1 in
    elim (Bool-cases (is_waiting nbr)) [
      | inl hit ↦
          Serves-hit n j k p reqs heap nbr e hit
            (unchoke_loop-Serves n (j + 1) reqs (set heap p (record nbr { choked = false })) rest)
      | inr miss ↦
          Serves-miss n j k p reqs heap nbr e miss (unchoke_loop-Serves n j reqs heap all.1)
    ]

module _ {L M : Type 0} (m : NbrMap L M) where
  abbrev pub IsDone : ℕ → Bool → Type 0
  IsDone k done = (p : ℕ) × (nbr : Nbr) × (neighbour m k ≡ ok (m, p, nbr)) × (nbr.done ≡ done)

  abbrev pub AllDone : List ℕ → Type 0
  AllDone [] = Unit {0}
  AllDone (k ∷ ks) = IsDone k true × AllDone ks

  abbrev pub SomeActive : List ℕ → Type 0
  SomeActive [] = ⊥
  SomeActive (k ∷ ks) = IsDone k false ⊎ SomeActive ks

  abbrev Collects : List ℕ → List (ℕ × ℕ) → Type 0
  Collects ks reqs =
      (reqs' : List (ℕ × ℕ)) × (collect m ks reqs ≡ ok (m, reqs'))
      × AllPlaced (length m.heap) reqs'
      × (((reqs' ≡ reqs) × AllDone ks) ⊎ ((reqs' ≢ []) × SomeActive ks))

  collect-Collects :
      (ks : List ℕ) (reqs : List (ℕ × ℕ))
      → IsValid m
      → AllKnown m.peerinfo ks
      → AllPlaced (length m.heap) reqs
      → Collects ks reqs
  unfolding collect
  collect-Collects [] reqs v all placed = (reqs, refl, placed, inl (refl, tt))
  collect-Collects (k ∷ ks) reqs v all placed =
      let (p, nbr, there, found) = neighbour_known m k v all.0 in
      elim (Bool-cases nbr.done) [
        | inl gone ↦
            let (reqs', result, placed', which) = collect-Collects ks reqs v all.1 placed in
            (
              reqs',
              rw (found, gone) result,
              placed',
              elim which [
                | inl (same, rest) ↦ inl (same, ((p, nbr, found, gone), rest))
                | inr (some_left, rest) ↦ inr (some_left, inr rest)
              ],
            )
        | inr active ↦
            let (reqs', result, placed', which) =
              collect-Collects ks (insert_desc nbr.requests p reqs) v all.1 (
                AllPlaced-insert_desc (length m.heap) nbr.requests p reqs
                  (lt_of_get_elem? m.heap p there) placed) in
            (
              reqs',
              rw (found, active) result,
              placed',
              elim which [
                | inl (same, rest) ↦ inr (
                  λ none_left. insert_desc-ne nbr.requests p reqs (sym same ∙ none_left),
                  inl (p, nbr, found, active),
                )
                | inr (some_left, rest) ↦ inr (some_left, inr rest)
              ],
            )
      ]

  abbrev pub Selects : ℕ → Type 0
  Selects n =
      (heap : List Nbr) × (b : Bool) × (select_unchoked n m ≡ ok (record m { heap = heap }, b))
      × (((b ≡ false) × (heap ≡ m.heap) × AllDone m.peers) ⊎ ((b ≡ true) × SomeActive m.peers))
      × Relaxed m.heap heap
      × (choked_count m.heap ≤ choked_count heap + n)

  selects :
      (n : ℕ) (reqs : List (ℕ × ℕ))
      → not (m.npeers == 0) ≡ false
      → 0 < n
      → collect m m.peers [] ≡ ok (m, reqs)
      → ((reqs ≡ []) × AllDone m.peers) ⊎ ((reqs ≢ []) × SomeActive m.peers)
      → Serves n 0 reqs m.heap
      → Selects n
  unfolding select_unchoked
  selects n [] t pos result (inl (_, gone)) serves =
      (m.heap, false, rw (t, result), inl (refl, refl, gone), Relaxed-refl m.heap, omega arith)
  selects n [] t pos result (inr (ne, _)) serves = absurd (ne refl)
  selects n (r ∷ reqs) t pos result (inl (same, _)) serves = cc
  selects n (r ∷ reqs) t pos result (inr (_, active)) (heap, served, relaxed, fewer) =
      (heap, true, rw (t, result, served), inr (refl, active), relaxed, ground (arith, fewer pos))

  -- Once all peers have registered in a well-formed registry, `select_unchoked` returns, for a
  -- positive number of preferred peers. It says that the thread is to end
  -- exactly if every neighbour is done, and changes nothing then; else it only takes choked and
  -- interested neighbours out of the choked ones, no more of them than asked for.
  pub select_unchoked_lem : (n : ℕ) → IsValid m → m.npeers ≡ 0 → 0 < n → Selects n
  select_unchoked_lem n v e pos =
      let (reqs, result, placed, which) = collect-Collects m.peers [] v v.known tt in
      selects n reqs (ground arith) pos result which (unchoke_loop-Serves n 0 reqs m.heap placed)
