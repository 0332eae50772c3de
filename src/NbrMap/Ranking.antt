-- ===== src/NbrMap/Ranking.antt =====
-- The first loop of `select_unchoked` of nbrmap/nbrmap.cpp: the neighbours by their requests.
use btrx.Prelude.{
  ℕ, ◌<◌, ◌≡◌, refl, true, false, none, some, List, [], ◌∷◌, ok, get_elem?, arith, Bool-cases,
  Option-cases, inl, inr, ◌⊎◌, subst, sym, ap, ◌∙◌, ok_of_bind, ok_injective,
}
use btrx.Prelude.Assoc.{find}
use btrx.NbrMap.{Nbr, NbrMap, subscript, neighbour, insert_desc, collect}

-- Every key is below a bound, and the keys fall strictly.
abbrev pub Below : ℕ → List (ℕ × ℕ) → Type 0
Below n [] = Unit {0}
Below n ((k, p) ∷ reqs) = (k < n) × Below k reqs

abbrev pub Falls : List (ℕ × ℕ) → Type 0
Falls [] = Unit {0}
Falls ((k, p) ∷ reqs) = Below k reqs

-- Every entry is that of a neighbour that has not left, under its number of requests.
abbrev pub Counts : List Nbr → List (ℕ × ℕ) → Type 0
Counts heap [] = Unit {0}
Counts heap ((k, p) ∷ reqs) =
    ((nbr : Nbr) × (get_elem? heap p ≡ some nbr) × (nbr.requests ≡ k) × (nbr.done ≡ false))
    × Counts heap reqs

abbrev pub HasKey : ℕ → List (ℕ × ℕ) → Type 0
HasKey k [] = ⊥
HasKey k ((j, p) ∷ reqs) = (j ≡ k) ⊎ HasKey k reqs

Below-insert_desc :
    (n k p : ℕ) (reqs : List (ℕ × ℕ)) → k < n → Below n reqs → Below n (insert_desc k p reqs)
unfolding insert_desc
Below-insert_desc n k p [] h b = (h, tt)
Below-insert_desc n k p ((j, q) ∷ reqs) h b = ground (arith, Below-insert_desc j k p reqs)

Falls-insert_desc : (k p : ℕ) (reqs : List (ℕ × ℕ)) → Falls reqs → Falls (insert_desc k p reqs)
unfolding insert_desc
Falls-insert_desc k p [] b = tt
Falls-insert_desc k p ((j, q) ∷ reqs) b = ground (arith, Below-insert_desc j k p reqs)

HasKey-insert_desc : (k p : ℕ) (reqs : List (ℕ × ℕ)) → HasKey k (insert_desc k p reqs)
unfolding insert_desc
HasKey-insert_desc k p [] = inl refl
HasKey-insert_desc k p ((j, q) ∷ reqs) = ground (arith, HasKey-insert_desc k p reqs)

HasKey-insert_desc_other :
    (i k p : ℕ) (reqs : List (ℕ × ℕ)) → HasKey i reqs → HasKey i (insert_desc k p reqs)
unfolding insert_desc
HasKey-insert_desc_other i k p [] b = absurd b
HasKey-insert_desc_other i k p ((j, q) ∷ reqs) b =
    ground (arith, HasKey-insert_desc_other i k p reqs)

Counts-insert_desc :
    (heap : List Nbr) (p : ℕ) (nbr : Nbr) (reqs : List (ℕ × ℕ))
    → get_elem? heap p ≡ some nbr
    → nbr.done ≡ false
    → Counts heap reqs
    → Counts heap (insert_desc nbr.requests p reqs)
unfolding insert_desc
Counts-insert_desc heap p nbr [] at here b = ((nbr, at, refl, here), tt)
Counts-insert_desc heap p nbr ((j, q) ∷ reqs) at here b =
    ground (arith, Counts-insert_desc heap p nbr reqs at here b.1)

module _ {L M : Type 0} where
  -- A look-up that succeeds changes nothing.
  neighbour-heap :
      (m : NbrMap L M) (k : ℕ) {r : NbrMap L M × ℕ × Nbr}
      → neighbour m k ≡ ok r
      → (r.0 ≡ m) × (get_elem? m.heap r.1 ≡ some r.2)
  unfolding neighbour subscript
  neighbour-heap m k e = elim (Option-cases (find k m.peerinfo)) [
    | inl unknown ↦ absurd (ground (arith, unknown))
    | inr (none, null) ↦ absurd (ground (arith, null))
    | inr (some p, at) ↦ elim (Option-cases (get_elem? m.heap p)) [
      | inl dangling ↦ absurd (ground (arith, at, dangling))
      | inr (a, there) ↦ ground (arith, at, there)
    ]
  ]

  -- Every peer either has left or has its number of requests among the keys.
  abbrev pub Covered : NbrMap L M → List (ℕ × ℕ) → List ℕ → Type 0
  Covered m reqs [] = Unit {0}
  Covered m reqs (peer ∷ peers) =
      ((p : ℕ) × (nbr : Nbr) × (neighbour m peer ≡ ok (m, p, nbr))
        × ((nbr.done ≡ true) ⊎ HasKey nbr.requests reqs))
      × Covered m reqs peers

  abbrev pub IsRanking : NbrMap L M → List (ℕ × ℕ) → List ℕ → NbrMap L M × List (ℕ × ℕ) → Type 0
  IsRanking m reqs peers (m', reqs') =
      (m' ≡ m)
      × Falls reqs'
      × Counts m.heap reqs'
      × Covered m reqs' peers
      × ((i : ℕ) → HasKey i reqs → HasKey i reqs')

  IsRanking-next :
      (m : NbrMap L M) (reqs reqs1 : List (ℕ × ℕ)) (peer p : ℕ) (nbr : Nbr) (peers : List ℕ)
      (r : NbrMap L M × List (ℕ × ℕ))
      → neighbour m peer ≡ ok (m, p, nbr)
      → (nbr.done ≡ true) ⊎ HasKey nbr.requests reqs1
      → ((i : ℕ) → HasKey i reqs → HasKey i reqs1)
      → IsRanking m reqs1 peers r
      → IsRanking m reqs (peer ∷ peers) r
  IsRanking-next m reqs reqs1 peer p nbr peers r got covered keeps
        (same, falls, counts, others, keeps') =
      let covered' : (nbr.done ≡ true) ⊎ HasKey nbr.requests r.1 = elim covered [
        | inl gone ↦ inl gone
        | inr has ↦ inr (keeps' nbr.requests has)
      ] in
      (same, falls, counts, ((p, nbr, got, covered'), others), λ i has. keeps' i (keeps i has))

  collect-IsRanking :
      (peers : List ℕ) (m : NbrMap L M) (reqs : List (ℕ × ℕ)) {r : NbrMap L M × List (ℕ × ℕ)}
      → Falls reqs
      → Counts m.heap reqs
      → collect m peers reqs ≡ ok r
      → IsRanking m reqs peers r
  unfolding collect
  collect-IsRanking [] m reqs falls counts e =
      subst (IsRanking m reqs []) (ok_injective e) (refl, falls, counts, tt, λ i has. has)
  collect-IsRanking (peer ∷ peers) m reqs {r} falls counts e =
      let ((m1, p, nbr), got, rest) = ok_of_bind (neighbour m peer) _ e in
      let (same, there) = neighbour-heap m peer got in
      let got' : neighbour m peer ≡ ok (m, p, nbr) = got ∙ ap (λ m1. ok (m1, p, nbr)) same in
      elim (Bool-cases nbr.done) [
        | inl gone ↦
            let rest' : collect m peers reqs ≡ ok r = rw (sym same) (ground (arith, rest, gone)) in
            IsRanking-next m reqs reqs peer p nbr peers r got' (inl gone) (λ i has. has)
              (collect-IsRanking peers m reqs falls counts rest')
        | inr here ↦
            let reqs1 = insert_desc nbr.requests p reqs in
            let rest' : collect m peers reqs1 ≡ ok r = rw (sym same) (ground (arith, rest, here)) in
            IsRanking-next m reqs reqs1 peer p nbr peers r got'
              (inr (HasKey-insert_desc nbr.requests p reqs))
              (λ i has. HasKey-insert_desc_other i nbr.requests p reqs has)
              (collect-IsRanking peers m reqs1 (Falls-insert_desc nbr.requests p reqs falls)
                (Counts-insert_desc m.heap p nbr reqs there here counts) rest')
      ]

  -- Where the first loop of `select_unchoked` returns, it has changed nothing in the map, and what it
  -- has gathered falls strictly by requests: each entry is a registered neighbour that has not left,
  -- under its number of requests, and each neighbour either has left or has its number among the keys.
  -- So of several neighbours with equal requests only one is a candidate.
  pub collect-ranks :
      (peers : List ℕ) (m m' : NbrMap L M) (reqs : List (ℕ × ℕ))
      → collect m peers [] ≡ ok (m', reqs)
      → (m' ≡ m) × Falls reqs × Counts m.heap reqs × Covered m reqs peers
  collect-ranks peers m m' reqs e =
      let (same, falls, counts, covered, _) = collect-IsRanking peers m [] tt tt e in
      (same, falls, counts, covered)
