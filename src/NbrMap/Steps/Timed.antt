-- ===== src/NbrMap/Steps/Timed.antt =====
-- The two timer calls of nbrmap/nbrmap.cpp where nobody is choked: they change nothing.
use btrx.Prelude.{
  Outcome, ℕ, ◌≡◌, refl, ◌∙◌, sym, ap, subst, Bool, true, false, not, some, List, [], ◌∷◌, ok,
  defined, ◌>>=◌, ok_of_bind, ok_injective, Bool-cases, Option-cases, inl, inr, get_elem?, arith,
  ◌==◌,
}
use btrx.Prelude.Assoc.{find}
use btrx.NbrMap.{
  Nbr, NbrMap, subscript, neighbour, is_waiting, collect, unchoke_loop, select_unchoked,
  opt_unchoke,
}
use btrx.NbrMap.Choking.{NoneChoked, NoneChoked-get_elem?}
use btrx.NbrMap.OptUnchoking.{opt_unchoke_stuck}

module _ {L M : Type 0} where
  neighbour-same :
      (m m' : NbrMap L M) (k p : ℕ) (nbr : Nbr) → neighbour m k ≡ ok (m', p, nbr) → m ≡ m'
  unfolding neighbour subscript
  neighbour-same m m' k p nbr e = elim (Option-cases (find k m.peerinfo)) [
    | inl missing ↦ absurd (ground (arith, missing, e))
    | inr (ptr, at) ↦
        let (q, to, rest) = ok_of_bind (defined (subscript k m.peerinfo).1) _ e in
        let (x, there, rest1) = ok_of_bind (defined (get_elem? m.heap q)) _ rest in
        let info : (subscript k m.peerinfo).0 ≡ m.peerinfo = rw (subscript, at) refl in
        ap (λ t. record m { peerinfo = t }) (sym info) ∙ ap (λ r. r.0) (ok_injective rest1)
  ]

  collect-same :
      (peers : List ℕ) (m m' : NbrMap L M) (reqs reqs' : List (ℕ × ℕ))
      → collect m peers reqs ≡ ok (m', reqs')
      → m ≡ m'
  unfolding collect
  collect-same [] m m' reqs reqs' e = ap (λ r. r.0) (ok_injective e)
  collect-same (peer ∷ peers) m m' reqs reqs' e =
      let ((m1, p, nbr), found, rest) = ok_of_bind (neighbour m peer) _ e in
      neighbour-same m m1 peer p nbr found ∙ collect-same peers m1 m' _ reqs' rest

unchoke_loop-same :
    (n j : ℕ) (reqs : List (ℕ × ℕ)) (heap heap' : List Nbr)
    → NoneChoked heap
    → unchoke_loop n reqs j heap ≡ ok heap'
    → heap ≡ heap'
unfolding unchoke_loop is_waiting
unchoke_loop-same n j [] heap heap' free e = ok_injective e
unchoke_loop-same n j ((k, p) ∷ reqs) heap heap' free e = elim (Option-cases (get_elem? heap p)) [
  | inl outside ↦ absurd (ground (arith, outside, e))
  | inr (nbr, at) ↦
      let calm = NoneChoked-get_elem? heap p free at in
      elim (Bool-cases (j == n)) [
        | inl last ↦ ground (arith, at, calm, last, e)
        | inr more ↦ unchoke_loop-same n j reqs heap heap' free (ground (arith, at, calm, more, e))
      ]
]

module _ {L M : Type 0} (m m' : NbrMap L M) (b : Bool) where
  -- What follows the first loop.
  abbrev finish : NbrMap L M → ℕ → List (ℕ × ℕ) → Outcome (NbrMap L M × Bool)
  finish m1 n_pref reqs =
      let looped = unchoke_loop n_pref reqs 0 m1.heap in
      elim reqs [
        | [] ↦ ok (m1, false)
        | _ ∷ _ ↦ do heap ← looped; ok (record m1 { heap = heap }, true)
      ]

  served :
      (m1 : NbrMap L M) (n_pref : ℕ) (reqs : List (ℕ × ℕ))
      → NoneChoked m1.heap
      → finish m1 n_pref reqs ≡ ok (m', b)
      → m1 ≡ m'
  served m1 n_pref [] free e = ap (λ r. r.0) (ok_injective e)
  served m1 n_pref (req ∷ reqs) free e =
      let (heap, looped, rest) = ok_of_bind (unchoke_loop n_pref (req ∷ reqs) 0 m1.heap) _ e in
      ap (λ t. record m1 { heap = t })
        (unchoke_loop-same n_pref 0 (req ∷ reqs) m1.heap heap free looped)
      ∙ ap (λ r. r.0) (ok_injective rest)

  pub select_unchoked-same :
      (n_pref : ℕ) → NoneChoked m.heap → select_unchoked n_pref m ≡ ok (m', b) → m ≡ m'
  unfolding select_unchoked
  select_unchoked-same n_pref free e = elim (Bool-cases (not (m.npeers == 0))) [
    | inl waits ↦ ground (arith, waits, e)
    | inr all ↦
        let e' = rw (select_unchoked, all) at e in
        let ((m1, reqs), gathered, rest) = ok_of_bind (collect m m.peers []) _ e' in
        let same = collect-same m.peers m m1 [] reqs gathered in
        same ∙ served m1 n_pref reqs (subst (λ (t : NbrMap L M). NoneChoked t.heap) same free) rest
  ]

  pub opt_unchoke-same :
      (rounds : ℕ) (draw : ℕ → ℕ)
      → NoneChoked m.heap
      → opt_unchoke rounds draw m ≡ some (ok (m', b))
      → m ≡ m'
  unfolding opt_unchoke
  opt_unchoke-same rounds draw free e = elim (Bool-cases (m.npeers == 0)) [
    | inl all ↦ absurd (opt_unchoke_stuck rounds draw m (m', b) (ground (arith, all)) free e)
    | inr waits ↦ ground (arith, waits, e)
  ]
