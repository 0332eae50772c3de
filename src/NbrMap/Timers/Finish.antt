-- ===== src/NbrMap/Timers/Finish.antt =====
-- How the thread of `select_unchoked` (nbrmap/nbrmap.cpp) comes to its end.
use btrx.Prelude.{
  ℕ, zero, suc, ◌+◌, ◌<◌, ◌≡◌, refl, ◌∙◌, sym, subst, Bool, true, some, List, [], ◌∷◌, ok, ◌==◌,
  length, arith, Bool-cases, inl, inr, ok_injective, ap,
}
use btrx.NbrMap.{Nbr, NbrMap, select_unchoked}
use btrx.NbrMap.Registry.{AllPoint, IsValid}
use btrx.NbrMap.Unchoking.{Relaxed, AllDone, SomeActive, select_unchoked_lem}
use btrx.NbrMap.Timers.{unchoke_handler}

length-Relaxed : (heap heap' : List Nbr) → Relaxed heap heap' → length heap' ≡ length heap
length-Relaxed [] [] r = refl
length-Relaxed (a ∷ heap) (b ∷ heap') r = ap suc (length-Relaxed heap heap' r.1)
length-Relaxed [] (b ∷ heap') r = absurd r
length-Relaxed (a ∷ heap) [] r = absurd r

module _ {L M : Type 0} where
  IsValid-Relaxed :
      (m : NbrMap L M) (heap : List Nbr)
      → IsValid m
      → Relaxed m.heap heap
      → IsValid (record m { heap = heap })
  IsValid-Relaxed m heap v r = record {
    known = v.known;
    entries = subst (λ n. AllPoint n m.peerinfo) (sym (length-Relaxed m.heap heap r)) v.entries;
  }

  done_or_active : (m : NbrMap L M) (ks : List ℕ) → AllDone m ks → SomeActive m ks → ⊥
  done_or_active m [] gone active = active
  done_or_active m (k ∷ ks) ((p, nbr, there, done), gone) (inl (q, nbr', there', active)) =
      let same : nbr ≡ nbr' = ap (λ r. r.2) (ok_injective (sym there ∙ there')) in cc
  done_or_active m (k ∷ ks) (_, gone) (inr active) = done_or_active m ks gone active

  -- A round returns, and goes on only while somebody is missing or still there.
  abbrev pub Steps : ℕ → NbrMap L M → Type 0
  Steps n_pref m =
      (m' : NbrMap L M) × (b : Bool) × (select_unchoked n_pref m ≡ ok (m', b))
      × IsValid m'
      × (b ≡ true → m.npeers ≡ 0 → AllDone m m.peers → ⊥)

  pub select_unchoked-Steps :
      (n_pref : ℕ) (m : NbrMap L M) → 0 < n_pref → IsValid m → Steps n_pref m
  unfolding select_unchoked
  select_unchoked-Steps n_pref m pos v = elim (Bool-cases (m.npeers == 0)) [
    | inl complete ↦
        let (heap, b, result, which, relaxed, fewer) =
          select_unchoked_lem m n_pref v (ground arith) pos in
        (
          record m { heap = heap },
          b,
          result,
          IsValid-Relaxed m heap v relaxed,
          λ on none_missing gone. elim which [
            | inl (off, _, _) ↦ cc
            | inr (_, active) ↦ done_or_active m m.peers gone active
          ],
        )
    | inr waits ↦
        (m, true, rw waits refl, v, λ on none_missing gone. ground (arith, waits, none_missing))
  ]

module _ {L M : Type 0} (others : ℕ → NbrMap L M → NbrMap L M)
    (valid : (n : ℕ) (m : NbrMap L M) → IsValid m → IsValid (others n m)) (j : ℕ)
    (over : (m : NbrMap L M)
      → IsValid m
      → ((others j m).npeers ≡ 0) × AllDone (others j m) (others j m).peers)
    (n_pref : ℕ) (pos : 0 < n_pref) where
  over_at :
      (n : ℕ) (m : NbrMap L M)
      → n ≡ j
      → IsValid m
      → ((others n m).npeers ≡ 0) × AllDone (others n m) (others n m).peers
  over_at n m e v =
      subst (λ i. ((others i m).npeers ≡ 0) × AllDone (others i m) (others i m).peers) (sym e)
        (over m v)

  -- Where the other threads keep the registry well-formed, at least one peer is preferred, and after
  -- the j-th sleep all peers have registered and all neighbours are done, the thread that calls
  -- `select_unchoked` ends, without an error, by its round behind that sleep.
  pub unchoke_handler_ends :
      (k n : ℕ) (m : NbrMap L M)
      → n + k ≡ j
      → IsValid m
      → (m' : NbrMap L M) × (unchoke_handler others (suc k) n_pref n m ≡ some (ok m'))
  unfolding unchoke_handler
  unchoke_handler_ends zero n m at v =
      let (m', b, result, v', over_then) =
        select_unchoked-Steps n_pref (others n m) pos (valid n m v) in
      let (none_missing, gone) = over_at n m (omega arith) v in
      elim (Bool-cases b) [
        | inl on ↦ absurd (over_then on none_missing gone)
        | inr off ↦ (m', rw (unchoke_handler, result, off) refl)
      ]
  unchoke_handler_ends (suc k) n m at v =
      let (m', b, result, v', _) = select_unchoked-Steps n_pref (others n m) pos (valid n m v) in
      elim (Bool-cases b) [
        | inl on ↦
            let (last, ended) = unchoke_handler_ends k (n + 1) m' (omega arith) v' in
            (last, rw (unchoke_handler, result, on) ended)
        | inr off ↦ (m', rw (unchoke_handler, result, off) refl)
      ]
