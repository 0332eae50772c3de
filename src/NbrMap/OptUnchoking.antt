-- ===== src/NbrMap/OptUnchoking.antt =====
-- `opt_unchoke` of nbrmap/nbrmap.cpp while nobody is choked.
use btrx.Prelude.{
  ℕ, zero, suc, ◌+◌, ◌%◌, ◌≡◌, ◌≢◌, Bool, false, not, some, ok, ◌==◌, length, arith, Bool-cases,
  inl, inr,
}
use btrx.NbrMap.{NbrMap, opt_unchoke_loop, opt_unchoke}
use btrx.NbrMap.Registry.{neighbour_cases}
use btrx.NbrMap.Choking.{NoneChoked, NoneChoked-get_elem?}

-- The loop of `opt_unchoke` frees nobody where nobody is choked.
module _ {L M : Type 0} where
  opt_unchoke_loop_stuck :
      (rounds : ℕ) (draw : ℕ → ℕ) (i : ℕ) (m : NbrMap L M) (r : NbrMap L M × Bool)
      → NoneChoked m.heap
      → opt_unchoke_loop rounds draw i m ≢ some (ok r)
  unfolding opt_unchoke_loop
  opt_unchoke_loop_stuck zero draw i m r none_choked = λ h. cc
  opt_unchoke_loop_stuck (suc rounds) draw i m r none_choked =
      elim (Bool-cases (length m.peers == 0)) [
        | inl empty ↦ rw (opt_unchoke_loop, empty) (λ h. cc)
        | inr some_peer ↦ elim (neighbour_cases m (draw i % length m.peers)) [
          | inl (m', p, nbr, found, same, _, there) ↦
              let unchoked = NoneChoked-get_elem? m.heap p none_choked there in
              rw (opt_unchoke_loop, some_peer, found, unchoked)
                (opt_unchoke_loop_stuck rounds draw (i + 1) m' r (rw same none_choked))
          | inr bad ↦ rw (opt_unchoke_loop, some_peer, bad) (λ h. cc)
        ]
      ]

  -- Once all peers have registered and while nobody is choked, `opt_unchoke` never returns: for any
  -- sequence of random draws and any number of rounds, its loop is still running or has followed a
  -- null pointer or divided by zero.
  pub opt_unchoke_stuck :
      (rounds : ℕ) (draw : ℕ → ℕ) (m : NbrMap L M) (r : NbrMap L M × Bool)
      → m.npeers ≡ 0
      → NoneChoked m.heap
      → opt_unchoke rounds draw m ≢ some (ok r)
  unfolding opt_unchoke
  opt_unchoke_stuck rounds draw m r e none_choked =
      let t : not (m.npeers == 0) ≡ false = ground arith in
      rw t (opt_unchoke_loop_stuck rounds draw 0 m r none_choked)
