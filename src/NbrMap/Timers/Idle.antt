-- ===== src/NbrMap/Timers/Idle.antt =====
-- The two threads of a map (nbrmap/nbrmap.cpp) while not all the peers that it waits for have
-- registered: neither does anything, and neither ends.
use btrx.Prelude.{
  ℕ, zero, suc, ◌+◌, ◌-◌, ◌%◌, ◌^◌, ◌≤◌, ◌<◌, ◌≡◌, ◌≢◌, refl, true, not, none, some, List, [], ◌∷◌,
  ◌++◌, Outcome, ok, ◌>>=◌, ◌==◌, length, arith,
}
use btrx.Prelude.Assoc.{insert}
use btrx.Mutex.{Mutexes, IsOpen}
use btrx.NbrMap.{NbrMap, register_cli, opt_unchoke, select_unchoked}
use btrx.NbrMap.Timers.{opt_unchoke_handler, unchoke_handler}
use btrx.NbrMap.Registry.{fresh}

-- While a peer is waited for, both unchoking calls return true and change nothing.
pub waiting_idle :
    {L M : Type 0} (m : NbrMap L M) (rounds n_pref : ℕ) (draw : ℕ → ℕ)
    → m.npeers ≢ 0
    → (select_unchoked n_pref m ≡ ok (m, true)) × (opt_unchoke rounds draw m ≡ some (ok (m, true)))
unfolding select_unchoked opt_unchoke
waiting_idle m rounds n_pref draw waiting =
    let waits : not (m.npeers == 0) ≡ true = ground (arith, waiting) in
    (rw waits refl, rw waits refl)

module _ {L M : Type 0} (mx : Mutexes M) where
  -- Registering one peer after the other.
  pub register_all : List ℕ → NbrMap L M → Outcome (NbrMap L M)
  register_all [] m = ok m
  register_all (peerid ∷ ids) m = do (m', _) ← register_cli mx m peerid; register_all ids m'

  abbrev pub registered : NbrMap L M → ℕ → NbrMap L M
  registered m peerid = record m {
    heap = m.heap ++ fresh ∷ [];
    peers = m.peers ++ peerid ∷ [];
    peerinfo = insert peerid (some (length m.heap)) m.peerinfo;
    npeers = (m.npeers + 2 ^ 32 - 1) % 2 ^ 32;
  }

  pub register_cli-registered :
      (m : NbrMap L M) (peerid : ℕ)
      → IsOpen mx m.mut
      → register_cli mx m peerid ≡ ok (registered m peerid, length m.heap)
  unfolding register_cli
  register_cli-registered m peerid open_mut = rw (open_mut.lock_ok, open_mut.unlock_ok) refl

  npeers-register_all :
      (ids : List ℕ) (m : NbrMap L M)
      → IsOpen mx m.mut
      → length ids ≤ m.npeers
      → m.npeers < 2 ^ 32
      → (m' : NbrMap L M) × (register_all ids m ≡ ok m') × (m'.npeers + length ids ≡ m.npeers)
  unfolding register_all
  npeers-register_all [] m open_mut h k = (m, refl, omega arith)
  npeers-register_all (peerid ∷ ids) m open_mut h k =
      let one_less : (m.npeers + 2 ^ 32 - 1) % 2 ^ 32 + 1 ≡ m.npeers = omega arith in
      let (m', done, left) =
        npeers-register_all ids (registered m peerid) open_mut (omega arith) (omega arith) in
      (m', rw (register_cli-registered m peerid open_mut) done, omega arith)

  -- Where a map with an unlocked mutex waits for one peer more than register, these all register,
  -- one peer is still waited for, and then both unchoking calls return true and change nothing.
  register_all_idle :
      (ids : List ℕ) (m : NbrMap L M) (rounds n_pref : ℕ) (draw : ℕ → ℕ)
      → IsOpen mx m.mut
      → length ids + 1 ≡ m.npeers
      → m.npeers < 2 ^ 32
      → (m' : NbrMap L M) × (register_all ids m ≡ ok m')
        × (m'.npeers ≡ 1)
        × (select_unchoked n_pref m' ≡ ok (m', true))
        × (opt_unchoke rounds draw m' ≡ some (ok (m', true)))
  register_all_idle ids m rounds n_pref draw open_mut h k =
      let (m', done, left) = npeers-register_all ids m open_mut (omega arith) k in
      let (select, opt) = waiting_idle m' rounds n_pref draw (omega arith) in
      (m', done, omega arith, select, opt)

module _ {L M : Type 0} (others : ℕ → NbrMap L M → NbrMap L M)
    (waiting : (n : ℕ) (m : NbrMap L M) → (others n m).npeers ≢ 0) where
  -- While a peer is waited for after every sleep, neither thread ever ends: not in any number of
  -- rounds, and whatever the draws.
  timers_never_end :
      (rounds turns n n_pref : ℕ) (draws : ℕ → ℕ → ℕ) (m : NbrMap L M)
      → (unchoke_handler others rounds n_pref n m ≡ none)
        × (opt_unchoke_handler others rounds turns draws n m ≡ none)
  unfolding unchoke_handler opt_unchoke_handler select_unchoked opt_unchoke
  timers_never_end zero turns n n_pref draws m = (refl, refl)
  timers_never_end (suc rounds) turns n n_pref draws m =
      let waits : not ((others n m).npeers == 0) ≡ true = ground (arith, waiting n m) in
      let (unchoke, opt) = timers_never_end rounds turns (n + 1) n_pref draws (others n m) in
      (rw (unchoke_handler, waits) unchoke, rw (opt_unchoke_handler, waits) opt)
