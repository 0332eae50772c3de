-- ===== src/Node/Threads/Waiting.antt =====
-- The two threads of the map (nbrmap/nbrmap.cpp) beside the threads of a node (node/node.cpp) that is set up.
use btrx.Prelude.{ℕ, ◌^◌, ◌<◌, ◌≡◌, ◌≢◌, true, some, List, ok, length, arith, chain_trans}
use btrx.Rwlock.{Rwlocks}
use btrx.Mutex.{Mutexes}
use btrx.Files.{Files}
use btrx.Net.{Net}
use btrx.NbrMap.{select_unchoked, opt_unchoke}
use btrx.NbrMap.Timers.Idle.{waiting_idle}
use btrx.Node.{Node, Peers, create_node}
use btrx.Node.Threads.{waited_for}
use btrx.Node.Threads.Made.{create_node-Calls}
use btrx.Handler.Loop.Shared.{Shared, share, Calls}

module _ {W S A L F M : Type 0} (net : Net W S A) (pt : Rwlocks L) (mx : Mutexes M) (fs : Files F)
    (system : List ℕ → Files F → Files F) (junk : L) (junk_fd : F) where
  -- From a node as the constructor makes it for a list of fewer than 2 ^ 32 peers, after any calls of any
  -- threads that return, in any order, as long as there are fewer neighbours than peers in the list: a
  -- peer is still waited for, and both unchoking calls return true, so that their threads go on, and
  -- change nothing.
  pub timers_wait :
      (w w' : W) (n_pref_peers uchoke_ival opuchoke_ival peerid : ℕ) (addr : List ℕ) (port : ℕ)
      (sh_fname : List ℕ) (peers : Peers) (vals : List ℕ) (n : Node S L F M) (s : Shared L F M)
      (n_pref rounds : ℕ) (draw : ℕ → ℕ)
      → create_node net pt mx fs system junk junk_fd w n_pref_peers uchoke_ival opuchoke_ival peerid
          addr port sh_fname peers vals
        ≡ ok (w', n)
      → length peers.ids < 2 ^ 32
      → Calls pt mx (share n.ostore n.nbrmap) s
      → length s.nmap.heap < length peers.ids
      → (s.nmap.npeers ≢ 0)
        × (select_unchoked n_pref s.nmap ≡ ok (s.nmap, true))
        × (opt_unchoke rounds draw s.nmap ≡ some (ok (s.nmap, true)))
  timers_wait w w' n_pref_peers uchoke_ival opuchoke_ival peerid addr port sh_fname peers vals n s
        n_pref rounds draw created small calls fewer =
      let (fsz, pcsz, npcs, o, m, _, _, _, _, mapped, since) =
        create_node-Calls net pt mx fs system junk junk_fd w w' n_pref_peers uchoke_ival
          opuchoke_ival peerid addr port sh_fname peers vals n created in
      let count =
        waited_for pt mx junk (length peers.ids) npcs opuchoke_ival uchoke_ival n_pref_peers o m
          mapped s (chain_trans since calls) in
      let one_more : s.nmap.npeers ≢ 0 = omega (arith, count.1, small, fewer) in
      let (select, opt) = waiting_idle s.nmap rounds n_pref draw one_more in (one_more, select, opt)
