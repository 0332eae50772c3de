-- ===== src/Handler/Loop/Session.antt =====
-- A whole connection of handler/handler.cpp whose peer says hello and goes.
use btrx.Prelude.{
  exits, ℕ, suc, ◌^◌, ◌<◌, ◌≡◌, ◌≢◌, refl, ap, ◌∙◌, true, false, none, some, List, [], ◌∷◌, ◌++◌,
  ok, ◌==◌, length, set, get_elem?, get_elem?-append_length, arith,
}
use btrx.Rwlock.{Rwlocks}
use btrx.Mutex.{Mutexes, IsOpen}
use btrx.Files.{Files}
use btrx.Sockets.{Sockets}
use btrx.Json.{Json, IsLawful}
use btrx.ObjStore.{ObjStore}
use btrx.NbrMap.{Nbr, NbrMap}
use btrx.NbrMap.Registry.{fresh}
use btrx.NbrMap.Choking.{NoneChoked}
use btrx.NbrMap.Timers.Idle.{registered}
use btrx.Pkts.{PktMsg, to_json}
use btrx.Handler.{hello, send_handshake, rcv_sz}
use btrx.Handler.Loop.{Conn, deref_nbr, set_nbr, turn, leave, serve, cli_handler}
use btrx.Handler.Loop.Framing.{IsBson, HasArrived}
use btrx.Handler.Loop.Greeting.{turn-hello}

set-append_length :
    (heap : List Nbr) (a b : Nbr) → set (heap ++ a ∷ []) (length heap) b ≡ heap ++ b ∷ []
set-append_length [] a b = refl
set-append_length (x ∷ heap) a b = ap (λ h. x ∷ h) (set-append_length heap a b)

module _ {S J L F M : Type 0} (so : Sockets S) (jl : Json J) (pt : Rwlocks L) (fs : Files F)
    (mx : Mutexes M) (junk : ℕ → List ℕ) (peerid_self : ℕ) where
  turn-closed :
      (pkt0 : PktMsg) (c : Conn S L F M)
      → so.ewouldblock ≢ 0
      → (so.peek c.sock 4).1 ≡ some []
      → turn so jl pt fs mx junk peerid_self pkt0 c
        ≡ ok (false, record c { sock = (so.peek c.sock 4).0 })
  unfolding turn rcv_sz
  turn-closed pkt0 c ewouldblock closed =
      let ends : 0 == so.ewouldblock ≡ false = ground arith in rw (turn, rcv_sz, closed, ends) refl

  leave-last :
      (c : Conn S L F M) (heap : List Nbr)
      → c.nbr ≡ some (length heap)
      → c.nmap.heap ≡ heap ++ fresh ∷ []
      → leave so jl pt fs mx junk peerid_self c
        ≡ ok (record c {
          sock = so.close c.sock;
          nmap = record c.nmap { heap = heap ++ (record fresh { done = true }) ∷ [] };
        })
  unfolding leave deref_nbr set_nbr
  leave-last c heap at all =
      let there : get_elem? c.nmap.heap (length heap) ≡ some fresh =
        rw all (get_elem?-append_length heap [] fresh) in
      let marked : set c.nmap.heap (length heap) (record fresh { done = true })
          ≡ heap ++ (record fresh { done = true }) ∷ [] =
        rw all (set-append_length heap fresh (record fresh { done = true })) in
      rw (leave, deref_nbr, at, there, marked) refl

  turn-failed :
      (pkt0 : PktMsg) (c : Conn S L F M)
      → (so.peek c.sock 4).1 ≡ none
      → turn so jl pt fs mx junk peerid_self pkt0 c ≡ exits 1
  unfolding turn rcv_sz
  turn-failed pkt0 c failed = rw (turn, rcv_sz, failed) refl

  -- The locals of an accepted connection, and after a round in which the peer has said hello.
  abbrev accepted : S → ObjStore L F → NbrMap L M → Conn S L F M
  accepted sock ost nmap = record {
    sock = sock;
    client = true;
    ntimeouts = 0;
    choked_node = false;
    choked_peer = false;
    nbr = none;
    diff = [];
    bfield_peer = [];
    reqs = [];
    ost = ost;
    nmap = nmap;
  }

  abbrev greeted : ℕ → S → ObjStore L F → NbrMap L M → Conn S L F M
  greeted q answered ost nmap = record (accepted answered ost nmap) {
    nmap = registered mx nmap q;
    nbr = some (length nmap.heap);
  }

  first_round :
      (lawful : IsLawful jl) (bson : IsBson jl) (buffer : (sz : ℕ) → length (junk sz) ≡ sz) (q : ℕ)
      (pkt0 : PktMsg) (bs : List ℕ) (sock after answered : S) (ost : ObjStore L F)
      (nmap : NbrMap L M)
      → q < 2 ^ 32
      → jl.to_bson (to_json jl (hello q)) ≡ some bs
      → HasArrived so sock after bs
      → so.ewouldblock ≢ 4
      → NoneChoked nmap.heap
      → IsOpen mx nmap.mut
      → send_handshake so jl after peerid_self ≡ ok answered
      → turn so jl pt fs mx junk peerid_self pkt0 (accepted sock ost nmap)
        ≡ ok (true, greeted q answered ost nmap)
  first_round lawful bson buffer q pkt0 bs sock after answered ost nmap small written arrived
        not_four free open_mut sent =
      turn-hello so jl pt fs mx junk peerid_self lawful bson buffer q pkt0 bs
        (accepted sock ost nmap) after small written arrived not_four free refl refl refl open_mut
      ∙ rw sent refl

  -- An accepted connection, on a map whose mutex is unlocked and where nobody is choked: the peer's
  -- handshake, written by a lawful library, arrives in whole, the node's own can be sent, and then the
  -- peer closes. Within two rounds the call returns: the peer is registered under its identifier, its
  -- new neighbour, the last one, is marked as done and nothing else of the neighbours has changed, the
  -- store is as it was, and the connection is closed. EWOULDBLOCK must be neither 0 nor 4, and a buffer
  -- must have the size asked for.
  pub cli_handler-hello :
      (lawful : IsLawful jl) (bson : IsBson jl) (buffer : (sz : ℕ) → length (junk sz) ≡ sz) (q : ℕ)
      (pkt0 : PktMsg) (bs : List ℕ) (sock after answered : S) (ost : ObjStore L F)
      (nmap : NbrMap L M) (rounds : ℕ)
      → q < 2 ^ 32
      → jl.to_bson (to_json jl (hello q)) ≡ some bs
      → HasArrived so sock after bs
      → so.ewouldblock ≢ 4
      → so.ewouldblock ≢ 0
      → NoneChoked nmap.heap
      → IsOpen mx nmap.mut
      → send_handshake so jl after peerid_self ≡ ok answered
      → (so.peek answered 4).1 ≡ some []
      → (c' : Conn S L F M) × (cli_handler so jl pt fs mx junk peerid_self
            (suc (suc rounds))
            pkt0
            sock
            0
            ost
            nmap
          ≡ some (ok c'))
        × (c'.nmap ≡ record (registered mx nmap q) {
          heap = nmap.heap ++ (record fresh { done = true }) ∷ [];
        })
        × (c'.ost ≡ ost)
        × (c'.sock ≡ so.close (so.peek answered 4).0)
  unfolding cli_handler serve
  cli_handler-hello lawful bson buffer q pkt0 bs sock after answered ost nmap rounds small written
        arrived not_four not_zero free open_mut sent closed =
      let c1 = greeted q answered ost nmap in
      let first =
        first_round lawful bson buffer q pkt0 bs sock after answered ost nmap small written arrived
          not_four free open_mut sent in
      let second = turn-closed pkt0 c1 not_zero closed in
      let last = leave-last (record c1 { sock = (so.peek answered 4).0 }) nmap.heap refl refl in
      let gone : Conn S L F M = record c1 {
        sock = so.close (so.peek answered 4).0;
        nmap = record (registered mx nmap q) {
          heap = nmap.heap ++ (record fresh { done = true }) ∷ [];
        };
      } in
      (gone, rw (cli_handler, serve, first, second, last) refl, refl, refl, refl)

  -- An accepted connection, on a map whose mutex is unlocked and where nobody is choked: the peer's
  -- handshake, written by a lawful library, arrives in whole, the node's own can be sent, and then the
  -- next receive fails, as it does at a timeout. Then the call ends the process with status 1, in any
  -- number of rounds from two on. EWOULDBLOCK must not be 4, and a buffer must have the size asked for.
  pub cli_handler-silent :
      (lawful : IsLawful jl) (bson : IsBson jl) (buffer : (sz : ℕ) → length (junk sz) ≡ sz) (q : ℕ)
      (pkt0 : PktMsg) (bs : List ℕ) (sock after answered : S) (ost : ObjStore L F)
      (nmap : NbrMap L M) (rounds : ℕ)
      → q < 2 ^ 32
      → jl.to_bson (to_json jl (hello q)) ≡ some bs
      → HasArrived so sock after bs
      → so.ewouldblock ≢ 4
      → NoneChoked nmap.heap
      → IsOpen mx nmap.mut
      → send_handshake so jl after peerid_self ≡ ok answered
      → (so.peek answered 4).1 ≡ none
      → cli_handler so jl pt fs mx junk peerid_self (suc (suc rounds)) pkt0 sock 0 ost nmap
        ≡ some (exits 1)
  unfolding cli_handler serve
  cli_handler-silent lawful bson buffer q pkt0 bs sock after answered ost nmap rounds small written
        arrived not_four free open_mut sent failed =
      let first =
        first_round lawful bson buffer q pkt0 bs sock after answered ost nmap small written arrived
          not_four free open_mut sent in
      let second = turn-failed pkt0 (greeted q answered ost nmap) failed in
      rw (cli_handler, serve, first, second) refl
