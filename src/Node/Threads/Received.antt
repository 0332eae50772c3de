-- ===== src/Node/Threads/Received.antt =====
-- What a connection of handler/handler.cpp may rely on, however the rounds of the threads are interleaved.
use btrx.Prelude.{ℕ, ◌≡◌, ◌≢◌, true, false, some, List, [], ok, ◌>>=◌, length, get_elem?, Chain}
use btrx.Rwlock.{Rwlocks}
use btrx.Mutex.{Mutexes}
use btrx.Files.{Files}
use btrx.Sockets.{Sockets}
use btrx.Json.{Json, IsLawful}
use btrx.ObjStore.{ObjStore}
use btrx.NbrMap.{Nbr, NbrMap, create_nbrmap}
use btrx.NbrMap.Steps.{IsCalm}
use btrx.NbrMap.Choking.{NoneChoked-get_elem?}
use btrx.Pkts.{PktMsg, to_json, piece}
use btrx.Pkts.Wire.{IsWire, received}
use btrx.Handler.Loop.{Conn, deref_nbr, dispatch, turn}
use btrx.Handler.Loop.Framing.{IsBson, HasArrived, turn-received}
use btrx.Handler.Loop.Shared.{share}
use btrx.Handler.Loop.Shared.Cases.{deref_nbr_there}
use btrx.Node.Threads.Sound.{IsSound, AllSound-get_elem?, moves-AllSound}
use btrx.Node.Threads.{made_map-IsCalm, IsCalm-Calls}
use btrx.Node.Threads.Process.{Process, sees, Move, moves-Calls}

module _ {S J L F M : Type 0} (so : Sockets S) (jl : Json J) (pt : Rwlocks L) (mx : Mutexes M)
    (junk : L) (npeers npcs opuchoke_ival uchoke_ival n_pref_peers : ℕ) (o : ObjStore L F)
    (m : NbrMap L M)
    (made : create_nbrmap pt mx junk npeers npcs opuchoke_ival uchoke_ival n_pref_peers ≡ ok m)
    (p : Process S L F M)
    (moves : Chain (Move so jl pt mx) (record { conns = []; state = share o m }) p) (i : ℕ)
    (c : Conn S L F M) (at : get_elem? p.conns i ≡ some c) where
  start : IsCalm m
  start = made_map-IsCalm pt mx junk npeers npcs opuchoke_ival uchoke_ival n_pref_peers made

  sound : IsSound p.state.nmap.heap c
  sound =
      AllSound-get_elem? p.state.nmap.heap p.conns i (moves-AllSound so jl pt mx moves start tt) at

  calm : IsCalm p.state.nmap
  calm = IsCalm-Calls pt mx (moves-Calls so jl pt mx moves) start

  -- From a map as the constructor makes it, and any store, however the rounds of the threads are
  -- interleaved: a connection that has a neighbour finds it where its pointer says, and it is not choked.
  pub never_dangling :
      (q : ℕ)
      → c.nbr ≡ some q
      → (nbr : Nbr) × (deref_nbr (sees c p.state) ≡ ok (q, nbr)) × (nbr.choked ≡ false)
  never_dangling q to =
      let (nbr, there) = sound.points q to in
      (
        nbr,
        deref_nbr_there (sees c p.state) to there,
        NoneChoked-get_elem? p.state.nmap.heap q calm.free there,
      )

  -- From a map as the constructor makes it, and any store, however the rounds of the threads are
  -- interleaved: where a lawful library has written a message other than a piece, whose fields fit their
  -- types, and its bytes have all arrived on a connection, the round of its thread reads the number of
  -- bytes, takes exactly them from the socket, and goes on as the `switch` does with that message.
  -- EWOULDBLOCK must not be 4, and a buffer must have the size asked for.
  pub moves-received :
      (fs : Files F) (buffers : ℕ → List ℕ) (peerid_self : ℕ) (lawful : IsLawful jl)
      → (bson : IsBson jl) → (sized : (sz : ℕ) → length (buffers sz) ≡ sz)
      → (pkt pkt0 : PktMsg) (bs : List ℕ) (after : S) → IsWire pkt
      → pkt.type ≢ piece
      → jl.to_bson (to_json jl pkt) ≡ some bs
      → HasArrived so c.sock after bs
      → so.ewouldblock ≢ 4
      → turn so jl pt fs mx buffers peerid_self pkt0 (sees c p.state) ≡ (do
        c' ←
            dispatch so jl pt fs mx buffers peerid_self
              (received jl lawful pkt.type pkt pkt0)
              (record (sees c p.state) { sock = after })
        ok (true, c'))
  moves-received fs buffers peerid_self lawful bson sized pkt pkt0 bs after wire other written
        arrived ewouldblock =
      turn-received so jl pt fs mx buffers peerid_self lawful bson sized pkt pkt0 bs
        (sees c p.state) after wire other written arrived ewouldblock calm.free sound.unchoked
        sound.points
