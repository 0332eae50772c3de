-- ===== src/Handler/Loop/Greeting.antt =====
-- The first message of a peer that connects to this node (handler/handler.cpp).
use btrx.Prelude.{
  >>=_assoc, ℕ, ◌^◌, ◌<◌, ◌≡◌, ◌≢◌, refl, ◌∙◌, true, false, none, some, List, ok, ◌>>=◌, length,
  arith,
}
use btrx.Rwlock.{Rwlocks}
use btrx.Mutex.{Mutexes, IsOpen}
use btrx.Files.{Files}
use btrx.Sockets.{Sockets}
use btrx.Json.{Json, IsLawful}
use btrx.NbrMap.Timers.Idle.{registered, register_cli-registered}
use btrx.Pkts.{PktMsg, to_json, handshake}
use btrx.Pkts.Wire.{IsWire}
use btrx.Handler.{hello, send_handshake}
use btrx.Handler.Loop.{Conn, on_handshake, dispatch, turn}
use btrx.Handler.Loop.Choking.{AllFree}
use btrx.Handler.Loop.Framing.{IsBson, HasArrived, turn-received}

pub hello-IsWire : (q : ℕ) → q < 2 ^ 32 → IsWire (hello q)
hello-IsWire q h = record {
  type = omega arith;
  header = refl;
  zero = refl;
  peerid = h;
  have = omega arith;
  req = omega arith;
}

module _ {S J L F M : Type 0} (so : Sockets S) (jl : Json J) (pt : Rwlocks L) (fs : Files F)
    (mx : Mutexes M) (junk : ℕ → List ℕ) (peerid_self : ℕ) (lawful : IsLawful jl) (bson : IsBson jl)
    (buffer : (sz : ℕ) → length (junk sz) ≡ sz) where
  dispatch-handshake :
      (pkt pkt0 : PktMsg) (c : Conn S L F M)
      → pkt.type ≡ handshake
      → c.client ≡ true
      → IsOpen mx c.nmap.mut
      → dispatch so jl pt fs mx junk peerid_self
          (record pkt0 { type = handshake; hshake = pkt.hshake })
          c
        ≡ (do
          sock ← send_handshake so jl c.sock peerid_self
          ok (record c {
            sock = sock;
            nmap = registered mx c.nmap pkt.hshake.peerid;
            nbr = some (length c.nmap.heap);
          }))
  unfolding dispatch on_handshake
  dispatch-handshake pkt pkt0 c first client open_mut =
      rw
        (
          dispatch,
          on_handshake,
          client,
          register_cli-registered mx c.nmap pkt.hshake.peerid open_mut,
        )
        refl

  -- Where the handshake of a peer, written by a lawful library, has arrived in whole on a
  -- connection that the peer opened and that has no neighbour yet, nobody is choked, and the map's
  -- mutex is unlocked, the node answers with its own handshake, registers the peer under the
  -- identifier that it sent, takes the new neighbour for that of the connection, and goes on.
  -- EWOULDBLOCK must not be 4, and a buffer must have the size asked for.
  pub turn-hello :
      (q : ℕ) (pkt0 : PktMsg) (bs : List ℕ) (c : Conn S L F M) (after : S)
      → q < 2 ^ 32
      → jl.to_bson (to_json jl (hello q)) ≡ some bs
      → HasArrived so c.sock after bs
      → so.ewouldblock ≢ 4
      → AllFree c
      → c.choked_peer ≡ false
      → c.nbr ≡ none
      → c.client ≡ true
      → IsOpen mx c.nmap.mut
      → turn so jl pt fs mx junk peerid_self pkt0 c ≡ (do
        sock ← send_handshake so jl after peerid_self
        ok (
          true,
          record c { sock = sock; nmap = registered mx c.nmap q; nbr = some (length c.nmap.heap) },
        ))
  turn-hello q pkt0 bs c after small written arrived ewouldblock free unchoked alone client
        open_mut =
      let read =
        turn-received so jl pt fs mx junk peerid_self lawful bson buffer (hello q) pkt0 bs c after
          (hello-IsWire q small) (omega arith) written arrived ewouldblock free unchoked
          (λ p at. absurd (ground (arith, at, alone))) in
      let answer =
        dispatch-handshake (hello q) pkt0 (record c { sock = after }) refl client open_mut in
      read ∙ rw answer (>>=_assoc (send_handshake so jl after peerid_self) _ _)
