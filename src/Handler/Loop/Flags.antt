-- ===== src/Handler/Loop/Flags.antt =====
-- The messages of handler/handler.cpp that set a flag, from the wire on.
use btrx.Prelude.{
  ℕ, ◌≡◌, ◌≢◌, ◌∙◌, refl, sym, subst, Bool, true, false, some, List, ok, ◌>>=◌, length, set,
  get_elem?, arith, if◌then◌else◌,
}
use mathlib.Core.Option.{some_inj}
use btrx.Rwlock.{Rwlocks}
use btrx.Mutex.{Mutexes}
use btrx.Files.{Files}
use btrx.Sockets.{Sockets}
use btrx.Json.{Json, IsLawful}
use btrx.NbrMap.{Nbr}
use btrx.Pkts.{PktMsg, to_json, interested, not_interested, piece}
use btrx.Pkts.Wire.{IsWire, received}
use btrx.Handler.Loop.{Conn, deref_nbr, set_nbr, on_interested, dispatch, turn}
use btrx.Handler.Loop.Choking.{AllFree}
use btrx.Handler.Loop.Framing.{IsBson, HasArrived, turn-received}

module _ {S J L F M : Type 0} (so : Sockets S) (jl : Json J) (pt : Rwlocks L) (fs : Files F)
    (mx : Mutexes M) (junk : ℕ → List ℕ) (peerid_self : ℕ) where
  dispatch-interested :
      (b : Bool) (pkt : PktMsg) (c : Conn S L F M) (p : ℕ) (nbr : Nbr)
      → pkt.type ≡ (if b then interested else not_interested)
      → c.nbr ≡ some p
      → get_elem? c.nmap.heap p ≡ some nbr
      → dispatch so jl pt fs mx junk peerid_self pkt c
        ≡ ok (record c {
          nmap = record c.nmap { heap = set c.nmap.heap p (record nbr { interested = b }) };
        })
  unfolding dispatch on_interested deref_nbr set_nbr
  dispatch-interested true pkt c p nbr type at there =
      rw (dispatch, type, on_interested, deref_nbr, at, there) refl
  dispatch-interested false pkt c p nbr type at there =
      rw (dispatch, type, on_interested, deref_nbr, at, there) refl

module _ {S J L F M : Type 0} (so : Sockets S) (jl : Json J) (pt : Rwlocks L) (fs : Files F)
    (mx : Mutexes M) (junk : ℕ → List ℕ) (peerid_self : ℕ) (lawful : IsLawful jl) (bson : IsBson jl)
    (buffer : (sz : ℕ) → length (junk sz) ≡ sz) where
  received_type : (t : ℕ) (pkt pkt0 : PktMsg) → (received jl lawful t pkt pkt0).type ≡ t
  received_type t pkt pkt0 = ground arith

  -- Where an interested or a not interested message, written by a lawful library, has arrived in
  -- whole on a connection with a neighbour, nobody is choked and the peer is not: the round goes on,
  -- and all that it changes is the socket and whether this one neighbour is interested, which is then
  -- as the message says. EWOULDBLOCK must not be 4, and a buffer must have the size asked for.
  pub turn-interested :
      (b : Bool) (pkt pkt0 : PktMsg) (bs : List ℕ) (c : Conn S L F M) (after : S) (p : ℕ)
      (nbr : Nbr)
      → IsWire pkt
      → pkt.type ≡ (if b then interested else not_interested)
      → jl.to_bson (to_json jl pkt) ≡ some bs
      → HasArrived so c.sock after bs
      → so.ewouldblock ≢ 4
      → AllFree c
      → c.choked_peer ≡ false
      → c.nbr ≡ some p
      → get_elem? c.nmap.heap p ≡ some nbr
      → turn so jl pt fs mx junk peerid_self pkt0 c
        ≡ ok (
          true,
          record c {
            sock = after;
            nmap = record c.nmap { heap = set c.nmap.heap p (record nbr { interested = b }) };
          },
        )
  turn-interested b pkt pkt0 bs c after p nbr wire type written arrived ewouldblock free unchoked at
        there =
      let read =
        turn-received so jl pt fs mx junk peerid_self lawful bson buffer pkt pkt0 bs c after wire
          (not_piece b type) written arrived ewouldblock free unchoked (points_there at there) in
      let acts =
        dispatch-interested so jl pt fs mx junk peerid_self b (received jl lawful pkt.type pkt pkt0)
          (record c { sock = after }) p nbr (received_type pkt.type pkt pkt0 ∙ type) at there in
      read ∙ rw acts refl
    where
      not_piece :
          (b : Bool) → pkt.type ≡ (if b then interested else not_interested) → pkt.type ≢ piece
      not_piece true e = omega arith
      not_piece false e = omega arith

      points_there :
          c.nbr ≡ some p
          → get_elem? c.nmap.heap p ≡ some nbr
          → (q : ℕ) → c.nbr ≡ some q
          → (nbr : Nbr) × (get_elem? c.nmap.heap q ≡ some nbr)
      points_there at there q at' =
          (nbr, subst (λ q. get_elem? c.nmap.heap q ≡ some nbr) (some_inj.0 (sym at ∙ at')) there)
