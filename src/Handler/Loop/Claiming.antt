-- ===== src/Handler/Loop/Claiming.antt =====
-- The bit field of a peer, from the wire to the requests (handler/handler.cpp, nbrmap/nbrmap.cpp).
use btrx.Prelude.{
  ℕ, ◌/◌, ◌≤◌, ◌<◌, ◌≡◌, ◌≢◌, refl, ◌∙◌, Bool, true, false, not, ◌&&◌, ◌||◌, some, List, [], ok,
  ◌>>=◌, length, get_elem?, arith, if◌then◌else◌,
}
use btrx.Prelude.Assoc.{find}
use btrx.Rwlock.{Rwlocks}
use btrx.Mutex.{Mutexes}
use btrx.Files.{Files}
use btrx.Sockets.{Sockets}
use btrx.Json.{Json, IsLawful}
use btrx.Bfield.{Bfield}
use btrx.Bfield.Has.{has}
use btrx.Bfield.Locked.{IsIdle}
use btrx.NbrMap.{Nbr, NbrMap}
use btrx.NbrMap.Earmark.{earmark_grants}
use btrx.Pkts.{PktMsg, to_json, bit_field}
use btrx.Pkts.Wire.{IsWire}
use btrx.Handler.{diff_to_reqs}
use btrx.Handler.Requests.{find-diff_to_reqs}
use btrx.Handler.Loop.{Conn, on_earmarked, on_bit_field, dispatch, turn}
use btrx.Handler.Loop.Choking.{AllFree}
use btrx.Handler.Loop.Framing.{IsBson, HasArrived, turn-received}

module _ {S J L F M : Type 0} (so : Sockets S) (jl : Json J) (pt : Rwlocks L) (fs : Files F)
    (mx : Mutexes M) (junk : ℕ → List ℕ) (peerid_self : ℕ) (lawful : IsLawful jl) (bson : IsBson jl)
    (buffer : (sz : ℕ) → length (junk sz) ≡ sz) where
  -- Where the first bit field of a peer that this node has connected to, written by a lawful library,
  -- has arrived in whole, both fields are idle, the peer's and the map's at least as long as the
  -- node's, the peer is not choked, the neighbour, if any, is there, and nobody is choked: the round
  -- goes on with the answer to `earmark`'s result. By then exactly those pieces of the node's field
  -- that the peer has, the node lacks and nobody has spoken for would be entered into the requests, and
  -- those that the peer has and the node lacks are spoken for, beside what was. EWOULDBLOCK must not be
  -- 4, and a buffer must have the size asked for.
  pub turn-bit_field :
      (pkt pkt0 : PktMsg) (bs : List ℕ) (c : Conn S L F M) (after : S) (node : Bfield L) (p : ℕ)
      → IsWire pkt
      → pkt.type ≡ bit_field
      → jl.to_bson (to_json jl pkt) ≡ some bs
      → HasArrived so c.sock after bs
      → so.ewouldblock ≢ 4
      → AllFree c
      → c.choked_peer ≡ false
      → ((p : ℕ) → c.nbr ≡ some p → (nbr : Nbr) × (get_elem? c.nmap.heap p ≡ some nbr))
      → c.client ≡ false
      → c.diff ≡ []
      → c.ost.bfield ≡ some node
      → IsIdle pt c.nmap.bfield
      → IsIdle pt node
      → length node.bfield ≤ length pkt.bfield.bfield
      → length node.bfield ≤ length c.nmap.bfield.bfield
      → p / 8 < length node.bfield
      → (nmap : NbrMap L M) × (diff : List ℕ) × (ret : Bool) × (turn so jl pt fs mx junk peerid_self
            pkt0 c
          ≡ (do
            c' ← on_earmarked so jl pt fs mx junk peerid_self ret (record c {
              sock = after;
              ost = record c.ost { bfield = some node };
              nmap = nmap;
              diff = diff;
              bfield_peer = pkt.bfield.bfield;
            })
            ok (true, c')))
        × (find p (diff_to_reqs 0 c.reqs diff) ≡ (
            if (has pkt.bfield.bfield p && not (has node.bfield p))
              && not (has c.nmap.bfield.bfield p)
            then some true
            else find p c.reqs))
        × (has nmap.bfield.bfield p
            ≡ (has pkt.bfield.bfield p && not (has node.bfield p)) || has c.nmap.bfield.bfield p)
  unfolding dispatch on_bit_field
  turn-bit_field pkt pkt0 bs c after node p wire type written arrived ewouldblock free unchoked
        points dialled first field idle idle' short wide below =
      let (nmap, diff, ret, marked, kept, spoken) =
        earmark_grants pt c.nmap node pkt.bfield.bfield p idle idle' short wide below in
      let read =
        turn-received so jl pt fs mx junk peerid_self lawful bson buffer pkt pkt0 bs c after wire
          (ground (arith, type)) written arrived ewouldblock free unchoked points in
      let requested = find-diff_to_reqs 0 p c.reqs diff in
      (
        nmap,
        diff,
        ret,
        read ∙ rw (type, dispatch, on_bit_field, dialled, field, first, marked) refl,
        rw (← kept) (ground (arith, requested)),
        spoken,
      )
