-- ===== src/Handler/Loop/Framing.antt =====
-- A message on its way from `snd` of handler/outhelper.cpp through the receive calls of
-- handler/inhelper.cpp to the `switch` of `cli_handler`.
mod Examples
use btrx.Prelude.{
  ap, ℕ, ◌≤◌, ◌<◌, ◌≡◌, ◌≢◌, refl, Bool, true, false, Option, none, some, List, [], ◌∷◌, ◌++◌,
  Outcome, ok, ◌>>=◌, or_throw, defined, ◌==◌, if◌then◌else◌, get_elem?, length, take, drop,
  replicate, arith, Option-cases, inl, inr, sym, get_elem?_of_lt, get_or,
}
use mathlib.Core.List.{append-nil}
use btrx.Rwlock.{Rwlocks}
use btrx.Mutex.{Mutexes}
use btrx.Files.{Files}
use btrx.Sockets.{Sockets}
use btrx.Json.{Json, IsLawful}
use btrx.NbrMap.{Nbr}
use btrx.NbrMap.Choking.{NoneChoked-get_elem?}
use btrx.Pkts.{PktMsg, to_json, from_json, piece}
use btrx.Pkts.Wire.{IsWire, received, from_json-to_json}
use btrx.Handler.{word_of, rcv_sz, rcv, choke_status_check}
use btrx.Handler.Loop.{Conn, dispatch, on_message, turn}
use btrx.Handler.Loop.Choking.{AllFree}

-- What BSON and the library document: a document starts with its own length as four bytes, lowest
-- first, is longer than these, and is read back.
pub record IsBson {J : Type 0} (jl : Json J) : Type 0 where
  pub longer : (j : J) (bs : List ℕ) → jl.to_bson j ≡ some bs → 4 < length bs
  pub sized : (j : J) (bs : List ℕ) → jl.to_bson j ≡ some bs → word_of (take 4 bs) ≡ length bs
  pub read : (j : J) (bs : List ℕ) → jl.to_bson j ≡ some bs → jl.from_bson bs ≡ some j

-- A document that has arrived in whole, with the connection behind it.
pub record HasArrived {S : Type 0} (so : Sockets S) (sock after : S) (bs : List ℕ) : Type 0 where
  pub peeked : (so.peek sock 4).1 ≡ some (take 4 bs)
  pub unmoved : (so.peek sock 4).0 ≡ sock
  pub taken : (so.recv sock (length bs)).1 ≡ some bs
  pub moved : (so.recv sock (length bs)).0 ≡ after

length-take_four : (bs : List ℕ) → 4 < length bs → length (take 4 bs) ≡ 4
length-take_four [] h = absurd (omega arith)
length-take_four (a ∷ []) h = absurd (omega arith)
length-take_four (a ∷ b ∷ []) h = absurd (omega arith)
length-take_four (a ∷ b ∷ c ∷ []) h = absurd (omega arith)
length-take_four (a ∷ b ∷ c ∷ d ∷ bs) h = refl

pub take-length : (bs : List ℕ) → take (length bs) bs ≡ bs
take-length [] = refl
take-length (b ∷ bs) = ap (λ cs. b ∷ cs) (take-length bs)

pub drop-length : (junk : List ℕ) → drop (length junk) junk ≡ []
drop-length [] = refl
drop-length (x ∷ junk) = drop-length junk

module _ {S : Type 0} (so : Sockets S) (sock after : S) (bs : List ℕ)
    (arrived : HasArrived so sock after bs) where
  pub rcv_sz-length :
      4 < length bs
      → word_of (take 4 bs) ≡ length bs
      → so.ewouldblock ≢ 4
      → rcv_sz so sock ≡ ok (sock, some (length bs))
  unfolding rcv_sz
  rcv_sz-length longer sized ewouldblock =
      let four = length-take_four bs longer in
      let blocks : 4 == so.ewouldblock ≡ false = ground arith in
      rw (rcv_sz, arrived.peeked, arrived.unmoved, four, blocks, append-nil, sized) refl

  pub rcv-received : (junk : List ℕ) → length junk ≡ length bs → rcv so sock junk ≡ ok (after, bs)
  unfolding rcv
  rcv-received junk h =
      let taken : (so.recv sock (length junk)).1 ≡ some bs = rw h arrived.taken in
      let moved : (so.recv sock (length junk)).0 ≡ after = rw h arrived.moved in
      let full : drop (length bs) junk ≡ [] = rw (sym h) (drop-length junk) in
      rw (rcv, taken, moved, full, append-nil) refl

module _ {S J L F M : Type 0} (so : Sockets S) (jl : Json J) (pt : Rwlocks L) (fs : Files F)
    (mx : Mutexes M) (junk : ℕ → List ℕ) (peerid_self : ℕ) (lawful : IsLawful jl) (bson : IsBson jl)
    (buffer : (sz : ℕ) → length (junk sz) ≡ sz) where
  -- A connection none of whose neighbours is choked, which neither chokes its peer, sends nothing
  -- ahead of its answer.
  on_message-received :
      (pkt pkt0 : PktMsg) (bs : List ℕ) (c : Conn S L F M) (after : S)
      → IsWire pkt
      → pkt.type ≢ piece
      → jl.to_bson (to_json jl pkt) ≡ some bs
      → HasArrived so c.sock after bs
      → AllFree c
      → c.choked_peer ≡ false
      → ((p : ℕ) → c.nbr ≡ some p → (nbr : Nbr) × (get_elem? c.nmap.heap p ≡ some nbr))
      → on_message so jl pt fs mx junk peerid_self pkt0 (length bs) c
        ≡ dispatch so jl pt fs mx junk peerid_self
            (received jl lawful pkt.type pkt pkt0)
            (record c { sock = after })
  unfolding on_message choke_status_check
  on_message-received pkt pkt0 bs c after wire other written arrived free unchoked points =
      let got = rcv-received so c.sock after bs arrived (junk (length bs)) (buffer (length bs)) in
      let read = bson.read (to_json jl pkt) bs written in
      let back = from_json-to_json jl lawful pkt pkt0 wire other in
      elim (Option-cases c.nbr) [
        | inl null ↦ rw (on_message, got, read, back, null) refl
        | inr (p, at) ↦
            let (nbr, there) = points p at in
            let calm = NoneChoked-get_elem? c.nmap.heap p free there in
            rw (on_message, got, read, back, at, there, choke_status_check, unchoked, calm) refl
      ]

  -- Where a lawful library has written a message other than a piece, whose fields fit their types,
  -- and its bytes have all arrived on a connection whose peer is not choked, whose neighbour, if
  -- any, is there, and none of whose neighbours is choked, the round reads the number of bytes,
  -- takes exactly them from the socket, and goes on as the `switch` does with that message.
  -- EWOULDBLOCK must not be 4, and a buffer must have the size asked for.
  pub turn-received :
      (pkt pkt0 : PktMsg) (bs : List ℕ) (c : Conn S L F M) (after : S)
      → IsWire pkt
      → pkt.type ≢ piece
      → jl.to_bson (to_json jl pkt) ≡ some bs
      → HasArrived so c.sock after bs
      → so.ewouldblock ≢ 4
      → AllFree c
      → c.choked_peer ≡ false
      → ((p : ℕ) → c.nbr ≡ some p → (nbr : Nbr) × (get_elem? c.nmap.heap p ≡ some nbr))
      → turn so jl pt fs mx junk peerid_self pkt0 c ≡ (do
        c' ←
            dispatch so jl pt fs mx junk peerid_self
              (received jl lawful pkt.type pkt pkt0)
              (record c { sock = after })
        ok (true, c'))
  unfolding turn
  turn-received pkt pkt0 bs c after wire other written arrived ewouldblock free unchoked points =
      let longer = bson.longer (to_json jl pkt) bs written in
      let sized =
        rcv_sz-length so c.sock after bs arrived longer (bson.sized (to_json jl pkt) bs written)
          ewouldblock in
      let some_bytes : length bs == 0 ≡ false = ground arith in
      let message =
        on_message-received pkt pkt0 bs c after wire other written arrived free unchoked points in
      rw (turn, sized, some_bytes, message) refl
