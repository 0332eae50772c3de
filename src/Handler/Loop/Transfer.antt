-- ===== src/Handler/Loop/Transfer.antt =====
-- A piece on its way from `send_piece` (handler/outhelper.cpp) to the `cli_handler` of another node.
use btrx.Prelude.{ℕ, suc, ◌≡◌, ◌≢◌, refl, true, false, some, List, ok, throws, length, arith, ◌==◌}
use btrx.CString.{c_string}
use btrx.Rwlock.{Rwlocks}
use btrx.Mutex.{Mutexes}
use btrx.Files.{Files}
use btrx.Sockets.{Sockets}
use btrx.Json.{Json, IsLawful}
use btrx.ObjStore
use btrx.ObjStore.{ObjStore}
use btrx.Pkts.{PktMsg, to_json, piece}
use btrx.Pkts.Wire.{from_json-to_json_piece}
use btrx.Handler.{blank, snd, send_piece}
use btrx.Handler.Loop.{Conn, on_message, turn, serve}
use btrx.Handler.Loop.Framing.{IsBson, HasArrived, rcv_sz-length, rcv-received}

-- The message of `send_piece`.
abbrev pub piece_of : ℕ → List ℕ → PktMsg
piece_of pcno payload = record (blank piece) { piece = record { pcno = pcno; payload = payload } }

module _ {S J L F M : Type 0} (so : Sockets S) (jl : Json J) (pt : Rwlocks L) (fs : Files F)
    (mx : Mutexes M) (junk : ℕ → List ℕ) (peerid_self : ℕ) (lawful : IsLawful jl) (bson : IsBson jl)
    (buffer : (sz : ℕ) → length (junk sz) ≡ sz) where
  turn-piece :
      (pkt pkt0 : PktMsg) (bs : List ℕ) (c : Conn S L F M) (after : S)
      → pkt.type ≡ piece
      → jl.to_bson (to_json jl pkt) ≡ some bs
      → HasArrived so c.sock after bs
      → so.ewouldblock ≢ 4
      → turn so jl pt fs mx junk peerid_self pkt0 c ≡ throws
  unfolding turn on_message
  turn-piece pkt pkt0 bs c after type written arrived ewouldblock =
      let longer = bson.longer (to_json jl pkt) bs written in
      let sized =
        rcv_sz-length so c.sock after bs arrived longer (bson.sized (to_json jl pkt) bs written)
          ewouldblock in
      let some_bytes : length bs == 0 ≡ false = ground arith in
      let got = rcv-received so c.sock after bs arrived (junk (length bs)) (buffer (length bs)) in
      let read = bson.read (to_json jl pkt) bs written in
      let thrown = from_json-to_json_piece jl lawful pkt pkt0 type in
      rw (turn, on_message, sized, some_bytes, got, read, thrown) refl

  -- With a lawful library: where a node has a piece, whose buffer holds a C string, and its library and
  -- its socket take the message, `send_piece` returns and has handed the bytes of that message to the
  -- socket; and a connection of another node on which these bytes arrive in whole, whatever its state,
  -- throws an exception in that round, which `cli_handler` does not catch. EWOULDBLOCK must not be 4,
  -- and a buffer must have the size asked for. So no piece is ever transferred.
  pub send_piece-serve :
      {S' L' F' : Type 0} (so' : Sockets S') (pt' : Rwlocks L') (fs' : Files F') (sock sock' : S')
      (pcno : ℕ) (o o' : ObjStore L' F') (buf buf' junk' payload bs : List ℕ) (rounds : ℕ)
      (pkt0 : PktMsg) (c : Conn S L F M) (after : S)
      → ObjStore.get_piece pt' fs' o pcno buf junk' ≡ ok (o', 1, buf')
      → c_string buf' ≡ some payload
      → jl.to_bson (to_json jl (piece_of pcno payload)) ≡ some bs
      → so'.send sock bs ≡ (sock', true)
      → HasArrived so c.sock after bs
      → so.ewouldblock ≢ 4
      → (send_piece so' jl pt' fs' sock pcno o buf junk' ≡ ok (sock', o'))
        × (serve so jl pt fs mx junk peerid_self (suc rounds) pkt0 c ≡ some throws)
  unfolding serve send_piece snd
  send_piece-serve so' pt' fs' sock sock' pcno o o' buf buf' junk' payload bs rounds pkt0 c after
        has text written taken arrived ewouldblock =
      let thrown =
        turn-piece (piece_of pcno payload) pkt0 bs c after refl written arrived ewouldblock in
      (rw (send_piece, snd, has, text, written, taken) refl, rw (serve, thrown) refl)
