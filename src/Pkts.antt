-- ===== src/Pkts.antt =====
-- pkts/pkts.cpp and include/pkts/pkts.h: the messages, and how they become JSON and are read back.
mod Examples
pub mod Wire
use btrx.Prelude.{
  ℕ, ◌^◌, ◌*◌, List, [], ◌∷◌, map, Option, Outcome, ok, ◌>>=◌, or_throw, ◌==◌, if◌then◌else◌,
}
use btrx.CString.{bytes_of}
use btrx.Json.{Json, entry}

-- `MessageType`, a `uint16_t`.
abbrev pub handshake : ℕ
handshake = 2 ^ 1

abbrev pub choke : ℕ
choke = 2 ^ 2

abbrev pub un_choke : ℕ
un_choke = 2 ^ 3

abbrev pub interested : ℕ
interested = 2 ^ 4

abbrev pub not_interested : ℕ
not_interested = 2 ^ 5

abbrev pub have : ℕ
have = 2 ^ 6

abbrev pub bit_field : ℕ
bit_field = 2 ^ 7

abbrev pub request : ℕ
request = 2 ^ 8

abbrev pub piece : ℕ
piece = 2 ^ 9

pub record PktHandshake : Type 0 where
  pub header : List ℕ
  pub zero : List ℕ
  pub peerid : ℕ

pub record PktMsgHave : Type 0 where
  pub pcno : ℕ

pub record PktMsgBfield : Type 0 where
  pub bfield : List ℕ

pub record PktMsgRequest : Type 0 where
  pub pcno : ℕ

pub record PktMsgPiece : Type 0 where
  pub pcno : ℕ
  pub payload : List ℕ

pub record PktMsg : Type 0 where
  pub type : ℕ
  pub hshake : PktHandshake
  pub have : PktMsgHave
  pub bfield : PktMsgBfield
  pub req : PktMsgRequest
  pub piece : PktMsgPiece

module _ {J : Type 0} (jl : Json J) where
  abbrev pub object : List (List ℕ × J) → J
  object kvs = jl.init_list (map (entry jl) kvs)

  pub handshake_to_json : PktHandshake → J
  handshake_to_json pkt = object (
      (bytes_of "header", jl.of_bytes pkt.header)
      ∷ (bytes_of "zero", jl.of_bytes pkt.zero)
      ∷ (bytes_of "peerid", jl.of_uint pkt.peerid)
      ∷ [])

  -- The fields are read into `pkt`, here and below.
  pub handshake_from_json : J → PktHandshake → Outcome PktHandshake
  handshake_from_json j pkt = do
    header ← or_throw (jl.at j (bytes_of "header"))
    header' ← or_throw (jl.to_array 19 header)
    zero ← or_throw (jl.at j (bytes_of "zero"))
    zero' ← or_throw (jl.to_array 10 zero)
    peerid ← or_throw (jl.at j (bytes_of "peerid"))
    peerid' ← or_throw (jl.to_uint 32 peerid)
    ok (record { header = header'; zero = zero'; peerid = peerid' })

  pub have_to_json : PktMsgHave → J
  have_to_json pkt = object ((bytes_of "pcno", jl.of_uint pkt.pcno) ∷ [])

  pub have_from_json : J → PktMsgHave → Outcome PktMsgHave
  have_from_json j pkt = do
    pcno ← or_throw (jl.at j (bytes_of "pcno"))
    pcno' ← or_throw (jl.to_uint 32 pcno)
    ok (record { pcno = pcno' })

  pub bfield_to_json : PktMsgBfield → J
  bfield_to_json pkt = object ((bytes_of "bfield", jl.of_bytes pkt.bfield) ∷ [])

  pub bfield_from_json : J → PktMsgBfield → Outcome PktMsgBfield
  bfield_from_json j pkt = do
    bfield ← or_throw (jl.at j (bytes_of "bfield"))
    bfield' ← or_throw (jl.to_bytes bfield)
    ok (record { bfield = bfield' })

  pub request_to_json : PktMsgRequest → J
  request_to_json pkt = object ((bytes_of "pcno", jl.of_uint pkt.pcno) ∷ [])

  pub request_from_json : J → PktMsgRequest → Outcome PktMsgRequest
  request_from_json j pkt = do
    pcno ← or_throw (jl.at j (bytes_of "pcno"))
    pcno' ← or_throw (jl.to_uint 32 pcno)
    ok (record { pcno = pcno' })

  -- The braces close behind "payload".
  pub piece_to_json : PktMsgPiece → J
  piece_to_json pkt = jl.init_list (
      entry jl (bytes_of "pcno", jl.of_uint pkt.pcno)
      ∷ jl.init_list (jl.of_string (bytes_of "payload") ∷ [])
      ∷ jl.of_string pkt.payload
      ∷ [])

  pub piece_from_json : J → PktMsgPiece → Outcome PktMsgPiece
  piece_from_json j pkt = do
    pcno ← or_throw (jl.at j (bytes_of "pcno"))
    pcno' ← or_throw (jl.to_uint 32 pcno)
    payload ← or_throw (jl.at j (bytes_of "payload"))
    payload' ← or_throw (jl.to_string payload)
    ok (record { pcno = pcno'; payload = payload' })

  -- The member that the `switch` on the type adds to "type".
  pub body : ℕ → PktMsg → List (List ℕ × J)
  unfolding handshake_to_json have_to_json bfield_to_json request_to_json piece_to_json
  body t pkt =
      if t == handshake
      then (bytes_of "hshake", handshake_to_json pkt.hshake) ∷ []
      else (if t == have
          then (bytes_of "have", have_to_json pkt.have) ∷ []
          else (if t == bit_field
              then (bytes_of "bfield", bfield_to_json pkt.bfield) ∷ []
              else (if t == request
                  then (bytes_of "req", request_to_json pkt.req) ∷ []
                  else (if t == piece
                      then (bytes_of "piece", piece_to_json pkt.piece) ∷ []
                      else []))))

  pub to_json : PktMsg → J
  unfolding body
  to_json pkt = object ((bytes_of "type", jl.of_uint pkt.type) ∷ body pkt.type pkt)

  -- The branches of `from_json` on the type `t` that was read.
  pub body_from_json : ℕ → J → PktMsg → Outcome PktMsg
  unfolding handshake_from_json have_from_json bfield_from_json request_from_json piece_from_json
  body_from_json t j pkt =
      if t == handshake
      then (do
        k ← or_throw (jl.at j (bytes_of "hshake"))
        v ← handshake_from_json k pkt.hshake
        ok (record pkt { hshake = v }))
      else (if t == have
          then (do
            k ← or_throw (jl.at j (bytes_of "have"))
            v ← have_from_json k pkt.have
            ok (record pkt { have = v }))
          else (if t == bit_field
              then (do
                k ← or_throw (jl.at j (bytes_of "bfield"))
                v ← bfield_from_json k pkt.bfield
                ok (record pkt { bfield = v }))
              else (if t == request
                  then (do
                    k ← or_throw (jl.at j (bytes_of "req"))
                    v ← request_from_json k pkt.req
                    ok (record pkt { req = v }))
                  else (if t == piece
                      then (do
                        k ← or_throw (jl.at j (bytes_of "piece"))
                        v ← piece_from_json k pkt.piece
                        ok (record pkt { piece = v }))
                      else ok pkt))))

  pub from_json : J → PktMsg → Outcome PktMsg
  unfolding body_from_json
  from_json j pkt = do
    type ← or_throw (jl.at j (bytes_of "type"))
    t ← or_throw (jl.to_uint 16 type)
    body_from_json t j (record pkt { type = t })
