-- ===== src/Handler.antt =====
-- handler/inhelper.cpp, handler/outhelper.cpp and the helpers of handler/handler.cpp: what a
-- connection sends and what it does with what it receives. A call that touches the socket returns
-- its next state first.
pub mod Requests
pub mod Loop
pub mod Stores
use btrx.Prelude.{
  ℕ, zero, suc, ◌+◌, ◌-◌, ◌*◌, bit_and, Bool, true, false, Option, none, some, List, [], ◌∷◌, ◌++◌,
  Outcome, ok, exits, undefined, ◌>>=◌, defined, or_throw, ◌==◌, if◌then◌else◌, length, take, drop,
  replicate, get_elem?,
}
use btrx.Prelude.Assoc.{find, erase, assign}
use btrx.Prelude.Bits.{bit_mask}
use btrx.CString.{c_string, snprintf, bytes_of}
use btrx.Rwlock.{Rwlocks}
use btrx.Files.{Files}
use btrx.Sockets.{Sockets}
use btrx.Json.{Json}
use btrx.Bfield
use btrx.ObjStore
use btrx.ObjStore.{ObjStore}
use btrx.NbrMap.{Nbr}
use btrx.Pkts.{
  PktMsg, to_json, handshake, choke, un_choke, interested, not_interested, have, bit_field, request,
  piece,
}

-- A message of a type; the members that an initialiser does not name are zero.
abbrev pub blank : ℕ → PktMsg
blank type = record {
  type = type;
  hshake = record { header = replicate 19 0; zero = replicate 10 0; peerid = 0 };
  have = record { pcno = 0 };
  bfield = record { bfield = [] };
  req = record { pcno = 0 };
  piece = record { pcno = 0; payload = [] };
}

-- The message of `send_handshake`.
abbrev pub hello : ℕ → PktMsg
hello peerid = record (blank handshake) {
  hshake = record {
    header = bytes_of "P2PFILESHARINGPROJ" ++ 0 ∷ [];
    zero = replicate 10 0;
    peerid = peerid;
  };
}

-- The number whose bytes in memory these are, lowest first.
abbrev pub word_of : List ℕ → ℕ
word_of [] = 0
word_of (b ∷ bs) = b + 256 * word_of bs

-- The inner loop of `diff_to_reqs`, with the rounds left.
unfoldable pub diff_bits : ℕ → ℕ → ℕ → ℕ → List (ℕ × Bool) → List (ℕ × Bool)
diff_bits zero i j byte reqs = reqs
diff_bits (suc rounds) i j byte reqs =
    diff_bits rounds i (j + 1) byte
      (if bit_and byte (bit_mask j) == bit_mask j then assign (i * 8 + j) true reqs else reqs)

-- The outer loop, from byte `i`.
unfoldable pub diff_to_reqs : ℕ → List (ℕ × Bool) → List ℕ → List (ℕ × Bool)
unfolding diff_bits
diff_to_reqs i reqs [] = reqs
diff_to_reqs i reqs (byte ∷ diff) = diff_to_reqs (i + 1) (diff_bits 8 i 0 byte reqs) diff

module _ {S : Type 0} (so : Sockets S) where
  -- `none` where the peer has closed the connection; else `*sz`.
  pub rcv_sz : S → Outcome (S × Option ℕ)
  rcv_sz sock =
      let (sock', got) = so.peek sock 4 in
      elim got [
        | none ↦ exits 1
        | some bytes ↦
            if length bytes == so.ewouldblock
            then ok (sock', some 0)
            else (if length bytes == 0
                then ok (sock', none)
                else ok (sock', some (word_of (bytes ++ replicate (4 - length bytes) 0))))
      ]

  -- What is in the buffer afterwards, `junk` before.
  pub rcv : S → List ℕ → Outcome (S × List ℕ)
  rcv sock junk =
      let (sock', got) = so.recv sock (length junk) in
      elim got [ none ↦ exits 1 | some bytes ↦ ok (sock', bytes ++ drop (length bytes) junk) ]

  module _ {J : Type 0} (jl : Json J) where
    unfoldable pub snd : S → J → Outcome S
    snd sock j = do
      bson ← or_throw (jl.to_bson j)
      let (sock', sent) = so.send sock bson
      if sent then ok sock' else exits 1

    unfoldable pub send_handshake : S → ℕ → Outcome S
    send_handshake sock peerid = snd sock (to_json jl (hello peerid))

    unfoldable pub send_interested : S → Outcome S
    send_interested sock = snd sock (to_json jl (blank interested))

    pub send_not_interested : S → Outcome S
    send_not_interested sock = snd sock (to_json jl (blank not_interested))

    abbrev request_of : ℕ → J
    request_of pcno = to_json jl (record (blank request) { req = record { pcno = pcno } })

    -- The loop over `reqs`, in the order that the map has.
    unfoldable pub send_requests : S → List (ℕ × Bool) → Outcome S
    send_requests sock [] = ok sock
    send_requests sock ((pcno, _) ∷ reqs) = do
      sock' ← snd sock (request_of pcno)
      send_requests sock' reqs

    pub send_choke_status : S → Bool → Outcome S
    send_choke_status sock chk = snd sock (to_json jl (if chk then blank choke else blank un_choke))

    -- `nbr` is read through its pointer; `choked_peer` is a copy of the caller's.
    pub choke_status_check : S → Option Nbr → Bool → Outcome S
    choke_status_check sock none choked_peer = ok sock
    choke_status_check sock (some nbr) choked_peer = elim choked_peer [
      | true ↦ if nbr.choked then ok sock else send_choke_status sock nbr.choked
      | false ↦ if nbr.choked then send_choke_status sock nbr.choked else ok sock
    ]

    pub handle_have : S → PktMsg → List (ℕ × Bool) → Outcome S
    handle_have sock pkt reqs = elim (find pkt.have.pcno reqs) [
      | none ↦ ok sock
      | some _ ↦ do sock' ← send_interested sock; snd sock' (request_of pkt.have.pcno)
    ]

    module _ {L F : Type 0} (pt : Rwlocks L) (fs : Files F) where
      unfoldable pub send_bfield : S → ObjStore L F → Outcome (S × ObjStore L F)
      send_bfield sock ost = do
        field ← defined ost.bfield
        (field', vec) ← Bfield.clone pt field
        sock' ←
            snd sock (to_json jl (record (blank bit_field) { bfield = record { bfield = vec } }))
        ok (sock', record ost { bfield = some field' })

      -- `buf` and `junk` are what the buffers hold before.
      pub send_piece : S → ℕ → ObjStore L F → List ℕ → List ℕ → Outcome (S × ObjStore L F)
      send_piece sock pcno ost buf junk = do
        (ost', stat, buf') ← ObjStore.get_piece pt fs ost pcno buf junk
        payload ← if stat == 0 then exits 1 else defined (c_string buf')
        sock' ← snd sock (
            to_json jl (record (blank piece) { piece = record { pcno = pcno; payload = payload } }))
        ok (sock', ost')

      -- The body of the loops of `send_haves`.
      pub send_have : S → ObjStore L F → ℕ → ℕ → ℕ → Outcome (S × ObjStore L F)
      send_have sock ost i j byte =
          if bit_and byte (bit_mask j) == bit_mask j
          then (do
            (ost', there) ← ObjStore.exists pt fs ost (i * 8 + j)
            sock' ←
                if there
                then snd sock
                    (to_json jl (record (blank have) { have = record { pcno = i * 8 + j } }))
                else ok sock
            ok (sock', ost'))
          else ok (sock, ost)

      -- The inner loop, with the rounds left.
      pub send_haves_bits : ℕ → S → ObjStore L F → ℕ → ℕ → ℕ → Outcome (S × ObjStore L F)
      send_haves_bits zero sock ost i j byte = ok (sock, ost)
      send_haves_bits (suc rounds) sock ost i j byte = do
        (sock', ost') ← send_have sock ost i j byte
        send_haves_bits rounds sock' ost' i (j + 1) byte

      -- The outer loop, from byte `i`.
      pub send_haves : ℕ → S → ObjStore L F → List ℕ → Outcome (S × ObjStore L F)
      send_haves i sock ost [] = ok (sock, ost)
      send_haves i sock ost (byte ∷ bfield_peer) = do
        (sock', ost') ← send_haves_bits 8 sock ost i 0 byte
        send_haves (i + 1) sock' ost' bfield_peer

module _ {L F : Type 0} (pt : Rwlocks L) (fs : Files F) where
  -- The store and the requests. `buf` is the local buffer of `pcsz` bytes, `junk` that of the cache.
  pub handle_piece :
      PktMsg
      → ObjStore L F
      → List (ℕ × Bool)
      → List ℕ
      → List ℕ
      → Outcome (ObjStore L F × List (ℕ × Bool))
  handle_piece pkt ost reqs buf junk = do
    bytes ← snprintf buf (pkt.piece.payload ++ 0 ∷ [])
    (ost', _) ← ObjStore.add_piece pt fs ost pkt.piece.pcno bytes junk
    ok (ost', erase pkt.piece.pcno reqs)
