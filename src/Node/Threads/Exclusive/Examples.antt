-- ===== src/Node/Threads/Exclusive/Examples.antt =====
-- Two connections of the second of three nodes (handler/handler.cpp), of which one asks for pieces, over
-- concrete locks, files and sockets.
use btrx.Prelude.{
  ℕ, ◌≡◌, ◌∙◌, refl, Bool, true, false, none, some, List, [], ◌∷◌, ok, arith, replicate,
  length-replicate, Chain, stays, next,
}
use btrx.Prelude.Assoc.{find, assign}
use btrx.Bfield.{
  create_bfield, zeroed_bfield, init_lock, initial_bytes, rd_lock, wr_lock, un_lock, diff,
  diff_loop, flip_at, flip_bytes, clone,
}
use btrx.Bfield
use btrx.Bfield.Has.{has}
use btrx.ObjStore.{ObjStore}
use btrx.NbrMap.{
  NbrMap, opt_unchoking, unchoking, create_nbrmap, earmark, earmark_bytes, earmark_bits,
}
use btrx.Pkts.{PktMsg, to_json, bit_field}
use btrx.Pkts.Wire.{IsWire}
use btrx.Handler.{
  blank, send_handshake, send_bfield, snd, send_interested, send_requests, diff_to_reqs, diff_bits,
}
use btrx.Handler.Loop.{Conn, dispatch, on_bit_field, on_earmarked, turn}
use btrx.Handler.Loop.Framing.{turn-received}
use btrx.Handler.Loop.Shared.{share}
use btrx.Node.Threads.Exclusive.{no_request_twice}
use btrx.Node.Threads.Process.{Process, opened, Move, accepts, dials, goes_on}
use btrx.Host.{locks, mutexes, Disk, files, field_of}
use btrx.Host.Values.{small, small-IsLawful, document}
use btrx.Host.Documents.{small-IsBson}
use btrx.Host.Connections.{stream, all-HasArrived}

abbrev store : ObjStore ℕ Disk
store = record {
  fsz = 18;
  fname = 102 ∷ [];
  cache = record {
    cmap = [];
    cvec = [];
    accesses = [];
    fd = ([], 0);
    pcsz = 4;
    npcs = 5;
    maxsz = 2005401;
    rwlock = 0;
  };
  bfield = some (field_of (0 ∷ []));
  pcsz = 4;
  npcs = 5;
}

abbrev map : NbrMap ℕ ℕ
map = record {
  mut = 0;
  npeers = 3;
  peers = [];
  peerinfo = [];
  handlers = opt_unchoking 15 ∷ unchoking 5 2 ∷ [];
  bfield = field_of (0 ∷ 0 ∷ 0 ∷ 0 ∷ 0 ∷ []);
  heap = [];
}

made : create_nbrmap locks mutexes 7 3 5 15 5 2 ≡ ok map
unfolding create_nbrmap zeroed_bfield init_lock Bfield.destroy
made = refl

-- The peer has the pieces 1 and 2.
abbrev fields : PktMsg
fields = record (blank bit_field) { bfield = record { bfield = 6 ∷ [] } }

abbrev fields-IsWire : IsWire fields
fields-IsWire = record {
  type = omega arith;
  header = refl;
  zero = refl;
  peerid = omega arith;
  have = omega arith;
  req = omega arith;
}

abbrev line : List ℕ
line = document (to_json small fields)

abbrev marked : NbrMap ℕ ℕ
marked = record map { bfield = field_of (6 ∷ 0 ∷ 0 ∷ 0 ∷ 0 ∷ []) }

-- The connection after its round.
abbrev asking : Conn (List ℕ) ℕ Disk ℕ
asking = record (opened [] false (share store map)) {
  nmap = marked;
  diff = 6 ∷ [];
  bfield_peer = 6 ∷ [];
  reqs = (1, true) ∷ (2, true) ∷ [];
}

asks :
    turn stream small locks files mutexes
      (λ n. replicate n 0)
      1002
      (blank 0)
      (opened line false (share store map))
    ≡ ok (true, asking)
unfolding dispatch on_bit_field earmark earmark_bytes earmark_bits Bfield.diff diff_loop flip_at
    flip_bytes rd_lock wr_lock un_lock on_earmarked send_interested send_requests snd diff_to_reqs
    diff_bits assign
asks =
    turn-received stream small locks files mutexes (λ n. replicate n 0) 1002 small-IsLawful
      small-IsBson (λ n. length-replicate n 0) fields (blank 0) line
      (opened line false (share store map)) [] fields-IsWire (omega arith) refl
      (all-HasArrived (to_json small fields)) (omega arith) tt refl (λ p e. absurd (ground arith))
    ∙ refl

abbrev asked : Process (List ℕ) ℕ Disk ℕ
asked = record {
  conns = asking ∷ opened [] true (share store marked) ∷ [];
  state = share store marked;
}

moves :
    Chain (Move stream small locks mutexes) (record { conns = []; state = share store map }) asked
unfolding send_handshake send_bfield snd clone rd_lock un_lock
moves =
    next
      (next
        (next stays (
          dials (record { conns = []; state = share store map }) files 1002 line line line store
            refl refl))
        (goes_on
          (record { conns = opened line false (share store map) ∷ []; state = share store map }) 0
          (opened line false (share store map)) asking files (λ n. replicate n 0) 1002 (blank 0)
          refl asks))
      (accepts (record { conns = asking ∷ []; state = share store marked }) [])

no_request_twice_example : (find {V = Bool} 1 [] ≡ none) × (has (6 ∷ 0 ∷ 0 ∷ 0 ∷ 0 ∷ []) 1 ≡ true)
unfolding find
no_request_twice_example =
    no_request_twice stream small locks mutexes 7 3 5 15 5 2 store map asked 0 1 1 asking
      (opened [] true (share store marked)) true made moves refl refl (omega arith) refl
