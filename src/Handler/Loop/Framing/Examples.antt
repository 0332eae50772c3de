-- ===== src/Handler/Loop/Framing/Examples.antt =====
-- Messages of handler/handler.cpp on their way, over a small JSON library.
use btrx.Prelude.{
  take, ap, exits, none, set, ◌<◌, ◌^◌, ◌==◌, if◌then◌else◌, inr, throws, ◌||◌, ◌&&◌, not, Bool, ℕ,
  zero, suc, get_elem?, ◌≡◌, refl, true, false, some, List, [], ◌∷◌, ok, ◌>>=◌, replicate, arith,
  length-replicate,
}
use btrx.NbrMap.{Nbr, NbrMap}
use btrx.NbrMap.Timers.Idle.{registered}
use btrx.Pkts.{PktMsg, interested, un_choke, bit_field, to_json}
use btrx.Pkts.Wire.{IsWire}
use btrx.Handler.{blank, hello, send_handshake, snd, send_piece, diff_to_reqs}
use btrx.Handler.Loop.{Conn, turn, cli_handler, serve, on_earmarked}
use btrx.Handler.Loop.Shared.{share, shared, Calls}
use btrx.Handler.Loop.Shared.Rounds.{cli_handler-Calls}
use btrx.Handler.Loop.Claiming.{turn-bit_field}
use btrx.Handler.Loop.Flags.{turn-interested}
use btrx.Handler.Loop.Framing.{HasArrived, take-length, drop-length}
use btrx.Sockets.{Sockets}
use btrx.Handler.Loop.Transfer.{piece_of, send_piece-serve}
use btrx.Prelude.Assoc.{find}
use btrx.Bfield.Has.{has}
use btrx.ObjStore.{ObjStore, add_piece, get_piece}
use btrx.ObjStore.Pieces.{add_piece-get_piece}
use btrx.Cache.Index.{IsIndexed}
use btrx.Bfield.{Bfield}
use btrx.Prelude.Bits.{testbit}
use btrx.CString.{c_string}
use btrx.Handler.Loop.Session.{cli_handler-hello, cli_handler-silent}
use btrx.Host.{locks, free, mutexes, open_mutex, Disk, files, field_of}
use btrx.Host.Values.{small, small-IsLawful, document}
use btrx.Host.Documents.{small-IsBson}
use btrx.Host.Connections.{stream, waiting, accepted, free_nbr, all-HasArrived}

cli_handler-hello_example :
    (c' : Conn (List ℕ) ℕ Disk ℕ) × (cli_handler stream small locks files mutexes
        (λ n. replicate n 0)
        1002
        2
        (blank 0)
        (document (to_json small (hello 1001)))
        0
        waiting.ost
        accepted.nmap
      ≡ some (ok c'))
    × (c'.nmap ≡ record (registered mutexes accepted.nmap 1001) {
      heap = record free_nbr { done = true } ∷ [];
    })
    × (c'.ost ≡ waiting.ost)
    × (c'.sock ≡ [])
unfolding send_handshake snd
cli_handler-hello_example =
    cli_handler-hello stream small locks files mutexes (λ n. replicate n 0) 1002 small-IsLawful
      small-IsBson (λ n. length-replicate n 0) 1001 (blank 0)
      (document (to_json small (hello 1001))) (document (to_json small (hello 1001))) [] []
      waiting.ost accepted.nmap 0 (omega arith) refl (all-HasArrived (to_json small (hello 1001)))
      (omega arith) (omega arith) tt open_mutex refl refl

-- The same for any identifier.
greeted :
    (q : ℕ)
    → q < 2 ^ 32
    → (c' : Conn (List ℕ) ℕ Disk ℕ) × (cli_handler stream small locks files mutexes
          (λ n. replicate n 0)
          1002
          2
          (blank 0)
          (document (to_json small (hello q)))
          0
          waiting.ost
          accepted.nmap
        ≡ some (ok c'))
unfolding send_handshake snd
greeted q small_q =
    let (c', result, _, _, _) =
      cli_handler-hello stream small locks files mutexes (λ n. replicate n 0) 1002 small-IsLawful
        small-IsBson (λ n. length-replicate n 0) q (blank 0) (document (to_json small (hello q)))
        (document (to_json small (hello q))) [] [] waiting.ost accepted.nmap 0 small_q refl
        (all-HasArrived (to_json small (hello q))) (omega arith) (omega arith) tt open_mutex refl
        refl in
    (c', result)

cli_handler-Calls_example :
    Calls locks mutexes (share waiting.ost accepted.nmap) (shared (greeted 1003 (omega arith)).0)
cli_handler-Calls_example =
    cli_handler-Calls stream small locks files mutexes (λ n. replicate n 0) 1002 2 (blank 0)
      (document (to_json small (hello 1003))) 0 waiting.ost accepted.nmap
      (greeted 1003 (omega arith)).1

-- A connection that this node has made, with the field of its peer, who has the pieces 1 and 2, on it.
abbrev fields : PktMsg
fields = record (blank bit_field) { bfield = record { bfield = 6 ∷ [] } }

abbrev dialled : Conn (List ℕ) ℕ Disk ℕ
dialled = record waiting { sock = document (to_json small fields); client = false }

abbrev fields-IsWire : IsWire fields
fields-IsWire = record {
  type = omega arith;
  header = refl;
  zero = refl;
  peerid = omega arith;
  have = omega arith;
  req = omega arith;
}

blank-IsWire : (t : ℕ) → t < 2 ^ 16 → IsWire (blank t)
blank-IsWire t h = record {
  type = h;
  header = refl;
  zero = refl;
  peerid = omega arith;
  have = omega arith;
  req = omega arith;
}

dialled-HasNbr :
    (p : ℕ) → dialled.nbr ≡ some p → (nbr : Nbr) × (get_elem? dialled.nmap.heap p ≡ some nbr)
dialled-HasNbr zero e = (free_nbr, refl)
dialled-HasNbr (suc p) e = absurd (ground arith)

turn-bit_field_example :
    (nmap : NbrMap ℕ ℕ) × (diff : List ℕ) × (ret : Bool) × (turn stream small locks files mutexes
        (λ n. replicate n 0)
        1001
        (blank 0)
        dialled
      ≡ (do
        c' ←
            on_earmarked stream small locks files mutexes
              (λ n. replicate n 0)
              1001
              ret
              (record dialled { sock = []; nmap = nmap; diff = diff; bfield_peer = 6 ∷ [] })
        ok (true, c')))
    × (find 1 (diff_to_reqs 0 [] diff) ≡ (
        if (has (6 ∷ []) 1 && not (has (1 ∷ []) 1)) && not (has (4 ∷ []) 1)
        then some true
        else find 1 []))
    × (has nmap.bfield.bfield 1 ≡ (has (6 ∷ []) 1 && not (has (1 ∷ []) 1)) || has (4 ∷ []) 1)
turn-bit_field_example =
    turn-bit_field stream small locks files mutexes (λ n. replicate n 0) 1001 small-IsLawful
      small-IsBson (λ n. length-replicate n 0) fields (blank 0) (document (to_json small fields))
      dialled [] (field_of (1 ∷ [])) 1 fields-IsWire refl refl
      (all-HasArrived (to_json small fields)) (omega arith) (refl, tt) refl dialled-HasNbr refl refl
      refl (inr free) (inr free) (omega arith) (omega arith) (omega arith)

-- A node that has been given piece 2, and a connection of another on which its message waits.
empty-IsIndexed : IsIndexed waiting.ost.cache
unfolding find
empty-IsIndexed = record {
  bounded = omega arith;
  entries = λ i ptr h. absurd (ground arith);
  places = λ pos i h. absurd (ground arith);
}

abbrev text : List ℕ
text = 97 ∷ 98 ∷ 99 ∷ 100 ∷ []

given :
    (o' : ObjStore ℕ Disk) × (o'' : ObjStore ℕ Disk) × (field' : Bfield ℕ) × (add_piece locks files
        waiting.ost 2
        (97 ∷ 98 ∷ 99 ∷ 100 ∷ 0 ∷ [])
        (7 ∷ 7 ∷ 7 ∷ 7 ∷ [])
      ≡ ok (o', 1))
    × (o'.bfield ≡ some field')
    × (has field'.bfield 0 ≡ (2 == 0) || has (1 ∷ []) 0)
    × (get_piece locks files o' 2 [] [] ≡ ok (o'', 1, 97 ∷ 98 ∷ 99 ∷ 0 ∷ []))
unfolding find c_string testbit
given =
    add_piece-get_piece locks files waiting.ost (field_of (1 ∷ [])) refl 2 3 0
      (97 ∷ 98 ∷ 99 ∷ 100 ∷ 0 ∷ []) (7 ∷ 7 ∷ 7 ∷ 7 ∷ []) [] [] text (inr free) (omega arith) refl
      free empty-IsIndexed refl (omega arith) refl (omega arith) refl refl (omega arith) refl refl

abbrev offered : Conn (List ℕ) ℕ Disk ℕ
offered = record waiting { sock = document (to_json small (piece_of 2 (97 ∷ 98 ∷ 99 ∷ []))) }

send_piece-serve_example :
    (send_piece stream small locks files [] 2 given.0 [] [] ≡ ok ([], given.1))
    × (serve stream small locks files mutexes (λ n. replicate n 0) 1001 1 (blank 0) offered
        ≡ some throws)
unfolding c_string
send_piece-serve_example =
    send_piece-serve stream small locks files mutexes (λ n. replicate n 0) 1001 small-IsLawful
      small-IsBson (λ n. length-replicate n 0) stream locks files [] [] 2 given.0 given.1 []
      (97 ∷ 98 ∷ 99 ∷ 0 ∷ []) [] (97 ∷ 98 ∷ 99 ∷ [])
      (document (to_json small (piece_of 2 (97 ∷ 98 ∷ 99 ∷ [])))) 0 (blank 0) offered [] given.6
      refl refl refl (all-HasArrived (to_json small (piece_of 2 (97 ∷ 98 ∷ 99 ∷ [])))) (omega arith)

turn-interested_example :
    turn stream small locks files mutexes (λ n. replicate n 0) 1001 (blank 0) waiting
    ≡ ok (
      true,
      record waiting {
        sock = [];
        nmap = record waiting.nmap {
          heap = set waiting.nmap.heap 0 (record free_nbr { interested = true });
        };
      },
    )
turn-interested_example =
    turn-interested stream small locks files mutexes (λ n. replicate n 0) 1001 small-IsLawful
      small-IsBson (λ n. length-replicate n 0) true (blank interested) (blank 0)
      (document (to_json small (blank interested))) waiting [] 0 free_nbr
      (blank-IsWire interested (omega arith)) refl refl
      (all-HasArrived (to_json small (blank interested))) (omega arith) (refl, tt) refl refl refl

-- A connection with a request, to which the peer sends an unchoke message.
abbrev unchoked : Conn (List ℕ) ℕ Disk ℕ
unchoked = record waiting {
  sock = document (to_json small (blank un_choke));
  choked_node = true;
  reqs = (2, true) ∷ [];
}

-- A socket whose receive fails once nothing is left.
abbrev failing : Sockets (List ℕ)
failing = record stream {
  peek = λ s n. (s, elim s [ [] ↦ none | b ∷ bs ↦ some (take n (b ∷ bs)) ]);
}

failing-HasArrived :
    HasArrived failing
      (document (to_json small (hello 1001)))
      []
      (document (to_json small (hello 1001)))
failing-HasArrived = record {
  peeked = refl;
  unmoved = refl;
  taken = ap some (take-length (document (to_json small (hello 1001))));
  moved = drop-length (document (to_json small (hello 1001)));
}

cli_handler-silent_example :
    cli_handler failing small locks files mutexes
      (λ n. replicate n 0)
      1002
      2
      (blank 0)
      (document (to_json small (hello 1001)))
      0
      waiting.ost
      accepted.nmap
    ≡ some (exits 1)
unfolding send_handshake snd
cli_handler-silent_example =
    cli_handler-silent failing small locks files mutexes (λ n. replicate n 0) 1002 small-IsLawful
      small-IsBson (λ n. length-replicate n 0) 1001 (blank 0)
      (document (to_json small (hello 1001))) (document (to_json small (hello 1001))) [] []
      waiting.ost accepted.nmap 0 (omega arith) refl failing-HasArrived (omega arith) tt open_mutex
      refl refl
