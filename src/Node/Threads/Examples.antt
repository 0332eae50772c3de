-- ===== src/Node/Threads/Examples.antt =====
-- The threads of the second of three nodes (node/node.cpp), over concrete locks, files and sockets.
use btrx.Prelude.{
  ◌⊎◌, ℕ, ◌+◌, ◌/◌, ◌%◌, ◌^◌, ◌≤◌, ◌≡◌, refl, Bool, true, false, none, some, List, [], ◌∷◌, ok,
  ◌>>=◌, arith, inr, length, get_elem?, replicate, length-replicate, Chain, stays, next,
}
use btrx.Prelude.Bits.{testbit}
use btrx.Bfield
use btrx.Bfield.{Bfield, create_bfield, zeroed_bfield, init_lock, initial_bytes, full_mask}
use btrx.Bfield.Has.{has}
use btrx.Bfield.Members.{with_piece, flip_at-with_piece}
use btrx.Bfield.Steps.{claims}
use btrx.Cache
use btrx.Cache.{cachesz, create_cache, file_open}
use btrx.ObjStore.{ObjStore, create_objstore, bfield_init}
use btrx.ObjStore.Steps.{makes}
use btrx.NbrMap.{Nbr, NbrMap, opt_unchoking, unchoking, create_nbrmap, select_unchoked}
use btrx.NbrMap.Registry.{IsValid, fresh}
use btrx.NbrMap.Choking.{NoneChoked}
use btrx.NbrMap.Timers.Idle.{registered, register_cli-registered}
use btrx.NbrMap.Steps as Map
use btrx.Pkts.{to_json, handshake}
use btrx.Handler.{blank, hello, send_handshake, snd, choke_status_check}
use btrx.Handler.Loop.{Conn, deref_nbr, dispatch, turn}
use btrx.Handler.Loop.Greeting.{turn-hello, hello-IsWire}
use btrx.Handler.Loop.Shared.{share, stores, maps, Calls}
use btrx.Node.Threads.{never_chokes, waited_for, never_taken_back, never_overfull}
use btrx.Node.Threads.Process.{Process, opened, Move, accepts, goes_on, sets_up}
use btrx.Node.Threads.Received.{never_dangling, moves-received}
use btrx.Host.{locks, free, mutexes, open_mutex, Disk, files, field_of}
use btrx.Host.Values.{small, small-IsLawful, document}
use btrx.Host.Documents.{small-IsBson}
use btrx.Host.Connections.{stream, all-HasArrived}

abbrev shelf : ObjStore ℕ Disk
shelf = record {
  fsz = 18;
  fname = 102 ∷ [];
  cache = record {
    cmap = [];
    cvec = [];
    accesses = [];
    fd = ([], 0);
    pcsz = 4;
    npcs = 5;
    maxsz = 2005401;
    rwlock = 0;
  };
  bfield = none;
  pcsz = 4;
  npcs = 5;
}

abbrev made : NbrMap ℕ ℕ
made = record {
  mut = 0;
  npeers = 3;
  peers = [];
  peerinfo = [];
  handlers = opt_unchoking 15 ∷ unchoking 5 2 ∷ [];
  bfield = field_of (0 ∷ 0 ∷ 0 ∷ 0 ∷ 0 ∷ []);
  heap = [];
}

shelf_made : create_objstore locks files ([], 0) 18 4 5 (102 ∷ []) ≡ ok shelf
unfolding create_objstore create_cache Cache.destroy
shelf_made = refl

map_made : create_nbrmap locks mutexes 7 3 5 15 5 2 ≡ ok made
unfolding create_nbrmap zeroed_bfield init_lock Bfield.destroy
map_made = refl

-- The main thread sets the field up, the peer 1001 registers, its thread speaks for piece 0, and leaves.
abbrev full : ObjStore ℕ Disk
full = record shelf { bfield = some (field_of (255 ∷ [])) }

abbrev joined : NbrMap ℕ ℕ
joined = registered mutexes made 1001

abbrev spoken : NbrMap ℕ ℕ
spoken = record joined { bfield = field_of (1 ∷ 0 ∷ 0 ∷ 0 ∷ 0 ∷ []) }

abbrev left : NbrMap ℕ ℕ
left = record spoken { heap = record fresh { done = true } ∷ [] }

sets : create_bfield locks 7 true true 5 ≡ ok (field_of (255 ∷ []))
unfolding create_bfield init_lock initial_bytes full_mask
sets = refl

speaks : Map.MapStep locks mutexes joined spoken
unfolding with_piece testbit
speaks = Map.claims joined (field_of (1 ∷ 0 ∷ 0 ∷ 0 ∷ 0 ∷ [])) (
    claims (field_of (0 ∷ 0 ∷ 0 ∷ 0 ∷ 0 ∷ [])) (field_of (1 ∷ 0 ∷ 0 ∷ 0 ∷ 0 ∷ [])) 0 0 true
      (omega arith)
      (flip_at-with_piece locks (field_of (0 ∷ 0 ∷ 0 ∷ 0 ∷ 0 ∷ [])) 0 0 (inr free) (omega arith)
        (omega arith)))

registers : Calls locks mutexes (share shelf made) (share full joined)
registers =
    next
      (next stays
        (stores (share shelf made) full (makes shelf 7 true (field_of (255 ∷ [])) refl sets)))
      (maps (share full made) joined
        (Map.registers made joined 1001 0 (register_cli-registered mutexes made 1001 open_mutex)))

calls : Calls locks mutexes (share shelf made) (share full left)
calls =
    next (next registers (maps (share full joined) spoken speaks))
      (maps (share full spoken) left (Map.leaves spoken 0 fresh refl))

never_chokes_example :
    NoneChoked left.heap
    × IsValid left
    × (choke_status_check stream small [] (some (record fresh { done = true })) false ≡ ok [])
    × ((b : Bool) × (select_unchoked 2 left ≡ ok (left, b)))
never_chokes_example =
    never_chokes locks mutexes 7 3 5 15 5 2 shelf made map_made (share full left) calls stream small
      [] 0 (record fresh { done = true }) 2 refl (omega arith)

waited_for_example :
    (length left.peers ≡ length left.heap)
    × ((left.npeers + length left.heap) % 2 ^ 32 ≡ 3 % 2 ^ 32)
waited_for_example =
    waited_for locks mutexes 7 3 5 15 5 2 shelf made map_made (share full left) calls

-- The peer 1003 registers as well.
abbrev both : NbrMap ℕ ℕ
both = registered mutexes left 1003

never_taken_back_example :
    ((some (field_of (255 ∷ [])) ≡ none)
      ⊎ ((b : Bfield ℕ) × (b' : Bfield ℕ) × (some (field_of (255 ∷ [])) ≡ some b)
          × (some (field_of (255 ∷ [])) ≡ some b')
          × ((has b.bfield 4 ≡ false) ⊎ (has b'.bfield 4 ≡ true))))
    × ((has left.bfield.bfield 0 ≡ false) ⊎ (has both.bfield.bfield 0 ≡ true))
    × ((get_elem? left.heap 0 ≡ none)
        ⊎ ((nbr : Nbr) × (nbr' : Nbr) × (get_elem? left.heap 0 ≡ some nbr)
            × (get_elem? both.heap 0 ≡ some nbr')
            × ((nbr.done ≡ false) ⊎ (nbr'.done ≡ true))))
never_taken_back_example =
    never_taken_back locks mutexes 7 3 5 15 5 2 shelf made map_made (share full left) calls
      (share full both) 4 0 0
      (next stays (
        maps (share full left) both
          (Map.registers left both 1003 1 (register_cli-registered mutexes left 1003 open_mutex))))

never_overfull_example : length full.cache.cvec ≤ cachesz / 5
never_overfull_example =
    never_overfull locks mutexes 7 3 5 15 5 2 shelf made map_made (share full left) calls files
      ([], 0) 18 4 5 (102 ∷ []) (omega arith) shelf_made

-- The field is set up, and the peer 1001 connects, with its handshake on the way.
abbrev here : Process (List ℕ) ℕ Disk ℕ
here = record {
  conns = opened (document (to_json small (hello 1001))) true (share full made) ∷ [];
  state = share full made;
}

set_up : bfield_init locks files (λ cmd fs. fs) 7 shelf true ≡ ok full
unfolding bfield_init create_bfield init_lock initial_bytes full_mask file_open
set_up = refl

arrives :
    Chain (Move stream small locks mutexes) (record { conns = []; state = share shelf made }) here
arrives =
    next
      (next stays (
        sets_up (record { conns = []; state = share shelf made }) files (λ cmd fs. fs) 7 true full
          refl set_up))
      (accepts (record { conns = []; state = share full made })
        (document (to_json small (hello 1001))))

-- Its thread makes a round.
abbrev known : Conn (List ℕ) ℕ Disk ℕ
known = record (opened [] true (share full made)) { nmap = joined; nbr = some 0 }

greets :
    turn stream small locks files mutexes
      (λ n. replicate n 0)
      1002
      (blank 0)
      (opened (document (to_json small (hello 1001))) true (share full made))
    ≡ ok (true, known)
unfolding send_handshake snd
greets =
    turn-hello stream small locks files mutexes (λ n. replicate n 0) 1002 small-IsLawful
      small-IsBson (λ n. length-replicate n 0) 1001 (blank 0)
      (document (to_json small (hello 1001)))
      (opened (document (to_json small (hello 1001))) true (share full made)) [] (omega arith) refl
      (all-HasArrived (to_json small (hello 1001))) (omega arith) tt refl refl refl open_mutex

greeted :
    Chain
      (Move stream small locks mutexes)
      (record { conns = []; state = share shelf made })
      (record { conns = known ∷ []; state = share full joined })
greeted = next arrives (
    goes_on here 0 (opened (document (to_json small (hello 1001))) true (share full made)) known
      files (λ n. replicate n 0) 1002 (blank 0) refl greets)

never_dangling_example : (nbr : Nbr) × (deref_nbr known ≡ ok (0, nbr)) × (nbr.choked ≡ false)
never_dangling_example =
    never_dangling stream small locks mutexes 7 3 5 15 5 2 shelf made map_made
      (record { conns = known ∷ []; state = share full joined }) greeted 0 known refl 0 refl

moves-received_example :
    turn stream small locks files mutexes
      (λ n. replicate n 0)
      1002
      (blank 0)
      (opened (document (to_json small (hello 1001))) true (share full made))
    ≡ (do
      c' ←
          dispatch stream small locks files mutexes
            (λ n. replicate n 0)
            1002
            (record (blank 0) { type = handshake; hshake = (hello 1001).hshake })
            (opened [] true (share full made))
      ok (true, c'))
moves-received_example =
    moves-received stream small locks mutexes 7 3 5 15 5 2 shelf made map_made here arrives 0
      (opened (document (to_json small (hello 1001))) true (share full made)) refl files
      (λ n. replicate n 0) 1002 small-IsLawful small-IsBson (λ n. length-replicate n 0) (hello 1001)
      (blank 0) (document (to_json small (hello 1001))) [] (hello-IsWire 1001 (omega arith))
      (omega arith) refl (all-HasArrived (to_json small (hello 1001))) (omega arith)
