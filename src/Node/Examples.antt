-- ===== src/Node/Examples.antt =====
-- node/node.cpp at concrete numbers, over a network where every call succeeds.
use btrx.Prelude.{
  get_elem?, stays, ◌≢◌, length, ℕ, ◌+◌, ◌<◌, ◌≡◌, refl, true, false, none, some, List, [], ◌∷◌, ok,
  ◌>>=◌, arith,
}
use btrx.ObjStore.{ObjStore, bfield_init, create_objstore}
use btrx.Bfield.{create_bfield, init_lock, initial_bytes, full_mask, zeroed_bfield}
use btrx.Bfield
use btrx.Bfield.{Bfield}
use btrx.Cache.{get_pos, file_open, create_cache}
use btrx.Cache
use btrx.NbrMap.{NbrMap, opt_unchoking, unchoking, create_nbrmap}
use btrx.Node.{
  Started, Node, Peers, num_pieces, connect_peer, connback, acceptloop, sock_create, create_node,
}
use btrx.Node.Pieces.{get_pos-num_pieces}
use btrx.Node.Mesh.{IsReliable, known, mesh}
use btrx.Node.Waiting.{create_node-npeers}
use btrx.Node.{connback_loop, connect_any, make_thread, accept_rounds}
use btrx.Node.Threads.Made.{create_node-Calls}
use btrx.Node.Threads.Waiting.{timers_wait}
use btrx.NbrMap.{select_unchoked, opt_unchoke}
use btrx.Handler.Loop.Shared.{share, Calls}
use btrx.Host.{locks, mutexes, Disk, files, field_of, network}

abbrev shelf : ObjStore ℕ Disk
shelf = record {
  fsz = 18;
  fname = 102 ∷ [];
  cache = record {
    cmap = [];
    cvec = [];
    accesses = [];
    fd = ([], 0);
    pcsz = 4;
    npcs = 5;
    maxsz = 2005401;
    rwlock = 0;
  };
  bfield = none;
  pcsz = 4;
  npcs = 5;
}

get_pos-num_pieces_example : (pos : ℕ) × (get_pos shelf.cache 4 ≡ ok pos) × (pos < 18)
unfolding num_pieces
get_pos-num_pieces_example = get_pos-num_pieces 18 5 4 shelf.cache (omega arith) refl (omega arith)

network-IsReliable : IsReliable network
network-IsReliable = record {
  socket_ok = λ w a. ([], refl);
  found = λ w host port. (0, [], refl);
  connected = λ w s a. refl;
  accepted = λ w s. ([], refl);
  timed = λ w s. refl;
}

abbrev fresh : Node (List (List ℕ)) ℕ Disk ℕ
fresh = record {
  threads = [];
  ostore = shelf;
  nbrmap = record {
    mut = 0;
    npeers = 3;
    peers = [];
    peerinfo = [];
    handlers = [];
    bfield = field_of (0 ∷ []);
    heap = [];
  };
  peerid = 1002;
}

abbrev peers : Peers
peers = record {
  ids = 1001 ∷ 1002 ∷ 1003 ∷ [];
  hosts = [] ∷ [] ∷ [] ∷ [];
  ports = [] ∷ [] ∷ [] ∷ [];
  hasfile = false ∷ true ∷ false ∷ [];
}

-- The second of three nodes: a thread for the first, and one for whoever connects.
mesh_example :
    (w' : ℕ) × (threads : List (Started (List (List ℕ)))) × ((do
      (w1, n1, conns) ← connback network locks files (λ cmd fs. fs) 7 0 fresh peers
      acceptloop network w1 n1 [] conns 3)
      ≡ ok (
        w',
        record fresh {
          threads = threads;
          ostore = record shelf { bfield = some (field_of (255 ∷ [])) };
        },
      ))
    × (known threads ≡ 1001 ∷ 0 ∷ [])
unfolding bfield_init create_bfield init_lock initial_bytes full_mask file_open
mesh_example =
    mesh network network-IsReliable locks files (λ cmd fs. fs) 7 (1001 ∷ []) (1003 ∷ []) 0 fresh []
      peers true (record shelf { bfield = some (field_of (255 ∷ [])) }) refl (omega arith)
      (([], refl), ([], refl), tt) (omega arith, tt) refl refl

-- The map of the second of three nodes.
abbrev made : NbrMap ℕ ℕ
made = record fresh.nbrmap {
  handlers = opt_unchoking 15 ∷ unchoking 5 2 ∷ [];
  bfield = field_of (0 ∷ 0 ∷ 0 ∷ 0 ∷ 0 ∷ []);
}

create_node-npeers_example :
    (w' : ℕ) × (threads : List (Started (List (List ℕ)))) × (create_node network locks mutexes files
        (λ cmd fs. fs)
        7
        ([], 0)
        0
        2
        5
        15
        1002
        []
        6009
        (102 ∷ [])
        peers
        (2 ∷ 5 ∷ 15 ∷ 18 ∷ 4 ∷ [])
      ≡ ok (
        w',
        record {
          threads = threads;
          ostore = record shelf { bfield = some (field_of (255 ∷ [])) };
          nbrmap = made;
          peerid = 1002;
        },
      ))
    × (known threads ≡ 1001 ∷ 0 ∷ [])
    × (made.npeers ≡ length threads + 1)
unfolding sock_create num_pieces create_objstore create_cache Cache.destroy create_nbrmap
    zeroed_bfield init_lock Bfield.destroy bfield_init create_bfield initial_bytes full_mask
    file_open
create_node-npeers_example =
    create_node-npeers network network-IsReliable locks mutexes files (λ cmd fs. fs) 7 ([], 0)
      (1001 ∷ []) (1003 ∷ []) 0 2 5 15 1002 [] 6009 (102 ∷ []) peers (2 ∷ 5 ∷ 15 ∷ 18 ∷ 4 ∷ []) []
      18 4 5 true shelf (record shelf { bfield = some (field_of (255 ∷ [])) }) made refl refl refl
      refl refl refl refl refl (omega arith) (([], refl), ([], refl), tt) (omega arith, tt) refl

-- The threads of the second of three nodes.
abbrev both : List (Started (List (List ℕ)))
both =
    (record { sock = []; peerid_self = 1002; peerid_peer = 1001 })
    ∷ (record { sock = []; peerid_self = 1002; peerid_peer = 0 })
    ∷ []

abbrev second : Node (List (List ℕ)) ℕ Disk ℕ
second = record {
  threads = both;
  ostore = record shelf { bfield = some (field_of (255 ∷ [])) };
  nbrmap = made;
  peerid = 1002;
}

second_made :
    create_node network locks mutexes files
      (λ cmd fs. fs)
      7
      ([], 0)
      0
      2
      5
      15
      1002
      []
      6009
      (102 ∷ [])
      peers
      (2 ∷ 5 ∷ 15 ∷ 18 ∷ 4 ∷ [])
    ≡ ok (2, second)
unfolding create_node sock_create num_pieces create_objstore create_cache Cache.destroy
    create_nbrmap zeroed_bfield init_lock Bfield.destroy bfield_init create_bfield initial_bytes
    full_mask file_open connback connback_loop connect_peer connect_any make_thread acceptloop
    accept_rounds
second_made = refl

create_node-Calls_example :
    (fsz : ℕ) × (pcsz : ℕ) × (npcs : ℕ) × (o : ObjStore ℕ Disk) × (m : NbrMap ℕ ℕ) × (get_elem?
        (2 ∷ 5 ∷ 15 ∷ 18 ∷ 4 ∷ [])
        3
      ≡ some fsz)
    × (get_elem? (2 ∷ 5 ∷ 15 ∷ 18 ∷ 4 ∷ []) 4 ≡ some pcsz)
    × (num_pieces fsz pcsz ≡ ok npcs)
    × (create_objstore locks files ([], 0) fsz pcsz npcs (102 ∷ []) ≡ ok o)
    × (create_nbrmap locks mutexes 7 3 npcs 15 5 2 ≡ ok m)
    × Calls locks mutexes (share o m) (share second.ostore second.nbrmap)
create_node-Calls_example =
    create_node-Calls network locks mutexes files (λ cmd fs. fs) 7 ([], 0) 0 2 2 5 15 1002 [] 6009
      (102 ∷ []) peers (2 ∷ 5 ∷ 15 ∷ 18 ∷ 4 ∷ []) second second_made

timers_wait_example :
    (second.nbrmap.npeers ≢ 0)
    × (select_unchoked 2 second.nbrmap ≡ ok (second.nbrmap, true))
    × (opt_unchoke 9 (λ n. n) second.nbrmap ≡ some (ok (second.nbrmap, true)))
timers_wait_example =
    timers_wait network locks mutexes files (λ cmd fs. fs) 7 ([], 0) 0 2 2 5 15 1002 [] 6009
      (102 ∷ []) peers (2 ∷ 5 ∷ 15 ∷ 18 ∷ 4 ∷ []) second (share second.ostore second.nbrmap) 2 9
      (λ n. n) second_made (omega arith) stays (omega arith)
