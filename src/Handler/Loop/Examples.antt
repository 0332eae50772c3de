-- ===== src/Handler/Loop/Examples.antt =====
-- `cli_handler` of handler/handler.cpp at a concrete message, over a socket that receives nothing and
-- sends anything.
use btrx.Prelude.{
  take, subst, arith, length, ok, ◌≡◌, ◌≤◌, ℕ, refl, true, false, some, List, [], ◌∷◌, replicate,
}
use btrx.ObjStore.{ObjStore}
use btrx.NbrMap.{NbrMap}
use btrx.Pkts.{interested}
use btrx.Handler.{blank}
use mathlib.Core.Option.{some_inj}
use btrx.Handler.{rcv_sz}
use btrx.Handler.Loop.Timeouts.{IsEmpty, Rounds, serve-left}
use btrx.Host.Values.{small}
use btrx.Host.Connections.{stream, free_nbr}
use btrx.Handler.Loop.{serve, turn, leave, deref_nbr, set_nbr, Conn}
use btrx.Host.{locks, mutexes, Disk, files, field_of}

abbrev alone : NbrMap ℕ ℕ
alone = record {
  mut = 0;
  npeers = 1;
  peers = [];
  peerinfo = [];
  handlers = [];
  bfield = field_of (4 ∷ []);
  heap = record { choked = false; done = false; interested = false; requests = 0 } ∷ [];
}

abbrev shelf : ObjStore ℕ Disk
shelf = record {
  fsz = 20;
  fname = 102 ∷ [];
  cache = record {
    cmap = [];
    cvec = [];
    accesses = [];
    fd = ([], 0);
    pcsz = 4;
    npcs = 5;
    maxsz = 2;
    rwlock = 0;
  };
  bfield = some (field_of (1 ∷ []));
  pcsz = 4;
  npcs = 5;
}

abbrev opened : Conn (List ℕ) ℕ Disk ℕ
opened = record {
  sock = [];
  client = true;
  ntimeouts = 0;
  choked_node = false;
  choked_peer = false;
  nbr = some 0;
  diff = [];
  bfield_peer = [];
  reqs = [];
  ost = shelf;
  nmap = alone;
}

-- The peer has closed the connection.
abbrev gone : Conn (List ℕ) ℕ Disk ℕ
gone = record opened { nmap = record alone { heap = record free_nbr { done = true } ∷ [] } }

closes :
    serve stream small locks files mutexes (λ n. replicate n 0) 1001 3 (blank interested) opened
    ≡ some (ok gone)
unfolding serve turn rcv_sz leave deref_nbr set_nbr
closes = refl

length-take_le : (s : List ℕ) → length (take 4 s) ≤ 4
length-take_le [] = omega arith
length-take_le (a ∷ []) = omega arith
length-take_le (a ∷ b ∷ []) = omega arith
length-take_le (a ∷ b ∷ c ∷ []) = omega arith
length-take_le (a ∷ b ∷ c ∷ d ∷ s) = omega arith

stream_short : (s bs : List ℕ) → (stream.peek s 4).1 ≡ some bs → length bs ≤ 4
stream_short s bs e = subst (λ bs. length bs ≤ 4) (some_inj.0 e) (length-take_le s)

serve-left_example :
    (d : Conn (List ℕ) ℕ Disk ℕ) × (d' : Conn (List ℕ) ℕ Disk ℕ) × Rounds stream small locks files
      mutexes
      (λ n. replicate n 0)
      1001
      (blank interested)
      (omega arith)
      stream_short
      opened
      d
    × (turn stream small locks files mutexes (λ n. replicate n 0) 1001 (blank interested) d
        ≡ ok (false, d'))
    × IsEmpty stream d.sock
    × (leave stream small locks files mutexes (λ n. replicate n 0) 1001 d' ≡ ok gone)
serve-left_example =
    serve-left stream small locks files mutexes (λ n. replicate n 0) 1001 (blank interested)
      (omega arith) stream_short 3 opened gone closes
