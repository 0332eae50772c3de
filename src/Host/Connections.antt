-- ===== src/Host/Connections.antt =====
-- Connections for the examples: a socket that holds the bytes that wait in it, and the state of the thread
-- that reads them.
use btrx.Prelude.{ap, refl, true, false, none, some, List, [], ◌∷◌, ℕ, take, drop}
use btrx.Sockets.{Sockets}
use btrx.NbrMap.{Nbr}
use btrx.Pkts.{interested, to_json}
use btrx.Handler.{blank, hello}
use btrx.Handler.Loop.{Conn}
use btrx.Handler.Loop.Framing.{HasArrived, take-length, drop-length}
use btrx.Host.{Disk, field_of}
use btrx.Host.Values.{Value, small, document}

abbrev pub free_nbr : Nbr
free_nbr = record { choked = false; done = false; interested = false; requests = 0 }

-- A connection is the bytes that wait in it.
abbrev pub stream : Sockets (List ℕ)
stream = record {
  ewouldblock = 11;
  peek = λ s n. (s, some (take n s));
  recv = λ s n. (drop n s, some (take n s));
  send = λ s bs. (s, true);
  close = λ s. s;
}

pub all-HasArrived : (v : Value) → HasArrived stream (document v) [] (document v)
all-HasArrived v = record {
  peeked = refl;
  unmoved = refl;
  taken = ap some (take-length (document v));
  moved = drop-length (document v);
}

abbrev pub waiting : Conn (List ℕ) ℕ Disk ℕ
waiting = record {
  sock = document (to_json small (blank interested));
  client = true;
  ntimeouts = 0;
  choked_node = false;
  choked_peer = false;
  nbr = some 0;
  diff = [];
  bfield_peer = [];
  reqs = [];
  ost = record {
    fsz = 20;
    fname = 102 ∷ [];
    cache = record {
      cmap = [];
      cvec = [];
      accesses = [];
      fd = ([], 0);
      pcsz = 4;
      npcs = 5;
      maxsz = 2;
      rwlock = 0;
    };
    bfield = some (field_of (1 ∷ []));
    pcsz = 4;
    npcs = 5;
  };
  nmap = record {
    mut = 0;
    npeers = 1;
    peers = [];
    peerinfo = [];
    handlers = [];
    bfield = field_of (4 ∷ []);
    heap = free_nbr ∷ [];
  };
}

-- A connection that was just accepted, with the handshake of the peer 1001 on it.
abbrev pub accepted : Conn (List ℕ) ℕ Disk ℕ
accepted = record waiting {
  sock = document (to_json small (hello 1001));
  nbr = none;
  nmap = record waiting.nmap { heap = [] };
}
