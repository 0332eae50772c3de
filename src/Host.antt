-- ===== src/Host.antt =====
-- A host for the examples: locks that always succeed, a file in memory with its offset, a socket
-- that receives nothing and sends anything, a JSON library and a network.
pub mod Values
pub mod Documents
pub mod Connections
use btrx.Prelude.{ℕ, ◌+◌, refl, true, some, none, false, List, [], ◌∷◌, ◌++◌, length, take, drop}
use btrx.Rwlock.{Rwlocks, IsFree}
use btrx.Mutex.{Mutexes, IsOpen}
use btrx.Files.{Files}
use btrx.Sockets.{Sockets}
use btrx.Json.{Json}
use btrx.Net.{Net}
use btrx.Bfield.{Bfield}

-- 0 is free, 1 held by a reader, 2 by a writer.
abbrev pub locks : Rwlocks ℕ
locks = record {
  initializer = 0;
  init = λ l. (0, 0);
  rdlock = λ l. (0, 1);
  wrlock = λ l. (0, 2);
  unlock = λ l. (0, 0);
  destroy = λ l. (0, l);
}

abbrev pub free : IsFree locks 0
free = record {
  held = 1;
  held_wr = 2;
  rdlock_ok = refl;
  unlock_rd = refl;
  wrlock_ok = refl;
  unlock_wr = refl;
}

abbrev pub mutexes : Mutexes ℕ
mutexes = record {
  initializer = 0;
  init = λ m. (0, 0);
  lock = λ m. (0, 1);
  unlock = λ m. (0, 0);
  destroy = λ m. (0, m);
}

abbrev pub open_mutex : IsOpen mutexes 0
open_mutex = record { held = 1; lock_ok = refl; unlock_ok = refl }

-- The bytes of the file and the offset.
abbrev pub Disk : Type 0
Disk = List ℕ × ℕ

abbrev pub overwrite : ℕ → List ℕ → List ℕ → List ℕ
overwrite pos bytes new = take pos bytes ++ new ++ drop (pos + length new) bytes

abbrev pub files : Files Disk
files = record {
  open_rdwr = λ fname. some ([], 0);
  lseek = λ fd pos. ((fd.0, pos), true);
  read = λ fd n. (fd, some (take n (drop fd.1 fd.0)));
  write = λ fd bytes. ((overwrite fd.1 fd.0 bytes, fd.1 + length bytes), true);
  close = λ fd. fd;
}

-- A field that needs its lock, with the lock free.
abbrev pub field_of : List ℕ → Bfield ℕ
field_of bytes = record { rwlock = 0; needlock = true; bfield = bytes }

-- The bytes that were sent.
abbrev pub socket : Sockets (List (List ℕ))
socket = record {
  ewouldblock = 11;
  peek = λ s n. (s, some []);
  recv = λ s n. (s, some []);
  send = λ s bs. (bs ∷ s, true);
  close = λ s. s;
}

-- A library that throws on every read.
abbrev pub mute : Json ℕ
mute = record {
  of_uint = λ n. n;
  of_string = λ s. 0;
  of_bytes = λ bs. 0;
  init_list = λ js. 0;
  at = λ j k. none;
  to_uint = λ w j. none;
  to_string = λ j. none;
  to_bytes = λ j. none;
  to_array = λ n j. none;
  is_pair = λ j. false;
  to_bson = λ j. some (j ∷ []);
  from_bson = λ bs. none;
}

-- A network where every call succeeds; a descriptor is the list of what was sent there.
abbrev pub network : Net ℕ (List (List ℕ)) ℕ
network = record {
  socket = λ w. (w, some []);
  socket_for = λ w a. (w + 1, some []);
  bind = λ w s addr port. (w, true);
  listen = λ w s backlog. (w, true);
  getaddrinfo = λ w host port. (w, some (0 ∷ []));
  connect = λ w s a. (w, true);
  accept = λ w s. (w + 1, some []);
  set_rcvtimeo = λ w s usec. (w, true);
  close = λ w s. w;
}
