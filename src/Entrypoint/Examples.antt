-- ===== src/Entrypoint/Examples.antt =====
-- entrypoint.cpp at concrete configuration files.
use btrx.Prelude.{Option, if◌then◌else◌, ℕ, ◌≡◌, refl, true, false, some, List, [], ◌∷◌, ok, arith}
use btrx.CString.{bytes_of, decimal, strncpy, c_string}
use btrx.CString.Tokens.{lines, before_nul, strtok, span, strtol, digits_value, to_int, to_bool}
use btrx.CString.Words.{IsWord}
use btrx.Json.{key_eq}
use btrx.Streams.{Streams}
use btrx.Logger.{log_dbg, create_logger}
use btrx.Bfield
use btrx.Bfield.{create_bfield, init_lock, initial_bytes, full_mask, zeroed_bfield}
use btrx.Cache
use btrx.Cache.{file_open, create_cache}
use btrx.ObjStore.{bfield_init, create_objstore}
use btrx.NbrMap.{opt_unchoking, unchoking, create_nbrmap}
use btrx.Node.{
  Node, num_pieces, sock_create, connback, connback_loop, acceptloop, accept_rounds, create_node,
}
use btrx.Host.{locks, mutexes, Disk, files, field_of, network}
use btrx.Entrypoint.{
  read_peer_line, read_peer_lines, read_peer_info, read_conf_line, read_conf_lines, read_conf_file,
  start,
}
use btrx.Entrypoint.PeerTable.{Row, AllRows, table, read_peer_info-table}
use btrx.Entrypoint.Settings.{Setting, value, file, AllSettings, conf_text, read_conf_file-settings}

abbrev host_name : List ℕ
host_name = b'h' ∷ b'1' ∷ []

host_name-IsWord : IsWord host_name
host_name-IsWord = record {
  some_byte = ground arith;
  one_line = (omega arith, omega arith, (omega arith, omega arith, tt));
  no_space = (omega arith, (omega arith, tt));
}

abbrev rows : List Row
rows =
    record { id = 1001; host = host_name; port = 6008; hasfile = true }
    ∷ record { id = 1002; host = host_name; port = 6009; hasfile = false }
    ∷ []

rows-AllRows : AllRows rows
rows-AllRows = (
  record { id_fits = omega arith; port_fits = omega arith; host_word = host_name-IsWord },
  (record { id_fits = omega arith; port_fits = omega arith; host_word = host_name-IsWord }, tt),
)

read_peer_info-table_example :
    read_peer_info (λ fname. some (table rows)) (bytes_of "PeerInfo.cfg") 1002
    ≡ ok (record {
      ret = 6009;
      peers = record {
        ids = 1001 ∷ 1002 ∷ [];
        hosts = host_name ∷ host_name ∷ [];
        ports = decimal 6008 ∷ decimal 6009 ∷ [];
        hasfile = true ∷ false ∷ [];
      };
    })
read_peer_info-table_example =
    read_peer_info-table (λ fname. some (table rows)) (bytes_of "PeerInfo.cfg") 1002 rows
      rows-AllRows refl

abbrev settings : List Setting
settings = value host_name 2 ∷ file host_name ∷ []

settings-AllSettings : AllSettings settings
unfolding key_eq decimal
settings-AllSettings =
    ((host_name-IsWord, refl, omega arith, omega arith), ((host_name-IsWord, omega arith), tt))

-- The name keeps the newline.
read_conf_file-settings_example :
    read_conf_file (λ fname. some (conf_text settings)) (bytes_of "./Common.cfg") (b'7' ∷ [])
    ≡ ok (record { sh_fname = b'7' ∷ b'/' ∷ b'h' ∷ b'1' ∷ 10 ∷ []; vals = 2 ∷ [] })
read_conf_file-settings_example =
    read_conf_file-settings (λ fname. some (conf_text settings)) (bytes_of "./Common.cfg")
      (b'7' ∷ []) settings settings-AllSettings refl

abbrev texts : List ℕ → Option (List ℕ)
texts fname =
    if key_eq fname (bytes_of "PeerInfo.cfg")
    then some (bytes_of "7 h 6008 1\n")
    else some (bytes_of "N 2\nU 5\nO 15\nF 18\nP 4\nFileName f\n")

abbrev quiet : Streams ℕ
quiet = record {
  std_out = 1;
  is_std_out = λ f. true;
  fopen = λ fname. some 2;
  fprintf = λ f format args. f;
  fclose = λ f. f;
}

abbrev only : Node (List (List ℕ)) ℕ Disk ℕ
only = record {
  threads = [];
  ostore = record {
    fsz = 18;
    fname = b'7' ∷ b'/' ∷ b'f' ∷ 10 ∷ [];
    cache = record {
      cmap = [];
      cvec = [];
      accesses = [];
      fd = ([], 0);
      pcsz = 4;
      npcs = 5;
      maxsz = 2005401;
      rwlock = 0;
    };
    bfield = some (field_of (255 ∷ []));
    pcsz = 4;
    npcs = 5;
  };
  nbrmap = record {
    mut = 0;
    npeers = 1;
    peers = [];
    peerinfo = [];
    handlers = opt_unchoking 15 ∷ unchoking 5 2 ∷ [];
    bfield = field_of (0 ∷ 0 ∷ 0 ∷ 0 ∷ 0 ∷ []);
    heap = [];
  };
  peerid = 7;
}

started_alone :
    start network locks mutexes files quiet (λ cmd fs. fs) 7 ([], 0) texts 0 ([] ∷ (b'7' ∷ []) ∷ [])
    ≡ ok (0, only, record { f = 2; mut = 0; max_lvl = log_dbg })
unfolding start create_logger read_conf_file read_conf_lines read_conf_line read_peer_info
    read_peer_lines read_peer_line lines before_nul strtok span strtol digits_value to_int to_bool
    strncpy c_string key_eq decimal create_node sock_create num_pieces create_objstore create_cache
    Cache.destroy create_nbrmap zeroed_bfield init_lock Bfield.destroy connback connback_loop
    acceptloop accept_rounds bfield_init create_bfield initial_bytes full_mask file_open
started_alone = refl
