-- ===== src/Entrypoint.antt =====
-- entrypoint.cpp: the configuration files, and the life of the process. `texts` gives the contents of
-- a file that can be opened to read.
mod Examples
pub mod PeerTable
pub mod Settings
use Prim.Native.String.{String}
use btrx.Prelude.{
  ℕ, Bool, Option, none, some, List, [], ◌∷◌, ◌++◌, Outcome, ok, exits, throws, undefined, ◌>>=◌,
  defined, ◌==◌, if◌then◌else◌, get_elem?, length,
}
use btrx.Rwlock.{Rwlocks}
use btrx.Mutex.{Mutexes}
use btrx.Files.{Files}
use btrx.Streams.{Streams}
use btrx.Net.{Net}
use btrx.CString.{bytes_of, c_string, strncpy}
use btrx.CString.Tokens.{lines, before_nul, strtok, strtol, to_int, to_bool}
use btrx.Json.{key_eq}
use btrx.Logger
use btrx.Logger.{Logger, log_dbg, create_logger}
use btrx.NbrMap.{Handler}
use btrx.Node
use btrx.Node.{Started, Node, Peers, create_node}

-- `ret` and the vectors that `read_peer_info` fills.
pub record PeerInfo : Type 0 where
  pub ret : ℕ
  pub peers : Peers

-- The body of its loop.
pub read_peer_line : ℕ → PeerInfo → List ℕ → Outcome PeerInfo
read_peer_line pid info line = do
  (id, rest) ← defined (strtok (before_nul line))
  let peerid = to_int (strtol id)
  (host, rest') ← defined (strtok rest)
  (port, rest'') ← defined (strtok rest')
  (has, _) ← defined (strtok rest'')
  ok (record {
    ret = if peerid == pid then to_int (strtol port) else info.ret;
    peers = record {
      ids = info.peers.ids ++ peerid ∷ [];
      hosts = info.peers.hosts ++ host ∷ [];
      ports = info.peers.ports ++ port ∷ [];
      hasfile = info.peers.hasfile ++ to_bool (strtol has) ∷ [];
    };
  })

-- The loop, over the lines that `getline` gives.
pub read_peer_lines : ℕ → PeerInfo → List (List ℕ) → Outcome PeerInfo
unfolding read_peer_line
read_peer_lines pid info [] = ok info
read_peer_lines pid info (line ∷ rest) = do
  info' ← read_peer_line pid info line
  read_peer_lines pid info' rest

abbrev pub no_peers : PeerInfo
no_peers = record { ret = 0; peers = record { ids = []; hosts = []; ports = []; hasfile = [] } }

pub read_peer_info : (List ℕ → Option (List ℕ)) → List ℕ → ℕ → Outcome PeerInfo
unfolding read_peer_lines lines
read_peer_info texts fname pid = elim (texts fname) [
  | none ↦ exits 1
  | some text ↦ read_peer_lines pid no_peers (lines text)
]

-- `sh_fname` and `vals` of `read_conf_file`.
pub record Conf : Type 0 where
  pub sh_fname : List ℕ
  pub vals : List ℕ

-- The body of its loop: the line is copied into a buffer of 512 bytes.
pub read_conf_line : List ℕ → Conf → List ℕ → Outcome Conf
read_conf_line peerid conf line = do
  tmp ← strncpy 512 (line ++ 0 ∷ [])
  s ← defined (c_string tmp)
  (field, rest) ← defined (strtok s)
  (word, _) ← defined (strtok rest)
  ok (
      if key_eq field (bytes_of "FileName")
      then record conf { sh_fname = peerid ++ b'/' ∷ word }
      else record conf { vals = conf.vals ++ to_int (strtol word) ∷ [] })

pub read_conf_lines : List ℕ → Conf → List (List ℕ) → Outcome Conf
unfolding read_conf_line
read_conf_lines peerid conf [] = ok conf
read_conf_lines peerid conf (line ∷ rest) = do
  conf' ← read_conf_line peerid conf line
  read_conf_lines peerid conf' rest

pub read_conf_file : (List ℕ → Option (List ℕ)) → List ℕ → List ℕ → Outcome Conf
unfolding read_conf_lines lines
read_conf_file texts fname peerid = elim (texts fname) [
  | none ↦ exits 1
  | some text ↦ read_conf_lines peerid (record { sh_fname = []; vals = [] }) (lines text)
]

-- What stands before `delete n` of `main`: the network, the node and the log. The globals are passed
-- on as arguments.
pub start :
    {W S A L F M H : Type 0}
    → Net W S A
    → Rwlocks L
    → Mutexes M
    → Files F
    → Streams H
    → (List ℕ → Files F → Files F)
    → L
    → F
    → (List ℕ → Option (List ℕ))
    → W
    → List (List ℕ)
    → Outcome (W × Node S L F M × Logger H M)
unfolding read_peer_info read_conf_file
start net pt mx fs st system junk junk_fd texts w argv = do
  name ← if length argv == 2 then defined (get_elem? argv 1) else exits 1
  lvar ← create_logger st mx (name ++ bytes_of "/log_peer_" ++ name) log_dbg
  let peerid = to_int (strtol name)
  conf ← read_conf_file texts (bytes_of "./Common.cfg") name
  info ← read_peer_info texts (bytes_of "PeerInfo.cfg") peerid
  n_pref_peers ← defined (get_elem? conf.vals 0)
  uchoke_ival ← defined (get_elem? conf.vals 1)
  opuchoke_ival ← defined (get_elem? conf.vals 2)
  (w', n) ←
      create_node net pt mx fs system junk junk_fd w n_pref_peers uchoke_ival opuchoke_ival peerid
        (bytes_of "127.0.0.1") info.ret conf.sh_fname info.peers conf.vals
  ok (w', n, lvar)

-- The whole of `main`; `none` where a destructor waits for ever.
pub main :
    {W S A L F M H : Type 0}
    → Net W S A
    → Rwlocks L
    → Mutexes M
    → Files F
    → Streams H
    → (List ℕ → Files F → Files F)
    → L
    → F
    → (List ℕ → Option (List ℕ))
    → (Started S → Bool)
    → (Handler → Bool)
    → W
    → List (List ℕ)
    → Option (Outcome (Logger H M))
unfolding start
main net pt mx fs st system junk junk_fd texts ends handler_ends w argv =
    elim (start net pt mx fs st system junk junk_fd texts w argv) [
      | ok (w', n, lvar) ↦ elim (Node.destroy pt mx fs ends handler_ends n) [
        | none ↦ none
        | some r ↦ some (do _ ← r; Logger.destroy st mx lvar)
      ]
      | exits k ↦ some (exits k)
      | throws ↦ some throws
      | undefined ↦ some undefined
    ]
