-- ===== src/Entrypoint/PeerTable.antt =====
-- `read_peer_info` of entrypoint.cpp reads a table of peers back.
use btrx.Prelude.{
  ℕ, ◌^◌, ◌<◌, ◌≡◌, refl, Bool, true, false, some, List, [], ◌∷◌, ◌++◌, map, Option, ok, ◌==◌,
  if◌then◌else◌, arith,
}
use mathlib.Core.List.{append_assoc, append-nil}
use btrx.CString.{decimal}
use btrx.CString.Tokens.{lines, strtok, strtol, to_bool}
use btrx.CString.Decimal.{AllDigits-decimal, to_int-strtol-decimal}
use btrx.CString.Words.{
  decimal-IsWord, OneLine, IsWord, OneLine-append, OneLine-AllDigits, lines-line, before_nul-line,
  strtok-word,
}
use btrx.Entrypoint.{PeerInfo, read_peer_line, read_peer_lines, read_peer_info, no_peers}

pub record Row : Type 0 where
  pub id : ℕ
  pub host : List ℕ
  pub port : ℕ
  pub hasfile : Bool

-- The numbers are of type `int`, and the host is a word.
pub record IsRow (r : Row) : Type 0 where
  pub id_fits : r.id < 2 ^ 31
  pub port_fits : r.port < 2 ^ 31
  pub host_word : IsWord r.host

abbrev pub AllRows : List Row → Type 0
AllRows [] = Unit {0}
AllRows (r ∷ rows) = IsRow r × AllRows rows

abbrev digit : Bool → ℕ
digit true = b'1'
digit false = b'0'

-- A row as a line of the file, without the newline.
abbrev printed : Row → List ℕ
printed r =
    decimal r.id ++ (32 ∷ (r.host ++ (32 ∷ (decimal r.port ++ (32 ∷ digit r.hasfile ∷ [])))))

abbrev pub table : List Row → List ℕ
table [] = []
table (r ∷ rows) = printed r ++ 10 ∷ table rows

-- The port of the last row of the peer.
abbrev pub port_of : ℕ → ℕ → List Row → ℕ
port_of pid ret [] = ret
port_of pid ret (r ∷ rows) = port_of pid (if r.id == pid then r.port else ret) rows

abbrev filled : ℕ → PeerInfo → List Row → PeerInfo
filled pid info rows = record {
  ret = port_of pid info.ret rows;
  peers = record {
    ids = info.peers.ids ++ map (λ r. r.id) rows;
    hosts = info.peers.hosts ++ map (λ r. r.host) rows;
    ports = info.peers.ports ++ map (λ r. decimal r.port) rows;
    hasfile = info.peers.hasfile ++ map (λ r. r.hasfile) rows;
  };
}

printed-OneLine : (r : Row) → IsRow r → OneLine (printed r)
printed-OneLine r v =
    let flag : OneLine (32 ∷ digit r.hasfile ∷ []) = ground arith in
    let port =
      OneLine-append (decimal r.port) (32 ∷ digit r.hasfile ∷ [])
        (OneLine-AllDigits _ (AllDigits-decimal r.port)) flag in
    let host =
      OneLine-append r.host (32 ∷ (decimal r.port ++ (32 ∷ digit r.hasfile ∷ [])))
        v.host_word.one_line (omega arith, omega arith, port) in
    OneLine-append (decimal r.id) _ (OneLine-AllDigits _ (AllDigits-decimal r.id))
      (omega arith, omega arith, host)

line-printed :
    (r : Row)
    → printed r ++ 10 ∷ []
      ≡ decimal r.id
        ++ (32 ∷ (r.host ++ (32 ∷ (decimal r.port ++ (32 ∷ digit r.hasfile ∷ 10 ∷ [])))))
line-printed r = simp append_assoc

flag_read :
    (b : Bool)
    → (strtok (digit b ∷ 10 ∷ []) ≡ some (digit b ∷ 10 ∷ [], []))
      × (to_bool (strtol (digit b ∷ 10 ∷ [])) ≡ b)
unfolding strtok strtol to_bool
flag_read true = (refl, refl)
flag_read false = (refl, refl)

read_printed :
    (pid : ℕ) (info : PeerInfo) (r : Row)
    → IsRow r
    → read_peer_line pid info (printed r ++ 10 ∷ []) ≡ ok (filled pid info (r ∷ []))
unfolding read_peer_line
read_printed pid info r v =
    rw
      (
        before_nul-line (printed r) (printed-OneLine r v),
        line-printed r,
        strtok-word (decimal r.id)
            (r.host ++ (32 ∷ (decimal r.port ++ (32 ∷ digit r.hasfile ∷ 10 ∷ []))))
            (decimal-IsWord r.id),
        strtok-word r.host (decimal r.port ++ (32 ∷ digit r.hasfile ∷ 10 ∷ [])) v.host_word,
        strtok-word (decimal r.port) (digit r.hasfile ∷ 10 ∷ []) (decimal-IsWord r.port),
        (flag_read r.hasfile).0,
        (flag_read r.hasfile).1,
        to_int-strtol-decimal r.id v.id_fits,
        to_int-strtol-decimal r.port v.port_fits,
      )
      refl

read_table :
    (pid : ℕ) (info : PeerInfo) (rows : List Row)
    → AllRows rows
    → read_peer_lines pid info (lines (table rows)) ≡ ok (filled pid info rows)
unfolding read_peer_lines lines
read_table pid info [] v = simp append-nil
read_table pid info (r ∷ rows) v =
    rw
      (
        lines-line (printed r) (table rows) (printed-OneLine r v.0),
        read_printed pid info r v.0,
        read_table pid (filled pid info (r ∷ [])) rows v.1,
      )
      (simp append_assoc)

-- A file that holds a table of peers, a line to a peer with its number, host, port and flag, is
-- read back, where the numbers are below 2 ^ 31 and the hosts are words: the vectors hold the
-- columns in order, and the result is the port of the last line of the peer asked for, or 0.
pub read_peer_info-table :
    (texts : List ℕ → Option (List ℕ)) (fname : List ℕ) (pid : ℕ) (rows : List Row)
    → AllRows rows
    → texts fname ≡ some (table rows)
    → read_peer_info texts fname pid
      ≡ ok (record {
        ret = port_of pid 0 rows;
        peers = record {
          ids = map (λ r. r.id) rows;
          hosts = map (λ r. r.host) rows;
          ports = map (λ r. decimal r.port) rows;
          hasfile = map (λ r. r.hasfile) rows;
        };
      })
unfolding read_peer_info
read_peer_info-table texts fname pid rows v there =
    rw (read_peer_info, there, read_table pid no_peers rows v) refl
