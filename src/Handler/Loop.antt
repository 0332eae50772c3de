-- ===== src/Handler/Loop.antt =====
-- `cli_handler` of handler/handler.cpp: what a connection does with a message, with a timeout, and
-- until its peer goes.
mod Examples
pub mod Choking
pub mod Flags
pub mod Timeouts
pub mod Framing
pub mod Greeting
pub mod Session
pub mod Shared
pub mod Claiming
pub mod Transfer
use btrx.Prelude.{
  ℕ, zero, suc, ◌+◌, ◌%◌, ◌^◌, Bool, true, false, not, ◌&&◌, ◌||◌, Option, none, some, List, [],
  Outcome, ok, exits, throws, undefined, ◌>>=◌, defined, or_throw, ◌==◌, if◌then◌else◌, get_elem?,
  set,
}
use btrx.Rwlock.{Rwlocks}
use btrx.Mutex.{Mutexes}
use btrx.Files.{Files}
use btrx.Sockets.{Sockets}
use btrx.Json.{Json}
use btrx.ObjStore.{ObjStore}
use btrx.NbrMap.{Nbr, NbrMap, register_cli, earmark}
use btrx.Pkts.{
  PktMsg, from_json, handshake, choke, un_choke, interested, not_interested, have, bit_field,
  request, piece,
}
use btrx.Handler.{
  diff_to_reqs, rcv_sz, rcv, send_handshake, send_interested, send_not_interested, send_requests,
  choke_status_check, handle_have, send_bfield, send_piece, send_haves, handle_piece,
}

-- The locals of a connection's thread, and what it shares: `ost` and `nmap`. `client` is as in the
-- source: true where the peer connected to this node.
pub record Conn (S L F M : Type 0) : Type 0 where
  pub sock : S
  pub client : Bool
  pub ntimeouts : ℕ
  pub choked_node : Bool
  pub choked_peer : Bool
  -- `none` is the null pointer.
  pub nbr : Option ℕ
  pub diff : List ℕ
  pub bfield_peer : List ℕ
  pub reqs : List (ℕ × Bool)
  pub ost : ObjStore L F
  pub nmap : NbrMap L M

module _ {S L F M : Type 0} where
  -- `*nbr`.
  pub deref_nbr : Conn S L F M → Outcome (ℕ × Nbr)
  deref_nbr c = do p ← defined c.nbr; nbr ← defined (get_elem? c.nmap.heap p); ok (p, nbr)

  -- A write through `nbr`.
  pub set_nbr : Conn S L F M → ℕ → Nbr → Conn S L F M
  set_nbr c p nbr = record c { nmap = record c.nmap { heap = set c.nmap.heap p nbr } }

  pub on_interested : Bool → Conn S L F M → Outcome (Conn S L F M)
  on_interested b c = do (p, nbr) ← deref_nbr c; ok (set_nbr c p (record nbr { interested = b }))

module _ {S J L F M : Type 0} (so : Sockets S) (jl : Json J) (pt : Rwlocks L) (fs : Files F)
    (mx : Mutexes M) (junk : ℕ → List ℕ) (peerid_self : ℕ) where
  pub on_handshake : PktMsg → Conn S L F M → Outcome (Conn S L F M)
  on_handshake pkt c = do
    sock ← if c.client then send_handshake so jl c.sock peerid_self else ok c.sock
    (nmap, nbr) ← register_cli mx c.nmap pkt.hshake.peerid
    ok (record c { sock = sock; nmap = nmap; nbr = some nbr })

  pub on_un_choke : Conn S L F M → Outcome (Conn S L F M)
  on_un_choke c = do
    sock ← send_requests so jl c.sock c.reqs
    ok (record c { choked_node = false; sock = sock })

  pub on_have : PktMsg → Conn S L F M → Outcome (Conn S L F M)
  on_have pkt c = do sock ← handle_have so jl c.sock pkt c.reqs; ok (record c { sock = sock })

  -- The branches on the result of `earmark`.
  unfoldable pub on_earmarked : Bool → Conn S L F M → Outcome (Conn S L F M)
  on_earmarked true c = do
    sock ← send_interested so jl c.sock
    let reqs = diff_to_reqs 0 c.reqs c.diff
    sock' ← if not c.client && not c.choked_node then send_requests so jl sock reqs else ok sock
    ok (record c { sock = sock'; reqs = reqs })
  on_earmarked false c = do sock ← send_not_interested so jl c.sock; ok (record c { sock = sock })

  unfoldable pub on_bit_field : PktMsg → Conn S L F M → Outcome (Conn S L F M)
  on_bit_field pkt c = do
    let bfield_peer = pkt.bfield.bfield
    (sock, ost) ← if c.client then send_bfield so jl pt fs c.sock c.ost else ok (c.sock, c.ost)
    node ← defined ost.bfield
    (nmap, node', diff, ret) ← earmark pt c.nmap node bfield_peer c.diff
    on_earmarked ret (record c {
      sock = sock;
      ost = record ost { bfield = some node' };
      nmap = nmap;
      diff = diff;
      bfield_peer = bfield_peer;
    })

  pub on_request : PktMsg → Conn S L F M → Outcome (Conn S L F M)
  on_request pkt c = do
    (p, nbr) ← deref_nbr c
    let c' = set_nbr c p (record nbr { requests = (nbr.requests + 1) % 2 ^ 32 })
    (sock, ost) ←
        if c'.choked_peer
        then ok (c'.sock, c'.ost)
        else send_piece so jl pt fs c'.sock pkt.req.pcno c'.ost (junk c'.ost.pcsz)
            (junk c'.ost.pcsz)
    sock' ← if c'.choked_node then ok sock else send_requests so jl sock c'.reqs
    ok (record c' { sock = sock'; ost = ost })

  pub on_piece : PktMsg → Conn S L F M → Outcome (Conn S L F M)
  on_piece pkt c = do
    (ost, reqs) ← handle_piece pt fs pkt c.ost c.reqs (junk c.ost.pcsz) (junk c.ost.pcsz)
    ok (record c { ost = ost; reqs = reqs })

  -- The `switch` on the type.
  unfoldable pub dispatch : PktMsg → Conn S L F M → Outcome (Conn S L F M)
  dispatch pkt c =
      if pkt.type == handshake
      then on_handshake pkt c
      else (if pkt.type == choke
          then ok (record c { choked_node = true })
          else (if pkt.type == un_choke
              then on_un_choke c
              else (if pkt.type == interested
                  then on_interested true c
                  else (if pkt.type == not_interested
                      then on_interested false c
                      else (if pkt.type == have
                          then on_have pkt c
                          else (if pkt.type == bit_field
                              then on_bit_field pkt c
                              else (if pkt.type == request
                                  then on_request pkt c
                                  else (if pkt.type == piece
                                      then on_piece pkt c
                                      else exits 1))))))))

  -- A message of `sz` bytes; `pkt0` is what `get` reads into.
  pub on_message : PktMsg → ℕ → Conn S L F M → Outcome (Conn S L F M)
  on_message pkt0 sz c = do
    (sock, bson) ← rcv so c.sock (junk sz)
    j ← or_throw (jl.from_bson bson)
    pkt ← from_json jl j pkt0
    nbr ← elim c.nbr [
      | none ↦ ok none
      | some p ↦ do nbr ← defined (get_elem? c.nmap.heap p); ok (some nbr)
    ]
    sock' ← choke_status_check so jl sock nbr c.choked_peer
    dispatch pkt (record c { sock = sock' })

  -- A timeout, and whether the loop goes on.
  pub on_timeout : Conn S L F M → Outcome (Bool × Conn S L F M)
  on_timeout c = do
    sock ← send_requests so jl c.sock c.reqs
    let ntimeouts = (c.ntimeouts + 1) % 2 ^ 32
    let c' = record c { sock = sock; ntimeouts = ntimeouts }
    (sock', ost) ←
        if ntimeouts % 2 == 0
        then send_haves so jl pt fs 0 sock c.ost c.bfield_peer
        else ok (sock, c.ost)
    ok (ntimeouts % 2 == 0 || not (ntimeouts == 5), record c' { sock = sock'; ost = ost })

  -- One round of the loop, and whether it goes on.
  pub turn : PktMsg → Conn S L F M → Outcome (Bool × Conn S L F M)
  turn pkt0 c = do
    (sock, got) ← rcv_sz so c.sock
    let c' = record c { sock = sock }
    elim got [
      | none ↦ ok (false, c')
      | some sz ↦
          if sz == 0 then on_timeout c' else (do c'' ← on_message pkt0 sz c'; ok (true, c''))
    ]

  -- The lines behind the loop.
  pub leave : Conn S L F M → Outcome (Conn S L F M)
  leave c = do
    (p, nbr) ← deref_nbr c
    let c' = set_nbr c p (record nbr { done = true })
    ok (record c' { sock = so.close c'.sock })

  -- The loop and what follows it; `none` means that the loop has not ended after so many rounds.
  pub serve : ℕ → PktMsg → Conn S L F M → Option (Outcome (Conn S L F M))
  serve zero pkt0 c = none
  serve (suc rounds) pkt0 c = elim (turn pkt0 c) [
    | ok (go_on, c') ↦ elim go_on [ true ↦ serve rounds pkt0 c' | false ↦ some (leave c') ]
    | exits n ↦ some (exits n)
    | throws ↦ some throws
    | undefined ↦ some undefined
  ]

  -- The whole of `cli_handler`.
  unfoldable pub cli_handler :
      ℕ → PktMsg → S → ℕ → ObjStore L F → NbrMap L M → Option (Outcome (Conn S L F M))
  cli_handler rounds pkt0 sock peerid_peer ost nmap =
      let opening = (do s ← send_handshake so jl sock peerid_self; send_bfield so jl pt fs s ost) in
      elim (if peerid_peer == 0 then ok (sock, ost) else opening) [
        | ok (sock', ost') ↦ serve rounds pkt0 (record {
          sock = sock';
          client = peerid_peer == 0;
          ntimeouts = 0;
          choked_node = false;
          choked_peer = false;
          nbr = none;
          diff = [];
          bfield_peer = [];
          reqs = [];
          ost = ost';
          nmap = nmap;
        })
        | exits n ↦ some (exits n)
        | throws ↦ some throws
        | undefined ↦ some undefined
      ]
