-- ===== src/Node/Threads/Process.antt =====
-- The threads of a node (node/node.cpp, handler/handler.cpp) as a whole: connections that start, make
-- a round each in any order on what they share, and end, between the timers and the set-up of the field.
use btrx.Prelude.{
  ℕ, ◌≡◌, Bool, true, false, none, some, List, [], ◌∷◌, ◌++◌, ok, get_elem?, set, erase_idx, Chain,
  stays, next, one, chain_trans,
}
use btrx.Rwlock.{Rwlocks}
use btrx.Mutex.{Mutexes}
use btrx.Files.{Files}
use btrx.Sockets.{Sockets}
use btrx.Json.{Json}
use btrx.ObjStore.{ObjStore, bfield_init}
use btrx.ObjStore.Steps.{bfield_init-Leads}
use btrx.NbrMap.{NbrMap, select_unchoked, opt_unchoke}
use btrx.NbrMap.Steps.{selects, draws}
use btrx.Pkts.{PktMsg}
use btrx.Handler.{send_handshake, send_bfield}
use btrx.Handler.Stores.{send_bfield-Leads}
use btrx.Handler.Loop.{Conn, turn, leave}
use btrx.Handler.Loop.Shared.{Shared, share, shared, maps, Calls, store_calls}
use btrx.Handler.Loop.Shared.Rounds.{turn-Acts, leave-Acts}

-- The locals of the threads that run `cli_handler`, and what all threads share; what the locals of one
-- say of the shared is of its last round.
pub record Process (S L F M : Type 0) : Type 0 where
  pub conns : List (Conn S L F M)
  pub state : Shared L F M

module _ {S L F M : Type 0} where
  -- A thread sees what is shared as it is now.
  abbrev pub sees : Conn S L F M → Shared L F M → Conn S L F M
  sees c s = record c { ost = s.ost; nmap = s.nmap }

  -- The locals of `cli_handler` before its loop.
  abbrev pub opened : S → Bool → Shared L F M → Conn S L F M
  opened sock client s = record {
    sock = sock;
    client = client;
    ntimeouts = 0;
    choked_node = false;
    choked_peer = false;
    nbr = none;
    diff = [];
    bfield_peer = [];
    reqs = [];
    ost = s.ost;
    nmap = s.nmap;
  }

module _ {S J L F M : Type 0} (so : Sockets S) (jl : Json J) (pt : Rwlocks L) (mx : Mutexes M) where
  pub data Move : Process S L F M → Process S L F M → Type 0 where
    -- A thread starts for a peer that has connected to this node.
    accepts :
        (p : Process S L F M) (sock : S)
        → Move p (record p { conns = p.conns ++ opened sock true p.state ∷ [] })
    -- A thread starts for a peer that this node has connected to.
    dials :
        (p : Process S L F M) (fs : Files F) (peerid_self : ℕ) (sock sock' sock'' : S)
        (o : ObjStore L F)
        → send_handshake so jl sock peerid_self ≡ ok sock'
        → send_bfield so jl pt fs sock' p.state.ost ≡ ok (sock'', o)
        → Move p (record p {
          conns = p.conns ++ opened sock'' false (share o p.state.nmap) ∷ [];
          state = share o p.state.nmap;
        })
    -- A round after which the loop goes on.
    goes_on :
        (p : Process S L F M) (i : ℕ) (c c' : Conn S L F M) (fs : Files F) (junk : ℕ → List ℕ)
        (peerid_self : ℕ) (pkt0 : PktMsg)
        → get_elem? p.conns i ≡ some c
        → turn so jl pt fs mx junk peerid_self pkt0 (sees c p.state) ≡ ok (true, c')
        → Move p (record { conns = set p.conns i c'; state = shared c' })
    -- The last round, and what follows the loop.
    ends :
        (p : Process S L F M) (i : ℕ) (c c' c'' : Conn S L F M) (fs : Files F) (junk : ℕ → List ℕ)
        (peerid_self : ℕ) (pkt0 : PktMsg)
        → get_elem? p.conns i ≡ some c
        → turn so jl pt fs mx junk peerid_self pkt0 (sees c p.state) ≡ ok (false, c')
        → leave so jl pt fs mx junk peerid_self c' ≡ ok c''
        → Move p (record { conns = erase_idx p.conns i; state = shared c'' })
    -- The main thread comes to the node itself in the list of peers.
    sets_up :
        (p : Process S L F M) (fs : Files F) (system : List ℕ → Files F → Files F) (junk : L)
        (hasfile : Bool) (o : ObjStore L F)
        → p.state.ost.bfield ≡ none
        → bfield_init pt fs system junk p.state.ost hasfile ≡ ok o
        → Move p (record p { state = share o p.state.nmap })
    unchokes :
        (p : Process S L F M) (n_pref : ℕ) (m : NbrMap L M) (b : Bool)
        → select_unchoked n_pref p.state.nmap ≡ ok (m, b)
        → Move p (record p { state = share p.state.ost m })
    opt_unchokes :
        (p : Process S L F M) (rounds : ℕ) (draw : ℕ → ℕ) (m : NbrMap L M) (b : Bool)
        → opt_unchoke rounds draw p.state.nmap ≡ some (ok (m, b))
        → Move p (record p { state = share p.state.ost m })

  pub Move-Calls : {p p' : Process S L F M} → Move p p' → Calls pt mx p.state p'.state
  Move-Calls (accepts p sock) = stays
  Move-Calls (dials p fs peerid_self sock sock' sock'' o said sent) =
      store_calls pt mx p.state.nmap
        (send_bfield-Leads so jl pt fs sock' p.state.ost {r = (sock'', o)} sent)
  Move-Calls (goes_on p i c c' fs junk peerid_self pkt0 at e) =
      (turn-Acts so jl pt fs mx junk peerid_self pkt0 (sees c p.state) {r = (true, c')} e).calls
  Move-Calls (ends p i c c' c'' fs junk peerid_self pkt0 at e left) =
      chain_trans
        (turn-Acts so jl pt fs mx junk peerid_self pkt0 (sees c p.state) {r = (false, c')} e).calls
        (leave-Acts so jl pt fs mx junk peerid_self c' {c' = c''} left).calls
  Move-Calls (sets_up p fs system junk hasfile o null e) =
      store_calls pt mx p.state.nmap
        (bfield_init-Leads pt fs system junk p.state.ost hasfile null e)
  Move-Calls (unchokes p n_pref m b e) = one (maps p.state m (selects p.state.nmap m n_pref b e))
  Move-Calls (opt_unchokes p rounds draw m b e) =
      one (maps p.state m (draws p.state.nmap m rounds draw b e))

  -- Whatever the threads of a node do, round by round and in any order, what becomes of the store and the
  -- map that they share is a sequence of calls.
  pub moves-Calls : {p p' : Process S L F M} → Chain Move p p' → Calls pt mx p.state p'.state
  moves-Calls stays = stays
  moves-Calls (next r move) = chain_trans (moves-Calls r) (Move-Calls move)
