-- ===== src/Node.antt =====
-- node/node.cpp and include/node/node.h: a node, which listens, connects to the peers that stand
-- before it in the list, and accepts connections from those behind it. A descriptor is a value of
-- `S`, and a thread is what `cli_handler` is started with.
mod Examples
pub mod Pieces
pub mod Mesh
pub mod EarlyThreads
pub mod Waiting
pub mod Threads
use btrx.Prelude.{
  ℕ, zero, suc, ◌+◌, ◌-◌, ◌/◌, ◌%◌, ◌^◌, Bool, true, false, ◌&&◌, Option, none, some, List, [], ◌∷◌,
  ◌++◌, Outcome, ok, exits, throws, undefined, ◌>>=◌, defined, ◌==◌, if◌then◌else◌, get_elem?,
  length,
}
use btrx.Rwlock.{Rwlocks}
use btrx.Mutex.{Mutexes}
use btrx.Files.{Files}
use btrx.Net.{Net}
use btrx.ObjStore
use btrx.ObjStore.{ObjStore, create_objstore, bfield_init}
use btrx.NbrMap.{Handler, NbrMap, create_nbrmap}
use btrx.NbrMap.Timers

-- `RECVTIMEOUT` of include/defs.h.
abbrev pub recvtimeout : ℕ
recvtimeout = 500000

-- `thread(cli_handler, sock, this->peerid, peerid_peer, this->ostore, this->nbrmap)`.
pub record Started (S : Type 0) : Type 0 where
  pub sock : S
  pub peerid_self : ℕ
  pub peerid_peer : ℕ

pub record Node (S L F M : Type 0) : Type 0 where
  pub threads : List (Started S)
  pub ostore : ObjStore L F
  pub nbrmap : NbrMap L M
  pub peerid : ℕ

-- The peers as the configuration lists them.
pub record Peers : Type 0 where
  pub ids : List ℕ
  pub hosts : List (List ℕ)
  pub ports : List (List ℕ)
  pub hasfile : List Bool

-- `(fsz % pcsz) ? ((fsz/pcsz) + 1) : (fsz/pcsz)`.
unfoldable pub num_pieces : ℕ → ℕ → Outcome ℕ
num_pieces fsz pcsz =
    if pcsz == 0 then undefined else ok (if fsz % pcsz == 0 then fsz / pcsz else fsz / pcsz + 1)

module _ {W S A : Type 0} (net : Net W S A) where
  -- `none` is -1.
  unfoldable pub sock_create : W → List ℕ → ℕ → W × Option S
  sock_create w addr port =
      let (w1, sock) = net.socket w in
      elim sock [
        | none ↦ (w1, none)
        | some s ↦
            let (w2, bound) = net.bind w1 s addr port in
            let (w3, listening) = net.listen w2 s 5 in
            if bound
            then (if listening then (w3, some s) else (net.close w3 s, none))
            else (net.close w2 s, none)
      ]

  module _ {L F M : Type 0} where
    unfoldable pub make_thread : W → Node S L F M → S → ℕ → Outcome (W × Node S L F M)
    make_thread w n sock peerid_peer = do
      let (w', set) = net.set_rcvtimeo w sock recvtimeout
      let thr : Started S = record {
        sock = sock;
        peerid_self = n.peerid;
        peerid_peer = peerid_peer;
      }
      if set then ok (w', record n { threads = n.threads ++ thr ∷ [] }) else exits 1

    -- The loop over the addresses of a peer.
    unfoldable pub connect_any : W → Node S L F M → ℕ → List A → Outcome (W × Node S L F M)
    connect_any w n peer [] = ok (w, n)
    connect_any w n peer (curr ∷ res) = do
      let (w1, sock) = net.socket_for w curr
      s ← elim sock [ none ↦ exits 1 | some s ↦ ok s ]
      let (w2, connected) = net.connect w1 s curr
      elim connected [
        | true ↦ make_thread w2 n s peer
        | false ↦ connect_any (net.close w2 s) n peer res
      ]

    -- The body of the loop of `connback` for another peer, the i-th.
    unfoldable pub connect_peer : W → Node S L F M → Peers → ℕ → ℕ → Outcome (W × Node S L F M)
    unfolding connect_any make_thread
    connect_peer w n peers peer i = do
      host ← defined (get_elem? peers.hosts i)
      port ← defined (get_elem? peers.ports i)
      let (w', res) = net.getaddrinfo w host port
      addrs ← elim res [ none ↦ exits 1 | some addrs ↦ ok addrs ]
      connect_any w' n peer addrs

    module _ (pt : Rwlocks L) (fs : Files F) (system : List ℕ → Files F → Files F) (junk : L) where
      -- The loop of `connback` over the peers from the i-th on; it ends with `i`.
      unfoldable pub connback_loop :
          W → Node S L F M → Peers → List ℕ → ℕ → Outcome (W × Node S L F M × ℕ)
      connback_loop w n peers [] i = ok (w, n, i)
      connback_loop w n peers (peer ∷ ids) i = elim (n.peerid == peer) [
        | true ↦ do
          hasfile ← defined (get_elem? peers.hasfile i)
          ostore ← bfield_init pt fs system junk n.ostore hasfile
          ok (w, record n { ostore = ostore }, i)
        | false ↦ do (w', n') ← connect_peer w n peers peer i; connback_loop w' n' peers ids (i + 1)
      ]

      unfoldable pub connback : W → Node S L F M → Peers → Outcome (W × Node S L F M × ℕ)
      unfolding connback_loop
      connback w n peers = do
        (w', n', i) ← connback_loop w n peers peers.ids 0
        ok (w', n', (i + 1) % 2 ^ 32)

    -- The loop of `acceptloop`, with the rounds left.
    unfoldable pub accept_rounds : ℕ → W → Node S L F M → S → Outcome (W × Node S L F M)
    unfolding make_thread
    accept_rounds zero w n listen_sock = ok (w, n)
    accept_rounds (suc rounds) w n listen_sock = do
      let (w1, clisock) = net.accept w listen_sock
      s ← elim clisock [ none ↦ exits 1 | some s ↦ ok s ]
      (w2, n') ← make_thread w1 n s 0
      accept_rounds rounds w2 n' listen_sock

    unfoldable pub acceptloop : W → Node S L F M → S → ℕ → ℕ → Outcome (W × Node S L F M)
    unfolding accept_rounds
    acceptloop w n listen_sock clients size = do
      (w', n') ← accept_rounds (size - clients) w n listen_sock
      ok (net.close w' listen_sock, n')

  module _ {L F M : Type 0} (pt : Rwlocks L) (mx : Mutexes M) (fs : Files F)
      (system : List ℕ → Files F → Files F) (junk : L) (junk_fd : F) where
    -- The constructor; the three numbers of the map are globals of entrypoint.cpp.
    unfoldable pub create_node :
        W
        → (n_pref_peers uchoke_ival opuchoke_ival : ℕ)
        → (peerid : ℕ) (addr : List ℕ) (port : ℕ) (sh_fname : List ℕ) → Peers
        → List ℕ
        → Outcome (W × Node S L F M)
    unfolding sock_create num_pieces connback acceptloop
    create_node w n_pref_peers uchoke_ival opuchoke_ival peerid addr port sh_fname peers vals = do
      let (w1, sock) = sock_create w addr port
      listen_sock ← elim sock [ none ↦ exits 1 | some s ↦ ok s ]
      fsz ← defined (get_elem? vals 3)
      pcsz ← defined (get_elem? vals 4)
      npcs ← num_pieces fsz pcsz
      ostore ← create_objstore pt fs junk_fd fsz pcsz npcs sh_fname
      nbrmap ←
          create_nbrmap pt mx junk (length peers.ids) npcs opuchoke_ival uchoke_ival n_pref_peers
      (w2, n, conns) ←
          connback pt fs system junk w1
            (record { threads = []; ostore = ostore; nbrmap = nbrmap; peerid = peerid }) peers
      acceptloop w2 n listen_sock conns (length peers.ids)

-- Whether every `join` of the destructor returns: `ends` tells which threads end.
pub join_threads : {S : Type 0} → (Started S → Bool) → List (Started S) → Bool
join_threads ends [] = true
join_threads ends (thr ∷ threads) = ends thr && join_threads ends threads

-- The destructor; `none` where it waits for ever.
unfoldable pub destroy :
    {S L F M : Type 0}
    → Rwlocks L
    → Mutexes M
    → Files F
    → (Started S → Bool)
    → (Handler → Bool)
    → Node S L F M
    → Option (Outcome (Node S L F M))
unfolding join_threads
destroy pt mx fs ends handler_ends n =
    if join_threads ends n.threads
    then (elim (ObjStore.destroy pt fs n.ostore) [
      | ok ostore ↦ elim (Timers.destroy pt mx handler_ends n.nbrmap) [
        | none ↦ none
        | some r ↦ some (do nbrmap ← r; ok (record n { ostore = ostore; nbrmap = nbrmap }))
      ]
      | exits k ↦ some (exits k)
      | throws ↦ some throws
      | undefined ↦ some undefined
    ])
    else none
