-- ===== src/Node/Mesh.antt =====
-- Which connections a node of node/node.cpp sets up when no call of the operating system fails.
use btrx.Prelude.{
  ℕ, zero, suc, ◌+◌, ◌-◌, ◌%◌, ◌^◌, ◌<◌, ◌≡◌, ◌≢◌, refl, sym, subst, ap, Bool, true, false, some,
  List, [], ◌∷◌, ◌++◌, Outcome, ok, ◌>>=◌, ◌==◌, get_elem?, length, replicate, arith, ==_self,
  length-append,
}
use mathlib.Core.List.{append-nil, append_assoc}
use btrx.Rwlock.{Rwlocks}
use btrx.Files.{Files}
use btrx.Net.{Net}
use btrx.ObjStore.{ObjStore, bfield_init}
use btrx.Node.{
  recvtimeout, Started, Node, Peers, make_thread, connect_any, connect_peer, connback_loop,
  connback, accept_rounds, acceptloop,
}

-- Calls that succeed, and a host that has an address.
pub record IsReliable {W S A : Type 0} (net : Net W S A) : Type 0 where
  pub socket_ok : (w : W) (a : A) → (s : S) × ((net.socket_for w a).1 ≡ some s)
  pub found :
      (w : W) (host port : List ℕ)
      → (a : A) × (res : List A) × ((net.getaddrinfo w host port).1 ≡ some (a ∷ res))
  pub connected : (w : W) (s : S) (a : A) → (net.connect w s a).1 ≡ true
  pub accepted : (w : W) (s : S) → (s' : S) × ((net.accept w s).1 ≡ some s')
  pub timed : (w : W) (s : S) → (net.set_rcvtimeo w s recvtimeout).1 ≡ true

-- The peers of the threads; 0 where the peer has yet to say who it is.
abbrev pub known : {S : Type 0} → List (Started S) → List ℕ
known [] = []
known (thr ∷ threads) = thr.peerid_peer ∷ known threads

-- Every identifier stands with a host and a port, from the i-th on.
abbrev pub HasHosts : Peers → List ℕ → ℕ → Type 0
HasHosts peers [] i = Unit {0}
HasHosts peers (peer ∷ ids) i =
    ((host : List ℕ) × (get_elem? peers.hosts i ≡ some host))
    × ((port : List ℕ) × (get_elem? peers.ports i ≡ some port))
    × HasHosts peers ids (i + 1)

abbrev pub Absent : ℕ → List ℕ → Type 0
Absent peerid [] = Unit {0}
Absent peerid (peer ∷ ids) = (peerid ≢ peer) × Absent peerid ids

known-append : {S : Type 0} (xs ys : List (Started S)) → known (xs ++ ys) ≡ known xs ++ known ys
known-append [] ys = refl
known-append (x ∷ xs) ys = ap (λ ks. x.peerid_peer ∷ ks) (known-append xs ys)

module _ {W S A : Type 0} (net : Net W S A) (calls : IsReliable net) {L F M : Type 0} where
  -- One more thread, for this peer.
  abbrev OneMore : Node S L F M → ℕ → Outcome (W × Node S L F M) → Type 0
  OneMore n peer r =
      (w' : W) × (sock : S) × (r
        ≡ ok (
          w',
          record n {
            threads =
                n.threads
                ++ (record { sock = sock; peerid_self = n.peerid; peerid_peer = peer }) ∷ [];
          },
        ))

  make_thread_one :
      (w : W) (n : Node S L F M) (sock : S) (peer : ℕ)
      → OneMore n peer (make_thread net w n sock peer)
  unfolding make_thread
  make_thread_one w n sock peer =
      ((net.set_rcvtimeo w sock recvtimeout).0, sock, rw (calls.timed w sock) refl)

  connect_peer_one :
      (w : W) (n : Node S L F M) (peers : Peers) (peer i : ℕ) (ids : List ℕ)
      → HasHosts peers (peer ∷ ids) i
      → OneMore n peer (connect_peer net w n peers peer i)
  unfolding connect_peer connect_any
  connect_peer_one w n peers peer i ids ((host, at_host), (port, at_port), rest) =
      let (a, res, found) = calls.found w host port in
      let w1 = (net.getaddrinfo w host port).0 in
      let (s, opened) = calls.socket_ok w1 a in
      let w2 = (net.socket_for w1 a).0 in
      let (w3, sock, made) = make_thread_one (net.connect w2 s a).0 n s peer in
      (w3, sock, rw (at_host, at_port, found, opened, calls.connected w2 s a) made)

  accept_rounds-known :
      (rounds : ℕ) (w : W) (n : Node S L F M) (listen_sock : S)
      → (w' : W) × (threads : List (Started S)) × (accept_rounds net rounds w n listen_sock
          ≡ ok (w', record n { threads = threads }))
        × (known threads ≡ known n.threads ++ replicate rounds 0)
  unfolding accept_rounds
  accept_rounds-known zero w n listen_sock = (w, n.threads, refl, simp append-nil)
  accept_rounds-known (suc rounds) w n listen_sock =
      let (s, accepted) = calls.accepted w listen_sock in
      let (w2, sock, made) = make_thread_one (net.accept w listen_sock).0 n s 0 in
      let thr : Started S = record { sock = sock; peerid_self = n.peerid; peerid_peer = 0 } in
      let (w3, threads, done, now) =
        accept_rounds-known rounds w2 (record n { threads = n.threads ++ thr ∷ [] }) listen_sock in
      (w3, threads, rw (accepted, made) done, rw (now, known-append) (simp append_assoc))

  module _ (pt : Rwlocks L) (fs : Files F) (system : List ℕ → Files F → Files F) (junk : L) where
    connback_loop-known :
        (before after : List ℕ) (i k : ℕ) (w : W) (n : Node S L F M) (peers : Peers) (has : Bool)
        (ostore : ObjStore L F)
        → HasHosts peers before i
        → Absent n.peerid before
        → i + length before ≡ k
        → get_elem? peers.hasfile k ≡ some has
        → bfield_init pt fs system junk n.ostore has ≡ ok ostore
        → (w' : W) × (threads : List (Started S)) × (connback_loop net pt fs system junk w n peers
              (before ++ n.peerid ∷ after)
              i
            ≡ ok (w', record n { threads = threads; ostore = ostore }, k))
          × (known threads ≡ known n.threads ++ before)
    unfolding connback_loop
    connback_loop-known [] after i k w n peers has ostore hosts absent at at_has init =
        let here : i ≡ k = omega arith in
        (
          w,
          n.threads,
          rw (connback_loop, ==_self n.peerid, here, at_has, init) refl,
          simp append-nil,
        )
    connback_loop-known (peer ∷ before) after i k w n peers has ostore hosts absent at at_has init =
        let (w1, sock, made) = connect_peer_one w n peers peer i before hosts in
        let thr : Started S = record { sock = sock; peerid_self = n.peerid; peerid_peer = peer } in
        let other : n.peerid == peer ≡ false = ground (arith, absent.0) in
        let (w2, threads, done, now) =
          connback_loop-known before after (i + 1) k w1
            (record n { threads = n.threads ++ thr ∷ [] }) peers has ostore hosts.2 absent.1
            (omega arith) at_has init in
        (
          w2,
          threads,
          rw (connback_loop, other, made) done,
          rw (now, known-append) (simp append_assoc),
        )

    -- Where no call of the network fails, the node's identifier is in a list of fewer than 2 ^ 32
    -- peers, each peer before its first occurrence has a host and a port, and the field can be set
    -- up, a node connects once to each peer that stands before it, in order, and then accepts one
    -- connection for each that stands behind it: a thread for every other node. Its store is the
    -- one with the field set up.
    pub mesh :
        (before after : List ℕ) (w : W) (n : Node S L F M) (listen_sock : S) (peers : Peers)
        (has : Bool) (ostore : ObjStore L F)
        → peers.ids ≡ before ++ n.peerid ∷ after
        → length peers.ids < 2 ^ 32
        → HasHosts peers before 0
        → Absent n.peerid before
        → get_elem? peers.hasfile (length before) ≡ some has
        → bfield_init pt fs system junk n.ostore has ≡ ok ostore
        → (w' : W) × (threads : List (Started S)) × ((do
          (w1, n1, conns) ← connback net pt fs system junk w n peers
          acceptloop net w1 n1 listen_sock conns (length peers.ids))
            ≡ ok (w', record n { threads = threads; ostore = ostore }))
          × (known threads ≡ known n.threads ++ before ++ replicate (length after) 0)
    unfolding connback acceptloop
    mesh before after w n listen_sock peers has ostore ids small hosts absent at_has init =
        let (w1, threads, called, now) =
          connback_loop-known before after 0 (length before) w n peers has ostore hosts absent
            (omega arith) at_has init in
        let (w2, threads', accepted, now') =
          accept_rounds-known (length after) w1 (record n { threads = threads; ostore = ostore })
            listen_sock in
        let size : length peers.ids ≡ length before + suc (length after) =
          rw ids (length-append before (n.peerid ∷ after)) in
        let next : (length before + 1) % 2 ^ 32 ≡ length before + 1 = omega arith in
        let connected : connback net pt fs system junk w n peers
            ≡ ok (w1, record n { threads = threads; ostore = ostore }, length before + 1) =
          rw
            (
              connback,
              subst
                  (λ l.
                    connback_loop net pt fs system junk w n peers l 0
                    ≡ ok (w1, record n { threads = threads; ostore = ostore }, length before))
                  (sym ids) called,
              next,
            )
            refl in
        let left : length peers.ids - (length before + 1) ≡ length after = omega arith in
        (
          net.close w2 listen_sock,
          threads',
          rw (connected, acceptloop, left, accepted) refl,
          rw (now', now) (simp append_assoc),
        )
