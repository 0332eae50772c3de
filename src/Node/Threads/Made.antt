-- ===== src/Node/Threads/Made.antt =====
-- What the constructor of node/node.cpp itself does to the store and the map, beside the threads that it
-- starts.
use btrx.Prelude.{
  Outcome, ℕ, zero, suc, ◌+◌, ◌-◌, ◌≡◌, ap, ◌∙◌, sym, subst, none, some, List, [], ◌∷◌, ok, exits,
  length, get_elem?, defined, ok_of_bind, ok_injective, Bool-cases, inl, inr, stays, chain_trans,
  ◌==◌, defined-some,
}
use mathlib.Core.Path.{ap₂}
use btrx.Rwlock.{Rwlocks}
use btrx.Mutex.{Mutexes}
use btrx.Files.{Files}
use btrx.Net.{Net}
use btrx.ObjStore.{ObjStore, create_objstore, bfield_init}
use btrx.ObjStore.Steps.{bfield_init-Leads}
use btrx.NbrMap.{NbrMap, create_nbrmap}
use btrx.Handler.Loop.Shared.{Shared, share, Calls, store_calls}
use btrx.Node.{
  Node, Peers, num_pieces, sock_create, make_thread, connect_peer, connback_loop, connback,
  accept_rounds, acceptloop, create_node,
}
use btrx.Node.EarlyThreads.{Kept, create_objstore-bfield, make_thread-Kept, connect_peer-Kept}

module _ {W S A L F M : Type 0} (net : Net W S A) (pt : Rwlocks L) (mx : Mutexes M) where
  -- From what a node's threads share to what another's share.
  abbrev pub Leaves : Node S L F M → Node S L F M → Type 0
  Leaves n n' = Calls pt mx (share n.ostore n.nbrmap) (share n'.ostore n'.nbrmap)

  Kept-Leaves : (n n' : Node S L F M) → Kept n n' → Leaves n n'
  Kept-Leaves n n' (store, map) =
      subst (λ (s : Shared L F M). Calls pt mx (share n.ostore n.nbrmap) s)
        (ap₂ (λ o m. share o m) (sym store) (sym map)) stays

  accept_rounds-Leaves :
      (rounds : ℕ) (w : W) (n : Node S L F M) (listen_sock : S) {r : W × Node S L F M}
      → accept_rounds net rounds w n listen_sock ≡ ok r
      → Leaves n r.1
  unfolding accept_rounds
  accept_rounds-Leaves zero w n listen_sock e =
      subst (λ (r : W × Node S L F M). Leaves n r.1) (ok_injective e) stays
  accept_rounds-Leaves (suc rounds) w n listen_sock {r} e =
      let (w1, clisock) = net.accept w listen_sock in
      let accepted : Outcome S = elim clisock [ none ↦ exits 1 | some s ↦ ok s ] in
      let (s, _, rest) = ok_of_bind accepted _ e in
      let ((w2, n1), started, rest1) = ok_of_bind (make_thread net w1 n s 0) _ rest in
      chain_trans (Kept-Leaves n n1 (make_thread-Kept net w1 w2 n n1 s 0 started))
        (accept_rounds-Leaves rounds w2 n1 listen_sock {r = r} rest1)

  module _ (fs : Files F) (system : List ℕ → Files F → Files F) (junk : L) where
    -- While the field is the null pointer, as long as the loop has not come to the node itself.
    connback_loop-Leaves :
        (ids : List ℕ) (w : W) (n : Node S L F M) (peers : Peers) (i : ℕ) {r : W × Node S L F M × ℕ}
        → n.ostore.bfield ≡ none
        → connback_loop net pt fs system junk w n peers ids i ≡ ok r
        → Leaves n r.1
    unfolding connback_loop
    connback_loop-Leaves [] w n peers i null e =
        subst (λ (r : W × Node S L F M × ℕ). Leaves n r.1) (ok_injective e) stays
    connback_loop-Leaves (peer ∷ ids) w n peers i {r} null e =
        elim (Bool-cases (n.peerid == peer)) [
          | inl itself ↦
              let e' = rw (connback_loop, itself) at e in
              let (hasfile, _, rest) = ok_of_bind (defined (get_elem? peers.hasfile i)) _ e' in
              let (ostore, set_up, rest1) =
                ok_of_bind (bfield_init pt fs system junk n.ostore hasfile) _ rest in
              subst (λ (r : W × Node S L F M × ℕ). Leaves n r.1) (ok_injective rest1)
                (store_calls pt mx n.nbrmap
                  (bfield_init-Leads pt fs system junk n.ostore hasfile null set_up))
          | inr other ↦
              let e' = rw (connback_loop, other) at e in
              let ((w1, n1), connected, rest) =
                ok_of_bind (connect_peer net w n peers peer i) _ e' in
              let kept = connect_peer-Kept net w w1 n n1 peers peer i connected in
              chain_trans (Kept-Leaves n n1 kept) (
                connback_loop-Leaves ids w1 n1 peers (i + 1) {r = r}
                  (ap (λ (o : ObjStore L F). o.bfield) kept.0 ∙ null) rest)
        ]

module _ {W S A L F M : Type 0} (net : Net W S A) (pt : Rwlocks L) (mx : Mutexes M) (fs : Files F)
    (system : List ℕ → Files F → Files F) (junk : L) (junk_fd : F) where
  -- Whatever the network and the files do: where the constructor returns, it has made a store and a map
  -- for the number of pieces that the settings give, and what it has done to both since is a sequence of
  -- calls, in which the field is made at most once, while it is the null pointer.
  pub create_node-Calls :
      (w w' : W) (n_pref_peers uchoke_ival opuchoke_ival peerid : ℕ) (addr : List ℕ) (port : ℕ)
      (sh_fname : List ℕ) (peers : Peers) (vals : List ℕ) (n : Node S L F M)
      → create_node net pt mx fs system junk junk_fd w n_pref_peers uchoke_ival opuchoke_ival peerid
          addr port sh_fname peers vals
        ≡ ok (w', n)
      → (fsz : ℕ) × (pcsz : ℕ) × (npcs : ℕ) × (o : ObjStore L F) × (m : NbrMap L M) × (get_elem?
            vals 3
          ≡ some fsz)
        × (get_elem? vals 4 ≡ some pcsz)
        × (num_pieces fsz pcsz ≡ ok npcs)
        × (create_objstore pt fs junk_fd fsz pcsz npcs sh_fname ≡ ok o)
        × (create_nbrmap pt mx junk (length peers.ids) npcs opuchoke_ival uchoke_ival n_pref_peers
            ≡ ok m)
        × Calls pt mx (share o m) (share n.ostore n.nbrmap)
  unfolding create_node connback acceptloop
  create_node-Calls w w' n_pref_peers uchoke_ival opuchoke_ival peerid addr port sh_fname peers vals
        n e =
      let (w1, sock) = sock_create net w addr port in
      let listening : Outcome S = elim sock [ none ↦ exits 1 | some s ↦ ok s ] in
      let (listen_sock, _, rest) = ok_of_bind listening _ e in
      let (fsz, third, rest1) = ok_of_bind (defined (get_elem? vals 3)) _ rest in
      let (pcsz, fourth, rest2) = ok_of_bind (defined (get_elem? vals 4)) _ rest1 in
      let (npcs, counted, rest3) = ok_of_bind (num_pieces fsz pcsz) _ rest2 in
      let (o, stored, rest4) =
        ok_of_bind (create_objstore pt fs junk_fd fsz pcsz npcs sh_fname) _ rest3 in
      let (m, mapped, rest5) =
        ok_of_bind
          (create_nbrmap pt mx junk (length peers.ids) npcs opuchoke_ival uchoke_ival n_pref_peers)
          _ rest4 in
      let n0 : Node S L F M = record { threads = []; ostore = o; nbrmap = m; peerid = peerid } in
      let ((w2, n1, conns), connected, rest6) =
        ok_of_bind (connback net pt fs system junk w1 n0 peers) _ rest5 in
      let ((w3, n2, i), looped, rest7) =
        ok_of_bind (connback_loop net pt fs system junk w1 n0 peers peers.ids 0) _ connected in
      let ((w4, n3), accepted, rest8) =
        ok_of_bind (accept_rounds net (length peers.ids - conns) w2 n1 listen_sock) _ rest6 in
      let first =
        connback_loop-Leaves net pt mx fs system junk peers.ids w1 n0 peers 0 {r = (w3, n2, i)}
          (create_objstore-bfield pt fs junk_fd fsz pcsz npcs sh_fname stored) looped in
      let same : n2 ≡ n1 = ap (λ (r : W × Node S L F M × ℕ). r.1) (ok_injective rest7) in
      let second =
        accept_rounds-Leaves net pt mx (length peers.ids - conns) w2 n1 listen_sock {r = (w4, n3)}
          accepted in
      let same' : n3 ≡ n = ap (λ (r : W × Node S L F M). r.1) (ok_injective rest8) in
      let both =
        chain_trans (subst (λ (t : Node S L F M). Leaves net pt mx n0 t) same first) second in
      (
        fsz,
        pcsz,
        npcs,
        o,
        m,
        defined-some (get_elem? vals 3) third,
        defined-some (get_elem? vals 4) fourth,
        counted,
        stored,
        mapped,
        subst (λ (t : Node S L F M). Leaves net pt mx n0 t) same' both,
      )
