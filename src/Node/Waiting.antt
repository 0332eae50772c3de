-- ===== src/Node/Waiting.antt =====
-- What the constructor of node/node.cpp makes when no call of the operating system fails, and for how
-- many peers its map then waits.
use btrx.Prelude.{
  ℕ, suc, ◌+◌, ◌^◌, ◌<◌, ◌≡◌, refl, ◌∙◌, sym, ap, Bool, true, some, List, [], ◌∷◌, ◌++◌, ok,
  get_elem?, length, replicate, arith, ok_of_bind, ok_injective, length-append, length-replicate,
}
use btrx.Rwlock.{Rwlocks, checked}
use btrx.Mutex.{Mutexes}
use btrx.Files.{Files}
use btrx.Net.{Net}
use btrx.Bfield
use btrx.ObjStore.{ObjStore, create_objstore, bfield_init}
use btrx.NbrMap.{NbrMap, create_nbrmap}
use btrx.Node.{Started, Node, Peers, num_pieces, sock_create, create_node}
use btrx.Node.Mesh.{IsReliable, known, HasHosts, Absent, mesh}

length-known : {S : Type 0} (threads : List (Started S)) → length (known threads) ≡ length threads
length-known [] = refl
length-known (thr ∷ threads) = ap suc (length-known threads)

module _ {W S A L F M : Type 0} (net : Net W S A) (calls : IsReliable net) (pt : Rwlocks L)
    (mx : Mutexes M) (fs : Files F) (system : List ℕ → Files F → Files F) (junk : L) (junk_fd : F)
    (before after : List ℕ) (w : W) (n_pref_peers uchoke_ival opuchoke_ival peerid : ℕ)
    (addr : List ℕ) (port : ℕ) (sh_fname : List ℕ) (peers : Peers) (vals : List ℕ) where
  create_nbrmap-npeers :
      (npeers npcs : ℕ) {m : NbrMap L M}
      → create_nbrmap pt mx junk npeers npcs opuchoke_ival uchoke_ival n_pref_peers ≡ ok m
      → m.npeers ≡ npeers
  unfolding create_nbrmap
  create_nbrmap-npeers npeers npcs e =
      let (field, _, rest) = ok_of_bind (Bfield.zeroed_bfield pt junk true npcs) _ e in
      let (_, _, rest1) = ok_of_bind (Bfield.destroy pt field) _ rest in
      let (mut, _, rest2) = ok_of_bind (checked (mx.init mx.initializer)) _ rest1 in
      ap (λ m. m.npeers) (sym (ok_injective rest2))

  -- Where no call of the network fails, the listening socket, the store and the map are made, the
  -- node's identifier is in a list of fewer than 2 ^ 32 peers, each peer before its first
  -- occurrence has a host and a port, and the field can be set up, the constructor returns a node
  -- with one thread for every other node, to the earlier peers by their identifiers, and with a map
  -- that waits for one peer more than there are threads.
  pub create_node-npeers :
      (s : S) (fsz pcsz npcs : ℕ) (has : Bool) (o ostore : ObjStore L F) (m : NbrMap L M)
      → (sock_create net w addr port).1 ≡ some s
      → get_elem? vals 3 ≡ some fsz
      → get_elem? vals 4 ≡ some pcsz
      → num_pieces fsz pcsz ≡ ok npcs
      → create_objstore pt fs junk_fd fsz pcsz npcs sh_fname ≡ ok o
      → create_nbrmap pt mx junk (length peers.ids) npcs opuchoke_ival uchoke_ival n_pref_peers
        ≡ ok m
      → bfield_init pt fs system junk o has ≡ ok ostore
      → peers.ids ≡ before ++ peerid ∷ after
      → length peers.ids < 2 ^ 32
      → HasHosts peers before 0
      → Absent peerid before
      → get_elem? peers.hasfile (length before) ≡ some has
      → (w' : W) × (threads : List (Started S)) × (create_node net pt mx fs system junk junk_fd w
            n_pref_peers uchoke_ival opuchoke_ival peerid addr port sh_fname peers vals
          ≡ ok (w', record { threads = threads; ostore = ostore; nbrmap = m; peerid = peerid }))
        × (known threads ≡ before ++ replicate (length after) 0)
        × (m.npeers ≡ length threads + 1)
  unfolding create_node
  create_node-npeers s fsz pcsz npcs has o ostore m sock at_fsz at_pcsz counted stored mapped init
        ids small hosts absent at_has =
      let n : Node S L F M = record { threads = []; ostore = o; nbrmap = m; peerid = peerid } in
      let (w', threads, done, now) =
        mesh net calls pt fs system junk before after (sock_create net w addr port).0 n s peers has
          ostore ids small hosts absent at_has init in
      let size : length peers.ids ≡ length before + suc (length after) =
        rw ids (length-append before (peerid ∷ after)) in
      let others = length-append before (replicate (length after) 0) in
      let zeros = length-replicate {A = ℕ} (length after) 0 in
      let one_each : length threads ≡ length (before ++ replicate (length after) 0) =
        sym (length-known threads) ∙ ap length now in
      let waits = create_nbrmap-npeers (length peers.ids) npcs mapped in
      (
        w',
        threads,
        rw (create_node, sock, at_fsz, at_pcsz, counted, stored, mapped) done,
        now,
        omega (arith, zeros, others, size, one_each, waits),
      )
