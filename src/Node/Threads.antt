-- ===== src/Node/Threads.antt =====
-- What the threads of a node (node/node.cpp) make of the store and the map that they share, in whatever
-- order they call: from the two as the constructor makes them, on.
mod Examples
pub mod Made
pub mod Process
pub mod Sound
pub mod Received
pub mod Exclusive
pub mod Waiting
use btrx.Prelude.{
  ℕ, zero, suc, ◌+◌, ◌/◌, ◌%◌, ◌^◌, ◌≤◌, ◌<◌, ◌≡◌, refl, ap, ◌∙◌, sym, subst, Bool, true, false,
  none, some, List, [], ok, length, get_elem?, arith, ok_of_bind, ok_injective, Chain, stays, next,
  chain_keeps, chain_trans, Option-cases, Bool-cases, inl, inr, ◌⊎◌,
}
use btrx.Rwlock.{Rwlocks, checked}
use btrx.Mutex.{Mutexes}
use btrx.Files.{Files}
use btrx.Sockets.{Sockets}
use btrx.Json.{Json}
use btrx.Bfield
use btrx.Bfield.{Bfield}
use btrx.Bfield.Has.{has}
use btrx.Cache.{cachesz, Cache, create_cache}
use btrx.Cache
use btrx.Cache.Capacity.{Fits}
use btrx.Cache.Reachable.{create_cache-Fits}
use btrx.ObjStore.{ObjStore, create_objstore}
use btrx.ObjStore.Steps.{StoreStep, Retains, Retains-Leads, Retains-trans}
use btrx.NbrMap.{Nbr, NbrMap, create_nbrmap, select_unchoked, opt_unchoke}
use btrx.NbrMap.Registry.{IsValid}
use btrx.NbrMap.Choking.{NoneChoked, NoneChoked-get_elem?}
use btrx.NbrMap.Steps.{IsCalm, IsCalm-MapStep}
use btrx.NbrMap.Steps.Timed.{select_unchoked-same, opt_unchoke-same}
use btrx.NbrMap.Steps.Progress.{Advances, Advances-refl, Advances-trans, Advances-MapStep}
use btrx.Handler.{choke_status_check}
use btrx.Handler.Loop.Choking.{choke_status_check_silent}
use btrx.NbrMap.Timers.Finish.{select_unchoked-Steps}
use btrx.Handler.Loop.Shared.{Shared, share, Call, stores, maps, Calls}

unless : {P : Type 0} (b : Bool) → (b ≡ true → P) → (b ≡ false) ⊎ P
unless b f = elim (Bool-cases b) [ inl holds ↦ inr (f holds) | inr fails ↦ inl fails ]

module _ {L M : Type 0} (pt : Rwlocks L) (mx : Mutexes M) (junk : L)
    (npeers npcs opuchoke_ival uchoke_ival n_pref_peers : ℕ) where
  pub made_map :
      {m : NbrMap L M}
      → create_nbrmap pt mx junk npeers npcs opuchoke_ival uchoke_ival n_pref_peers ≡ ok m
      → (m.heap ≡ []) × (m.peers ≡ []) × (m.peerinfo ≡ []) × (m.npeers ≡ npeers)
  unfolding create_nbrmap
  made_map e =
      let (field, _, rest) = ok_of_bind (Bfield.zeroed_bfield pt junk true npcs) _ e in
      let (_, _, rest1) = ok_of_bind (Bfield.destroy pt field) _ rest in
      let (mut, _, rest2) = ok_of_bind (checked (mx.init mx.initializer)) _ rest1 in
      let same = sym (ok_injective rest2) in
      (
        ap (λ m. m.heap) same,
        ap (λ m. m.peers) same,
        ap (λ m. m.peerinfo) same,
        ap (λ m. m.npeers) same,
      )

  pub made_map-IsCalm :
      {m : NbrMap L M}
      → create_nbrmap pt mx junk npeers npcs opuchoke_ival uchoke_ival n_pref_peers ≡ ok m
      → IsCalm m
  made_map-IsCalm e =
      let (heap, peers, info, _) = made_map e in
      record { free = rw heap tt; valid = record { known = rw peers tt; entries = rw info tt } }

module _ {L F M : Type 0} (pt : Rwlocks L) (mx : Mutexes M) where
  IsCalm-Call : {s s' : Shared L F M} → Call pt mx s s' → IsCalm s.nmap → IsCalm s'.nmap
  IsCalm-Call (stores s o step) calm = calm
  IsCalm-Call (maps s m step) calm = IsCalm-MapStep pt mx step calm

  pub IsCalm-Calls : {s s' : Shared L F M} → Calls pt mx s s' → IsCalm s.nmap → IsCalm s'.nmap
  IsCalm-Calls stays calm = calm
  IsCalm-Calls (next r call) calm = IsCalm-Call call (IsCalm-Calls r calm)

  -- Nothing is taken back, on either side.
  pub record Onward (s s' : Shared L F M) : Type 0 where
    pub store : Retains s.ost s'.ost
    pub map : Advances s.nmap s'.nmap

  Onward-Call : {s s' : Shared L F M} → Call pt mx s s' → IsCalm s.nmap → Onward s s'
  Onward-Call (stores s o step) calm = record {
    store = Retains-Leads pt (next stays step);
    map = Advances-refl s.nmap;
  }
  Onward-Call (maps s m step) calm = record {
    store = Retains-Leads pt stays;
    map = Advances-MapStep pt mx step calm;
  }

  pub Onward-Calls : {s s' : Shared L F M} → Calls pt mx s s' → IsCalm s.nmap → Onward s s'
  Onward-Calls {s} stays calm = record {
    store = Retains-Leads pt stays;
    map = Advances-refl s.nmap;
  }
  Onward-Calls (next r call) calm =
      let before = Onward-Calls r calm in
      let last = Onward-Call call (IsCalm-Calls r calm) in
      record {
        store = Retains-trans before.store last.store;
        map = Advances-trans before.map last.map;
      }

module _ {L F M : Type 0} (pt : Rwlocks L) (mx : Mutexes M) (junk : L)
    (npeers npcs opuchoke_ival uchoke_ival n_pref_peers : ℕ) (o : ObjStore L F) (m : NbrMap L M)
    (made : create_nbrmap pt mx junk npeers npcs opuchoke_ival uchoke_ival n_pref_peers ≡ ok m)
    (s : Shared L F M) (calls : Calls pt mx (share o m) s) where
  quiet : IsCalm s.nmap
  quiet =
      IsCalm-Calls pt mx calls
        (made_map-IsCalm pt mx junk npeers npcs opuchoke_ival uchoke_ival n_pref_peers made)

  -- From a map as the constructor makes it, and any store, after any calls of any threads that return,
  -- in any order: nobody is choked and the registry is well-formed; a connection that has not choked
  -- its peer tells it nothing about choking; and a call of `select_unchoked` with at least one preferred
  -- peer returns and leaves the map as it is.
  pub never_chokes :
      {S J : Type 0} (so : Sockets S) (jl : Json J) (sock : S) (p : ℕ) (nbr : Nbr) (n_pref : ℕ)
      → get_elem? s.nmap.heap p ≡ some nbr
      → 0 < n_pref
      → NoneChoked s.nmap.heap
        × IsValid s.nmap
        × (choke_status_check so jl sock (some nbr) false ≡ ok sock)
        × ((b : Bool) × (select_unchoked n_pref s.nmap ≡ ok (s.nmap, b)))
  never_chokes so jl sock p nbr n_pref at pos =
      let unchoked = NoneChoked-get_elem? s.nmap.heap p quiet.free at in
      let (m', b, result, _, _) = select_unchoked-Steps n_pref s.nmap pos quiet.valid in
      let same = select_unchoked-same s.nmap m' b n_pref quiet.free result in
      (
        quiet.free,
        quiet.valid,
        choke_status_check_silent so jl sock nbr unchoked,
        (
          b,
          subst (λ (t : NbrMap L M). select_unchoked n_pref s.nmap ≡ ok (t, b)) (sym same) result,
        ),
      )

  -- From a map as the constructor makes it, after any calls of any threads that return, in any order:
  -- each neighbour has an entry in the list of peers, and the number of
  -- peers waited for is, up to multiples of 2 ^ 32, that of the constructor less the neighbours.
  pub waited_for :
      (length s.nmap.peers ≡ length s.nmap.heap)
      × ((s.nmap.npeers + length s.nmap.heap) % 2 ^ 32 ≡ npeers % 2 ^ 32)
  waited_for =
      let start =
        made_map-IsCalm pt mx junk npeers npcs opuchoke_ival uchoke_ival n_pref_peers made in
      let on = (Onward-Calls pt mx calls start).map in
      let (heap, peers, _, waits) =
        made_map pt mx junk npeers npcs opuchoke_ival uchoke_ival n_pref_peers made in
      let no_heap : length m.heap ≡ 0 = rw heap refl in
      let no_peers : length m.peers ≡ 0 = rw peers refl in
      (omega (arith, on.each, no_heap, no_peers), omega (arith, on.waited, no_heap, waits))

  -- From a map as the constructor makes it, whatever the threads have called before: further calls take
  -- nothing back. Where the node has a field, it still has one, and a piece that it held is held; a
  -- piece that was spoken for in the map is so still; and a neighbour that was there is there, done if
  -- it was done. Each of the three holds by itself.
  pub never_taken_back :
      (s' : Shared L F M) (q r p : ℕ)
      → Calls pt mx s s'
      → ((s.ost.bfield ≡ none)
          ⊎ ((b : Bfield L) × (b' : Bfield L) × (s.ost.bfield ≡ some b)
              × (s'.ost.bfield ≡ some b')
              × ((has b.bfield q ≡ false) ⊎ (has b'.bfield q ≡ true))))
        × ((has s.nmap.bfield.bfield r ≡ false) ⊎ (has s'.nmap.bfield.bfield r ≡ true))
        × ((get_elem? s.nmap.heap p ≡ none)
            ⊎ ((nbr : Nbr) × (nbr' : Nbr) × (get_elem? s.nmap.heap p ≡ some nbr)
                × (get_elem? s'.nmap.heap p ≡ some nbr')
                × ((nbr.done ≡ false) ⊎ (nbr'.done ≡ true))))
  never_taken_back s' q r p further =
      let on = Onward-Calls pt mx further quiet in
      (
        elim (Option-cases s.ost.bfield) [
          | inl null ↦ inl null
          | inr (b, at) ↦
              let (b', at', grown) = on.store.held b at in
              inr (b, b', at, at', unless (has b.bfield q) (grown.held q))
        ],
        unless (has s.nmap.bfield.bfield r) (on.map.spoken.held r),
        elim (Option-cases (get_elem? s.nmap.heap p)) [
          | inl nobody ↦ inl nobody
          | inr (nbr, there) ↦
              let (nbr', there', keeps) = on.map.done p nbr there in
              inr (nbr, nbr', there, there', unless nbr.done keeps)
        ],
      )

  -- From a map and a store as the constructor makes them, the store for no more than `cachesz` pieces,
  -- after any calls of any threads that return, in any order: the cache holds at most `cachesz` entries
  -- over the number of pieces.
  pub never_overfull :
      (fs : Files F) (junk_fd : F) (fsz pcsz pieces : ℕ) (fname : List ℕ)
      → pieces ≤ cachesz
      → create_objstore pt fs junk_fd fsz pcsz pieces fname ≡ ok o
      → length s.ost.cache.cvec ≤ cachesz / pieces
  unfolding create_objstore
  never_overfull fs junk_fd fsz pcsz pieces fname small created =
      let (cache, emptied, rest) =
        ok_of_bind (Cache.create_cache pt fs junk_fd pcsz pieces) _ created in
      let (_, _, rest1) = ok_of_bind (Cache.destroy pt fs cache) _ rest in
      let fits : Fits (cachesz / pieces) o.cache =
        subst (λ (o : ObjStore L F). Fits (cachesz / pieces) o.cache) (ok_injective rest1)
          (create_cache-Fits pt fs junk_fd pcsz pieces small emptied) in
      let start =
        made_map-IsCalm pt mx junk npeers npcs opuchoke_ival uchoke_ival n_pref_peers made in
      ((Onward-Calls pt mx calls start).store.fits (cachesz / pieces) fits).2
