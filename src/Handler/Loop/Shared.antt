-- ===== src/Handler/Loop/Shared.antt =====
-- What the threads of a node share, the `ostore` and the `nbrmap` of `cli_handler` (handler/handler.cpp),
-- and the calls by which they change it. A call of a field, of the cache or of the map is one step, and
-- so is a write through a pointer to a neighbour: what several threads do is, in the order in which
-- their calls are made, a chain of such steps.
pub mod Cases
pub mod Claims
pub mod Rounds
use btrx.Prelude.{ℕ, ◌≡◌, ◌⊎◌, some, get_elem?, Chain, chain_map, chain_trans}
use btrx.Rwlock.{Rwlocks}
use btrx.Mutex.{Mutexes}
use btrx.ObjStore.{ObjStore}
use btrx.ObjStore.Steps.{StoreStep, Leads}
use btrx.NbrMap.{Nbr, NbrMap}
use btrx.NbrMap.Steps.{MapStep}
use btrx.NbrMap.Steps.Grants.{Granted}
use btrx.Handler.Requests.{Asks}
use btrx.Handler.Loop.{Conn}

pub record Shared (L F M : Type 0) : Type 0 where
  pub ost : ObjStore L F
  pub nmap : NbrMap L M

module _ {L F M : Type 0} where
  abbrev pub share : ObjStore L F → NbrMap L M → Shared L F M
  share ost nmap = record { ost = ost; nmap = nmap }

  abbrev pub shared : {S : Type 0} → Conn S L F M → Shared L F M
  shared c = share c.ost c.nmap

  module _ (pt : Rwlocks L) (mx : Mutexes M) where
    -- One call that returns, by whatever thread.
    pub data Call : Shared L F M → Shared L F M → Type 0 where
      stores :
          (s : Shared L F M) (o : ObjStore L F)
          → StoreStep pt s.ost o
          → Call s (record s { ost = o })
      maps :
          (s : Shared L F M) (m : NbrMap L M)
          → MapStep pt mx s.nmap m
          → Call s (record s { nmap = m })

    abbrev pub Calls : Shared L F M → Shared L F M → Type 0
    Calls s s' = Chain Call s s'

    pub store_calls :
        {o o' : ObjStore L F} (m : NbrMap L M) → Leads pt o o' → Calls (share o m) (share o' m)
    store_calls m r =
        chain_map {R = StoreStep pt} {Q = Call} (λ o. share o m)
          (λ o o' step. stores (share o m) o' step) r

    pub map_calls :
        {m m' : NbrMap L M} (o : ObjStore L F)
        → Chain (MapStep pt mx) m m'
        → Calls (share o m) (share o m')
    map_calls o r =
        chain_map {R = MapStep pt mx} {Q = Call} (λ m. share o m)
          (λ m m' step. maps (share o m) m' step) r

-- What a part of a connection's round does: to what is shared it makes calls; `choked_peer` stays as it
-- is; the pointer to the neighbour stays, or is to one that is there; and a piece that is asked for
-- was so before, or nobody had spoken for it.
pub record Acts {S L F M : Type 0} (pt : Rwlocks L) (mx : Mutexes M) (c c' : Conn S L F M)
    : Type 0 where
  pub calls : Calls pt mx (shared c) (shared c')
  pub unchoked : c'.choked_peer ≡ c.choked_peer
  pub points :
      (c'.nbr ≡ c.nbr)
      ⊎ ((p : ℕ) × (nbr : Nbr) × (c'.nbr ≡ some p) × (get_elem? c'.nmap.heap p ≡ some nbr))
  pub asks :
      (q : ℕ)
      → Asks c'.reqs q
      → Asks c.reqs q ⊎ Granted c.nmap.bfield.bfield c'.nmap.bfield.bfield q

-- The socket has no part in that.
pub Acts-sock :
    {S L F M : Type 0} (pt : Rwlocks L) (mx : Mutexes M) (c c' : Conn S L F M) (sock : S)
    → Acts pt mx (record c { sock = sock }) c'
    → Acts pt mx c c'
Acts-sock pt mx c c' sock acts = record {
  calls = acts.calls;
  unchoked = acts.unchoked;
  points = acts.points;
  asks = acts.asks;
}
