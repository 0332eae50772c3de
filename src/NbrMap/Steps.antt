-- ===== src/NbrMap/Steps.antt =====
-- What the threads of a node do to the map of nbrmap/nbrmap.cpp, call by call, and what every call
-- keeps.
pub mod Earmark
pub mod Grants
pub mod Progress
pub mod Timed
use btrx.Prelude.{
  ℕ, suc, ◌+◌, ◌-◌, ◌*◌, ◌/◌, ◌%◌, ◌^◌, ◌<◌, ◌≡◌, refl, ap, ◌∙◌, sym, subst, Bool, true, false,
  none, some, Option, List, [], ◌∷◌, ◌++◌, ok, arith, defined, ok_of_bind, ok_injective, Bool-cases,
  inl, inr, length, get_elem?, set, lt_of_get_elem?, Option-cases, length-set, length-append, ◌==◌,
  if◌then◌else◌, ◌⊎◌,
}
use btrx.Prelude.Assoc.{insert}
use btrx.Mutex.{Mutexes}
use btrx.Rwlock.{Rwlocks}
use btrx.Bfield.{Bfield}
use btrx.Bfield.Steps.{FieldStep, Grows, Grows-refl, Grows-FieldStep}
use btrx.NbrMap.{Nbr, NbrMap, lock, unlock, register_cli, select_unchoked, opt_unchoke}
use btrx.NbrMap.Registry.{AllKnown, AllPoint, IsValid, fresh, AllKnown-insert, AllPoint-insert}
use btrx.NbrMap.Steps.Timed.{select_unchoked-same, opt_unchoke-same}
use btrx.NbrMap.Choking.{NoneChoked, NoneChoked-get_elem?, NoneChoked-set, NoneChoked-append}

module _ {L M : Type 0} (pt : Rwlocks L) (mx : Mutexes M) where
  -- One call that returns, or one write through a pointer to a neighbour.
  pub data MapStep : NbrMap L M → NbrMap L M → Type 0 where
    registers :
        (m m' : NbrMap L M) (peerid p : ℕ) → register_cli mx m peerid ≡ ok (m', p) → MapStep m m'
    claims :
        (m : NbrMap L M) (field : Bfield L)
        → FieldStep pt m.bfield field
        → MapStep m (record m { bfield = field })
    interests :
        (m : NbrMap L M) (p : ℕ) (nbr : Nbr) (b : Bool)
        → get_elem? m.heap p ≡ some nbr
        → MapStep m (record m { heap = set m.heap p (record nbr { interested = b }) })
    counts :
        (m : NbrMap L M) (p : ℕ) (nbr : Nbr)
        → get_elem? m.heap p ≡ some nbr
        → MapStep m (record m {
          heap = set m.heap p (record nbr { requests = (nbr.requests + 1) % 2 ^ 32 });
        })
    leaves :
        (m : NbrMap L M) (p : ℕ) (nbr : Nbr)
        → get_elem? m.heap p ≡ some nbr
        → MapStep m (record m { heap = set m.heap p (record nbr { done = true }) })
    selects :
        (m m' : NbrMap L M) (n_pref : ℕ) (b : Bool)
        → select_unchoked n_pref m ≡ ok (m', b)
        → MapStep m m'
    draws :
        (m m' : NbrMap L M) (rounds : ℕ) (draw : ℕ → ℕ) (b : Bool)
        → opt_unchoke rounds draw m ≡ some (ok (m', b))
        → MapStep m m'
    -- What the threads keep of a map: nobody is choked, and the registry is well-formed.

pub record IsCalm {L M : Type 0} (m : NbrMap L M) : Type 0 where
  pub free : NoneChoked m.heap
  pub valid : IsValid m

module _ {L M : Type 0} (m : NbrMap L M) where
  IsCalm-set :
      (p : ℕ) (nbr nbr' : Nbr)
      → get_elem? m.heap p ≡ some nbr
      → nbr'.choked ≡ nbr.choked
      → IsCalm m
      → IsCalm (record m { heap = set m.heap p nbr' })
  IsCalm-set p nbr nbr' there same calm = record {
    free =
        NoneChoked-set m.heap p nbr' calm.free
          (same ∙ NoneChoked-get_elem? m.heap p calm.free there);
    valid = record { known = calm.valid.known; entries = rw (length-set) calm.valid.entries };
  }

  pub register_cli_ok :
      (mx : Mutexes M) (peerid p : ℕ) {m' : NbrMap L M}
      → register_cli mx m peerid ≡ ok (m', p)
      → (mut : M) × (record m {
        mut = mut;
        heap = m.heap ++ fresh ∷ [];
        peers = m.peers ++ peerid ∷ [];
        peerinfo = insert peerid (some (length m.heap)) m.peerinfo;
        npeers = (m.npeers + 2 ^ 32 - 1) % 2 ^ 32;
      }
          ≡ m')
  unfolding register_cli
  register_cli_ok mx peerid p e =
      let (l, _, rest) = ok_of_bind (lock mx m.mut) _ e in
      let (u, _, rest1) = ok_of_bind (unlock mx l) _ rest in (u, ap (λ r. r.0) (ok_injective rest1))

  register_cli-IsCalm :
      (mx : Mutexes M) (peerid p : ℕ) {m' : NbrMap L M}
      → register_cli mx m peerid ≡ ok (m', p)
      → IsCalm m
      → IsCalm m'
  register_cli-IsCalm mx peerid p e calm =
      let (mut, same) = register_cli_ok mx peerid p e in
      let grown : length (m.heap ++ fresh ∷ []) ≡ suc (length m.heap) =
        omega (arith, length-append m.heap (fresh ∷ [])) in
      subst IsCalm same (record {
        free = NoneChoked-append m.heap fresh calm.free refl;
        valid = record {
          known = AllKnown-insert m.peerinfo peerid (some (length m.heap)) m.peers calm.valid.known;
          entries = rw (grown) (
              AllPoint-insert (length m.heap) peerid (length m.heap) m.peerinfo calm.valid.entries
                (omega arith));
        };
      })

module _ {L M : Type 0} (pt : Rwlocks L) (mx : Mutexes M) where
  pub IsCalm-MapStep : {m m' : NbrMap L M} → MapStep pt mx m m' → IsCalm m → IsCalm m'
  IsCalm-MapStep (registers m m' peerid p e) calm = register_cli-IsCalm m mx peerid p e calm
  IsCalm-MapStep (claims m field step) calm = record {
    free = calm.free;
    valid = record { known = calm.valid.known; entries = calm.valid.entries };
  }
  IsCalm-MapStep (interests m p nbr b at) calm =
      IsCalm-set m p nbr (record nbr { interested = b }) at refl calm
  IsCalm-MapStep (counts m p nbr at) calm =
      IsCalm-set m p nbr (record nbr { requests = (nbr.requests + 1) % 2 ^ 32 }) at refl calm
  IsCalm-MapStep (leaves m p nbr at) calm =
      IsCalm-set m p nbr (record nbr { done = true }) at refl calm
  IsCalm-MapStep (selects m m' n_pref b e) calm =
      subst IsCalm (select_unchoked-same m m' b n_pref calm.free e) calm
  IsCalm-MapStep (draws m m' rounds draw b e) calm =
      subst IsCalm (opt_unchoke-same m m' b rounds draw calm.free e) calm
