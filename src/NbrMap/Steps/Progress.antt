-- ===== src/NbrMap/Steps/Progress.antt =====
-- What the calls on the map of nbrmap/nbrmap.cpp never take back.
use btrx.Prelude.{
  ℕ, zero, suc, ◌+◌, ◌%◌, ◌^◌, ◌≡◌, refl, ◌∙◌, subst, true, some, List, [], ◌∷◌, ok, arith, length,
  get_elem?, set, length-append, length-set, get_elem?-append_left, lt_of_get_elem?,
}
use btrx.Rwlock.{Rwlocks}
use btrx.Mutex.{Mutexes}
use btrx.Bfield.Steps.{Grows, Grows-refl, Grows-trans, Grows-FieldStep}
use btrx.NbrMap.{Nbr, NbrMap, register_cli}
use btrx.NbrMap.Registry.{fresh}
use btrx.NbrMap.Steps.{
  MapStep, registers, claims, interests, counts, leaves, selects, draws, IsCalm, register_cli_ok,
}
use btrx.NbrMap.Steps.Timed.{select_unchoked-same, opt_unchoke-same}

-- Neighbours stay where they are, and one that is done stays so.
abbrev pub StayDone : List Nbr → List Nbr → Type 0
StayDone heap heap' =
    (p : ℕ) (nbr : Nbr)
    → get_elem? heap p ≡ some nbr
    → (nbr' : Nbr) × (get_elem? heap' p ≡ some nbr') × (nbr.done ≡ true → nbr'.done ≡ true)

-- Nothing that was spoken for is given back; a neighbour is neither freed nor comes back; and each new
-- one is waited for no longer.
pub record Advances {L M : Type 0} (m m' : NbrMap L M) : Type 0 where
  pub spoken : Grows m.bfield.bfield m'.bfield.bfield
  pub done : StayDone m.heap m'.heap
  pub waited : (m'.npeers + length m'.heap) % 2 ^ 32 ≡ (m.npeers + length m.heap) % 2 ^ 32
  pub each : length m'.peers + length m.heap ≡ length m.peers + length m'.heap

StayDone-set :
    (heap : List Nbr) (p : ℕ) (nbr nbr' : Nbr)
    → get_elem? heap p ≡ some nbr
    → (nbr.done ≡ true → nbr'.done ≡ true)
    → StayDone heap (set heap p nbr')
StayDone-set [] p nbr nbr' there keeps q x at = ground arith
StayDone-set (a ∷ heap) zero nbr nbr' there keeps zero x at =
    (nbr', refl, λ e. keeps (ground (arith, there, at, e)))
StayDone-set (a ∷ heap) zero nbr nbr' there keeps (suc q) x at = (x, at, λ e. e)
StayDone-set (a ∷ heap) (suc p) nbr nbr' there keeps zero x at = (x, at, λ e. e)
StayDone-set (a ∷ heap) (suc p) nbr nbr' there keeps (suc q) x at =
    StayDone-set heap p nbr nbr' there keeps q x at

module _ {L M : Type 0} where
  pub Advances-refl : (m : NbrMap L M) → Advances m m
  Advances-refl m = record {
    spoken = Grows-refl m.bfield.bfield;
    done = λ p nbr at. (nbr, at, λ e. e);
    waited = refl;
    each = refl;
  }

  pub Advances-trans : {a b c : NbrMap L M} → Advances a b → Advances b c → Advances a c
  Advances-trans {a} {b} {c} f g = record {
    spoken = Grows-trans f.spoken g.spoken;
    done = λ p nbr at.
        let (x, at', keeps) = f.done p nbr at in
        let (y, at'', keeps') = g.done p x at' in (y, at'', λ e. keeps' (keeps e));
    waited = g.waited ∙ f.waited;
    each = omega (arith, f.each, g.each);
  }

  Advances-set :
      (m : NbrMap L M) (p : ℕ) (nbr nbr' : Nbr)
      → get_elem? m.heap p ≡ some nbr
      → (nbr.done ≡ true → nbr'.done ≡ true)
      → Advances m (record m { heap = set m.heap p nbr' })
  Advances-set m p nbr nbr' there keeps = record {
    spoken = Grows-refl m.bfield.bfield;
    done = StayDone-set m.heap p nbr nbr' there keeps;
    waited = rw (length-set) refl;
    each = rw (length-set) refl;
  }

  Advances-register_cli :
      (mx : Mutexes M) (m : NbrMap L M) (peerid p : ℕ) {m' : NbrMap L M}
      → register_cli mx m peerid ≡ ok (m', p)
      → Advances m m'
  Advances-register_cli mx m peerid p e =
      let (mut, same) = register_cli_ok m mx peerid p e in
      let longer = length-append m.heap (fresh ∷ []) in
      subst (Advances m) same (record {
        spoken = Grows-refl m.bfield.bfield;
        done = λ q nbr at. (
          nbr,
          get_elem?-append_left m.heap (fresh ∷ []) q (lt_of_get_elem? m.heap q at) ∙ at,
          λ e. e,
        );
        waited = omega (arith, longer);
        each = omega (arith, longer, length-append m.peers (peerid ∷ []));
      })

  -- The timers only where nobody is choked.
  pub Advances-MapStep :
      {m m' : NbrMap L M} (pt : Rwlocks L) (mx : Mutexes M)
      → MapStep pt mx m m'
      → IsCalm m
      → Advances m m'
  Advances-MapStep pt mx (registers m m' peerid p e) calm = Advances-register_cli mx m peerid p e
  Advances-MapStep pt mx (claims m field step) calm = record {
    spoken = Grows-FieldStep pt step;
    done = λ p nbr at. (nbr, at, λ e. e);
    waited = refl;
    each = refl;
  }
  Advances-MapStep pt mx (interests m p nbr b at) calm =
      Advances-set m p nbr (record nbr { interested = b }) at (λ e. e)
  Advances-MapStep pt mx (counts m p nbr at) calm =
      Advances-set m p nbr (record nbr { requests = (nbr.requests + 1) % 2 ^ 32 }) at (λ e. e)
  Advances-MapStep pt mx (leaves m p nbr at) calm =
      Advances-set m p nbr (record nbr { done = true }) at (λ e. refl)
  Advances-MapStep pt mx (selects m m' n_pref b e) calm =
      subst (Advances m) (select_unchoked-same m m' b n_pref calm.free e) (Advances-refl m)
  Advances-MapStep pt mx (draws m m' rounds draw b e) calm =
      subst (Advances m) (opt_unchoke-same m m' b rounds draw calm.free e) (Advances-refl m)
