-- ===== src/NbrMap/Choking.antt =====
-- Who is choked, and what the operations of nbrmap/nbrmap.cpp that a connection calls leave of that.
use btrx.Prelude.{
  get_elem?, some, ℕ, suc, zero, ◌≡◌, refl, Bool, false, List, [], ◌∷◌, ◌++◌, ok, set, arith,
}
use btrx.Rwlock.{Rwlocks}
use btrx.Mutex.{Mutexes}
use btrx.Bfield.{Bfield}
use btrx.NbrMap.{Nbr, NbrMap, register_cli, earmark}

-- Nobody is choked.
abbrev pub NoneChoked : List Nbr → Type 0
NoneChoked [] = Unit {0}
NoneChoked (nbr ∷ heap) = (nbr.choked ≡ false) × NoneChoked heap

pub NoneChoked-get_elem? :
    (heap : List Nbr) (p : ℕ) {nbr : Nbr}
    → NoneChoked heap
    → get_elem? heap p ≡ some nbr
    → nbr.choked ≡ false
NoneChoked-get_elem? [] p all e = cc
NoneChoked-get_elem? (x ∷ heap) zero all e = ground arith
NoneChoked-get_elem? (x ∷ heap) (suc p) all e = NoneChoked-get_elem? heap p all.1 e

pub NoneChoked-set :
    (heap : List Nbr) (p : ℕ) (nbr : Nbr)
    → NoneChoked heap
    → nbr.choked ≡ false
    → NoneChoked (set heap p nbr)
NoneChoked-set [] p nbr h e = tt
NoneChoked-set (a ∷ heap) zero nbr h e = (e, h.1)
NoneChoked-set (a ∷ heap) (suc p) nbr h e = (h.0, NoneChoked-set heap p nbr h.1 e)

pub NoneChoked-append :
    (heap : List Nbr) (nbr : Nbr)
    → NoneChoked heap
    → nbr.choked ≡ false
    → NoneChoked (heap ++ nbr ∷ [])
NoneChoked-append [] nbr h e = (e, tt)
NoneChoked-append (a ∷ heap) nbr h e = (h.0, NoneChoked-append heap nbr h.1 e)

module _ {L M : Type 0} (m : NbrMap L M) where
  pub register_cli-NoneChoked :
      (mx : Mutexes M) (peerid : ℕ) {r : NbrMap L M × ℕ}
      → NoneChoked m.heap
      → register_cli mx m peerid ≡ ok r
      → NoneChoked r.0.heap
  unfolding register_cli
  register_cli-NoneChoked mx peerid h e =
      let new : Nbr = record { choked = false; done = false; interested = false; requests = 0 } in
      ground (arith, NoneChoked-append m.heap new h refl)

  pub earmark_heap :
      (pt : Rwlocks L) (node : Bfield L) (peer diff : List ℕ)
      {r : NbrMap L M × Bfield L × List ℕ × Bool}
      → earmark pt m node peer diff ≡ ok r
      → r.0.heap ≡ m.heap
  unfolding earmark
  earmark_heap pt node peer diff e = ground arith
