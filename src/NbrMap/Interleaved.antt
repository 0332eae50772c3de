-- ===== src/NbrMap/Interleaved.antt =====
-- The connections' threads run `NbrMap::earmark` of nbrmap/nbrmap.cpp side by side. What they share
-- is the map's field, which they change by `Bfield::flip(int, int)` alone, under its lock: so a run
-- is a sequence of such flips by any threads in any order.
use btrx.Prelude.{
  ℕ, ◌+◌, ◌*◌, ◌/◌, ◌<◌, ◌≡◌, ◌∙◌, ap, Bool, true, false, not, List, [], ◌∷◌, ok, if◌then◌else◌,
  length, arith, Bool-cases, inl, inr, ◌≢◌, ==_self, sym, subst,
}
use btrx.Rwlock.{Rwlocks}
use btrx.Bfield.{Bfield, flip_at}
use btrx.Bfield.Has.{has}
use btrx.Bfield.Locked.{IsIdle}
use btrx.Bfield.Members.{with_piece, has-with_piece, flip_at-with_piece}

-- The shared field, and the flips that returned true: the thread and the piece, latest first.
pub record Shared (L : Type 0) : Type 0 where
  pub field : Bfield L
  pub granted : List (ℕ × ℕ)

module _ {L : Type 0} (pt : Rwlocks L) where
  -- Thread `t` flips digit `j` of byte `i`, and gets `ret`.
  pub data Step : Shared L → Shared L → Type 0 where
    flips :
        {s s' : Shared L} (t i j : ℕ) (field : Bfield L) (ret : Bool)
        → i < length s.field.bfield
        → j < 8
        → flip_at pt s.field i j ≡ ok (field, ret)
        → s' ≡ record {
          field = field;
          granted = if ret then (t, i * 8 + j) ∷ s.granted else s.granted;
        }
        → Step s s'

  pub data Reach (s : Shared L) : Shared L → Type 0 where
    here : Reach s s
    next : {u v : Shared L} → Reach s u → Step u v → Reach s v

-- Every granted piece is set in the field, and is granted once.
abbrev pub AllSet : List ℕ → List (ℕ × ℕ) → Type 0
AllSet field [] = Unit {0}
AllSet field ((_, p) ∷ rest) = (has field p ≡ true) × AllSet field rest

abbrev pub IsFresh : ℕ → List (ℕ × ℕ) → Type 0
IsFresh p [] = Unit {0}
IsFresh p ((_, q) ∷ rest) = (p ≢ q) × IsFresh p rest

abbrev pub Exclusive : List (ℕ × ℕ) → Type 0
Exclusive [] = Unit {0}
Exclusive ((_, p) ∷ rest) = IsFresh p rest × Exclusive rest

AllSet-with_piece :
    (field : List ℕ) (p : ℕ) (granted : List (ℕ × ℕ))
    → p / 8 < length field
    → AllSet field granted
    → AllSet (with_piece field p) granted
AllSet-with_piece field p [] h all = tt
AllSet-with_piece field p ((_, q) ∷ rest) h all =
    (has-with_piece field p q h ∙ (rw all.0 (ground arith)), AllSet-with_piece field p rest h all.1)

IsFresh-of_unset :
    (field : List ℕ) (p : ℕ) (granted : List (ℕ × ℕ))
    → has field p ≡ false
    → AllSet field granted
    → IsFresh p granted
IsFresh-of_unset field p [] unset all = tt
IsFresh-of_unset field p ((_, q) ∷ rest) unset all =
    (λ e. cc (ap (has field) e), IsFresh-of_unset field p rest unset all.1)

module _ {L : Type 0} (pt : Rwlocks L) where
  pub record Inv (s : Shared L) : Type 0 where
    pub idle : IsIdle pt s.field
    pub all_set : AllSet s.field.bfield s.granted
    pub exclusive : Exclusive s.granted

  abbrev flipped : Shared L → ℕ → ℕ → Shared L
  flipped s t p = record {
    field = record s.field { bfield = with_piece s.field.bfield p };
    granted = if not (has s.field.bfield p) then (t, p) ∷ s.granted else s.granted;
  }

  flipped-Inv :
      (s : Shared L) (t p : ℕ) → p / 8 < length s.field.bfield → Inv s → Inv (flipped s t p)
  flipped-Inv s t p below inv = elim (Bool-cases (has s.field.bfield p)) [
    | inl old ↦ record {
      idle = inv.idle;
      all_set = rw old (AllSet-with_piece s.field.bfield p s.granted below inv.all_set);
      exclusive = rw old inv.exclusive;
    }
    | inr new ↦ record {
      idle = inv.idle;
      all_set = rw new (
        has-with_piece s.field.bfield p p below ∙ (ground (arith, ==_self p)),
        AllSet-with_piece s.field.bfield p s.granted below inv.all_set,
      );
      exclusive =
          rw new (IsFresh-of_unset s.field.bfield p s.granted new inv.all_set, inv.exclusive);
    }
  ]

  Step-Inv : {s s' : Shared L} → Step pt s s' → Inv s → Inv s'
  Step-Inv {s} (flips t i j field ret below small result e) inv =
      let expected = flip_at-with_piece pt s.field i j inv.idle below small in
      subst Inv (sym (e ∙ (cc))) (flipped-Inv s t (i * 8 + j) (omega arith) inv)

  Reach-Inv : {s s' : Shared L} → Reach pt s s' → Inv s → Inv s'
  Reach-Inv here inv = inv
  Reach-Inv (next r step) inv = Step-Inv step (Reach-Inv r inv)

  -- However the threads' flips are interleaved, starting on an idle field with nothing granted, no piece is granted
  -- twice, to one thread or to two, and every granted piece is spoken for.
  pub no_piece_twice :
      {s s' : Shared L}
      → Reach pt s s'
      → IsIdle pt s.field
      → s.granted ≡ []
      → Exclusive s'.granted × AllSet s'.field.bfield s'.granted
  no_piece_twice {s} r idle none_yet =
      let inv =
        Reach-Inv r
          (record { idle = idle; all_set = rw none_yet tt; exclusive = rw none_yet tt }) in
      (inv.exclusive, inv.all_set)
