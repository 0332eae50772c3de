-- ===== src/NbrMap/Examples.antt =====
-- nbrmap/nbrmap.cpp at concrete inputs.
use btrx.Prelude.{
  ℕ, zero, suc, ◌+◌, ◌*◌, ◌<◌, ◌≡◌, ◌≢◌, refl, Bool, true, false, not, ◌&&◌, ◌||◌, some, List, [],
  ◌∷◌, ok, inr, arith,
}
use btrx.Prelude.Assoc.{find}
use btrx.Bfield.Members.{with_piece, flip_at-with_piece}
use btrx.Prelude.Bits.{testbit, testbit_zero}
use btrx.NbrMap.Claims.Bytes.{digit_at}
use btrx.Bfield.Has.{has, missing}
use btrx.NbrMap.{Nbr, NbrMap, opt_unchoke, neighbour, subscript, earmark, collect, insert_desc}
use btrx.NbrMap.Ranking.{Falls, Counts, Covered, collect-ranks}
use btrx.NbrMap.Earmark.{earmark_grants, earmark_forgets}
use btrx.NbrMap.Interleaved.{
  Shared, Step, flips, Reach, here, next, AllSet, Exclusive, no_piece_twice,
}
use btrx.NbrMap.Registry.{IsValid, fresh}
use btrx.NbrMap.Unchoking.{Selects, select_unchoked_lem}
use btrx.NbrMap.OptUnchoking.{opt_unchoke_stuck}
use btrx.Host.{locks, free, field_of}

-- A map with no neighbours yet, piece 2 being spoken for.
abbrev lone : NbrMap ℕ ℕ
lone = record {
  mut = 0;
  npeers = 1;
  peers = [];
  peerinfo = [];
  handlers = [];
  bfield = field_of (4 ∷ []);
  heap = [];
}

abbrev waiting : Nbr
waiting = record fresh { choked = true; interested = true }

-- All peers have registered: one neighbour, under the identifier 0.
abbrev crowd : Nbr → NbrMap ℕ ℕ
crowd nbr = record lone { npeers = 0; peers = 0 ∷ []; peerinfo = (0, some 0) ∷ []; heap = nbr ∷ [] }

-- The peer has the pieces 1 and 2, the node neither.
earmark_grants_example :
    (m' : NbrMap ℕ ℕ) × (diff : List ℕ) × (ret : Bool) × (earmark locks lone
        (field_of (0 ∷ []))
        (6 ∷ [])
        []
      ≡ ok (m', field_of (0 ∷ []), diff, ret))
    × (has diff 1 ≡ (has (6 ∷ []) 1 && not (has (0 ∷ []) 1)) && not (has (4 ∷ []) 1))
    × (has m'.bfield.bfield 1 ≡ (has (6 ∷ []) 1 && not (has (0 ∷ []) 1)) || has (4 ∷ []) 1)
earmark_grants_example =
    earmark_grants locks lone (field_of (0 ∷ [])) (6 ∷ []) 1 (inr free) (inr free) (omega arith)
      (omega arith) (omega arith)

-- No bit above the second of 6 is set.
only_two_above : (w k : ℕ) → k < 8 → 2 < w * 8 + k → digit_at (6 ∷ []) w k ≡ false
unfolding testbit
only_two_above zero zero h above = absurd (omega arith)
only_two_above zero (suc zero) h above = absurd (omega arith)
only_two_above zero (suc (suc zero)) h above = absurd (omega arith)
only_two_above zero (suc (suc (suc k))) h above = testbit_zero k
only_two_above (suc w) k h above = testbit_zero k

earmark_forgets_example :
    (m' : NbrMap ℕ ℕ) × (diff : List ℕ) × (earmark locks lone (field_of (0 ∷ [])) (6 ∷ []) []
      ≡ ok (m', field_of (0 ∷ []), diff, false))
    × (has diff 1 ≡ true)
    × (has m'.bfield.bfield 1 ≡ true)
unfolding testbit missing
earmark_forgets_example =
    earmark_forgets locks lone (field_of (0 ∷ [])) (6 ∷ []) 2 1 (inr free) (inr free) (omega arith)
      (omega arith) (refl, only_two_above) refl (omega arith) refl refl refl

crowd-IsValid : IsValid (crowd waiting)
unfolding find
crowd-IsValid = record { known = (λ e. cc, tt); entries = ((0, refl, omega arith), tt) }

select_unchoked_lem_example : Selects (crowd waiting) 1
unfolding find
select_unchoked_lem_example = select_unchoked_lem (crowd waiting) 1 crowd-IsValid refl (omega arith)

opt_unchoke_stuck_example : opt_unchoke 50 (λ n. n) (crowd fresh) ≢ some (ok (crowd fresh, true))
opt_unchoke_stuck_example =
    opt_unchoke_stuck 50 (λ n. n) (crowd fresh) (crowd fresh, true) refl (refl, tt)

abbrev start : Shared ℕ
start = record { field = field_of (0 ∷ []); granted = [] }

abbrev after_one : Shared ℕ
after_one = record { field = field_of (2 ∷ []); granted = (7, 1) ∷ [] }

-- Thread 7 is granted piece 1, and thread 8 is refused it.
granted : Step locks start after_one
unfolding with_piece testbit
granted =
    flips 7 0 1 (field_of (2 ∷ [])) true (omega arith) (omega arith)
      (flip_at-with_piece locks start.field 0 1 (inr free) (omega arith) (omega arith)) refl

refused : Step locks after_one after_one
unfolding with_piece testbit
refused =
    flips 8 0 1 (field_of (2 ∷ [])) false (omega arith) (omega arith)
      (flip_at-with_piece locks after_one.field 0 1 (inr free) (omega arith) (omega arith)) refl

two_flips : Reach locks start after_one
two_flips = next (next here granted) refused

no_piece_twice_example :
    Exclusive after_one.granted × AllSet after_one.field.bfield after_one.granted
no_piece_twice_example = no_piece_twice locks two_flips (inr free) refl

-- Two neighbours from whom five requests came: only the first is a candidate.
abbrev tied : NbrMap ℕ ℕ
tied = record (crowd waiting) {
  peers = 0 ∷ 1 ∷ [];
  peerinfo = (0, some 0) ∷ (1, some 1) ∷ [];
  heap = record fresh { requests = 5 } ∷ record fresh { requests = 5 } ∷ [];
}

collect-ranks_example :
    (tied ≡ tied)
    × Falls ((5, 0) ∷ [])
    × Counts tied.heap ((5, 0) ∷ [])
    × Covered tied ((5, 0) ∷ []) tied.peers
unfolding collect neighbour subscript find insert_desc
collect-ranks_example = collect-ranks tied.peers tied tied ((5, 0) ∷ []) refl
