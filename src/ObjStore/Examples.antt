-- ===== src/ObjStore/Examples.antt =====
-- objstore/objstore.cpp at concrete inputs: a file of five pieces of four bytes.
use btrx.Prelude.{ℕ, ◌≡◌, refl, ◌||◌, some, [], ◌∷◌, ok, ◌==◌, arith, inr}
use btrx.Prelude.Assoc.{find}
use btrx.Prelude.Bits.{testbit}
use btrx.CString.{c_string}
use btrx.Bfield.{Bfield}
use btrx.Bfield.Has.{has}
use btrx.Cache.{Cache}
use btrx.Cache.Index.{IsIndexed}
use btrx.ObjStore.{ObjStore, add_piece, get_piece}
use btrx.ObjStore.Pieces.{add_piece-get_piece}
use btrx.Host.{locks, free, Disk, files, field_of}

abbrev cold : Cache ℕ Disk
cold = record {
  cmap = [];
  cvec = [];
  accesses = [];
  fd = ([], 0);
  pcsz = 4;
  npcs = 5;
  maxsz = 2;
  rwlock = 0;
}

cold-IsIndexed : IsIndexed cold
unfolding find
cold-IsIndexed = record {
  bounded = omega arith;
  entries = λ i ptr h. absurd (ground arith);
  places = λ pos i h. absurd (ground arith);
}

abbrev store : ObjStore ℕ Disk
store = record {
  fsz = 20;
  fname = 102 ∷ [];
  cache = cold;
  bfield = some (field_of (1 ∷ []));
  pcsz = 4;
  npcs = 5;
}

add_piece-get_piece_example :
    (o' : ObjStore ℕ Disk) × (o'' : ObjStore ℕ Disk) × (field' : Bfield ℕ) × (add_piece locks files
        store 2
        (97 ∷ 98 ∷ 99 ∷ 100 ∷ 0 ∷ [])
        (7 ∷ 7 ∷ 7 ∷ 7 ∷ [])
      ≡ ok (o', 1))
    × (o'.bfield ≡ some field')
    × (has field'.bfield 0 ≡ (2 == 0) || has (1 ∷ []) 0)
    × (get_piece locks files o' 2 [] [] ≡ ok (o'', 1, 97 ∷ 98 ∷ 99 ∷ 0 ∷ []))
unfolding find c_string testbit
add_piece-get_piece_example =
    add_piece-get_piece locks files store (field_of (1 ∷ [])) refl 2 3 0
      (97 ∷ 98 ∷ 99 ∷ 100 ∷ 0 ∷ []) (7 ∷ 7 ∷ 7 ∷ 7 ∷ []) [] [] (97 ∷ 98 ∷ 99 ∷ 100 ∷ []) (inr free)
      (omega arith) refl free cold-IsIndexed refl (omega arith) refl (omega arith) refl refl
      (omega arith) refl refl
