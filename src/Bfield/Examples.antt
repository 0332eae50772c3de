-- ===== src/Bfield/Examples.antt =====
-- objstore/bfield.cpp at concrete inputs.
use btrx.Prelude.{ℕ, ◌/◌, ◌%◌, ◌≡◌, refl, true, ◌||◌, [], ◌∷◌, ok, ◌==◌, length, arith}
use btrx.Bfield.{Bfield, initial_bytes, diff_loop, rd_lock, un_lock, create_bfield, diff}
use btrx.Bfield.Has.{has}
use btrx.Bfield.Seeding.{create_bfield_full}
use btrx.Host.{locks, field_of}

-- Of a file of twelve pieces the constructor gives the first byte one bit and the last byte all.
seeded : create_bfield locks 0 true true 12 ≡ ok (field_of (1 ∷ 255 ∷ []))
unfolding create_bfield initial_bytes
seeded = refl

diffed : diff locks (field_of (3 ∷ [])) (6 ∷ []) [] ≡ ok (field_of (3 ∷ []), 4 ∷ [])
unfolding diff diff_loop rd_lock un_lock
diffed = refl

create_bfield_full_example :
    (b : Bfield ℕ) × (create_bfield locks 7 true true 12 ≡ ok b)
    × (length b.bfield ≡ 2)
    × (has b.bfield 3 ≡ (3 % 8 == 0) || (3 / 8 == 12 / 8))
create_bfield_full_example = create_bfield_full locks 7 12 3 refl (omega arith)
