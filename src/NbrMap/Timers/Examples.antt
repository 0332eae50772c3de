-- ===== src/NbrMap/Timers/Examples.antt =====
-- The threads of nbrmap/nbrmap.cpp at concrete maps.
use btrx.Prelude.{ℕ, zero, suc, ◌≡◌, refl, true, false, some, [], ◌∷◌, ok, arith}
use btrx.Prelude.Assoc.{find}
use btrx.NbrMap.{NbrMap, neighbour, subscript}
use btrx.NbrMap.Registry.{IsValid}
use btrx.NbrMap.Timers.{unchoke_handler}
use btrx.NbrMap.Timers.Finish.{unchoke_handler_ends}
use btrx.Host.{field_of}

-- A map for two nodes, as each of them makes it.
abbrev of_two : NbrMap ℕ ℕ
of_two = record {
  mut = 0;
  npeers = 2;
  peers = [];
  peerinfo = [];
  handlers = [];
  bfield = field_of (4 ∷ []);
  heap = [];
}

-- Everybody has registered, and the one neighbour is done.
abbrev over : NbrMap ℕ ℕ
over = record of_two {
  npeers = 0;
  peers = 0 ∷ [];
  peerinfo = (0, some 0) ∷ [];
  heap = record { choked = false; done = true; interested = false; requests = 0 } ∷ [];
}

over-IsValid : IsValid over
unfolding find
over-IsValid = record { known = (λ e. cc, tt); entries = ((0, refl, omega arith), tt) }

-- The neighbour leaves during the second sleep.
abbrev meanwhile : ℕ → NbrMap ℕ ℕ → NbrMap ℕ ℕ
meanwhile zero m = record over {
  heap = record { choked = true; done = false; interested = true; requests = 0 } ∷ [];
}
meanwhile (suc n) m = over

meanwhile-IsValid : (n : ℕ) (m : NbrMap ℕ ℕ) → IsValid m → IsValid (meanwhile n m)
unfolding find
meanwhile-IsValid zero m v = record {
  known = (λ e. cc, tt);
  entries = ((0, refl, omega arith), tt);
}
meanwhile-IsValid (suc n) m v = over-IsValid

unchoke_handler_ends_example :
    (m' : NbrMap ℕ ℕ) × (unchoke_handler meanwhile 2 2 0 over ≡ some (ok m'))
unfolding neighbour subscript find
unchoke_handler_ends_example =
    unchoke_handler_ends meanwhile meanwhile-IsValid 1
      (λ m v. (
        refl,
        (
          (0, record { choked = false; done = true; interested = false; requests = 0 }, refl, refl),
          tt,
        ),
      ))
      2 (omega arith) 1 0 over (omega arith) over-IsValid
