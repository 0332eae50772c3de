-- ===== src/Rwlock.antt =====
-- The POSIX locks that the program calls, as a parameter: read-write locks over an abstract state.
-- A call returns its status and the lock's next state.
use btrx.Prelude.{ℕ, ◌≡◌, Outcome, ok, exits, ◌==◌, if◌then◌else◌}

pub record Rwlocks (L : Type 0) : Type 0 where
  pub initializer : L
  pub init : L → ℕ × L
  pub rdlock : L → ℕ × L
  pub wrlock : L → ℕ × L
  pub unlock : L → ℕ × L
  pub destroy : L → ℕ × L

-- `if((stat = call) != 0) { log; _exit(1); }`
abbrev pub checked : {L : Type 0} → ℕ × L → Outcome L
checked (stat, l) = if stat == 0 then ok l else exits 1

-- What POSIX says of a lock that nobody holds: it is acquired with status 0, and released again
-- with status 0, after which nobody holds it.
pub record IsFree {L : Type 0} (pt : Rwlocks L) (l : L) : Type 0 where
  pub held : L
  pub held_wr : L
  pub rdlock_ok : pt.rdlock l ≡ (0, held)
  pub unlock_rd : pt.unlock held ≡ (0, l)
  pub wrlock_ok : pt.wrlock l ≡ (0, held_wr)
  pub unlock_wr : pt.unlock held_wr ≡ (0, l)
