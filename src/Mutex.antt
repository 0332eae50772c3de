-- ===== src/Mutex.antt =====
-- The POSIX mutexes that the program calls, as a parameter: a call returns its status and the next
-- state of the mutex.
use btrx.Prelude.{ℕ, ◌≡◌}

pub record Mutexes (M : Type 0) : Type 0 where
  pub initializer : M
  pub init : M → ℕ × M
  pub lock : M → ℕ × M
  pub unlock : M → ℕ × M
  pub destroy : M → ℕ × M

-- What POSIX says of a mutex that nobody holds: it is locked with status 0, and unlocked again with
-- status 0, after which nobody holds it.
pub record IsOpen {M : Type 0} (mx : Mutexes M) (m : M) : Type 0 where
  pub held : M
  pub lock_ok : mx.lock m ≡ (0, held)
  pub unlock_ok : mx.unlock held ≡ (0, m)
