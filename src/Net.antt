-- ===== src/Net.antt =====
-- The calls of the operating system that set up connections, as a parameter over an abstract network
-- and abstract descriptors and addresses; a call returns the network afterwards.
use btrx.Prelude.{ℕ, Bool, Option, List}

pub record Net (W S A : Type 0) : Type 0 where
  -- `socket(AF_INET, SOCK_STREAM, 0)`, and that for an address; `none` is an error.
  pub socket : W → W × Option S
  pub socket_for : W → A → W × Option S
  -- `bind` to an address and a port, `listen` with a backlog, and whether they succeed.
  pub bind : W → S → List ℕ → ℕ → W × Bool
  pub listen : W → S → ℕ → W × Bool
  -- The addresses of a host and a service; `none` is an error.
  pub getaddrinfo : W → List ℕ → List ℕ → W × Option (List A)
  pub connect : W → S → A → W × Bool
  pub accept : W → S → W × Option S
  -- `setsockopt` of the time that a receive waits, in microseconds, and whether it succeeds.
  pub set_rcvtimeo : W → S → ℕ → W × Bool
  pub close : W → S → W
