-- ===== src/Sockets.antt =====
-- The socket calls of handler/, as a parameter over an abstract connection.
use btrx.Prelude.{ℕ, Bool, Option, List}

pub record Sockets (S : Type 0) : Type 0 where
  pub ewouldblock : ℕ
  -- `recv(sock, buf, n, MSG_PEEK)` and `recv(sock, buf, n, 0)`: the bytes received, as many as the
  -- call returns and at most n; `none` is an error, for which it returns -1.
  pub peek : S → ℕ → S × Option (List ℕ)
  pub recv : S → ℕ → S × Option (List ℕ)
  -- `send(sock, buf, n, 0)`, and whether it does not fail.
  pub send : S → List ℕ → S × Bool
  pub close : S → S
