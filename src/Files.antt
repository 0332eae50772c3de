-- ===== src/Files.antt =====
-- The POSIX file calls of the program, as a parameter over an abstract open file.
use btrx.Prelude.{ℕ, Bool, Option, List}

pub record Files (F : Type 0) : Type 0 where
  -- `open(fname, O_RDWR)`; `none` is an error.
  pub open_rdwr : List ℕ → Option F
  -- `lseek(fd, pos, SEEK_SET)`, and whether it succeeds.
  pub lseek : F → ℕ → F × Bool
  -- `read(fd, store, n)`: the bytes read, at most n of them; `none` is an error.
  pub read : F → ℕ → F × Option (List ℕ)
  -- `write(fd, piece, n)`, and whether it succeeds.
  pub write : F → List ℕ → F × Bool
  pub close : F → F
