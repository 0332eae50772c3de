-- ===== src/Streams.antt =====
-- The output streams of the C library that the log is written to, as a parameter over an abstract
-- stream.
use btrx.Prelude.{ℕ, Bool, Option, List}

-- What is handed over behind a format: a number or a text.
pub data Arg : Type 0 where
  number : ℕ → Arg
  text : List ℕ → Arg

pub record Streams (F : Type 0) : Type 0 where
  pub std_out : F
  -- `f == stdout`.
  pub is_std_out : F → Bool
  -- `fopen(fname, "w")`; `none` is the null pointer.
  pub fopen : List ℕ → Option F
  -- `fprintf` and `vfprintf`: the stream, the format and what stands behind it.
  pub fprintf : F → List ℕ → List Arg → F
  pub fclose : F → F
