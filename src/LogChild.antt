-- ===== src/LogChild.antt =====
-- logger/logchild.cpp and include/logger/logchild.h: the receiver of log messages. The bodies of its
-- two operations are commented out in the source.
use btrx.Prelude.{ℕ, List, if◌then◌else◌}
use btrx.Sockets.{Sockets}
use btrx.Streams.{Streams}

pub record LogChild (S F : Type 0) : Type 0 where
  pub sock : S
  pub outf : F

module _ {S F : Type 0} where
  pub create_log_child : S → F → LogChild S F
  create_log_child sock outf = record { sock = sock; outf = outf }

  pub srvloop : LogChild S F → LogChild S F
  srvloop c = c

  pub pretty_p : LogChild S F → List ℕ → LogChild S F × ℕ
  pretty_p c lmsg = (c, 1)

  pub destroy : Sockets S → Streams F → LogChild S F → LogChild S F
  destroy so st c = record {
    sock = so.close c.sock;
    outf = if st.is_std_out c.outf then c.outf else st.fclose c.outf;
  }
