-- ===== src/Logger.antt =====
-- logger/logger.cpp and include/logger/logger.h: the log of a node. `date` is what `ctime` makes of
-- the time of the call.
mod Examples
pub mod Lines
use Prim.Native.String.{String}
use btrx.Prelude.{
  ℕ, ◌^◌, Bool, true, false, Option, none, some, List, [], ◌∷◌, ◌++◌, Outcome, ok, exits, ◌>>=◌,
  ltb, if◌then◌else◌,
}
use btrx.Mutex.{Mutexes}
use btrx.Rwlock.{checked}
use btrx.CString.{bytes_of, decimal}
use btrx.Json.{key_eq}
use btrx.Streams.{Arg, number, text, Streams}

-- `LogLvlT`.
pub data LogLvl : Type 0 where
  log_tcp_init log_tcp_fin log_pref_ngbr log_ouchk_ngbr log_uchk log_chk log_hv log_int : LogLvl
  log_uint log_dwld log_dwld_cmplt log_err log_wrn log_info log_dbg : LogLvl

-- The values of the enumerators.
abbrev pub value : LogLvl → ℕ
value log_tcp_init = 1
value log_tcp_fin = 2
value log_pref_ngbr = 4
value log_ouchk_ngbr = 8
value log_uchk = 16
value log_chk = 32
value log_hv = 64
value log_int = 128
value log_uint = 256
value log_dwld = 512
value log_dwld_cmplt = 1024
value log_err = 2048
value log_wrn = 4096
value log_info = 8192
value log_dbg = 16384

pub record Logger (F M : Type 0) : Type 0 where
  pub f : F
  pub mut : M
  pub max_lvl : LogLvl

-- A line: its format and what stands behind it.
pub record Line : Type 0 where
  pub format : List ℕ
  pub args : List Arg

abbrev dated : List ℕ → ℕ → ℕ → List Arg
dated date peer_id_1 peer_id_2 = text date ∷ number peer_id_1 ∷ number peer_id_2 ∷ []

-- The `switch` on the level.
pub pair_line : LogLvl → List ℕ → ℕ → ℕ → Line
pair_line log_tcp_init date p q = record {
  format = bytes_of "[%s]: Peer  %d makes a connection to Peer %d. \n";
  args = dated date p q;
}
pair_line log_tcp_fin date p q = record {
  format = bytes_of "[%s]: Peer %d is connected from Peer %d. \n";
  args = dated date p q;
}
pair_line log_uchk date p q = record {
  format = bytes_of "[%s]: Peer %d is unchoked by %d. \n";
  args = dated date p q;
}
pair_line log_chk date p q = record {
  format = bytes_of "[%s]: Peer %d is choked by %d. \n";
  args = dated date p q;
}
pair_line log_int date p q = record {
  format = bytes_of "[%s]: Peer %d received the 'interested' message from %d. \n";
  args = dated date p q;
}
pair_line log_uint date p q = record {
  format = bytes_of "[%s]: Peer %d received the 'not interested' message from %d. \n";
  args = dated date p q;
}
pair_line _ date p q = record { format = bytes_of "LOGCHILD: Unknown log level!\n"; args = [] }

-- `std::copy` to an `ostream_iterator<int>(oss, ";")`.
pub joined : List ℕ → List ℕ
joined [] = []
joined (peer ∷ peers) = decimal peer ++ b';' ∷ joined peers

-- The calls of `write_msg`, one constructor to an overload.
pub data Call : Type 0 where
  message : LogLvl → List ℕ → List Arg → Call
  pair : LogLvl → ℕ → ℕ → Call
  have_piece : LogLvl → ℕ → ℕ → ℕ → Call
  downloaded : LogLvl → ℕ → ℕ → ℕ → ℕ → Call
  complete : LogLvl → ℕ → Call
  preferred : LogLvl → ℕ → List ℕ → Call

module _ {F M : Type 0} (st : Streams F) (mx : Mutexes M) where
  -- The constructor; a log file that cannot be opened ends the process with status -1.
  unfoldable pub create_logger : List ℕ → LogLvl → Outcome (Logger F M)
  create_logger fname lvl_max = do
    f ←
        if key_eq fname (bytes_of "stdout")
        then ok st.std_out
        else elim (st.fopen fname) [ none ↦ exits 255 | some f ↦ ok f ]
    mut ← checked (mx.init mx.initializer)
    ok (record { f = f; mut = mut; max_lvl = lvl_max })

  pub destroy : Logger F M → Outcome (Logger F M)
  destroy l = do mut ← checked (mx.destroy l.mut); ok (record l { mut = mut; f = st.fclose l.f })

  pub lock : Logger F M → Outcome (Logger F M)
  lock l = do mut ← checked (mx.lock l.mut); ok (record l { mut = mut })

  pub un_lock : Logger F M → Outcome (Logger F M)
  un_lock l = do mut ← checked (mx.unlock l.mut); ok (record l { mut = mut })

  -- `fprintf(this->f, ...)`.
  pub print : Logger F M → Line → Logger F M
  print l line = record l { f = st.fprintf l.f line.format line.args }

  -- `log_lvl > this->max_lvl`.
  pub is_silent : Logger F M → LogLvl → Bool
  is_silent l log_lvl = ltb (value l.max_lvl) (value log_lvl)

  -- `write_msg(log_lvl, msg, ...)`, which does not lock.
  pub write_message : Logger F M → LogLvl → List ℕ → List Arg → Outcome (Logger F M)
  unfolding is_silent print
  write_message l log_lvl msg args =
      if is_silent l log_lvl then ok l else ok (print l (record { format = msg; args = args }))

  -- The lines that print under the lock.
  pub print_locked : Logger F M → Line → Outcome (Logger F M)
  unfolding lock un_lock print
  print_locked l line = do l' ← lock l; un_lock (print l' line)

  -- `write_msg(log_lvl, peer_id_1, peer_id_2)`.
  pub write_pair : Logger F M → LogLvl → List ℕ → ℕ → ℕ → Outcome (Logger F M)
  unfolding is_silent print_locked
  write_pair l log_lvl date peer_id_1 peer_id_2 =
      if is_silent l log_lvl
      then ok l
      else print_locked l (pair_line log_lvl date peer_id_1 peer_id_2)

  -- `write_msg(log_lvl, peer_id_1, peer_id_2, pcno)`.
  pub write_have : Logger F M → LogLvl → List ℕ → ℕ → ℕ → ℕ → Outcome (Logger F M)
  unfolding is_silent print_locked
  write_have l log_lvl date peer_id_1 peer_id_2 pcno =
      if is_silent l log_lvl
      then ok l
      else print_locked l (record {
        format = bytes_of "[%s]: Peer %d received the 'have' message from %d for the piece %d. \n";
        args = text date ∷ number peer_id_1 ∷ number peer_id_2 ∷ number pcno ∷ [];
      })

  -- `write_msg(log_lvl, peer_id_1, peer_id_2, pcno, npcs)`.
  pub write_downloaded : Logger F M → LogLvl → List ℕ → ℕ → ℕ → ℕ → ℕ → Outcome (Logger F M)
  unfolding is_silent print_locked
  write_downloaded l log_lvl date peer_id_1 peer_id_2 pcno npcs =
      if is_silent l log_lvl
      then ok l
      else print_locked l (record {
        format =
            bytes_of "[%s]: Peer %d has downloaded the piece %d from %d. "
            ++ bytes_of "Now the number of pieces it has is %d. \n";
        args = text date ∷ number peer_id_1 ∷ number pcno ∷ number peer_id_2 ∷ number npcs ∷ [];
      })

  -- `write_msg(log_lvl, peer_id)`.
  pub write_complete : Logger F M → LogLvl → List ℕ → ℕ → Outcome (Logger F M)
  unfolding is_silent print_locked
  write_complete l log_lvl date peer_id =
      if is_silent l log_lvl
      then ok l
      else print_locked l (record {
        format = bytes_of "[%s]: Peer %d has downloaded the complete file. \n";
        args = text date ∷ number peer_id ∷ [];
      })

  -- `write_msg(log_lvl, peer_id, peers)`.
  pub write_preferred : Logger F M → LogLvl → List ℕ → ℕ → List ℕ → Outcome (Logger F M)
  unfolding is_silent print_locked joined
  write_preferred l log_lvl date peer_id peers =
      if is_silent l log_lvl
      then ok l
      else print_locked l (record {
        format = bytes_of "[%s]: Peer %d has the preferred neighbors %s. \n";
        args = text date ∷ number peer_id ∷ text (joined peers) ∷ [];
      })

  -- The choice among the overloads.
  pub write_msg : Logger F M → List ℕ → Call → Outcome (Logger F M)
  write_msg l date (message lvl msg args) = write_message l lvl msg args
  write_msg l date (pair lvl p q) = write_pair l lvl date p q
  write_msg l date (have_piece lvl p q pcno) = write_have l lvl date p q pcno
  write_msg l date (downloaded lvl p q pcno npcs) = write_downloaded l lvl date p q pcno npcs
  write_msg l date (complete lvl p) = write_complete l lvl date p
  write_msg l date (preferred lvl p peers) = write_preferred l lvl date p peers
