-- ===== src/Logger/Lines.antt =====
-- The log of logger/logger.cpp as the list of lines that a reader of it sees.
use btrx.Prelude.{
  ℕ, ◌≡◌, refl, true, false, List, [], ◌∷◌, ◌++◌, Outcome, ok, ◌>>=◌, ltb, if◌then◌else◌,
  Bool-cases, inl, inr,
}
use btrx.Mutex.{Mutexes, IsOpen}
use btrx.CString.{bytes_of}
use btrx.Streams.{number, text, Streams}
use btrx.Logger.{
  LogLvl, value, Logger, Line, pair_line, joined, Call, message, pair, have_piece, downloaded,
  complete, preferred, is_silent, print, lock, un_lock, print_locked, write_message, write_pair,
  write_have, write_downloaded, write_complete, write_preferred, write_msg,
}

abbrev pub level : Call → LogLvl
level (message lvl msg args) = lvl
level (pair lvl p q) = lvl
level (have_piece lvl p q pcno) = lvl
level (downloaded lvl p q pcno npcs) = lvl
level (complete lvl p) = lvl
level (preferred lvl p peers) = lvl

abbrev pub line_of : List ℕ → Call → Line
line_of date (message lvl msg args) = record { format = msg; args = args }
line_of date (pair lvl p q) = pair_line lvl date p q
line_of date (have_piece lvl p q pcno) = record {
  format = bytes_of "[%s]: Peer %d received the 'have' message from %d for the piece %d. \n";
  args = text date ∷ number p ∷ number q ∷ number pcno ∷ [];
}
line_of date (downloaded lvl p q pcno npcs) = record {
  format =
      bytes_of "[%s]: Peer %d has downloaded the piece %d from %d. "
      ++ bytes_of "Now the number of pieces it has is %d. \n";
  args = text date ∷ number p ∷ number pcno ∷ number q ∷ number npcs ∷ [];
}
line_of date (complete lvl p) = record {
  format = bytes_of "[%s]: Peer %d has downloaded the complete file. \n";
  args = text date ∷ number p ∷ [];
}
line_of date (preferred lvl p peers) = record {
  format = bytes_of "[%s]: Peer %d has the preferred neighbors %s. \n";
  args = text date ∷ number p ∷ text (joined peers) ∷ [];
}

-- The lines of the calls at or below a level, each call with its date.
abbrev pub shown : LogLvl → List (List ℕ × Call) → List Line
shown max_lvl [] = []
shown max_lvl ((date, call) ∷ calls) =
    if ltb (value max_lvl) (value (level call))
    then shown max_lvl calls
    else line_of date call ∷ shown max_lvl calls

module _ {F M : Type 0} (st : Streams F) (mx : Mutexes M) where
  abbrev pub printed : F → List Line → F
  printed f [] = f
  printed f (line ∷ lines) = printed (st.fprintf f line.format line.args) lines

  -- One call after the other.
  pub write_all : Logger F M → List (List ℕ × Call) → Outcome (Logger F M)
  write_all l [] = ok l
  write_all l ((date, call) ∷ calls) = do l' ← write_msg st mx l date call; write_all l' calls

  print_locked_line :
      (l : Logger F M) (line : Line)
      → IsOpen mx l.mut
      → print_locked st mx l line ≡ ok (print st mx l line)
  unfolding print_locked lock un_lock print
  print_locked_line l line open_mut = rw (open_mut.lock_ok, open_mut.unlock_ok) refl

  silent_call :
      (l : Logger F M) (date : List ℕ) (call : Call)
      → ltb (value l.max_lvl) (value (level call)) ≡ true
      → write_msg st mx l date call ≡ ok l
  unfolding write_msg write_message write_pair write_have write_downloaded write_complete
      write_preferred is_silent
  silent_call l date (message lvl msg args) h = rw h refl
  silent_call l date (pair lvl p q) h = rw h refl
  silent_call l date (have_piece lvl p q pcno) h = rw h refl
  silent_call l date (downloaded lvl p q pcno npcs) h = rw h refl
  silent_call l date (complete lvl p) h = rw h refl
  silent_call l date (preferred lvl p peers) h = rw h refl

  loud_call :
      (l : Logger F M) (date : List ℕ) (call : Call)
      → IsOpen mx l.mut
      → ltb (value l.max_lvl) (value (level call)) ≡ false
      → write_msg st mx l date call ≡ ok (print st mx l (line_of date call))
  unfolding write_msg write_message write_pair write_have write_downloaded write_complete
      write_preferred is_silent
  loud_call l date (message lvl msg args) o h = rw h refl
  loud_call l date (pair lvl p q) o h = rw h (print_locked_line l _ o)
  loud_call l date (have_piece lvl p q pcno) o h = rw h (print_locked_line l _ o)
  loud_call l date (downloaded lvl p q pcno npcs) o h = rw h (print_locked_line l _ o)
  loud_call l date (complete lvl p) o h = rw h (print_locked_line l _ o)
  loud_call l date (preferred lvl p peers) o h = rw h (print_locked_line l _ o)

  -- From an unlocked mutex, any sequence of calls succeeds, leaves the mutex as it was, and writes to
  -- the log exactly the lines of the calls whose level is at most the logger's, in the order of the
  -- calls.
  pub write_all-shown :
      (calls : List (List ℕ × Call)) (l : Logger F M)
      → IsOpen mx l.mut
      → write_all l calls ≡ ok (record l { f = printed l.f (shown l.max_lvl calls) })
  unfolding write_all print
  write_all-shown [] l o = refl
  write_all-shown ((date, call) ∷ calls) l o =
      elim (Bool-cases (ltb (value l.max_lvl) (value (level call)))) [
        | inl silent ↦ rw (silent, silent_call l date call silent) (write_all-shown calls l o)
        | inr loud ↦
            rw (loud, loud_call l date call o loud)
              (write_all-shown calls (print st mx l (line_of date call)) o)
      ]
