-- ===== src/Logger/Examples.antt =====
-- logger/logger.cpp at a concrete log, whose stream is the list of what was printed, newest first.
use btrx.Prelude.{ℕ, ◌≡◌, false, some, List, [], ◌∷◌, ok}
use btrx.Streams.{Arg, Streams}
use btrx.Logger.{Logger, Call, message, have_piece, log_hv, log_info, log_dbg}
use btrx.Logger.Lines.{line_of, write_all, write_all-shown}
use btrx.Host.{mutexes, open_mutex}

abbrev Page : Type 0
Page = List (List ℕ × List Arg)

abbrev pages : Streams Page
pages = record {
  std_out = [];
  is_std_out = λ f. false;
  fopen = λ fname. some [];
  fprintf = λ f format args. (format, args) ∷ f;
  fclose = λ f. f;
}

abbrev log : Logger Page ℕ
log = record { f = []; mut = 0; max_lvl = log_info }

abbrev call : Call
call = have_piece log_hv 1001 1002 7

-- The message for debugging is above the level of the log.
write_all-shown_example :
    write_all pages mutexes log (([], call) ∷ ([], message log_dbg [] []) ∷ [])
    ≡ ok (record log { f = ((line_of [] call).format, (line_of [] call).args) ∷ [] })
write_all-shown_example =
    write_all-shown pages mutexes (([], call) ∷ ([], message log_dbg [] []) ∷ []) log open_mutex
