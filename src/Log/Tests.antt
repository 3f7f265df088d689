-- ===== src/Log/Tests.antt =====
-- Runs of the logger of src/equus_util.c that writes to a file.
use ck_agent.Base.{
  ◌≡◌, ◌≤◌, refl, none, some, [], arith, Bytes, codes, length, ◌==◌, if◌then◌else◌, HasNoNul,
}
use ck_agent.Log.Level.{critical, info, debug, rank}
use ck_agent.Log.Line.{buffer_size, log_buffer, log_buffer_fits}
use ck_agent.Log.{file, Logger, equus_log, Opening, log_set_path}
use ck_agent.Log.Write.{entries, equus_log-entries}
use ck_agent.Log.Signals.{writing, interrupted, outcome, interrupted-outcome}
use ck_agent.Log.Nested.{switched, Outcome, interrupted_rotate, interrupted_rotate-Outcome}
use ck_agent.Log.SetPath.{log_set_path-crash}

abbrev now : Bytes
now = codes "Wed Jun 30 21:49:08 1993"

now-HasNoNul : HasNoNul now
now-HasNoNul = ground arith

-- The log is the file 3, whose path is kept at 4.
abbrev logger : Logger
logger = record {
  level = debug;
  fp = file 3;
  path = 4;
  strings = λ p. if p == 4 then some (codes "old.log") else none;
  is_open = λ k. k == 3;
  written = [];
}

abbrev opening : Opening
opening = record { opens = λ b. some 5; message = λ b. codes "no" }

log_buffer_fits_example : length (log_buffer now info (codes "hello")) ≤ buffer_size
log_buffer_fits_example = log_buffer_fits now info (codes "hello")

equus_log-entries_example :
    equus_log now critical (codes "oops") logger
    ≡ some (tt, record logger { written = entries now critical (codes "oops") (file 3) })
unfolding rank
equus_log-entries_example =
    equus_log-entries now critical (codes "oops") logger (omega arith) now-HasNoNul (ground arith)
      refl

log_set_path-crash_example : log_set_path opening now 8 (some (codes "-")) logger ≡ none
log_set_path-crash_example =
    log_set_path-crash opening now logger 8 (some (codes "-")) (codes "old.log") refl (ground arith)
      refl

interrupted-outcome_example :
    interrupted opening now writing (codes "oops") logger
    ≡ outcome now logger (codes "oops") 3 5 writing
unfolding rank
interrupted-outcome_example =
    interrupted-outcome opening now logger (codes "old.log") (codes "oops") 3 5 (ground arith) refl
      refl refl refl now-HasNoNul (omega arith) writing

abbrev opening_again : Opening
opening_again = record { opens = λ b. some 6; message = λ b. codes "no" }

interrupted_rotate-Outcome_example :
    Outcome opening now logger 3 5 6 switched
      (interrupted_rotate opening opening_again now switched logger)
unfolding rank
interrupted_rotate-Outcome_example =
    interrupted_rotate-Outcome opening opening_again now logger (codes "old.log") 3 5 6
      (ground arith) refl refl refl (ground arith) refl refl refl now-HasNoNul (omega arith)
      switched
