-- ===== src/Exec/Core/Tests.antt =====
-- Runs of `equus_exec_call_unix_core` of src/equus_portable.c, one that succeeds and one in which a
-- read fails for good, and of `equus_exec_call_win32_core`.
use ck_agent.Base.{◌≡◌, refl, true, none, some, List, [], ◌∷◌, arith, codes}
use ck_agent.Lua.{LuaValue, text, other}
use ck_agent.Exec.Argv.{gather}
use ck_agent.Exec.{
  eof, got, read_error, Select, select_error, ready, exited, read_stderr, Parent, finished, raised,
}
use ck_agent.Exec.Child.{Table, inherited, Pipes, AreFresh}
use ck_agent.Exec.Windows
use ck_agent.Exec.Windows.{exec_call_win32_core-EndsReleased}
use ck_agent.Exec.Loop.{read_loop, wait_loop}
use ck_agent.Exec.Loop.Reads.{Collected, read_loop-Collected}
use ck_agent.Exec.Core.{Script, initial, parent, call, exec_call_unix_core, ran, bad_argument}
use ck_agent.Exec.Core.Ends.{AllClosed, call_returns, call-AllClosed}

-- An interrupted `select`, a read from each stream, a read that must be tried again, both ends.
abbrev good_selects : List Select
good_selects =
    select_error 4
    ∷ ready (some (got (codes "a"))) (some (got (codes "b")))
    ∷ ready (some (read_error 11)) (some eof)
    ∷ ready (some eof) none
    ∷ []

abbrev good : Script
good = record {
  pipe_out = none;
  pipe_err = none;
  forking = none;
  selects = good_selects;
  waits = exited 3 ∷ [];
}

-- Behind the first read of stdout, the one of stderr fails with the number 5.
abbrev bad : Script
bad = record good { selects = ready (some (got (codes "a"))) (some (read_error 5)) ∷ [] }

-- What the reading loop starts from.
abbrev reading : Parent
reading = record (initial 2) { out_read = true; out_live = true; err_read = true; err_live = true }

abbrev good_end : Parent
good_end = record (initial 2) { output = codes "ab" }

abbrev bad_end : Parent
bad_end = record (initial 0) {
  out_read = true;
  out_live = true;
  err_live = true;
  output = codes "a";
}

good_run : call good (initial 2) ≡ finished 3 good_end
unfolding call parent read_loop wait_loop
good_run = refl

bad_run : call bad (initial 2) ≡ raised read_stderr 5 bad_end
unfolding call parent read_loop
bad_run = refl

good_loop : read_loop good_selects reading ≡ finished [] good_end
unfolding read_loop
good_loop = refl

call_returns_example :
    (q : Parent) × (call good (initial 2) ≡ finished 3 q)
    × ((rest : List Select) × Collected good_selects reading rest q)
call_returns_example =
    call_returns good 2 3 [] (refl, refl, refl) (ground arith) (ground arith) refl

abbrev words : List LuaValue
words = text (codes "a") ∷ text (codes "b") ∷ []

bad_core :
    exec_call_unix_core bad words ≡ ran (codes "a" ∷ codes "b" ∷ []) (raised read_stderr 5 bad_end)
unfolding exec_call_unix_core gather call parent read_loop
bad_core = refl

bad_words : exec_call_unix_core bad (text (codes "a") ∷ other ∷ []) ≡ bad_argument 1
unfolding exec_call_unix_core gather
bad_words = refl

call-AllClosed_example : AllClosed good_end × (good_end.strings ≡ 2)
call-AllClosed_example = call-AllClosed good 2 {code = 3} {q = good_end} good_run

read_loop-Collected_example : Collected good_selects reading [] good_end
read_loop-Collected_example = read_loop-Collected good_selects reading (ground arith) good_loop

abbrev pipes : Pipes
pipes = record { out0 = 3; out1 = 4; err0 = 5; err1 = 6 }

abbrev three_files : Table
three_files d = some inherited

pipes-AreFresh : AreFresh pipes
pipes-AreFresh = record {
  out0_fresh = omega arith;
  out1_fresh = omega arith;
  err0_fresh = omega arith;
  err1_fresh = omega arith;
  out0_out1 = ground arith;
  out0_err0 = ground arith;
  out0_err1 = ground arith;
  out1_err0 = ground arith;
  out1_err1 = ground arith;
  err0_err1 = ground arith;
}

-- A pipe that gives a text with a NUL in it, and then breaks.
abbrev win_answers : Windows.Answers
win_answers = record {
  copied = true;
  create_pipe = true;
  set_information = true;
  duplicate = true;
  created = none;
  reads = Windows.got_bytes (97 ∷ 0 ∷ 98 ∷ []) ∷ Windows.broken_pipe ∷ [];
  exit_code = 7;
}

exec_call_win32_core-EndsReleased_example :
    Windows.EndsReleased win_answers
      (text (codes "dir") ∷ [])
      (Windows.exec_call_win32_core (λ e. []) win_answers (text (codes "dir") ∷ []))
exec_call_win32_core-EndsReleased_example =
    exec_call_win32_core-EndsReleased (λ e. []) win_answers (text (codes "dir") ∷ []) tt
