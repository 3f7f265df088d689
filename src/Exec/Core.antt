-- ===== src/Exec/Core.antt =====
-- `equus_exec_call_unix_core` as a whole, on the side of the parent.
pub mod Ends
pub mod Raises
mod Tests
use ck_agent.Base.{
  ℕ, zero, suc, ◌≡◌, ◌≢◌, refl, inl, inr, ◌∙◌, sym, Bool, true, false, not, Option, none, some,
  List, [], ◌∷◌, ◌++◌, arith, ◌==◌, if◌then◌else◌, Bytes, length, Option-cases,
}
use ck_agent.Lua.{LuaValue}
use ck_agent.Exec.{
  Select, Wait, wait_error, other_pid, exited, killed, Call, pipe_stdout, pipe_stderr, fork, select,
  read_stdout, read_stderr, waitpid, Parent, Run, finished, raised, running, ◌>>=◌, pluaerror,
  >>=-eq-finished, >>=-eq-raised,
}
use ck_agent.Exec.Argv.{Argv, filled, refused, gather}
use ck_agent.Exec.Loop.{read_loop, wait_loop}
use ck_agent.Exec.Loop.Reads.{InStep, Collected, ReportsAsked, read_loop-Collected, all_bytes}
use ck_agent.Exec.Loop.Ends.{
  RaisedIn, read_loop-RaisedIn, read_loop-InStep, EndsBoth, read_loop-total, SameElse,
}

-- The answers of the system, in the order of the calls: none where a call succeeds.
pub record Script : Type 0 where
  pub pipe_out : Option ℕ
  pub pipe_err : Option ℕ
  pub forking : Option ℕ
  pub selects : List Select
  pub waits : List Wait

-- The state before the first `pipe`, with `n` copies in `argv`.
abbrev pub initial : ℕ → Parent
initial n = record {
  out_read = false;
  out_write = false;
  err_read = false;
  err_write = false;
  out_live = false;
  err_live = false;
  strings = n;
  output = [];
}

-- `else if (pid != -1)`: the string "" is pushed, and the exit code behind the output.
parent : Script → Parent → Run ℕ
parent s p =
    read_loop s.selects (record p { out_write = false; err_write = false; output = [] }) >>= λ _ p.
    wait_loop s.waits p

-- `pid = fork()`
after_pipes : Script → Parent → Run ℕ
after_pipes s p = elim s.forking [ none ↦ parent s p | some e ↦ pluaerror fork e p ]

open_stderr : Script → Parent → Run ℕ
unfolding after_pipes
open_stderr s p = elim s.pipe_err [
  | none ↦ after_pipes s (record p { err_read = true; err_write = true; err_live = true })
  | some e ↦ pluaerror pipe_stderr e p
]

-- The run from the first `pipe` on; it finishes with the exit code, and the output in its state.
pub call : Script → Parent → Run ℕ
unfolding open_stderr
call s p = elim s.pipe_out [
  | none ↦ open_stderr s (record p { out_read = true; out_write = true; out_live = true })
  | some e ↦ pluaerror pipe_stdout e p
]

-- A value of the table that is no string raises before anything is opened: the copies leak.
pub data Exec : Type 0 where
  bad_argument : (leaked : ℕ) → Exec
  ran : List Bytes → Run ℕ → Exec

pub exec_call_unix_core : Script → List LuaValue → Exec
unfolding call parent
exec_call_unix_core s vs = elim (gather 0 vs) [
  | refused i ↦ bad_argument i
  | filled argv ↦ ran argv (call s (initial (length argv)))
]
