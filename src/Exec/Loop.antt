-- ===== src/Exec/Loop.antt =====
-- The loops of the parent: reading both pipes until each is at its end, and waiting for the child.
pub mod Reads
pub mod Ends
use ck_agent.Base.{
  ℕ, Bool, true, false, not, ◌&&◌, Option, none, some, List, [], ◌∷◌, ◌++◌, ◌==◌, if◌then◌else◌,
}
use ck_agent.Exec.{
  eintr, eagain, Read, eof, got, read_error, Select, select_error, ready, Wait, wait_error,
  other_pid, exited, killed, select, read_stdout, read_stderr, waitpid, Parent, Run, finished,
  raised, running, ◌>>=◌, pluaerror,
}

-- The three branches behind `read(pipes_stdout[0], …)`.
on_stdout : Read → Parent → Run (Unit {0})
on_stdout eof p = finished tt (record p { out_read = false; out_live = false })
on_stdout (got b) p = finished tt (record p { output = p.output ++ b })
on_stdout (read_error e) p =
    if e == eagain then finished tt p else pluaerror read_stdout e (record p { out_read = false })

-- The three branches behind `read(pipes_stderr[0], …)`.
on_stderr : Read → Parent → Run (Unit {0})
on_stderr eof p = finished tt (record p { err_read = false; err_live = false })
on_stderr (got b) p = finished tt (record p { output = p.output ++ b })
on_stderr (read_error e) p =
    if e == eagain then finished tt p else pluaerror read_stderr e (record p { err_read = false })

-- `if (pipes_stdout[0] != -1 && FD_ISSET(…))`
unfoldable pub read_out : Option Read → Parent → Run (Unit {0})
unfolding on_stdout
read_out none p = finished tt p
read_out (some r) p = if p.out_live then on_stdout r p else finished tt p

unfoldable pub read_err : Option Read → Parent → Run (Unit {0})
unfolding on_stderr
read_err none p = finished tt p
read_err (some r) p = if p.err_live then on_stderr r p else finished tt p

-- The body of `while (1)` behind `select`.
unfoldable pub round : Select → Parent → Run (Unit {0})
unfolding read_out read_err
round (select_error e) p =
    if e == eintr
    then finished tt p
    else pluaerror select e (record p { err_read = false; out_read = false })
round (ready o e) p = read_out o p >>= λ _ p. read_err e p

-- The loop, with the answers that it has not used.
unfoldable pub read_loop : List Select → Parent → Run (List Select)
unfolding round
read_loop [] p = if not p.out_live && not p.err_live then finished [] p else running p
read_loop (s ∷ ss) p =
    let rest = round s p >>= λ _ p. read_loop ss p in
    if not p.out_live && not p.err_live then finished (s ∷ ss) p else rest

-- `do { … } while (1)` around `waitpid`: the exit code.
unfoldable pub wait_loop : List Wait → Parent → Run ℕ
wait_loop [] p = running p
wait_loop (wait_error e ∷ ws) p = pluaerror waitpid e p
wait_loop (other_pid ∷ ws) p = wait_loop ws p
wait_loop (exited code ∷ ws) p = finished code p
wait_loop (killed ∷ ws) p = finished 255 p
