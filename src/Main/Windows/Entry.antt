-- ===== src/Main/Windows/Entry.antt =====
-- How the service starts in src/equus.c: `win32_run_service`, which `main` calls, and
-- `win32_thread_proc`, which the service starts as the thread of the agent. Which file
-- `ExpandEnvironmentStrings` names, whether `CreateFile` and the dispatcher succeed, and `main_core`
-- are arguments.
use ck_agent.Base.{ℕ, ◌+◌, ◌-◌, ◌≡◌, refl, Bool, true, false, List, ◌∷◌, if◌then◌else◌, Bytes}

-- `g_argv`, `g_equus_win_service`, the files that were created, the handles that are open and how many
-- messages were logged.
pub record Entry : Type 0 where
  pub argv : List Bytes
  pub win_service : Bool
  pub created : List Bytes
  pub handles : ℕ
  pub logged : ℕ

-- `return` with a value, or `TerminateProcess`.
pub data Ending : Type 0 where
  returns terminates : ℕ → Ending

-- The dispatcher returns when the service has ended; its threads run inside that call.
pub win32_run_service :
    (dispatcher : Entry → Bool × Entry) → (argv : List Bytes) → Entry → Ending × Entry
win32_run_service dispatcher argv e =
    let (ok, e') = dispatcher (record e { argv = argv }) in
    if ok then (terminates 0, e') else (returns 1, record e' { logged = e'.logged + 1 })

-- `CreateFile` of a file that must be new, and `CloseHandle`.
abbrev close_handle : Entry → Entry
close_handle e = record e { handles = e.handles - 1 }

abbrev create_config : (path : Bytes) (succeeds : Bool) → Entry → Entry
create_config path true e =
    close_handle (record e { created = path ∷ e.created; handles = e.handles + 1 })
create_config path false e = e

pub win32_thread_proc :
    (path : Bytes) (succeeds : Bool) (core : List Bytes → Entry → ℕ × Entry) → Entry → ℕ × Entry
win32_thread_proc path succeeds core e =
    let e' = record (create_config path succeeds e) { win_service = true } in core e'.argv e'

-- The agent of a service gets the arguments of `main`.
run_service-argv :
    (path : Bytes) (succeeds : Bool) (core : List Bytes → Entry → ℕ × Entry) (argv : List Bytes)
    (e : Entry)
    → win32_thread_proc path succeeds core (record e { argv = argv })
      ≡ core argv (record (create_config path succeeds e) { argv = argv; win_service = true })
unfolding win32_thread_proc
run_service-argv path true core argv e = refl
run_service-argv path false core argv e = refl
