-- ===== src/Main/Windows.antt =====
-- The agent as a Windows service (src/equus.c): `win32_service_main`, the handler of controls and the
-- thread of the agent, statement by statement on the globals that they share. Which of the three goes
-- on next, what a call answers and when a control comes is open.
pub mod Codes
pub mod Races
pub mod Reports
pub mod Stops
pub mod Client
pub mod Entry
mod Tests
use ck_agent.Base.{
  ℕ, ◌≡◌, Bool, true, false, Option, none, some, List, [], ◌∷◌, ◌==◌, if◌then◌else◌,
}

-- `dwCurrentState`; `unset` is the 0 that the struct is initialised with.
pub data ServiceState : Type 0 where
  unset running stop_pending stopped : ServiceState

pub record Status : Type 0 where
  pub state : ServiceState
  pub own_process : Bool
  pub accepts_stop : Bool
  pub win32_exit : ℕ
  pub specific_exit : ℕ

-- The next statement of `win32_service_main`; the last four are behind `error:`.
pub data Place : Type 0 where
  registering set_running report_running create_event create_thread waiting : Place
  test_exit set_stopped report_stopped returned : Place
  take_error set_failed report_failed : Place

pub data Control : Type 0 where
  stop : Control
  other : ℕ → Control

-- The next statement of `win32_service_handler`; in `idle` it is not running.
pub data Stage : Type 0 where
  idle signalling reporting : Stage
  called : Control → Stage

-- `win32_thread_proc`, which ends with the exit code of `main_core`.
pub data Thread : Type 0 where
  absent working : Thread
  ended : ℕ → Thread

-- The globals, where the threads are, and the reports of `SetServiceStatus`, the last one first. `event`
-- is none while the handle is NULL, and says whether the event is set.
pub record Process : Type 0 where
  pub main : Place
  pub handler : Stage
  pub agent : Thread
  pub handle : Bool
  pub status : Status
  pub event : Option Bool
  pub reports : List Status

abbrev pub error_service_specific : ℕ
error_service_specific = 1066

-- `SetServiceStatus(g_service_handle, &g_service_status)`
abbrev pub report : Process → Process
report p = record p { reports = p.status ∷ p.reports }

abbrev pub set_state : ServiceState → Process → Process
set_state s p = record p { status = record (p.status) { state = s } }

abbrev pub is_set : Option Bool → Bool
is_set (some b) = b
is_set none = false

-- `WaitForMultipleObjects` and what depends on its answer; where neither the thread has ended nor the
-- event is set it goes on waiting. If both are so, the thread counts, which is the first of the two.
unfoldable pub wait : Process → Process
wait p = elim p.agent [
  | ended code ↦ record p { main = test_exit; status = record (p.status) { specific_exit = code } }
  | absent ↦ if is_set p.event then record p { main = test_exit } else p
  | working ↦ if is_set p.event then record p { main = test_exit } else p
]

-- The next statement of `win32_service_main`, where the three assignments of `set_running` count as one
-- and the exit code of an ended thread can always be read; `ok` says whether its call succeeds, `error` is what
-- `GetLastError` gives.
unfoldable pub service_main : (ok : Bool) (error : ℕ) → Process → Process
unfolding wait
service_main ok error p = elim p.main [
  | registering ↦
      if ok then record p { main = set_running; handle = true } else record p { main = returned }
  | set_running ↦ record p {
    main = report_running;
    status = record (p.status) { state = running; own_process = true; accepts_stop = true };
  }
  | report_running ↦ record (report p) { main = create_event }
  | create_event ↦
      if ok
      then record p { main = create_thread; event = some false }
      else record p { main = take_error }
  | create_thread ↦
      if ok then record p { main = waiting; agent = working } else record p { main = take_error }
  | waiting ↦ wait p
  | test_exit ↦ if p.status.specific_exit == 0 then record p { main = set_stopped } else record p {
    main = set_stopped;
    status = record (p.status) { win32_exit = error_service_specific };
  }
  | set_stopped ↦ record (set_state stopped p) { main = report_stopped }
  | report_stopped ↦ record (report p) { main = returned }
  | returned ↦ p
  | take_error ↦ record p { main = set_failed; status = record (p.status) { win32_exit = error } }
  | set_failed ↦ record (set_state stopped p) { main = report_failed }
  | report_failed ↦ record (report p) { main = returned }
]

-- `SetEvent`, which fails on NULL.
abbrev pub set_event : Option Bool → Option Bool
set_event none = none
set_event (some b) = some true

-- The next statement of `win32_service_handler`.
unfoldable pub service_handler : Process → Process
service_handler p = elim p.handler [
  | idle ↦ p
  | called stop ↦ record (set_state stop_pending p) { handler = signalling }
  | called (other c) ↦ record p { handler = reporting }
  | signalling ↦ record p { handler = reporting; event = set_event p.event }
  | reporting ↦ record (report p) { handler = idle }
]

-- The service control manager passes a stop on only where the last report says that the service runs and
-- accepts it, not where it says that a stop is pending or nothing has been reported; other controls
-- are left open.
abbrev pub IsPassedOn : Control → List Status → Type 0
IsPassedOn stop [] = ⊥
IsPassedOn stop (s ∷ ss) = (s.state ≡ running) × (s.accepts_stop ≡ true)
IsPassedOn (other c) ss = Unit

-- A control comes once the handler is registered, and not while the handler runs.
pub data Step (p : Process) : Process → Type 0 where
  serves : (ok : Bool) (error : ℕ) → Step p (service_main ok error p)
  handles : Step p (service_handler p)
  receives :
      (c : Control)
      → p.handle ≡ true
      → p.handler ≡ idle
      → IsPassedOn c p.reports
      → Step p (record p { handler = called c })
  ends : (code : ℕ) → p.agent ≡ working → Step p (record p { agent = ended code })

abbrev pub zero_status : Status
zero_status = record {
  state = unset;
  own_process = false;
  accepts_stop = false;
  win32_exit = 0;
  specific_exit = 0;
}

abbrev pub started : Process
started = record {
  main = registering;
  handler = idle;
  agent = absent;
  handle = false;
  status = zero_status;
  event = none;
  reports = [];
}

pub data Reach : Process → Type 0 where
  begin : Reach started
  later : {p q : Process} → Reach p → Step p q → Reach q
