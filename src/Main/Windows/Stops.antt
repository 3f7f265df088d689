-- ===== src/Main/Windows/Stops.antt =====
-- A Windows service whose stop event is set ends.
use ck_agent.Base.{ℕ, ◌+◌, ◌-◌, ◌≤◌, ◌≡◌, refl, inl, inr, Bool, true, some, arith, ◌==◌, Bool-cases}
use ck_agent.Main.Windows.{
  Place, registering, set_running, report_running, create_event, create_thread, waiting, test_exit,
  set_stopped, report_stopped, returned, take_error, set_failed, report_failed, stop, other, Stage,
  idle, signalling, reporting, called, Process, wait, service_main, service_handler, Step, serves,
  handles, receives, ends,
}
use ck_agent.Main.Windows.Codes.{Thread-cases}

-- A run in which `win32_service_main` has at least as many turns as it says.
pub data Run (p : Process) : ℕ → Process → Type 0 where
  stay : Run p 0 p
  turn :
      {n : ℕ} {q : Process}
      → Run p n q
      → (ok : Bool) (error : ℕ) → Run p (n + 1) (service_main ok error q)
  aside : {n : ℕ} {q r : Process} → Run p n q → Step q r → Run p n r

-- The statements from the wait to the end.
abbrev IsEnding : Place → Type 0
IsEnding waiting = Unit
IsEnding test_exit = Unit
IsEnding set_stopped = Unit
IsEnding report_stopped = Unit
IsEnding returned = Unit
IsEnding registering = ⊥
IsEnding set_running = ⊥
IsEnding report_running = ⊥
IsEnding create_event = ⊥
IsEnding create_thread = ⊥
IsEnding take_error = ⊥
IsEnding set_failed = ⊥
IsEnding report_failed = ⊥

abbrev statements : Place → ℕ
statements waiting = 4
statements test_exit = 3
statements set_stopped = 2
statements report_stopped = 1
statements l = 0

-- The event is set, and at most that many statements are left.
abbrev IsStopping : ℕ → Process → Type 0
IsStopping n p = IsEnding p.main × (statements p.main ≤ n) × (p.event ≡ some true)

wait-main :
    (p : Process) → p.event ≡ some true → ((wait p).main ≡ test_exit) × ((wait p).event ≡ some true)
unfolding wait
wait-main p set = elim (Thread-cases p.agent) [
  | inl off ↦ rw (off, set) (refl, refl)
  | inr (inl on) ↦ rw (on, set) (refl, refl)
  | inr (inr (c, over)) ↦ rw over (refl, set)
]

turn-IsStopping :
    (ok : Bool) (error n : ℕ) (l : Place) (p : Process)
    → IsEnding l
    → statements l ≤ n
    → p.event ≡ some true
    → IsStopping (n - 1) (service_main ok error (record p { main = l }))
unfolding service_main
turn-IsStopping ok error n waiting p e le set =
    let (at, still) = wait-main (record p { main = waiting }) set in rw at (tt, omega arith, still)
turn-IsStopping ok error n test_exit p e le set = elim (Bool-cases (p.status.specific_exit == 0)) [
  | inl zero ↦ rw zero (tt, omega arith, set)
  | inr nonzero ↦ rw nonzero (tt, omega arith, set)
]
turn-IsStopping ok error n set_stopped p e le set = (tt, omega arith, set)
turn-IsStopping ok error n report_stopped p e le set = (tt, omega arith, set)
turn-IsStopping ok error n returned p e le set = (tt, omega arith, set)
turn-IsStopping ok error n registering p e le set = absurd e
turn-IsStopping ok error n set_running p e le set = absurd e
turn-IsStopping ok error n report_running p e le set = absurd e
turn-IsStopping ok error n create_event p e le set = absurd e
turn-IsStopping ok error n create_thread p e le set = absurd e
turn-IsStopping ok error n take_error p e le set = absurd e
turn-IsStopping ok error n set_failed p e le set = absurd e
turn-IsStopping ok error n report_failed p e le set = absurd e

handles-IsStopping :
    (n : ℕ) (s : Stage) (p : Process)
    → IsStopping n p
    → IsStopping n (service_handler (record p { handler = s }))
unfolding service_handler
handles-IsStopping n idle p h = h
handles-IsStopping n (called stop) p h = h
handles-IsStopping n (called (other c)) p h = h
handles-IsStopping n signalling p (e, le, set) = (e, le, rw set refl)
handles-IsStopping n reporting p h = h

Step-IsStopping : (n : ℕ) {p q : Process} → Step p q → IsStopping n p → IsStopping n q
Step-IsStopping n {p} (serves ok error) (e, le, set) =
    let (f, lt, still) = turn-IsStopping ok error n p.main p e le set in (f, omega arith, still)
Step-IsStopping n {p} handles h = handles-IsStopping n p.handler p h
Step-IsStopping n (receives c live off passed) h = h
Step-IsStopping n (ends code on) h = h

Run-IsStopping :
    (p : Process) {q : Process} {n : ℕ} → Run p n q → IsStopping 4 p → IsStopping (4 - n) q
Run-IsStopping p stay h = h
Run-IsStopping p (turn {n} {q} r ok error) h =
    let (e, le, set) = Run-IsStopping p r h in
    let (f, lt, still) = turn-IsStopping ok error (4 - n) q.main q e le set in
    (f, omega arith, still)
Run-IsStopping p (aside {n} r s) h = Step-IsStopping (4 - n) s (Run-IsStopping p r h)

ended-returned : (l : Place) → IsEnding l → statements l ≤ 0 → l ≡ returned
ended-returned returned e le = refl
ended-returned waiting e le = absurd (omega arith)
ended-returned test_exit e le = absurd (omega arith)
ended-returned set_stopped e le = absurd (omega arith)
ended-returned report_stopped e le = absurd (omega arith)
ended-returned registering e le = absurd e
ended-returned set_running e le = absurd e
ended-returned report_running e le = absurd e
ended-returned create_event e le = absurd e
ended-returned create_thread e le = absurd e
ended-returned take_error e le = absurd e
ended-returned set_failed e le = absurd e
ended-returned report_failed e le = absurd e

-- A service that waits with its stop event set returns within four turns, whatever the handler, the
-- agent and further controls do in between.
pub Run-returned :
    (p q : Process) (n : ℕ)
    → p.main ≡ waiting
    → p.event ≡ some true
    → Run p n q
    → 4 ≤ n
    → q.main ≡ returned
Run-returned p q n at set r le =
    let start : IsStopping 4 p = rw at (tt, omega arith, set) in
    let (e, few, _) = Run-IsStopping p r start in ended-returned q.main e (omega arith)
