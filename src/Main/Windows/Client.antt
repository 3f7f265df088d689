-- ===== src/Main/Windows/Client.antt =====
-- `win32_service_stop` of src/equus_service.c against a service process of src/equus.c that has lost a stop.
use ck_agent.Base.{ℕ, ◌≤◌, ◌≡◌, ◌∙◌, refl, Bool, none, List, [], ◌∷◌, length}
use ck_agent.Main.Windows.{
  ServiceState, unset, running, stop_pending, stopped, Status, Process, service_main,
  service_handler,
}
use ck_agent.Main.Windows.Races.{IsDeaf}
use ck_agent.Service as Control
use ck_agent.Service.{Query, failed, status, Round}
use ck_agent.Service.Stop.{Answers}
use ck_agent.Service.Stop.Ends.{IsPaced}
use ck_agent.Service.Stop.Pending.{IsPending, AllPending, NeverSends, stop-NeverSends}

-- The value of the C constant.
abbrev pub code : ServiceState → ℕ
code unset = 0
code stopped = Control.stopped
code stop_pending = Control.stop_pending
code running = Control.service_running

-- The state that was reported last; a service that has not reported yet is starting.
abbrev pub last_report : List Status → ℕ
last_report [] = Control.start_pending
last_report (s ∷ _) = code s.state

-- The service control manager tells the last report.
abbrev pub Tells : Query → Process → Type 0
Tells (failed e) p = ⊥
Tells (status st) p = st.current_state ≡ last_report p.reports

-- Turns of the service and of its handler, while the agent goes on working and no control comes.
pub data Quiet (p : Process) : Process → Type 0 where
  still : Quiet p p
  serving : {q : Process} → Quiet p q → (ok : Bool) (error : ℕ) → Quiet p (service_main ok error q)
  handling : {q : Process} → Quiet p q → Quiet p (service_handler q)

-- Between two queries the process takes any such turns.
pub data Watches : Process → List Round → Type 0 where
  done : {p : Process} → Watches p []
  round :
      {p q : Process} {r : Round} {rs : List Round}
      → Quiet p q
      → Tells r.query q
      → Watches q rs
      → Watches p (r ∷ rs)

Quiet-deaf : {p q : Process} → Quiet p q → IsDeaf p → q ≡ p
Quiet-deaf still deaf = refl
Quiet-deaf (serving w ok error) deaf = rw (Quiet-deaf w deaf) (deaf.3 ok error)
Quiet-deaf (handling w) deaf = rw (Quiet-deaf w deaf) deaf.2

Tells-IsPending :
    (r : Query) (p : Process)
    → last_report p.reports ≡ Control.stop_pending
    → Tells r p
    → IsPending r
Tells-IsPending (status st) p now told = told ∙ now
Tells-IsPending (failed e) p now told = told

Watches-AllPending :
    {p : Process} {rs : List Round}
    → Watches p rs
    → IsDeaf p
    → last_report p.reports ≡ Control.stop_pending
    → AllPending rs
Watches-AllPending done deaf now = tt
Watches-AllPending {p} (round {q} {r} w told ws) deaf now =
    let same : q ≡ p = Quiet-deaf w deaf in
    let deaf' : IsDeaf q = rw same deaf in
    let now' : last_report q.reports ≡ Control.stop_pending = rw same now in
    (Tells-IsPending r.query q now' told, Watches-AllPending ws deaf' now')

-- A service that has lost a stop, so that its last report is that the stop is pending and neither it nor its
-- handler goes on, is not sent another one: `win32_service_stop` sees only that the stop is pending, and
-- whatever `ControlService` would answer it ends with the message that the stop timed out and closes
-- both handles. The agent works on and no other control comes; the first loop has 31 rounds on a clock that
-- runs at least as long as their sleeps.
pub deaf-NeverSends :
    (p : Process) (a : Answers)
    → IsDeaf p
    → last_report p.reports ≡ Control.stop_pending
    → a.manager ≡ none
    → a.service ≡ none
    → Tells a.first p
    → Watches p a.stopping
    → IsPaced a.start 1 a.stopping
    → 31 ≤ length a.stopping
    → NeverSends a
deaf-NeverSends p a deaf now m v first watched paced long =
    stop-NeverSends a m v (Tells-IsPending a.first p now first)
      (Watches-AllPending watched deaf now) paced long
