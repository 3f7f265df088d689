-- ===== src/Main/Windows/Reports.antt =====
-- What the Windows service of src/equus.c has reported when it is about to create the event of a stop.
use ck_agent.Base.{◌≡◌, refl, ◌⊎◌, inl, inr, Bool, true, false, List, ◌∷◌, ◌==◌, Bool-cases, ℕ}
use ck_agent.Main.Windows.{
  running, stop_pending, Status, Place, registering, set_running, report_running, create_event,
  create_thread, waiting, test_exit, set_stopped, report_stopped, returned, take_error, set_failed,
  report_failed, stop, other, Stage, idle, called, signalling, reporting, Process, is_set, wait,
  service_main, service_handler, IsPassedOn, Step, serves, handles, receives, ends, Reach, begin,
  later,
}
use ck_agent.Main.Windows.Codes.{Thread-cases}

-- The status and the reports: the status says that the service accepts a stop, and either it says that
-- a stop is pending, or a stop would be passed on.
abbrev pub IsUp : Place → Status → List Status → Type 0
IsUp report_running s ss =
    (s.accepts_stop ≡ true) × ((s.state ≡ running) ⊎ (s.state ≡ stop_pending))
IsUp create_event s ss =
    (s.accepts_stop ≡ true)
    × (((s.state ≡ running) × IsPassedOn stop ss) ⊎ (s.state ≡ stop_pending))
IsUp _ s ss = Unit

abbrev UpIn : Process → Type 0
UpIn p = IsUp p.main p.status p.reports

wait-UpIn : (p : Process) → UpIn (wait (record p { main = waiting }))
unfolding wait
wait-UpIn p = elim (Thread-cases p.agent) [
  | inr (inr (c, over)) ↦ rw over tt
  | inl off ↦ elim (Bool-cases (is_set p.event)) [
    | inl set ↦ rw (off, set) tt
    | inr clear ↦ rw (off, clear) tt
  ]
  | inr (inl on) ↦ elim (Bool-cases (is_set p.event)) [
    | inl set ↦ rw (on, set) tt
    | inr clear ↦ rw (on, clear) tt
  ]
]

service_main-UpIn :
    (ok : Bool) (error : ℕ) (l : Place) (p : Process)
    → IsUp l p.status p.reports
    → UpIn (service_main ok error (record p { main = l }))
unfolding service_main
service_main-UpIn true error registering p h = tt
service_main-UpIn false error registering p h = tt
service_main-UpIn ok error set_running p h = (refl, inl refl)
service_main-UpIn ok error report_running p (a, inl up) = (a, inl (up, (up, a)))
service_main-UpIn ok error report_running p (a, inr pending) = (a, inr pending)
service_main-UpIn true error create_event p h = tt
service_main-UpIn false error create_event p h = tt
service_main-UpIn true error create_thread p h = tt
service_main-UpIn false error create_thread p h = tt
service_main-UpIn ok error waiting p h = wait-UpIn p
service_main-UpIn ok error test_exit p h = elim (Bool-cases (p.status.specific_exit == 0)) [
  | inl zero ↦ rw zero tt
  | inr nonzero ↦ rw nonzero tt
]
service_main-UpIn ok error set_stopped p h = tt
service_main-UpIn ok error report_stopped p h = tt
service_main-UpIn ok error returned p h = tt
service_main-UpIn ok error take_error p h = tt
service_main-UpIn ok error set_failed p h = tt
service_main-UpIn ok error report_failed p h = tt

-- The two ways in which the handler changes the status or the reports.
IsUp-pending :
    (l : Place) (s : Status) (ss : List Status)
    → IsUp l s ss
    → IsUp l (record s { state = stop_pending }) ss
IsUp-pending report_running s ss (a, h) = (a, inr refl)
IsUp-pending create_event s ss (a, h) = (a, inr refl)
IsUp-pending registering s ss h = tt
IsUp-pending set_running s ss h = tt
IsUp-pending create_thread s ss h = tt
IsUp-pending waiting s ss h = tt
IsUp-pending test_exit s ss h = tt
IsUp-pending set_stopped s ss h = tt
IsUp-pending report_stopped s ss h = tt
IsUp-pending returned s ss h = tt
IsUp-pending take_error s ss h = tt
IsUp-pending set_failed s ss h = tt
IsUp-pending report_failed s ss h = tt

IsUp-reported : (l : Place) (s : Status) (ss : List Status) → IsUp l s ss → IsUp l s (s ∷ ss)
IsUp-reported report_running s ss h = h
IsUp-reported create_event s ss (a, inl (up, _)) = (a, inl (up, (up, a)))
IsUp-reported create_event s ss (a, inr pending) = (a, inr pending)
IsUp-reported registering s ss h = tt
IsUp-reported set_running s ss h = tt
IsUp-reported create_thread s ss h = tt
IsUp-reported waiting s ss h = tt
IsUp-reported test_exit s ss h = tt
IsUp-reported set_stopped s ss h = tt
IsUp-reported report_stopped s ss h = tt
IsUp-reported returned s ss h = tt
IsUp-reported take_error s ss h = tt
IsUp-reported set_failed s ss h = tt
IsUp-reported report_failed s ss h = tt

service_handler-UpIn :
    (h : Stage) (p : Process) → UpIn p → UpIn (service_handler (record p { handler = h }))
unfolding service_handler
service_handler-UpIn idle p up = up
service_handler-UpIn (called stop) p up = IsUp-pending p.main p.status p.reports up
service_handler-UpIn (called (other c)) p up = up
service_handler-UpIn signalling p up = up
service_handler-UpIn reporting p up = IsUp-reported p.main p.status p.reports up

Step-UpIn : {p q : Process} → Step p q → UpIn p → UpIn q
Step-UpIn {p} (serves ok error) up = service_main-UpIn ok error p.main p up
Step-UpIn {p} handles up = service_handler-UpIn p.handler p up
Step-UpIn (receives c live off passed) up = up
Step-UpIn (ends code on) up = up

-- In every reachable state in which the service is about to create the event, the manager would pass a
-- stop on, or one is pending already.
pub Reach-IsUp : {p : Process} → Reach p → IsUp p.main p.status p.reports
Reach-IsUp begin = tt
Reach-IsUp (later r s) = Step-UpIn s (Reach-IsUp r)
