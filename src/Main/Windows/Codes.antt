-- ===== src/Main/Windows/Codes.antt =====
-- The exit codes that the Windows service ends with.
use ck_agent.Base.{
  ℕ, ◌≡◌, ◌≢◌, refl, sym, ◌∙◌, ap, ◌⊎◌, inl, inr, Bool, true, false, Option, none, some, ◌==◌,
  if◌then◌else◌, Bool-cases,
}
use ck_agent.Main.Windows.{
  Place, registering, set_running, report_running, create_event, create_thread, waiting, test_exit,
  set_stopped, report_stopped, returned, take_error, set_failed, report_failed, stop, other, Stage,
  idle, signalling, reporting, called, Thread, absent, working, ended, Process,
  error_service_specific, is_set, wait, service_main, set_event, service_handler, Step, serves,
  handles, receives, ends, Reach, begin, later,
}

abbrev pub code_of : ℕ → ℕ
code_of specific = if specific == 0 then 0 else error_service_specific

-- Why the service ends: the agent has ended, with the code of the service as its exit code, or the event of
-- a stop is set, and the code of the service is 0.
abbrev pub IsCaused : Process → Type 0
IsCaused p =
    (p.agent ≡ ended (p.status.specific_exit))
    ⊎ ((p.status.specific_exit ≡ 0) × (is_set p.event ≡ true))

abbrev pub IsClean : Process → Type 0
IsClean p = (p.handle ≡ true) × (p.status.win32_exit ≡ 0) × (p.status.specific_exit ≡ 0)

-- No thread has been made for the agent, and there is no code of its own.
abbrev pub IsNotStarted : Process → Type 0
IsNotStarted p = (p.handle ≡ true) × (p.status.specific_exit ≡ 0) × (p.agent ≡ absent)

-- What holds before each statement of `win32_service_main`.
abbrev pub InPlace : Place → Process → Type 0
InPlace registering p =
    (p.agent ≡ absent) × (p.event ≡ none) × (p.status.win32_exit ≡ 0) × (p.status.specific_exit ≡ 0)
InPlace set_running p = IsClean p × (p.agent ≡ absent) × (p.event ≡ none)
InPlace report_running p = IsClean p × (p.agent ≡ absent) × (p.event ≡ none)
InPlace create_event p = IsClean p × (p.agent ≡ absent) × (p.event ≡ none)
InPlace create_thread p = IsClean p × (p.agent ≡ absent)
InPlace waiting p = IsClean p
InPlace test_exit p = (p.handle ≡ true) × (p.status.win32_exit ≡ 0) × IsCaused p
InPlace set_stopped p =
    (p.handle ≡ true) × (p.status.win32_exit ≡ code_of (p.status.specific_exit)) × IsCaused p
InPlace report_stopped p =
    (p.handle ≡ true) × (p.status.win32_exit ≡ code_of (p.status.specific_exit)) × IsCaused p
InPlace returned p = Unit
InPlace take_error p = IsNotStarted p
InPlace set_failed p = IsNotStarted p
InPlace report_failed p = IsNotStarted p

pub Thread-cases : (t : Thread) → (t ≡ absent) ⊎ (t ≡ working) ⊎ ((code : ℕ) × (t ≡ ended code))
Thread-cases absent = inl refl
Thread-cases working = inr (inl refl)
Thread-cases (ended code) = inr (inr (code, refl))

abbrev pub Inv : Process → Type 0
Inv p = InPlace p.main p

wait-Inv : (p : Process) → IsClean p → Inv (wait (record p { main = waiting }))
unfolding wait
wait-Inv p (live, win, code) = elim (Thread-cases p.agent) [
  | inr (inr (c, over)) ↦ rw over (live, win, inl over)
  | inl off ↦ elim (Bool-cases (is_set p.event)) [
    | inl set ↦ rw (off, set) (live, win, inr (code, set))
    | inr clear ↦ rw (off, clear) (live, win, code)
  ]
  | inr (inl on) ↦ elim (Bool-cases (is_set p.event)) [
    | inl set ↦ rw (on, set) (live, win, inr (code, set))
    | inr clear ↦ rw (on, clear) (live, win, code)
  ]
]

service_main-Inv :
    (ok : Bool) (error : ℕ) (l : Place) (p : Process)
    → InPlace l p
    → Inv (service_main ok error (record p { main = l }))
unfolding service_main
service_main-Inv true error registering p (a, e, w, s) = ((refl, w, s), a, e)
service_main-Inv false error registering p h = tt
service_main-Inv ok error set_running p h = h
service_main-Inv ok error report_running p h = h
service_main-Inv true error create_event p (c, a, _) = (c, a)
service_main-Inv false error create_event p ((live, w, s), a, _) = (live, s, a)
service_main-Inv true error create_thread p (c, a) = c
service_main-Inv false error create_thread p ((live, w, s), a) = (live, s, a)
service_main-Inv ok error waiting p h = wait-Inv p h
service_main-Inv ok error test_exit p (live, win, cause) =
    elim (Bool-cases (p.status.specific_exit == 0)) [
      | inl zero ↦ rw zero (live, win ∙ rw zero refl, cause)
      | inr nonzero ↦ rw nonzero (live, rw nonzero refl, cause)
    ]
service_main-Inv ok error set_stopped p h = h
service_main-Inv ok error report_stopped p h = tt
service_main-Inv ok error returned p h = tt
service_main-Inv ok error take_error p h = h
service_main-Inv ok error set_failed p h = h
service_main-Inv ok error report_failed p h = tt

-- What a step of another thread leaves of a place.
module _ (p q : Process) (handle : q.handle ≡ p.handle)
    (win : q.status.win32_exit ≡ p.status.win32_exit)
    (specific : q.status.specific_exit ≡ p.status.specific_exit)
    (off : p.agent ≡ absent → q.agent ≡ absent)
    (over : (c : ℕ) → p.agent ≡ ended c → q.agent ≡ ended c)
    (null_event : p.event ≡ none → q.event ≡ none)
    (event : is_set p.event ≡ true → is_set q.event ≡ true) where
  clean : IsClean p → IsClean q
  clean (live, w, s) = (handle ∙ live, win ∙ w, specific ∙ s)

  caused : IsCaused p → IsCaused q
  caused (inl e) = inl (over _ e ∙ ap ended (sym specific))
  caused (inr (e, set)) = inr (specific ∙ e, event set)

  not_started : IsNotStarted p → IsNotStarted q
  not_started (live, s, a) = (handle ∙ live, specific ∙ s, off a)

  coded :
      p.status.win32_exit ≡ code_of (p.status.specific_exit)
      → q.status.win32_exit ≡ code_of (q.status.specific_exit)
  coded e = win ∙ e ∙ ap code_of (sym specific)

  elsewhere : (l : Place) → InPlace l p → InPlace l q
  elsewhere registering (a, e, w, s) = (off a, null_event e, win ∙ w, specific ∙ s)
  elsewhere set_running (c, a, e) = (clean c, off a, null_event e)
  elsewhere report_running (c, a, e) = (clean c, off a, null_event e)
  elsewhere create_event (c, a, e) = (clean c, off a, null_event e)
  elsewhere create_thread (c, a) = (clean c, off a)
  elsewhere waiting c = clean c
  elsewhere test_exit (live, w, c) = (handle ∙ live, win ∙ w, caused c)
  elsewhere set_stopped (live, w, c) = (handle ∙ live, coded w, caused c)
  elsewhere report_stopped (live, w, c) = (handle ∙ live, coded w, caused c)
  elsewhere returned h = tt
  elsewhere take_error h = not_started h
  elsewhere set_failed h = not_started h
  elsewhere report_failed h = not_started h

-- A step that changes at most the handler, the reports and the state in the status.
quiet :
    (p q : Process)
    → q.handle ≡ p.handle
    → q.agent ≡ p.agent
    → q.event ≡ p.event
    → q.status.win32_exit ≡ p.status.win32_exit
    → q.status.specific_exit ≡ p.status.specific_exit
    → InPlace p.main p
    → InPlace p.main q
quiet p q live agent event w s =
    elsewhere p q live w s (λ e. agent ∙ e) (λ c e. agent ∙ e) (λ e. event ∙ e) (λ e. rw event e)
      p.main

absent-ne-working : absent ≢ working
absent-ne-working e = cc

ended-ne-working : (c : ℕ) → ended c ≢ working
ended-ne-working c e = cc

set_event-none : (e : Option Bool) → e ≡ none → set_event e ≡ none
set_event-none none h = refl
set_event-none (some b) h = cc

is_set-set_event : (e : Option Bool) → is_set e ≡ true → is_set (set_event e) ≡ true
is_set-set_event none h = h
is_set-set_event (some b) h = refl

service_handler-Inv :
    (s : Stage) (p : Process) → Inv p → Inv (service_handler (record p { handler = s }))
unfolding service_handler
service_handler-Inv idle p h = quiet p _ refl refl refl refl refl h
service_handler-Inv (called stop) p h = quiet p _ refl refl refl refl refl h
service_handler-Inv (called (other c)) p h = quiet p _ refl refl refl refl refl h
service_handler-Inv signalling p h =
    elsewhere p _ refl refl refl (λ e. e) (λ c e. e) (set_event-none p.event)
      (is_set-set_event p.event) p.main h
service_handler-Inv reporting p h = quiet p _ refl refl refl refl refl h

Step-Inv : {p q : Process} → Step p q → Inv p → Inv q
Step-Inv {p} (serves ok error) h = service_main-Inv ok error p.main p h
Step-Inv {p} handles h = service_handler-Inv p.handler p h
Step-Inv {p} (receives c live off passed) h = quiet p _ refl refl refl refl refl h
Step-Inv {p} (ends code on) h =
    elsewhere p _ refl refl refl (λ e. absurd (absent-ne-working (sym e ∙ on)))
      (λ c e. absurd (ended-ne-working c (sym e ∙ on))) (λ e. e) (λ e. e) p.main h

pub Reach-Inv : {p : Process} → Reach p → Inv p
Reach-Inv begin = (refl, refl, refl, refl)
Reach-Inv (later r s) = Step-Inv s (Reach-Inv r)

-- What holds of the codes at the two places from which the service reports that it has stopped.
abbrev pub IsCodedAt : Place → Process → Type 0
IsCodedAt report_stopped p = (p.status.win32_exit ≡ code_of (p.status.specific_exit)) × IsCaused p
IsCodedAt report_failed p = (p.status.specific_exit ≡ 0) × (p.agent ≡ absent)
IsCodedAt _ p = Unit

InPlace-IsCodedAt : (l : Place) (p : Process) → InPlace l p → IsCodedAt l p
InPlace-IsCodedAt report_stopped p (live, code, cause) = (code, cause)
InPlace-IsCodedAt report_failed p (live, specific, off) = (specific, off)
InPlace-IsCodedAt registering p h = tt
InPlace-IsCodedAt set_running p h = tt
InPlace-IsCodedAt report_running p h = tt
InPlace-IsCodedAt create_event p h = tt
InPlace-IsCodedAt create_thread p h = tt
InPlace-IsCodedAt waiting p h = tt
InPlace-IsCodedAt test_exit p h = tt
InPlace-IsCodedAt set_stopped p h = tt
InPlace-IsCodedAt returned p h = tt
InPlace-IsCodedAt take_error p h = tt
InPlace-IsCodedAt set_failed p h = tt

-- When the service is about to report that it has stopped, in any reachable state: behind the wait either the
-- agent has ended and the code of the service is its exit code, or the event of a stop is set and that code
-- is 0, and the code for Windows tells whether it is 0; behind `error:` the code of the service is 0 and
-- no agent has been started. In other places nothing is said.
pub Reach-IsCodedAt : (p : Process) → Reach p → IsCodedAt p.main p
Reach-IsCodedAt p r = InPlace-IsCodedAt p.main p (Reach-Inv r)
