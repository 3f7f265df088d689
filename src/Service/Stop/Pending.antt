-- ===== src/Service/Stop/Pending.antt =====
-- `win32_service_stop` of a service that stays where a stop is pending.
use ck_agent.Base.{
  ℕ, ◌≤◌, ◌≡◌, ◌∙◌, refl, inl, inr, true, false, Option, none, List, [], ◌∷◌, ◌++◌, arith, ltb,
  ◌==◌, length, Bool-cases,
}
use ck_agent.Service.{
  stopped, stop_pending, Status, Round, Query, failed, status, Scm, fresh, done, Action, Void,
  stop_is_pending, stop_timeout, Message, elapsed, wait_time,
}
use ck_agent.Service.Stop.{Answers, timeout, pending_loop, win32_service_stop}
use ck_agent.Service.Stop.Ends.{RunsOut, RunsOut-tail, IsPaced, IsPaced-RunsOut}

abbrev pub IsPending : Query → Type 0
IsPending (failed e) = ⊥
IsPending (status st) = st.current_state ≡ stop_pending

abbrev pub AllPending : List Round → Type 0
AllPending [] = Unit
AllPending (r ∷ rs) = IsPending r.query × AllPending rs

-- The run ends with this message, whatever code stands behind the loop.
abbrev GivesUp : ℕ → List Round → Status → Scm → Type 0
GivesUp start rs st s =
    (before : List Message) × (slept : List ℕ) × ((next : Action Void)
      → pending_loop next start rs st s
        ≡ done tt (record s { messages = before ++ stop_timeout ∷ []; sleeps = slept }))

pending-status :
    (q : Query) → IsPending q → (st : Status) × (q ≡ status st) × (st.current_state ≡ stop_pending)
pending-status (status st) now = (st, refl, now)
pending-status (failed e) now = absurd now

is_pending :
    (st : Status)
    → st.current_state ≡ stop_pending
    → ((st.current_state == stop_pending) ≡ true) × ((st.current_state == stopped) ≡ false)
is_pending st now = ground arith

-- The state behind a round in which the stop is still pending.
abbrev waited : Status → Scm → Scm
waited st s = record s {
  messages = s.messages ++ stop_is_pending ∷ [];
  sleeps = s.sleeps ++ wait_time st.wait_hint ∷ [];
}

pending_loop-soon :
    (next : Action Void) (start : ℕ) (r : Round) (rs : List Round) (st st' : Status) (s : Scm)
    → st.current_state ≡ stop_pending
    → r.query ≡ status st'
    → st'.current_state ≡ stop_pending
    → ltb timeout (elapsed r.tick start) ≡ false
    → pending_loop next start (r ∷ rs) st s ≡ pending_loop next start rs st' (waited st s)
unfolding pending_loop
pending_loop-soon next start r rs st st' s now told still soon =
    rw ((is_pending st now).0, told, (is_pending st' still).1, soon)

pending_loop-GivesUp :
    (start : ℕ) (rs : List Round) (st : Status) (s : Scm)
    → st.current_state ≡ stop_pending
    → AllPending rs
    → RunsOut start rs
    → GivesUp start rs st s
unfolding pending_loop
pending_loop-GivesUp start [] st s now all late = absurd late
pending_loop-GivesUp start (r ∷ rs) st s now (this, all) late =
    let (st', told, still) = pending-status r.query this in
    let s' : Scm = waited st s in
    elim (Bool-cases (ltb timeout (elapsed r.tick start))) [
      | inl over ↦ (
        s'.messages,
        s'.sleeps,
        λ next. rw ((is_pending st now).0, told, (is_pending st' still).1, over),
      )
      | inr soon ↦
          let (before, slept, ends) =
            pending_loop-GivesUp start rs st' s' still all (RunsOut-tail start r rs soon late) in
          (
            before,
            slept,
            λ next. pending_loop-soon next start r rs st st' s now told still soon ∙ ends next,
          )
    ]

-- Whatever `ControlService` would answer, the run is the same: it ends with the message that the stop timed
-- out, and both handles are closed.
abbrev pub NeverSends : Answers → Type 0
NeverSends a =
    (before : List Message) × (slept : List ℕ) × ((control : Option ℕ) (controlled : Status)
        (waits : List Round)
      → win32_service_stop (record a { control = control; controlled = controlled; waits = waits })
          fresh
        ≡ done tt (record fresh { messages = before ++ stop_timeout ∷ []; sleeps = slept }))

pub stop-NeverSends :
    (a : Answers)
    → a.manager ≡ none
    → a.service ≡ none
    → IsPending a.first
    → AllPending a.stopping
    → IsPaced a.start 1 a.stopping
    → 31 ≤ length a.stopping
    → NeverSends a
unfolding win32_service_stop
stop-NeverSends a m v first all paced long =
    let (st, told, now) = pending-status a.first first in
    let (before, slept, ends) =
      pending_loop-GivesUp a.start a.stopping st (record fresh { manager = true; service = true })
        now all (IsPaced-RunsOut a.start 1 a.stopping paced (omega arith) (omega arith)) in
    (before, slept, λ c st' ws. rw (m, v, told, (is_pending st now).1, ends _) refl)
