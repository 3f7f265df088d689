-- ===== src/Service/Stop.antt =====
-- `win32_service_stop`.
pub mod Ends
pub mod Pending
use ck_agent.Base.{ℕ, Option, none, some, List, [], ◌∷◌, ltb, if◌then◌else◌, ◌==◌}
use ck_agent.Service.{
  stopped, stop_pending, Status, Query, failed, status, Round, query_failed, already_stopped,
  stop_is_pending, stopped_now, stop_timeout, control_failed, wait_timeout, Scm, Step, done,
  waiting, misuse, Action, Void, ◌>>=◌, ◌>>◌, pure, say, sleep, close_both, with_manager,
  with_service, query_or, attempt, wait_time, elapsed,
}

-- The answers to one call; `start` is `dwStartTime`, and `controlled` the status that
-- `ControlService` fills in.
pub record Answers : Type 0 where
  pub start : ℕ
  pub manager : Option ℕ
  pub service : Option ℕ
  pub first : Query
  pub stopping : List Round
  pub control : Option ℕ
  pub controlled : Status
  pub waits : List Round

-- `dwTimeout`
abbrev pub timeout : ℕ
timeout = 30000

-- `while (ssp.dwCurrentState == SERVICE_STOP_PENDING)`; `next` is the code behind it.
pub pending_loop : (next : Action Void) → (start : ℕ) → List Round → Status → Action Void
pending_loop next start [] st = if st.current_state == stop_pending then waiting else next
pending_loop next start (r ∷ rs) st =
    let rest =
      say stop_is_pending
      >> (sleep (wait_time st.wait_hint)
          >> query_or r.query (λ e. say (query_failed e))
              (λ st'.
                let loop = pending_loop next start rs st' in
                if st'.current_state == stopped
                then say stopped_now
                else if ltb timeout (elapsed r.tick start)
                then say stop_timeout
                else loop)) in
    if st.current_state == stop_pending then rest else next

-- `while (ssp.dwCurrentState != SERVICE_STOPPED)`, and the message behind it.
pub stopped_loop : (start : ℕ) → List Round → Status → Action Void
stopped_loop start [] st = if st.current_state == stopped then say stopped_now else waiting
stopped_loop start (r ∷ rs) st =
    let rest =
      sleep st.wait_hint
      >> query_or r.query (λ e. say (query_failed e))
          (λ st'.
            let loop = stopped_loop start rs st' in
            if st'.current_state == stopped
            then say stopped_now
            else if ltb timeout (elapsed r.tick start)
            then say wait_timeout
            else loop) in
    if st.current_state == stopped then say stopped_now else rest

-- From `ControlService` up to the label `stop_cleanup`.
stop_now : Answers → Action Void
stop_now a =
    attempt a.control (λ e. say (control_failed e)) (stopped_loop a.start a.waits a.controlled)

pub win32_service_stop : Answers → Action Void
unfolding stop_now
win32_service_stop a = with_manager a.manager (
    with_service a.service (
      query_or a.first (λ e. say (query_failed e))
        (λ st.
          if st.current_state == stopped
          then say already_stopped
          else pending_loop (stop_now a) a.start a.stopping st)
      >> close_both))
