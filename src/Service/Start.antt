-- ===== src/Service/Start.antt =====
-- `win32_service_start`.
pub mod Handles
use ck_agent.Base.{
  ℕ, ◌+◌, ◌-◌, Bool, true, false, not, ◌&&◌, Option, none, some, List, [], ◌∷◌, ltb, if◌then◌else◌,
  ◌==◌,
}
use ck_agent.Service.{
  stopped, start_pending, stop_pending, service_running, Status, Query, failed, status, Round,
  query_failed, already_running, stop_timeout, start_failed, start_is_pending, started, not_started,
  Scm, Step, done, waiting, misuse, Action, Void, ◌>>=◌, ◌>>◌, pure, say, sleep, close_both,
  with_manager, with_service, query_or, attempt, with_status, wait_time, elapsed,
}

-- The answers to one call. `tick` and `start_tick` are the clock before each loop.
pub record Answers : Type 0 where
  pub manager : Option ℕ
  pub service : Option ℕ
  pub first : Query
  pub tick : ℕ
  pub stopping : List Round
  pub start : Option ℕ
  pub second : Query
  pub start_tick : ℕ
  pub starting : List Round

-- `ssStatus.dwCheckPoint > dwOldCheckPoint`
abbrev pub progressed : Status → ℕ → Bool
progressed st old = ltb old st.check_point

-- `while (ssStatus.dwCurrentState == SERVICE_STOP_PENDING)`; `next` is the code behind it.
stopping_loop : (next : Action Void) → List Round → Status → (tick check_point : ℕ) → Action Void
stopping_loop next [] st t cp = if st.current_state == stop_pending then waiting else next
stopping_loop next (r ∷ rs) st t cp =
    let rest =
      sleep (wait_time st.wait_hint)
      >> with_status r.query (λ st'.
        let moved = progressed st' cp in
        let loop =
          stopping_loop next rs st' (if moved then r.tick else t)
            (if moved then st'.check_point else cp) in
        if not moved && ltb st'.wait_hint (elapsed r.tick t)
        then say stop_timeout >> close_both
        else loop) in
    if st.current_state == stop_pending then rest else next

-- Behind the second loop.
report_start : Status → Action Void
report_start st =
    say (if st.current_state == service_running then started else not_started st) >> close_both

-- `while (ssStatus.dwCurrentState == SERVICE_START_PENDING)`, and what stands behind it.
starting_loop : List Round → Status → (tick check_point : ℕ) → Action Void
unfolding report_start
starting_loop [] st t cp = if st.current_state == start_pending then waiting else report_start st
starting_loop (r ∷ rs) st t cp =
    let rest =
      sleep (wait_time st.wait_hint)
      >> query_or r.query (λ e. say (query_failed e) >> report_start st)
          (λ st'.
            let moved = progressed st' cp in
            let loop =
              starting_loop rs st' (if moved then r.tick else t)
                (if moved then st'.check_point else cp) in
            if not moved && ltb st'.wait_hint (elapsed r.tick t) then report_start st' else loop) in
    if st.current_state == start_pending then rest else report_start st

-- From `StartService` on.
start_now : Answers → Action Void
unfolding starting_loop
start_now a =
    attempt a.start (λ e. say (start_failed e) >> close_both)
      (say start_is_pending
        >> with_status a.second (λ st. starting_loop a.starting st a.start_tick st.check_point))

pub win32_service_start : Answers → Action Void
unfolding stopping_loop start_now
win32_service_start a = with_manager a.manager (
    with_service a.service (
      with_status a.first (λ st.
        if not (st.current_state == stopped) && not (st.current_state == stop_pending)
        then say already_running >> close_both
        else stopping_loop (start_now a) a.stopping st a.tick st.check_point)))
