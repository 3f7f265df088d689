-- ===== src/Service/Start/Handles.antt =====
-- The handles of `win32_service_start`.
use ck_agent.Base.{
  ℕ, refl, Bool, true, false, not, ◌&&◌, List, [], ◌∷◌, arith, ltb, ◌==◌, if◌then◌else◌,
}
use ck_agent.Service.{
  stopped, stop_pending, start_pending, Status, Round, fresh, Action, Void, elapsed,
}
use ck_agent.Service.Wait.{
  EndsClosed, ClosesBoth, with_status-ClosesBoth, query_or-ClosesBoth, attempt-ClosesBoth,
  with_handles-EndsClosed,
}
use ck_agent.Service.Start.{
  Answers, progressed, stopping_loop, report_start, starting_loop, start_now, win32_service_start,
}

report_start-ClosesBoth : (st : Status) → ClosesBoth (report_start st)
unfolding report_start
report_start-ClosesBoth st s m v = ground arith

if-ClosesBoth :
    (b : Bool) (c d : Action Void) → ClosesBoth c → ClosesBoth d → ClosesBoth (if b then c else d)
if-ClosesBoth true c d h k = h
if-ClosesBoth false c d h k = k

stopping_loop-ClosesBoth :
    (next : Action Void) (rs : List Round) (st : Status) (t cp : ℕ)
    → ClosesBoth next
    → ClosesBoth (stopping_loop next rs st t cp)
unfolding stopping_loop
stopping_loop-ClosesBoth next [] st t cp h =
    if-ClosesBoth (st.current_state == stop_pending) _ next (λ s m v. (m, v)) h
stopping_loop-ClosesBoth next (r ∷ rs) st t cp h =
    if-ClosesBoth (st.current_state == stop_pending) _ next
      (λ s m v.
        with_status-ClosesBoth r.query _
          (λ st'.
            if-ClosesBoth (not (progressed st' cp) && ltb st'.wait_hint (elapsed r.tick t)) _ _
              (λ s m v. ground arith) (stopping_loop-ClosesBoth next rs st' _ _ h))
          _ m v)
      h

starting_loop-ClosesBoth :
    (rs : List Round) (st : Status) (t cp : ℕ) → ClosesBoth (starting_loop rs st t cp)
unfolding starting_loop
starting_loop-ClosesBoth [] st t cp =
    if-ClosesBoth (st.current_state == start_pending) _ _ (λ s m v. (m, v))
      (report_start-ClosesBoth st)
starting_loop-ClosesBoth (r ∷ rs) st t cp =
    if-ClosesBoth (st.current_state == start_pending) _ _
      (λ s m v.
        query_or-ClosesBoth r.query _ _ (λ e s m v. report_start-ClosesBoth st _ m v)
          (λ st'.
            if-ClosesBoth (not (progressed st' cp) && ltb st'.wait_hint (elapsed r.tick t)) _ _
              (report_start-ClosesBoth st') (starting_loop-ClosesBoth rs st' _ _))
          _ m v)
      (report_start-ClosesBoth st)

start_now-ClosesBoth : (a : Answers) → ClosesBoth (start_now a)
unfolding start_now
start_now-ClosesBoth a =
    attempt-ClosesBoth a.start _ _ (λ e s m v. ground arith)
      (λ s m v.
        with_status-ClosesBoth a.second _
          (λ st. starting_loop-ClosesBoth a.starting st a.start_tick st.check_point) _ m v)

-- Whatever the service control manager answers, `win32_service_start` ends with both handles closed,
-- each once, or waits in a loop with both open.
pub start-EndsClosed : (a : Answers) → EndsClosed (win32_service_start a fresh)
unfolding win32_service_start
start-EndsClosed a = with_handles-EndsClosed a.manager a.service _ fresh refl refl (
    with_status-ClosesBoth a.first _ (λ st.
      if-ClosesBoth (not (st.current_state == stopped) && not (st.current_state == stop_pending)) _
        _ (λ s m v. ground arith)
        (stopping_loop-ClosesBoth (start_now a) a.stopping st a.tick st.check_point
          (start_now-ClosesBoth a))))
