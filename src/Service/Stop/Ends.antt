-- ===== src/Service/Stop/Ends.antt =====
-- The handles and the time limits of `win32_service_stop`.
use ck_agent.Base.{
  ℕ, suc, ◌+◌, ◌*◌, ◌≤◌, ◌<◌, ◌≡◌, refl, ◌⊎◌, inl, inr, Bool, true, false, Option, none, some, List,
  [], ◌∷◌, ◌++◌, arith, ltb, ◌==◌, if◌then◌else◌, length,
}
use ck_agent.Service.{
  stopped, stop_pending, Status, Round, Query, failed, status, Scm, Step, fresh, done, waiting,
  misuse, Action, Void, continue, say, stop_is_pending, query_failed, already_stopped, close_both,
  query_or, attempt, with_manager, with_service, elapsed, wait_time,
}
use ck_agent.Service.Wait.{EndsClosed, with_handles-EndsClosed}
use ck_agent.Service.Stop.{
  Answers, timeout, pending_loop, stopped_loop, stop_now, win32_service_stop,
}

-- From both handles open, both stay open; and where `live` holds the action does not wait.
abbrev Stays : Type 0 → Step Void → Type 0
Stays live (done _ s) = (s.manager ≡ true) × (s.service ≡ true)
Stays live (waiting s) = (s.manager ≡ true) × (s.service ≡ true) × ¬ live
Stays live misuse = ⊥

abbrev KeepsBoth : Type 0 → Action Void → Type 0
KeepsBoth live c = (s : Scm) → s.manager ≡ true → s.service ≡ true → Stays live (c s)

if-KeepsBoth :
    (live : Type 0) (b : Bool) (c d : Action Void)
    → (b ≡ true → KeepsBoth live c)
    → (b ≡ false → KeepsBoth live d)
    → KeepsBoth live (if b then c else d)
if-KeepsBoth live true c d h k = h refl
if-KeepsBoth live false c d h k = k refl

query_or-KeepsBoth :
    (live : Type 0) (q : Query) (f : ℕ → Action Void) (g : Status → Action Void)
    → ((e : ℕ) → KeepsBoth live (f e))
    → ((st : Status) → KeepsBoth live (g st))
    → KeepsBoth live (query_or q f g)
query_or-KeepsBoth live (failed e) f g h k = h e
query_or-KeepsBoth live (status st) f g h k = k st

attempt-KeepsBoth :
    (live : Type 0) (o : Option ℕ) (f : ℕ → Action Void) (g : Action Void)
    → ((e : ℕ) → KeepsBoth live (f e))
    → KeepsBoth live g
    → KeepsBoth live (attempt o f g)
attempt-KeepsBoth live (some e) f g h k = h e
attempt-KeepsBoth live none f g h k = k

weaken-KeepsBoth :
    (live more : Type 0) (c : Action Void) → (more → live) → KeepsBoth live c → KeepsBoth more c
weaken-KeepsBoth live more c f h s m v = go (c s) (h s m v)
  where
    go : (r : Step Void) → Stays live r → Stays more r
    go (done _ s) p = p
    go (waiting s) (a, b, n) = (a, b, λ x. n (f x))
    go misuse p = p

-- In some round more than 30 seconds have passed.
abbrev pub RunsOut : ℕ → List Round → Type 0
RunsOut start [] = ⊥
RunsOut start (r ∷ rs) = (timeout < elapsed r.tick start) ⊎ RunsOut start rs

pub RunsOut-tail :
    (start : ℕ) (r : Round) (rs : List Round)
    → ltb timeout (elapsed r.tick start) ≡ false
    → RunsOut start (r ∷ rs)
    → RunsOut start rs
RunsOut-tail start r rs soon (inl late) = absurd (ground arith)
RunsOut-tail start r rs soon (inr later) = later

stopped_loop-KeepsBoth :
    (start : ℕ) (rs : List Round) (st : Status)
    → KeepsBoth (RunsOut start rs) (stopped_loop start rs st)
unfolding stopped_loop
stopped_loop-KeepsBoth start [] st =
    if-KeepsBoth ⊥ (st.current_state == stopped) _ _ (λ _ s m v. (m, v)) (λ _ s m v. (m, v, λ x. x))
stopped_loop-KeepsBoth start (r ∷ rs) st =
    if-KeepsBoth _ (st.current_state == stopped) _ _ (λ _ s m v. (m, v))
      (λ _ s m v.
        query_or-KeepsBoth _ r.query _ _ (λ e s m v. (m, v))
          (λ st'.
            if-KeepsBoth _ (st'.current_state == stopped) _ _ (λ _ s m v. (m, v))
              (λ _.
                if-KeepsBoth _ (ltb timeout (elapsed r.tick start)) _ _ (λ _ s m v. (m, v))
                  (λ soon.
                    weaken-KeepsBoth (RunsOut start rs) (RunsOut start (r ∷ rs)) _
                      (RunsOut-tail start r rs soon) (stopped_loop-KeepsBoth start rs st'))))
          (record s { sleeps = s.sleeps ++ st.wait_hint ∷ [] }) m v)

pending_loop-KeepsBoth :
    (live : Type 0) (next : Action Void) (start : ℕ) (rs : List Round) (st : Status)
    → KeepsBoth live next
    → KeepsBoth (live × RunsOut start rs) (pending_loop next start rs st)
unfolding pending_loop
pending_loop-KeepsBoth live next start [] st h =
    if-KeepsBoth _ (st.current_state == stop_pending) _ _ (λ _ s m v. (m, v, λ x. x.1))
      (λ _. weaken-KeepsBoth live (live × ⊥) next (λ x. x.0) h)
pending_loop-KeepsBoth live next start (r ∷ rs) st h =
    if-KeepsBoth _ (st.current_state == stop_pending) _ _
      (λ _ s m v.
        query_or-KeepsBoth _ r.query _ _ (λ e s m v. (m, v))
          (λ st'.
            if-KeepsBoth _ (st'.current_state == stopped) _ _ (λ _ s m v. (m, v))
              (λ _.
                if-KeepsBoth _ (ltb timeout (elapsed r.tick start)) _ _ (λ _ s m v. (m, v))
                  (λ soon.
                    weaken-KeepsBoth (live × RunsOut start rs) (live × RunsOut start (r ∷ rs)) _
                      (λ x. (x.0, RunsOut-tail start r rs soon x.1))
                      (pending_loop-KeepsBoth live next start rs st' h))))
          (record s {
            sleeps = s.sleeps ++ wait_time st.wait_hint ∷ [];
            messages = s.messages ++ stop_is_pending ∷ [];
          })
          m v)
      (λ _. weaken-KeepsBoth live (live × RunsOut start (r ∷ rs)) next (λ x. x.0) h)

-- The clock runs at least as long as the sleeps, a second each: it shows `n` seconds or more in the
-- first of these rounds, and one more in each next one.
abbrev pub IsPaced : ℕ → ℕ → List Round → Type 0
IsPaced start n [] = Unit
IsPaced start n (r ∷ rs) = (1000 * n ≤ elapsed r.tick start) × IsPaced start (suc n) rs

pub IsPaced-RunsOut :
    (start n : ℕ) (rs : List Round)
    → IsPaced start n rs
    → 32 ≤ n + length rs
    → 0 < length rs
    → RunsOut start rs
IsPaced-RunsOut start n [] p long some_left = absurd (omega arith)
IsPaced-RunsOut start n (r ∷ []) (p, _) long some_left = inl (omega arith)
IsPaced-RunsOut start n (r ∷ q ∷ rs) (p, ps) long some_left =
    inr (IsPaced-RunsOut start (suc n) (q ∷ rs) ps (omega arith) (omega arith))

stop_now-KeepsBoth : (a : Answers) → KeepsBoth (RunsOut a.start a.waits) (stop_now a)
unfolding stop_now
stop_now-KeepsBoth a =
    attempt-KeepsBoth (RunsOut a.start a.waits) a.control _ _ (λ e s m v. (m, v))
      (stopped_loop-KeepsBoth a.start a.waits a.controlled)

-- Before the label `stop_cleanup` both handles stay open, and the code does not wait for ever.
stop_body-KeepsBoth :
    (a : Answers)
    → KeepsBoth (RunsOut a.start a.waits × RunsOut a.start a.stopping) (
        query_or a.first
          (λ e. say (query_failed e))
          (λ st.
            if st.current_state == stopped
            then say already_stopped
            else pending_loop (stop_now a) a.start a.stopping st))
stop_body-KeepsBoth a =
    query_or-KeepsBoth _ a.first _ _ (λ e s m v. (m, v))
      (λ st.
        if-KeepsBoth _ (st.current_state == stopped) _ _ (λ _ s m v. (m, v))
          (λ _.
            pending_loop-KeepsBoth (RunsOut a.start a.waits) (stop_now a) a.start a.stopping st
              (stop_now-KeepsBoth a)))

Stays-EndsClosed :
    (live : Type 0) (r : Step Void) → Stays live r → EndsClosed (continue r (λ _. close_both))
Stays-EndsClosed live (done _ s) (m, v) = ground arith
Stays-EndsClosed live (waiting s) (m, v, _) = (m, v)
Stays-EndsClosed live misuse p = absurd p

-- Whatever the service control manager answers, `win32_service_stop` ends with both handles closed,
-- each once, or waits in a loop with both open.
pub stop-EndsClosed : (a : Answers) → EndsClosed (win32_service_stop a fresh)
unfolding win32_service_stop
stop-EndsClosed a =
    with_handles-EndsClosed a.manager a.service _ fresh refl refl
      (λ s m v. Stays-EndsClosed _ _ (stop_body-KeepsBoth a s m v))

abbrev pub IsDone : Step Void → Type 0
IsDone (done _ _) = Unit
IsDone (waiting _) = ⊥
IsDone misuse = ⊥

Stays-IsDone :
    (live : Type 0) (r : Step Void) → live → Stays live r → IsDone (continue r (λ _. close_both))
Stays-IsDone live (done _ s) x (m, v) = ground arith
Stays-IsDone live (waiting s) x (_, _, n) = absurd (n x)
Stays-IsDone live misuse x p = p

with_handles-IsDone :
    (m v : Option ℕ) (body : Action Void) (s : Scm)
    → ((t : Scm) → t.manager ≡ true → t.service ≡ true → IsDone (body t))
    → IsDone (with_manager m (with_service v body) s)
with_handles-IsDone (some e) v body s h = tt
with_handles-IsDone none (some e) body s h = tt
with_handles-IsDone none none body s h = h (record s { manager = true; service = true }) refl refl

-- `win32_service_stop` returns: where 31 rounds of the first loop are answered, on a clock that runs
-- at least as long as their sleeps, and the clock shows more than 30 seconds in some round of the
-- second loop, it waits for no further round.
pub stop-IsDone :
    (a : Answers)
    → IsPaced a.start 1 a.stopping
    → 31 ≤ length a.stopping
    → RunsOut a.start a.waits
    → IsDone (win32_service_stop a fresh)
unfolding win32_service_stop
stop-IsDone a paced long late = with_handles-IsDone a.manager a.service _ fresh (λ s m v.
    Stays-IsDone _ _ (late, IsPaced-RunsOut a.start 1 a.stopping paced (omega arith) (omega arith))
      (stop_body-KeepsBoth a s m v))
