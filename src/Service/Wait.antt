-- ===== src/Service/Wait.antt =====
-- The sleeps between two queries, and how both handles are closed.
use ck_agent.Base.{ℕ, ◌≤◌, ◌≡◌, refl, true, false, Option, none, some, arith}
use ck_agent.Service.{
  Scm, Step, done, waiting, misuse, Action, Void, Query, failed, status, Status, close_both,
  with_manager, with_service, with_status, query_or, attempt, wait_time,
}

-- A waiting loop sleeps between one and ten seconds at a time, whatever hint the service gives.
pub wait_time_bounds : (hint : ℕ) → (1000 ≤ wait_time hint) × (wait_time hint ≤ 10000)
unfolding wait_time
wait_time_bounds hint = ground arith

-- No handle is open where a run has ended, both are where it waits, and none was closed twice.
abbrev pub EndsClosed : {A : Type 0} → Step A → Type 0
EndsClosed (done _ s) = (s.manager ≡ false) × (s.service ≡ false)
EndsClosed (waiting s) = (s.manager ≡ true) × (s.service ≡ true)
EndsClosed misuse = ⊥

-- From both handles open the action closes both.
abbrev pub ClosesBoth : Action Void → Type 0
ClosesBoth c = (s : Scm) → s.manager ≡ true → s.service ≡ true → EndsClosed (c s)

pub close_both-ClosesBoth : ClosesBoth close_both
close_both-ClosesBoth s m v = ground arith

pub with_status-ClosesBoth :
    (q : Query) (body : Status → Action Void)
    → ((st : Status) → ClosesBoth (body st))
    → ClosesBoth (with_status q body)
with_status-ClosesBoth (failed e) body h s m v = ground arith
with_status-ClosesBoth (status st) body h s m v = h st s m v

pub query_or-ClosesBoth :
    (q : Query) (f : ℕ → Action Void) (g : Status → Action Void)
    → ((e : ℕ) → ClosesBoth (f e))
    → ((st : Status) → ClosesBoth (g st))
    → ClosesBoth (query_or q f g)
query_or-ClosesBoth (failed e) f g h k = h e
query_or-ClosesBoth (status st) f g h k = k st

pub attempt-ClosesBoth :
    (o : Option ℕ) (f : ℕ → Action Void) (g : Action Void)
    → ((e : ℕ) → ClosesBoth (f e))
    → ClosesBoth g
    → ClosesBoth (attempt o f g)
attempt-ClosesBoth (some e) f g h k = h e
attempt-ClosesBoth none f g h k = k

-- A control function opens the two handles in turn.
pub with_handles-EndsClosed :
    (m v : Option ℕ) (body : Action Void) (s : Scm)
    → s.manager ≡ false
    → s.service ≡ false
    → ClosesBoth body
    → EndsClosed (with_manager m (with_service v body) s)
with_handles-EndsClosed (some e) v body s a b h = (a, b)
with_handles-EndsClosed none (some e) body s a b h = ground arith
with_handles-EndsClosed none none body s a b h =
    h (record s { manager = true; service = true }) refl refl
