-- ===== src/Service.antt =====
-- Control of the Windows service (src/equus_service.c). What the service control manager answers is
-- an argument: none where a call succeeds, else its `GetLastError`. The state holds the two handles,
-- the sleeps and the messages; closing a handle that is not open is a misuse.
pub mod Wait
pub mod Start
pub mod Stop
pub mod Control
mod Tests
use ck_agent.Base.{
  ℕ, ◌+◌, ◌-◌, ◌%◌, ◌^◌, ◌/◌, ◌≡◌, Bool, true, false, Option, none, some, List, [], ◌∷◌, ◌++◌, ltb,
  if◌then◌else◌, ◌==◌,
}

-- `dwCurrentState`
abbrev pub stopped : ℕ
stopped = 1

abbrev pub start_pending : ℕ
start_pending = 2

abbrev pub stop_pending : ℕ
stop_pending = 3

abbrev pub service_running : ℕ
service_running = 4

-- `SERVICE_STATUS_PROCESS`
pub record Status : Type 0 where
  pub current_state : ℕ
  pub exit_code : ℕ
  pub check_point : ℕ
  pub wait_hint : ℕ

-- `QueryServiceStatusEx`
pub data Query : Type 0 where
  failed : ℕ → Query
  status : Status → Query

-- A round of a waiting loop: the query behind `Sleep`, and `GetTickCount` behind the query.
pub record Round : Type 0 where
  pub query : Query
  pub tick : ℕ

-- What is printed or logged.
pub data Message : Type 0 where
  open_manager_failed open_service_failed query_failed delete_failed start_failed control_failed :
      ℕ → Message
  module_name_failed create_failed description_failed actions_failed : ℕ → Message
  deleted already_running stop_timeout start_is_pending started already_stopped stop_is_pending :
      Message
  stopped_now wait_timeout installed description_set actions_set : Message
  not_started report : Status → Message
  state_is : ℕ → Message

pub record Scm : Type 0 where
  pub manager : Bool
  pub service : Bool
  pub sleeps : List ℕ
  pub messages : List Message

abbrev pub fresh : Scm
fresh = record { manager = false; service = false; sleeps = []; messages = [] }

-- `waiting s` is a loop that waits for a round that the script does not have.
pub data Step (A : Type 0) : Type 0 where
  done : A → Scm → Step A
  waiting : Scm → Step A
  misuse : Step A

abbrev pub Action : Type 0 → Type 0
Action A = Scm → Step A

abbrev pub Void : Type 0
Void = Unit {0}

abbrev pub continue : {A B : Type 0} → Step A → (A → Action B) → Step B
continue (done a s) f = f a s
continue (waiting s) f = waiting s
continue misuse f = misuse

infixl 5 ◌>>=◌ ◌>>◌
abbrev pub ◌>>=◌ : {A B : Type 0} → Action A → (A → Action B) → Action B
c >>= f = λ s. continue (c s) f

abbrev pub ◌>>◌ : {A B : Type 0} → Action A → Action B → Action B
c >> d = c >>= λ _. d

abbrev pub pure : {A : Type 0} → A → Action A
pure = done

-- `printf` or `equus_log`
abbrev pub say : Message → Action Void
say m s = done tt (record s { messages = s.messages ++ m ∷ [] })

abbrev pub sleep : ℕ → Action Void
sleep n s = done tt (record s { sleeps = s.sleeps ++ n ∷ [] })

-- `CloseServiceHandle(schSCManager)`
abbrev pub close_manager : Action Void
close_manager s = if s.manager then done tt (record s { manager = false }) else misuse

-- `CloseServiceHandle(schService)`
abbrev pub close_service : Action Void
close_service s = if s.service then done tt (record s { service = false }) else misuse

abbrev pub close_both : Action Void
close_both = close_service >> close_manager

-- `OpenSCManager`, and the return where it fails.
abbrev pub with_manager : Option ℕ → Action Void → Action Void
with_manager (some e) body = say (open_manager_failed e)
with_manager none body = λ s. body (record s { manager = true })

-- `OpenService`, and the return where it fails.
abbrev pub with_service : Option ℕ → Action Void → Action Void
with_service (some e) body = say (open_service_failed e) >> close_manager
with_service none body = λ s. body (record s { service = true })

-- `QueryServiceStatusEx`, and the return where it fails.
abbrev pub with_status : Query → (Status → Action Void) → Action Void
with_status (failed e) body = say (query_failed e) >> close_both
with_status (status st) body = body st

-- A query whose failure has its own branch.
abbrev pub query_or : Query → (ℕ → Action Void) → (Status → Action Void) → Action Void
query_or (failed e) f g = f e
query_or (status st) f g = g st

-- A call whose failure has its own branch.
abbrev pub attempt : Option ℕ → (ℕ → Action Void) → Action Void → Action Void
attempt (some e) f g = f e
attempt none f g = g

-- The sleep of a round: a tenth of the hint, between one and ten seconds.
unfoldable pub wait_time : ℕ → ℕ
wait_time hint = let w = hint / 10 in if ltb w 1000 then 1000 else if ltb 10000 w then 10000 else w

-- `GetTickCount() - dwStartTickCount`, on 32 bits.
unfoldable pub elapsed : (now start : ℕ) → ℕ
elapsed now start = (now + 2 ^ 32 - start) % 2 ^ 32
