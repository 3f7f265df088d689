-- ===== src/Service/Tests.antt =====
-- Runs of the service control of src/equus_service.c.
use ck_agent.Base.{ℕ, ◌+◌, zero, suc, inl, false, none, some, List, [], ◌∷◌, arith}
use ck_agent.Service.{Status, status, Round, fresh, elapsed}
use ck_agent.Service.Wait.{EndsClosed}
use ck_agent.Service.Start
use ck_agent.Service.Start.Handles.{start-EndsClosed}
use ck_agent.Service.Stop
use ck_agent.Service.Stop.Ends.{IsDone, IsPaced, RunsOut, stop-EndsClosed, stop-IsDone}
use ck_agent.Service.Control.{InstallAnswers}

abbrev in_state : ℕ → Status
in_state n = record { current_state = n; exit_code = 0; check_point = 0; wait_hint = 0 }

-- The service is stopped at first, and runs behind one round of the second loop.
abbrev start_answers : Start.Answers
start_answers = record {
  manager = none;
  service = none;
  first = status (in_state 1);
  tick = 0;
  stopping = [];
  start = none;
  second = status (in_state 2);
  start_tick = 0;
  starting = record { query = status (in_state 4); tick = 1000 } ∷ [];
}

-- A round each second in which the service is still stopping.
abbrev pending_rounds : (tick n : ℕ) → List Round
pending_rounds t zero = []
pending_rounds t (suc n) =
    record { query = status (in_state 3); tick = t } ∷ pending_rounds (t + 1000) n

-- The service never stops.
abbrev stop_answers : Stop.Answers
stop_answers = record {
  start = 0;
  manager = none;
  service = none;
  first = status (in_state 3);
  stopping = pending_rounds 1000 31;
  control = none;
  controlled = in_state 3;
  waits = record { query = status (in_state 3); tick = 30001 } ∷ [];
}

abbrev install_answers : InstallAnswers
install_answers = record {
  module_name = none;
  manager = none;
  existing = false;
  creation = none;
  description = some 5;
  actions = none;
}

start-EndsClosed_example : EndsClosed (Start.win32_service_start start_answers fresh)
start-EndsClosed_example = start-EndsClosed start_answers

stop-EndsClosed_example : EndsClosed (Stop.win32_service_stop stop_answers fresh)
stop-EndsClosed_example = stop-EndsClosed stop_answers

stop_rounds-IsPaced : IsPaced 0 1 stop_answers.stopping
unfolding elapsed
stop_rounds-IsPaced = ground arith

waits-RunsOut : RunsOut 0 stop_answers.waits
unfolding elapsed
waits-RunsOut = inl (omega arith)

stop-IsDone_example : IsDone (Stop.win32_service_stop stop_answers fresh)
stop-IsDone_example = stop-IsDone stop_answers stop_rounds-IsPaced (omega arith) waits-RunsOut
