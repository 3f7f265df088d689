-- ===== src/Main/Windows/Tests.antt =====
-- Runs of the Windows service of src/equus.c: one whose agent ends with the code 3, and one that waits
-- when a stop comes.
use ck_agent.Base.{ℕ, zero, suc, ◌+◌, List, ◌≡◌, refl, inl, true, false, some, none, [], ◌∷◌, arith}
use ck_agent.Main.Windows.{
  create_event, waiting, report_stopped, returned, idle, reporting, absent, working, ended, Process,
  Status, running, stopped, service_main, service_handler, wait, serves, handles, ends, Reach,
  begin, later,
}
use ck_agent.Main.Windows.Codes.{IsCodedAt, Reach-IsCodedAt}
use ck_agent.Main.Windows.Races.{IsDeaf, pending_status, late_stop}
use ck_agent.Main.Windows.Client.{Watches, still, serving, handling, done, round, deaf-NeverSends}
use ck_agent.Service.{Round, elapsed}
use ck_agent.Service as Control
use ck_agent.Service.Stop.{Answers}
use ck_agent.Service.Stop.Ends.{IsPaced}
use ck_agent.Service.Stop.Pending.{NeverSends}
use ck_agent.Main.Windows.Stops.{Run, stay, turn, aside, Run-returned}

abbrev running_status : Status
running_status = record {
  state = running;
  own_process = true;
  accepts_stop = true;
  win32_exit = 0;
  specific_exit = 0;
}

abbrev creating : Process
creating = record {
  main = create_event;
  handler = idle;
  agent = absent;
  handle = true;
  status = running_status;
  event = none;
  reports = running_status ∷ [];
}

creating-Reach : Reach creating
unfolding service_main
creating-Reach = later (later (later begin (serves true 0)) (serves true 0)) (serves true 0)

abbrev waits : Process
waits = record creating { main = waiting; agent = working; event = some false }

waits-Reach : Reach waits
unfolding service_main
waits-Reach = later (later creating-Reach (serves true 0)) (serves true 0)

abbrev last_status : Status
last_status = record running_status { state = stopped; win32_exit = 1066; specific_exit = 3 }

abbrev ends_with_3 : Process
ends_with_3 = record waits { main = report_stopped; agent = ended 3; status = last_status }

ends_with_3-Reach : Reach ends_with_3
unfolding service_main wait
ends_with_3-Reach =
    later (later (later (later waits-Reach (ends 3 refl)) (serves true 0)) (serves true 0))
      (serves true 0)

Reach-IsCodedAt_example : IsCodedAt report_stopped ends_with_3
Reach-IsCodedAt_example = Reach-IsCodedAt ends_with_3 ends_with_3-Reach

late_stop_example :
    (q : Process) × Reach q
    × (q.main ≡ returned)
    × (q.handler ≡ idle)
    × (q.reports ≡ pending_status ends_with_3 ∷ pending_status ends_with_3 ∷ running_status ∷ [])
late_stop_example = late_stop ends_with_3 ends_with_3-Reach (inl refl) refl (refl, refl)

-- The stop has been signalled; the agent ends, and the handler reports, between the turns.
abbrev told : Process
told = record waits { handler = reporting; event = some true }

abbrev after_turns : Process
after_turns = service_main true 0 (
    service_main true 0 (
      service_handler
        (service_main true 0 (service_main true 0 (record told { agent = ended 0 })))))

after_turns-Run : Run told 4 after_turns
after_turns-Run =
    turn (turn (aside (turn (turn (aside stay (ends 0 refl)) true 0) true 0) handles) true 0) true 0

Run-returned_example : after_turns.main ≡ returned
Run-returned_example = Run-returned told after_turns 4 refl refl after_turns-Run (omega arith)

-- The stop that came before the event existed has been reported as pending.
abbrev deaf : Process
deaf = record waits {
  status = pending_status creating;
  reports = pending_status creating ∷ running_status ∷ [];
}

deaf-IsDeaf : IsDeaf deaf
unfolding service_main service_handler wait
deaf-IsDeaf = (refl, refl, refl, λ ok error. refl)

abbrev pending_answer : Control.Query
pending_answer =
    Control.status (record { current_state = 3; exit_code = 0; check_point = 0; wait_hint = 0 })

-- A query each second.
abbrev seconds : (tick n : ℕ) → List Round
seconds t zero = []
seconds t (suc n) = record { query = pending_answer; tick = t } ∷ seconds (t + 1000) n

seconds-Watches : (t n : ℕ) → Watches deaf (seconds t n)
unfolding service_main service_handler wait
seconds-Watches t zero = done
seconds-Watches t (suc n) =
    round (handling (serving still true 0)) refl (seconds-Watches (t + 1000) n)

abbrev lost_answers : Answers
lost_answers = record {
  start = 0;
  manager = none;
  service = none;
  first = pending_answer;
  stopping = seconds 1000 31;
  control = none;
  controlled = record { current_state = 3; exit_code = 0; check_point = 0; wait_hint = 0 };
  waits = [];
}

lost_answers-IsPaced : IsPaced 0 1 lost_answers.stopping
unfolding elapsed
lost_answers-IsPaced = ground arith

deaf-NeverSends_example : NeverSends lost_answers
deaf-NeverSends_example =
    deaf-NeverSends deaf lost_answers deaf-IsDeaf refl refl refl refl (seconds-Watches 1000 31)
      lost_answers-IsPaced (omega arith)
