-- ===== src/Log/Journal/Tests.antt =====
-- A run of the logger of src/equus_util.c that changes files.
use ck_agent.Base.{◌≡◌, refl, none, some, [], ◌∷◌, arith, codes, true, false, List}
use ck_agent.Log.Level.{critical, info, warnings, debug}
use ck_agent.Log.Journal.{At, Op, ArePlain, line, set_level, set_path, rotate, run, play, expected}
use ck_agent.Log.Journal.Runs.{untouched, blank, Matches, run_journal}

abbrev now : At
now = record { date = codes "Wed Jun 30 21:49:08 1993"; error_text = λ b. codes "no" }

abbrev next_day : At
next_day = record { date = codes "Thu Jul  1 08:00:00 1993"; error_text = λ b. codes "gone" }

abbrev ops : List (At × Op)
ops =
    (now, line info (codes "up"))
    ∷ (now, set_path (some (codes "a.log")) true)
    ∷ (now, line critical (codes "bad"))
    ∷ (next_day, set_level warnings)
    ∷ (next_day, line info (codes "hidden"))
    ∷ (next_day, rotate true)
    ∷ (next_day, rotate false)
    ∷ []

-- Going back to stderr behind these calls crashes.
back_to_stderr :
    play 8 ((now, set_path none true) ∷ []) (record (blank debug) { path = some (codes "a.log") })
    ≡ none
unfolding play expected
back_to_stderr = refl

ops-ArePlain : ArePlain ops
ops-ArePlain = ground arith

run_journal_example : Matches (run 1 ops (untouched debug)) (play 1 ops (blank debug))
run_journal_example = run_journal ops 1 debug ops-ArePlain (omega arith)
