-- ===== src/Log/Journal/Runs.antt =====
-- Sequences of calls of the logger of src/equus_util.c against the journal.
use ck_agent.Base.{ℕ, ◌+◌, ◌<◌, ◌≡◌, ◌≢◌, refl, false, Option, none, some, List, [], ◌∷◌, arith}
use ck_agent.Log.Level.{LogLevel}
use ck_agent.Log.{continue, unset, Logger}
use ck_agent.Log.Journal.{At, Op, Journal, call, run, expected, and_then, play, ArePlain}
use ck_agent.Log.Journal.Agrees.{is_file, Agrees}
use ck_agent.Log.Journal.Calls.{Ends, call-Ends}

-- The static variables at the start of the process.
abbrev pub untouched : LogLevel → Logger
untouched v = record {
  level = v;
  fp = unset;
  path = 0;
  strings = λ q. none;
  is_open = λ k. false;
  written = [];
}

abbrev pub blank : LogLevel → Journal
blank v = record { level = v; path = none; to = unset; written = [] }

-- Both crash, or both end at the same; only the file in use is open, and only the path in use is
-- allocated.
abbrev pub Matches : Option (Unit {0} × Logger) → Option Journal → Type 0
Matches none none = Unit
Matches (some (_, l)) (some j) =
    (l.level ≡ j.level)
    × (l.fp ≡ j.to)
    × (l.written ≡ j.written)
    × ((k : ℕ) → l.is_open k ≡ is_file k j.to)
    × ((q : ℕ) → q ≢ 0 → q ≢ l.path → l.strings q ≡ none)
Matches none (some _) = ⊥
Matches (some _) none = ⊥

then-Matches :
    (next : ℕ) (ops : List (At × Op)) (r : Option (Unit {0} × Logger)) (o : Option Journal)
    → Ends (next + 1) (next + 1) r o
    → ((l : Logger) (j : Journal)
        → Agrees (next + 1) (next + 1) l j
        → Matches (run (next + 1) ops l) (play (next + 1) ops j))
    → Matches (continue r (λ _. run (next + 1) ops)) (and_then o (play (next + 1) ops))
then-Matches next ops none none e go = tt
then-Matches next ops (some (_, l)) (some j) e go = go l j e
then-Matches next ops none (some j) e go = absurd e
then-Matches next ops (some _) none e go = absurd e

run-Matches :
    (ops : List (At × Op)) (next : ℕ) (l : Logger) (j : Journal)
    → ArePlain ops
    → 0 < next
    → Agrees next next l j
    → Matches (run next ops l) (play next ops j)
unfolding run play
run-Matches [] next l j plain_ops real a = (a.level, a.to, a.written, a.opened, a.only)
run-Matches ((e, op) ∷ ops) next l j (plain, plain_text, here, later) real a =
    then-Matches next ops (call e.date e.error_text next op l)
      (expected e.date e.error_text next op j)
      (call-Ends e.date e.error_text plain plain_text next op l j here real a)
      (λ l' j' a'. run-Matches ops (next + 1) l' j' later (omega arith) a')

-- From the state in which the process starts, any sequence of calls of the logger, each with a date
-- and an error text of its own (messages, changes of the level, of the path and rotations, where `fopen` succeeds or fails), does what
-- it does to a plain journal: it crashes exactly where that says so, which is where stderr is asked
-- for once a path was given; otherwise it ends with the journal's level and stream and has written what
-- the journal says, and then no file but the one in use is open and no copy of a path but the one in
-- use is allocated. Messages, dates and the texts of errors hold no NUL, a file that `fopen` gives was
-- not open before, and `strdup` succeeds, with an address that was not in use.
pub run_journal :
    (ops : List (At × Op)) (next : ℕ) (level : LogLevel)
    → ArePlain ops
    → 0 < next
    → Matches (run next ops (untouched level)) (play next ops (blank level))
run_journal ops next level plain_ops real =
    run-Matches ops next (untouched level) (blank level) plain_ops real (record {
      level = refl;
      to = refl;
      written = refl;
      path = refl;
      only = λ q ne out. refl;
      opened = λ k. refl;
      older = λ k h. cc;
      unnamed = λ e k. refl;
    })
