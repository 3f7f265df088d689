-- ===== src/Log/Journal.antt =====
-- Any sequence of calls of the logger of src/equus_util.c against a plain journal: which file is in
-- use, and what was written where. Each call has its own date and error text. `fopen` gives a file that was not open
-- before, or fails, as the call says; `strdup` succeeds and gives a fresh address.
pub mod Agrees
pub mod Calls
pub mod Runs
mod Tests
use ck_agent.Base.{
  ℕ, ◌+◌, Bool, true, false, Option, none, some, List, [], ◌∷◌, ◌++◌, ltb, if◌then◌else◌, Bytes,
  codes, take, HasNoNul, str_eq,
}
use ck_agent.Log.Level.{LogLevel, info, critical, rank}
use ck_agent.Log.{
  Stream, stderr, file, Logger, Action, ◌>>◌, pure, target, equus_log, Opening, log_rotate,
  log_set_path, log_level_set, means_stderr,
}
use ck_agent.Log.Write.{entries}

-- A call, and whether `fopen` opens the file.
pub data Op : Type 0 where
  line : LogLevel → Bytes → Op
  set_level : LogLevel → Op
  set_path : Option Bytes → Bool → Op
  rotate : Bool → Op

-- The path is the one that was last given, the stream the one in use.
pub record Journal : Type 0 where
  pub level : LogLevel
  pub path : Option Bytes
  pub to : Stream
  pub written : List (Stream × Bytes)

abbrev pub and_then : Option Journal → (Journal → Option Journal) → Option Journal
and_then none f = none
and_then (some j) f = f j

module _ (now : Bytes) (message : Bytes → Bytes) where
  abbrev pub answer : ℕ → Bool → Opening
  answer h ok = record { opens = λ b. if ok then some h else none; message = message }

  -- The file that is opened is `next`, and so is the address of the copy of the path.
  unfoldable pub call : (next : ℕ) → Op → Action (Unit {0})
  call next (line v str) = equus_log now v str
  call next (set_level v) = log_level_set v
  call next (set_path p ok) = log_set_path (answer next ok) now next p >> pure tt
  call next (rotate ok) = log_rotate (answer next ok) now >> pure tt

  -- A message in the journal, if its level is not above the journal's.
  pub note : LogLevel → Bytes → Journal → Journal
  note v str j =
      if ltb (rank j.level) (rank v)
      then j
      else record j { to = target j.to; written = j.written ++ entries now v str j.to }

  abbrev pub started : Stream → Journal → Journal
  started s j = note info (codes "Log file started...") (record j { to = s })

  abbrev pub reopen : (path : Option Bytes) → (next : ℕ) → (opens : Bool) → Journal → Journal
  reopen none next ok j = started stderr j
  reopen (some b) next true j = started (file next) j
  reopen (some b) next false j = note critical (take 3999 (message b)) j

  -- Back to stderr; `none` is the crash where a path had been given.
  abbrev pub to_stderr : (path : Option Bytes) → Journal → Option Journal
  to_stderr none j = some (started stderr j)
  to_stderr (some b) j = none

  abbrev pub go_to : Option Bytes → (next : ℕ) → (opens : Bool) → Journal → Option Journal
  go_to none next ok j = to_stderr j.path j
  go_to (some b) next ok j =
      if str_eq b (codes "-")
      then to_stderr j.path j
      else some (reopen (some b) next ok (record j { path = some b }))

  unfoldable pub expected : (next : ℕ) → Op → Journal → Option Journal
  expected next (line v str) j = some (note v str j)
  expected next (set_level v) j = some (record j { level = v })
  expected next (set_path p ok) j = go_to p next ok j
  expected next (rotate ok) j = some (reopen j.path next ok j)

-- When a call is made: the date, and the text of the error if `fopen` fails on a path.
pub record At : Type 0 where
  pub date : Bytes
  pub error_text : Bytes → Bytes

pub run : (next : ℕ) → List (At × Op) → Action (Unit {0})
run next [] = pure tt
run next ((e, op) ∷ ops) = call e.date e.error_text next op >> run (next + 1) ops

pub play : (next : ℕ) → List (At × Op) → Journal → Option Journal
play next [] j = some j
play next ((e, op) ∷ ops) j =
    and_then (expected e.date e.error_text next op j) (play (next + 1) ops)

-- The message is a C string.
abbrev pub IsPlain : Op → Type 0
IsPlain (line v str) = HasNoNul str
IsPlain (set_level _) = Unit
IsPlain (set_path _ _) = Unit
IsPlain (rotate _) = Unit

abbrev pub ArePlain : List (At × Op) → Type 0
ArePlain [] = Unit
ArePlain ((e, op) ∷ ops) =
    HasNoNul e.date × ((b : Bytes) → HasNoNul (e.error_text b)) × IsPlain op × ArePlain ops
