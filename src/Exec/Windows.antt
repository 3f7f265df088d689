-- ===== src/Exec/Windows.antt =====
-- `equus_exec_call_win32_core` of src/equus_portable.c. What the system calls answer is a script; a
-- flag says whether a handle variable holds an open handle, and closing a variable that holds none
-- does nothing. `strdup` that fails, and each call that fails, sets `err`.
use ck_agent.Base.{
  ℕ, ◌≡◌, Bool, true, false, ◌&&◌, Option, none, some, List, [], ◌∷◌, ◌++◌, append_assoc,
  append-nil, arith, ◌==◌, if◌then◌else◌, Bytes, codes, c_string, length,
}
use ck_agent.Lua.{LuaValue, check_string}

-- `ReadFile` that fails, or that gives bytes.
pub data ReadFile : Type 0 where
  broken_pipe : ReadFile
  got_bytes : Bytes → ReadFile

pub record Win : Type 0 where
  pub read_pipe : Bool
  pub write_pipe : Bool
  pub write_pipe_err : Bool
  pub process : Bool
  pub thread : Bool
  pub cmd : Bool
  pub output : Bytes

-- `created` is the code of `GetLastError` behind `CreateProcessA`, none where that succeeds.
pub record Answers : Type 0 where
  pub copied : Bool
  pub create_pipe : Bool
  pub set_information : Bool
  pub duplicate : Bool
  pub created : Option ℕ
  pub reads : List ReadFile
  pub exit_code : ℕ

-- `failed` carries `err`, `bad_argument` is the error of `luaL_checkstring`; `reading` waits for a
-- `ReadFile` that the script does not have.
pub data WinExec : Type 0 where
  bad_argument : WinExec
  failed : Bytes → Win → WinExec
  finished : ℕ → Win → WinExec
  reading : Win → WinExec

abbrev pub none_open : Win
none_open = record {
  read_pipe = false;
  write_pipe = false;
  write_pipe_err = false;
  process = false;
  thread = false;
  cmd = false;
  output = [];
}

-- The label `cleanup`: every handle that a variable holds, and the copy of the command.
abbrev pub cleanup : Win → Win
cleanup w = record w {
  read_pipe = false;
  write_pipe = false;
  write_pipe_err = false;
  process = false;
  thread = false;
  cmd = false;
}

-- `while (TRUE)` around `ReadFile`; none where the script is over. The buffer is a C string.
unfoldable pub read_all : List ReadFile → Bytes → Option Bytes
read_all [] out = none
read_all (broken_pipe ∷ rs) out = some out
read_all (got_bytes b ∷ rs) out =
    let rest = read_all rs (out ++ c_string b) in if length b == 0 then some out else rest

-- From the `CloseHandle` of the two write ends on.
abbrev pub collect : Answers → Win → WinExec
collect a w = elim (read_all a.reads []) [
  | none ↦ reading w
  | some out ↦ finished a.exit_code (cleanup (record w { output = out }))
]

-- `sprintf_s` of the error of `CreateProcess`; `describe` is the text it makes of the code.
abbrev pub start : (describe : ℕ → Bytes) → Answers → Win → WinExec
start describe a w = elim a.created [
  | some e ↦ failed (describe e) (cleanup w)
  | none ↦
      collect a
        (record w { process = true; thread = true; write_pipe = false; write_pipe_err = false })
]

-- The two tests behind `CreatePipe`.
abbrev pub share : (describe : ℕ → Bytes) → Answers → Win → WinExec
share describe a w =
    let next = start describe a (record w { write_pipe_err = true }) in
    let duplicated = if a.duplicate then next else failed (codes "DuplicateHandle") (cleanup w) in
    if a.set_information then duplicated else failed (codes "SetHandleInformation") (cleanup w)

unfoldable pub exec_call_win32_core : (ℕ → Bytes) → Answers → List LuaValue → WinExec
unfolding read_all
exec_call_win32_core describe a args =
    let w = record none_open { cmd = true } in
    let piped = share describe a (record w { read_pipe = true; write_pipe = true }) in
    let copied = if a.create_pipe then piped else failed (codes "CreatePipe") (cleanup w) in
    elim (check_string args 0) [
      | none ↦ bad_argument
      | some _ ↦ if a.copied then copied else failed (codes "out of memory") (cleanup none_open)
    ]

-- The reads up to the first that fails or is empty.
abbrev pub before_end : List ReadFile → List Bytes
before_end [] = []
before_end (broken_pipe ∷ rs) = []
before_end (got_bytes [] ∷ rs) = []
before_end (got_bytes (c ∷ b) ∷ rs) = (c ∷ b) ∷ before_end rs

abbrev pub all_texts : List Bytes → Bytes
all_texts [] = []
all_texts (b ∷ bs) = c_string b ++ all_texts bs

-- Some read fails or is empty.
abbrev pub Ends : List ReadFile → Type 0
Ends [] = ⊥
Ends (broken_pipe ∷ rs) = Unit
Ends (got_bytes [] ∷ rs) = Unit
Ends (got_bytes (c ∷ b) ∷ rs) = Ends rs

read_all-all_texts :
    (rs : List ReadFile) (out : Bytes)
    → Ends rs
    → read_all rs out ≡ some (out ++ all_texts (before_end rs))
unfolding read_all
read_all-all_texts [] out h = absurd h
read_all-all_texts (broken_pipe ∷ rs) out h = rw append-nil
read_all-all_texts (got_bytes [] ∷ rs) out h = rw append-nil
read_all-all_texts (got_bytes (c ∷ b) ∷ rs) out h =
    let filled : (length (c ∷ b) == 0) ≡ false = ground arith in
    rw (read_all, filled, read_all-all_texts rs (out ++ c_string (c ∷ b)) h)
      (rw (append_assoc out (c_string (c ∷ b)) (all_texts (before_end rs))))

-- What holds of the state in which a call leaves the process.
abbrev pub AllReleased : Win → Type 0
AllReleased w =
    (w.read_pipe ≡ false)
    × (w.write_pipe ≡ false)
    × (w.write_pipe_err ≡ false)
    × (w.process ≡ false)
    × (w.thread ≡ false)
    × (w.cmd ≡ false)

abbrev pub is_none : Option ℕ → Bool
is_none none = true
is_none (some e) = false

-- Every call in front of the reads succeeds.
abbrev pub none_fails : Answers → Bool
none_fails a = a.copied && a.create_pipe && a.set_information && a.duplicate && is_none a.created

-- How a call ends: with everything released, with a failure exactly where some call fails, and otherwise
-- with the exit code of the process, and as output the texts of the reads up to the end, each up to its
-- first NUL.
abbrev pub EndsReleased : Answers → List LuaValue → WinExec → Type 0
EndsReleased a args bad_argument = check_string args 0 ≡ none
EndsReleased a args (failed err w) = (none_fails a ≡ false) × AllReleased w
EndsReleased a args (finished code w) =
    (none_fails a ≡ true)
    × AllReleased w
    × (code ≡ a.exit_code)
    × (w.output ≡ all_texts (before_end a.reads))
EndsReleased a args (reading w) = ⊥

-- Where the pipe comes to its end, `equus_exec_call_win32_core` ends. It refuses only an argument that is
-- no string; it reports a failure only where one of its calls fails, and then, whichever that is, all its
-- handles are closed and its copy of the command is freed. Otherwise they are too, and it returns the
-- exit code and the texts of all reads, each up to its first NUL.
pub exec_call_win32_core-EndsReleased :
    (describe : ℕ → Bytes) (a : Answers) (args : List LuaValue)
    → Ends a.reads
    → EndsReleased a args (exec_call_win32_core describe a args)
unfolding exec_call_win32_core
exec_call_win32_core-EndsReleased describe a args h =
    ground (arith, read_all-all_texts a.reads [] h)
