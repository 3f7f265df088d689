-- ===== src/Debugger/Console.antt =====
-- The console of src/mojosetup_luadebugger.c (`luahook_debugger`): reading a command and what it does
-- to the breakpoints, the line hook and the log level. The Lua stack, which each chunk leaves as it was,
-- and what is printed are left out.
pub mod Commands
pub mod Session
use ck_agent.Base.{
  ℕ, zero, suc, ◌+◌, ◌-◌, ◌*◌, Bool, true, false, ◌&&◌, ◌||◌, Option, none, some, List, [], ◌∷◌,
  ◌++◌, ◌==◌, leb, if◌then◌else◌, ℤ, pos, negsuc, Bytes, codes, str_eq, starts_with, drop,
}
use ck_agent.Conf.{skip_space, is_newline}
use ck_agent.Log.Level.{LogLevel, everything}
use ck_agent.Memory.{Ptr, Command, pure, ◌>>=◌}
use ck_agent.Debugger.Breakpoints.{
  Breakpoint, breakpoint_add, breakpoint_clear, breakpoint_clearall,
}

-- The newlines at the end of the line.
abbrev pub strip_end : Bytes → Bytes
strip_end [] = []
strip_end (c ∷ s) = elim (strip_end s) [
  | [] ↦ (if is_newline c then [] else c ∷ [])
  | d ∷ t ↦ c ∷ d ∷ t
]

-- `strrchr(buf, ':')`: the text before and the text behind the last colon.
abbrev pub last_colon : Bytes → Option (Bytes × Bytes)
last_colon [] = none
last_colon (c ∷ s) = elim (last_colon s) [
  | some (a, b) ↦ some (c ∷ a, b)
  | none ↦ if c == b':' then some ([], s) else none
]

abbrev pub is_digit : ℕ → Bool
is_digit c = leb 48 c && leb c 57

abbrev pub digits : ℕ → Bytes → ℕ
digits n [] = n
digits n (c ∷ s) = if is_digit c then digits (n * 10 + (c - 48)) s else n

abbrev pub negated : ℕ → ℤ
negated zero = pos 0
negated (suc n) = negsuc n

abbrev pub signed : Bytes → ℤ
signed [] = pos 0
signed (c ∷ s) =
    if c == b'-'
    then negated (digits 0 s)
    else if c == b'+'
    then pos (digits 0 s)
    else pos (digits 0 (c ∷ s))

-- `atoi`
abbrev pub atoi : Bytes → ℤ
atoi s = signed (skip_space s)

-- The name and the line of a breakpoint; the line is 0 where there is no colon.
unfoldable pub location : Bytes → Bytes × ℤ
location b = elim (last_colon b) [ none ↦ (b, pos 0) | some (a, n) ↦ (a, atoi n) ]

pub data Instruction : Type 0 where
  quit clear_all toggle_trace backtrace : Instruction
  break_at clear_at : Bytes → ℤ → Instruction
  evaluate : Bytes → Instruction

abbrev pub is_quit : Bytes → Bool
is_quit b = str_eq b (codes "q") || (str_eq b (codes "quit") || str_eq b (codes "exit"))

-- The chain of tests, on the line without its newline.
unfoldable pub instruction : Bytes → Instruction
unfolding location
instruction b =
    if is_quit b
    then quit
    else if starts_with (codes "break ") b
    then break_at (location (drop 6 b)).0 (location (drop 6 b)).1
    else if starts_with (codes "clear ") b
    then clear_at (location (drop 6 b)).0 (location (drop 6 b)).1
    else if str_eq b (codes "clearall")
    then clear_all
    else if str_eq b (codes "trace")
    then toggle_trace
    else if str_eq b (codes "bt")
    then backtrace
    else evaluate b

-- What `lua_sethook` has installed.
pub data Hook : Type 0 where
  no_hook stop_hook trace_hook : Hook

pub record Console : Type 0 where
  pub head : Ptr
  pub hook : Hook
  pub tracing : Bool
  pub level : LogLevel

abbrev pub trace : Console → Console
trace c =
    if c.tracing
    then record c { hook = no_hook; tracing = false }
    else record c { hook = trace_hook; tracing = true }

-- What an evaluated chunk makes of the line hook and the log level. It is taken to be one that does not
-- call the debugger again.
abbrev pub Chunk : Type 0
Chunk = Bytes → Hook × LogLevel → Hook × LogLevel

-- `equus_log_level_set(origloglevel)` behind the chunk.
abbrev pub run_chunk : Chunk → (origloglevel : LogLevel) → Bytes → Console → Console
run_chunk run orig b c =
    let after = run b (c.hook, c.level) in
    let ran = record c { hook = after.0; level = after.1 } in record ran { level = orig }

-- One instruction; none ends the loop. `k` is the fuel of the loops over the breakpoints, `fresh` what
-- `calloc` returns.
unfoldable pub step :
    ℕ
    → Chunk
    → LogLevel
    → (fresh : Ptr) → Instruction
    → Console
    → Command Breakpoint (Option Console)
step k run orig fresh quit c = pure none
step k run orig fresh (break_at name line) c = do
  head' ← breakpoint_add fresh c.head name line
  pure (some (record c { head = head'; hook = stop_hook }))
step k run orig fresh (clear_at name line) c = do
  head' ← breakpoint_clear k c.head name line
  pure (some (record c { head = head'; hook = no_hook }))
step k run orig fresh clear_all c = do
  head' ← breakpoint_clearall k c.head
  pure (some (record c { head = head'; hook = no_hook }))
step k run orig fresh toggle_trace c = pure (some (trace c))
step k run orig fresh backtrace c =
    pure (some (run_chunk run orig (codes "equus_stackwalk()") (record c { level = everything })))
step k run orig fresh (evaluate b) c = pure (some (run_chunk run orig b c))

-- A line of input.
unfoldable pub enter :
    ℕ → Chunk → LogLevel → (fresh : Ptr) → Bytes → Console → Command Breakpoint (Option Console)
unfolding step instruction
enter k run orig fresh line c = step k run orig fresh (instruction (strip_end line)) c

-- The loop over the lines of the input, as `fgets` gives them, up to its end; `calloc` returns the
-- addresses from `next` on.
unfoldable pub session :
    (k next : ℕ) → Chunk → LogLevel → List Bytes → Console → Command Breakpoint Console
unfolding enter
session k next run orig [] c = pure c
session k next run orig (line ∷ lines) c = enter k run orig next line c >>= λ o. elim o [
  | none ↦ pure c
  | some d ↦ session k (next + 1) run orig lines d
]

-- `luahook_debugger`: the log level at its start is the one that it restores.
unfoldable pub debugger : (k next : ℕ) → Chunk → List Bytes → Console → Command Breakpoint Console
unfolding session
debugger k next run lines c = session k next run c.level lines c
