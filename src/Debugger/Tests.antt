-- ===== src/Debugger/Tests.antt =====
-- Runs of the breakpoint functions and of the console of src/mojosetup_luadebugger.c on a list of two
-- breakpoints.
use ck_agent.Base.{
  ◌≢◌, refl, true, false, none, some, List, [], ◌∷◌, Bytes, arith, ◌==◌, if◌then◌else◌, pos, codes,
}
use ck_agent.Memory.{cell, Memory}
use ck_agent.Memory.Chain.{Entries, IsChain, Returns}
use ck_agent.Debugger.Breakpoints.{Breakpoint, breakpoint, LuaDebug, breakpoint_clear}
use ck_agent.Debugger.Breakpoints.Clear.{Cleared, breakpoint_clear-others}
use ck_agent.Log.Level.{info}
use ck_agent.Debugger.Console.{Chunk, stop_hook}
use ck_agent.Debugger.Console.Session.{Outline, Agrees, console_at}
use ck_agent.Debugger.Program.{foresee, execute, execute-Agrees}
use ck_agent.Debugger.Breakpoints.Hook.{debugger_breakpoint-find, debugger_breakpoint-ne_source}

abbrev no_effect : Chunk
no_effect b s = s

abbrev two : Entries Breakpoint
two = (4, breakpoint (codes "@a") (pos 3)) ∷ (8, breakpoint (codes "@b") (pos 7)) ∷ []

abbrev two_memory : Memory Breakpoint
two_memory a =
    if a == 4
    then some (cell (breakpoint (codes "@a") (pos 3)) 8)
    else if a == 8
    then some (cell (breakpoint (codes "@b") (pos 7)) 0)
    else none

two-IsChain : IsChain two_memory two
two-IsChain = (ground arith, refl, refl, (ground arith, refl, refl, tt))

-- The running line is line 7 of the source `b`.
abbrev line_of_b : LuaDebug
line_of_b = record { is_line = true; what = codes "Lua"; source = codes "b"; currentline = pos 7 }

breakpoint_clear-others_example :
    Returns
      (Cleared (codes "@b") (pos 7) two two_memory)
      (breakpoint_clear 3 4 (codes "@b") (pos 7) two_memory)
breakpoint_clear-others_example =
    breakpoint_clear-others 3 (codes "@b") (pos 7) two two_memory two-IsChain (omega arith) refl

debugger_breakpoint-ne_source_example : codes "@b" ≢ codes "b"
debugger_breakpoint-ne_source_example =
    debugger_breakpoint-ne_source 3 two two_memory two_memory line_of_b
      (breakpoint (codes "@b") (pos 7)) two-IsChain (omega arith)
      (debugger_breakpoint-find 3 two two_memory line_of_b two-IsChain (omega arith))

abbrev session_lines : List Bytes
session_lines =
    codes "break @c:5"
    ∷ codes "clear @b:7"
    ∷ codes "trace"
    ∷ codes "bt"
    ∷ codes "q"
    ∷ codes "clearall"
    ∷ []

abbrev outline : Outline
outline = record {
  list = breakpoint (codes "@a") (pos 3) ∷ breakpoint (codes "@b") (pos 7) ∷ [];
  hook = stop_hook;
  tracing = false;
  level = info;
}

-- The program stops at line 7 of `b`, where a third breakpoint is set, the second one cleared, tracing
-- switched on and the stack printed; the line behind `q` is not read, and the next event does not stop.
abbrev events : List (LuaDebug × List Bytes)
events = (line_of_b, session_lines) ∷ (line_of_b, codes "clearall" ∷ []) ∷ []

execute-Agrees_example :
    Agrees
      (foresee no_effect events outline)
      (execute 12 12 no_effect events (console_at 4 outline) two_memory)
execute-Agrees_example =
    execute-Agrees no_effect events 12 12 two_memory two outline two-IsChain refl
      (λ a le. ground arith) (omega arith) (omega arith)
