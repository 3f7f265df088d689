-- ===== src/Debugger/Program.antt =====
-- A Lua program that runs under the debugger of src/mojosetup_luadebugger.c: Lua calls the installed hook
-- with each line event, and the hook may start a session at the console.
use ck_agent.Base.{
  ℕ, ◌+◌, ◌≤◌, ◌<◌, ◌≡◌, refl, ◌∙◌, ap, Option, none, some, List, [], ◌∷◌, arith, if◌then◌else◌,
  Bytes, length,
}
use ck_agent.Memory.{Ptr, Memory, done, Command, continue, ◌>>=◌, pure}
use ck_agent.Memory.Chain.{Entries, first, payloads, IsChain}
use ck_agent.Debugger.Breakpoints.{Breakpoint, LuaDebug, stops_at, debugger_breakpoint}
use ck_agent.Debugger.Breakpoints.Hook.{find, is_code_line, debugger_breakpoint-find}
use ck_agent.Debugger.Console.{Hook, no_hook, stop_hook, trace_hook, Console, Chunk, debugger}
use ck_agent.Debugger.Console.Session.{
  Outline, Ending, ended, console_at, rehearse, Agrees, Holding,
}
use ck_agent.Debugger.Console.Session.Run.{session-Agrees, later, Agrees-path}

-- What `debugger_breakpoint` does with its decision.
abbrev pub enter_debugger :
    (k next : ℕ)
    → Chunk
    → (typed : List Bytes) → Console
    → Option Breakpoint
    → Command Breakpoint Console
enter_debugger k next run typed c none = pure c
enter_debugger k next run typed c (some b) = debugger k next run typed c

-- An event at the hook that is installed; `typed` is the input of the session, if there is one. What
-- `debugger_trace` prints is left out.
abbrev pub on_event :
    (k next : ℕ)
    → Chunk
    → LuaDebug
    → (typed : List Bytes) → Console
    → Hook
    → Command Breakpoint Console
on_event k next run ar typed c no_hook = pure c
on_event k next run ar typed c trace_hook = pure c
on_event k next run ar typed c stop_hook =
    debugger_breakpoint k c.head ar >>= enter_debugger k next run typed c

-- The events of a program, in their order.
unfoldable pub execute :
    (k next : ℕ) → Chunk → List (LuaDebug × List Bytes) → Console → Command Breakpoint Console
execute k next run [] c = pure c
execute k next run ((ar, typed) ∷ events) c =
    on_event k next run ar typed c c.hook >>= execute k (next + length typed) run events

abbrev pub first_stop : LuaDebug → List Breakpoint → Option Breakpoint
first_stop ar bs = if is_code_line ar then find (stops_at ar) bs else none

abbrev pub at_stop :
    Chunk → (typed : List Bytes) → Outline → (next : Outline → Ending) → Option Breakpoint → Ending
at_stop run typed o next none = next o
at_stop run typed o next (some b) = rehearse run o.level typed o next

abbrev pub at_event :
    Chunk → LuaDebug → (typed : List Bytes) → Outline → (next : Outline → Ending) → Hook → Ending
at_event run ar typed o next no_hook = next o
at_event run ar typed o next trace_hook = next o
at_event run ar typed o next stop_hook = at_stop run typed o next (first_stop ar o.list)

-- The same events on a plain list of breakpoints.
abbrev pub foresee : Chunk → List (LuaDebug × List Bytes) → Outline → Ending
foresee run [] o = ended o
foresee run ((ar, typed) ∷ events) o = at_event run ar typed o (foresee run events) o.hook

abbrev pub total : List (LuaDebug × List Bytes) → ℕ
total [] = 0
total ((ar, typed) ∷ events) = length typed + total events

module _ (k next rest : ℕ) (run : Chunk) (ar : LuaDebug) (typed : List Bytes)
    (m : Memory Breakpoint) (xs : Entries Breakpoint) (o : Outline)
    (h : Holding k next (length typed + rest) m xs o) (onward : Outline → Ending)
    (loop : Console → Command Breakpoint Console)
    (goes_on : (d : Outline) (ys : Entries Breakpoint) (n : Memory Breakpoint)
      → Holding k (next + length typed) rest n ys d
      → Agrees (onward d) (loop (console_at (first ys) d) n)) where
  stays : Holding k (next + length typed) rest m xs o
  stays = later m xs o (omega arith) (omega arith) h

  stop-Agrees :
      (b : Option Breakpoint)
      → Agrees
          (at_stop run typed o onward b)
          (continue (enter_debugger k next run typed (console_at (first xs) o) b m) loop)
  unfolding debugger
  stop-Agrees none = goes_on o xs m stays
  stop-Agrees (some b) = session-Agrees k run o.level rest onward loop typed next m xs o goes_on h

  event-Agrees :
      (w : Hook)
      → Agrees
          (at_event run ar typed o onward w)
          (continue (on_event k next run ar typed (console_at (first xs) o) w m) loop)
  event-Agrees no_hook = goes_on o xs m stays
  event-Agrees trace_hook = goes_on o xs m stays
  event-Agrees stop_hook =
      let found = debugger_breakpoint-find k xs m ar h.chain (omega (arith, h.fuel)) in
      let c : Console = console_at (first xs) o in
      Agrees-path (at_stop run typed o onward (first_stop ar o.list))
        (ap (λ r. continue (continue r (enter_debugger k next run typed c)) loop)
          (found ∙ ap (λ bs. done (first_stop ar bs) m) h.listed))
        (stop-Agrees (first_stop ar o.list))

execute-Holding :
    (k : ℕ) (run : Chunk) (events : List (LuaDebug × List Bytes)) (next : ℕ) (m : Memory Breakpoint)
    (xs : Entries Breakpoint) (o : Outline)
    → Holding k next (total events) m xs o
    → Agrees (foresee run events o) (execute k next run events (console_at (first xs) o) m)
unfolding execute
execute-Holding k run [] next m xs o h = (xs, h.chain, h.listed, refl)
execute-Holding k run ((ar, typed) ∷ events) next m xs o h =
    event-Agrees k next (total events) run ar typed m xs o h (foresee run events)
      (execute k (next + length typed) run events)
      (λ d ys n held. execute-Holding k run events (next + length typed) n ys d held) o.hook

-- A program under the debugger, with breakpoints in memory, ends as the same events on their list do: it
-- crashes when those do, and else leaves the same line hook, trace state, log level and list, at the head
-- it ends with. The list is a chain in memory, `calloc` returns addresses that nothing uses, and the fuel
-- exceeds the breakpoints and all typed lines together.
pub execute-Agrees :
    (run : Chunk) (events : List (LuaDebug × List Bytes)) (k next : ℕ) (m : Memory Breakpoint)
    (xs : Entries Breakpoint) (o : Outline)
    → IsChain m xs
    → payloads xs ≡ o.list
    → ((a : Ptr) → next ≤ a → m a ≡ none)
    → 0 < next
    → length xs + total events < k
    → Agrees (foresee run events o) (execute k next run events (console_at (first xs) o) m)
execute-Agrees run events k next m xs o c listed unused live enough =
    execute-Holding k run events next m xs o
      (record { chain = c; unused = unused; real = live; fuel = enough; listed = listed })
