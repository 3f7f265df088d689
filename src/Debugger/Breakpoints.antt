-- ===== src/Debugger/Breakpoints.antt =====
-- The list of breakpoints of src/mojosetup_luadebugger.c: `breakpoint_head` is a linked list in
-- memory, and each function takes the head and returns the new one. `matching` is the test of
-- `breakpoint_clear`. Loops run on fuel, the number of rounds.
pub mod Clear
pub mod Edit
pub mod Hook
use ck_agent.Base.{
  ℕ, zero, suc, Bool, true, false, not, ◌&&◌, ◌||◌, Option, none, some, ◌==◌, if◌then◌else◌, ℤ, pos,
  negsuc, eq_ℤ, Bytes, str_eq, codes,
}
use ck_agent.Memory.{
  Ptr, null, Cell, cell, Command, endless, pure, ◌>>=◌, ◌>>◌, load, initialise, set_next, free,
}

pub record Breakpoint : Type 0 where
  pub name : Bytes
  pub line : ℤ

abbrev pub breakpoint : Bytes → ℤ → Breakpoint
breakpoint n l = record { name = n; line = l }

-- `fresh` is what `calloc` returns.
pub breakpoint_add : (fresh head : Ptr) → Bytes → ℤ → Command Breakpoint Ptr
breakpoint_add fresh head name line = do
  initialise fresh (cell (breakpoint name line) head)
  pure fresh

abbrev pub matching : Bytes → ℤ → Breakpoint → Bool
matching name line b = eq_ℤ b.line line && str_eq b.name name

-- The body of `if (t->line == line && …)`: the new head.
unlink : (head prev t next : Ptr) → Command Breakpoint Ptr
unlink head prev t next = do
  head' ← if prev == null then pure null else set_next prev next >> pure head
  free t
  pure head'

-- The body of the loop up to `prev = tmp`: the new head, and `tmp`.
visit : Bytes → ℤ → (head prev tmp : Ptr) → Command Breakpoint (Ptr × Ptr)
unfolding unlink
visit name line head prev tmp = do
  t ← load tmp
  let removed = unlink head prev tmp t.next >>= λ h. pure (h, prev)
  if matching name line t.payload then removed else pure (head, tmp)

clear_loop : Bytes → ℤ → ℕ → (head prev tmp : Ptr) → Command Breakpoint Ptr
clear_loop name line zero head prev tmp = λ _. endless
clear_loop name line (suc k) head prev tmp = if tmp == null then pure head else do
  (head', prev') ← visit name line head prev tmp
  t ← load prev'
  clear_loop name line k head' prev' t.next

pub breakpoint_clear : ℕ → (head : Ptr) → Bytes → ℤ → Command Breakpoint Ptr
unfolding clear_loop
breakpoint_clear k head name line = clear_loop name line k head null head

clearall_loop : ℕ → (tmp : Ptr) → Command Breakpoint Ptr
clearall_loop zero tmp = λ _. endless
clearall_loop (suc k) tmp =
    if tmp == null then pure null else do t ← load tmp; free tmp; clearall_loop k t.next

pub breakpoint_clearall : ℕ → (head : Ptr) → Command Breakpoint Ptr
unfolding clearall_loop
breakpoint_clearall k head = clearall_loop k head

-- What `lua_getinfo` reports about the line that is about to run. `is_line` is
-- `ar->event == LUA_HOOKLINE`.
pub record LuaDebug : Type 0 where
  pub is_line : Bool
  pub what : Bytes
  pub source : Bytes
  pub currentline : ℤ

-- The two tests on one breakpoint. `strcmp` is true where the texts differ.
abbrev pub stops_at : LuaDebug → Breakpoint → Bool
stops_at ar b = (eq_ℤ b.line ar.currentline || eq_ℤ b.line (pos 0)) && not (str_eq ar.source b.name)

scan : LuaDebug → ℕ → (tmp : Ptr) → Command Breakpoint (Option Breakpoint)
scan ar zero tmp = λ _. endless
scan ar (suc k) tmp =
    if tmp == null
    then pure none
    else do t ← load tmp; if stops_at ar t.payload then pure (some t.payload) else scan ar k t.next

-- The hook: the breakpoint at which it starts the debugger, if it does.
pub debugger_breakpoint : ℕ → (head : Ptr) → LuaDebug → Command Breakpoint (Option Breakpoint)
unfolding scan
debugger_breakpoint k head ar =
    if ar.is_line && (not (eq_ℤ ar.currentline (negsuc 0)) && str_eq ar.what (codes "Lua"))
    then scan ar k head
    else pure none
