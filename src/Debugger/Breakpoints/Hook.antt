-- ===== src/Debugger/Breakpoints/Hook.antt =====
-- Where `debugger_breakpoint` stops.
use ck_agent.Base.{
  ℕ, zero, suc, ◌<◌, ◌≡◌, ◌≢◌, refl, sym, inl, inr, Bool, false, not, ◌&&◌, Option, none, some,
  List, [], ◌∷◌, arith, if◌then◌else◌, Bool-cases, negsuc, eq_ℤ, codes, str_eq, str_eq_iff, length,
}
use ck_agent.Memory.{Memory, done}
use ck_agent.Memory.Chain.{Entries, not_null, first, payloads, IsChain, load-done}
use ck_agent.Debugger.Breakpoints.{Breakpoint, LuaDebug, stops_at, scan, debugger_breakpoint}

-- The first element that passes the test.
abbrev pub find : (Breakpoint → Bool) → List Breakpoint → Option Breakpoint
find p [] = none
find p (b ∷ bs) = if p b then some b else find p bs

-- The hook looks at a line of Lua code whose number is known.
abbrev pub is_code_line : LuaDebug → Bool
is_code_line ar =
    ar.is_line && (not (eq_ℤ ar.currentline (negsuc 0)) && str_eq ar.what (codes "Lua"))

scan-find :
    (ar : LuaDebug) (k : ℕ) (xs : Entries Breakpoint) (m : Memory Breakpoint)
    → IsChain m xs
    → length xs < k
    → scan ar k (first xs) m ≡ done (find (stops_at ar) (payloads xs)) m
unfolding scan
scan-find ar zero xs m c fuel = absurd (omega arith)
scan-find ar (suc k) [] m c fuel = refl
scan-find ar (suc k) ((p, b) ∷ xs) m (live, at, out, c) fuel = elim (Bool-cases (stops_at ar b)) [
  | inl stop ↦ rw (not_null p live, load-done m live at, stop)
  | inr pass ↦ rw (not_null p live, load-done m live at, pass) (scan-find ar k xs m c (omega arith))
]

find-name :
    (ar : LuaDebug) (bs : List Breakpoint) (b : Breakpoint)
    → find (stops_at ar) bs ≡ some b
    → str_eq ar.source b.name ≡ false
find-name ar [] b e = cc
find-name ar (d ∷ bs) b e = elim (Bool-cases (stops_at ar d)) [
  | inl stop ↦ ground (arith, stop)
  | inr pass ↦ find-name ar bs b (rw pass at e)
]

-- On a live list the hook ends and changes no memory; at a line of Lua code it starts the debugger
-- at the first breakpoint that is for this line, or for every line, and whose name differs from the
-- source; at other events it does not start it.
pub debugger_breakpoint-find :
    (k : ℕ) (xs : Entries Breakpoint) (m : Memory Breakpoint) (ar : LuaDebug)
    → IsChain m xs
    → length xs < k
    → debugger_breakpoint k (first xs) ar m
      ≡ done (if is_code_line ar then find (stops_at ar) (payloads xs) else none) m
unfolding debugger_breakpoint
debugger_breakpoint-find k xs m ar c fuel = elim (Bool-cases (is_code_line ar)) [
  | inl code ↦ rw code (scan-find ar k xs m c fuel)
  | inr other ↦ rw other
]

-- A breakpoint at which the hook starts the debugger is never one that was set for the running
-- source: its name differs from the name of the source.
pub debugger_breakpoint-ne_source :
    (k : ℕ) (xs : Entries Breakpoint) (m n : Memory Breakpoint) (ar : LuaDebug) (b : Breakpoint)
    → IsChain m xs
    → length xs < k
    → debugger_breakpoint k (first xs) ar m ≡ done (some b) n
    → b.name ≢ ar.source
debugger_breakpoint-ne_source k xs m n ar b c fuel stop same = elim (Bool-cases (is_code_line ar)) [
  | inl code ↦
      let found : find (stops_at ar) (payloads xs) ≡ some b =
        cc (rw code at (debugger_breakpoint-find k xs m ar c fuel)) in
      cc (find-name ar (payloads xs) b found, (str_eq_iff ar.source b.name).1 (sym same))
  | inr other ↦ cc (rw other at (debugger_breakpoint-find k xs m ar c fuel))
]
