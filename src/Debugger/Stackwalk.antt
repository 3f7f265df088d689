-- ===== src/Debugger/Stackwalk.antt =====
-- The stack traces of src/mojosetup_luadebugger.c: `snprintfcat` on the scratch buffer, and what
-- `luahook_stackwalk` logs of each stack frame. `vsnprintf` is what C says of it; a format is given as the
-- text that it stands for, which `%s` of a NULL has none of.
pub mod Fits
pub mod Lines
mod Tests
use ck_agent.Base.{
  ℕ, zero, suc, ◌+◌, ◌-◌, ◌^◌, ◌/◌, ◌%◌, Bool, true, false, ◌&&◌, Option, none, some, List, [], ◌∷◌,
  ◌++◌, ◌==◌, ltb, if◌then◌else◌, ℤ, pos, negsuc, eq_ℤ, Bytes, codes, str_eq, length, take,
}
use ck_agent.Debugger.Breakpoints.{LuaDebug}

abbrev pub scratch_size : ℕ
scratch_size = 131072

-- `ptr` as an offset into `scratchbuf_128k`, `len` of type `size_t`, and the text of the buffer.
pub record Cursor : Type 0 where
  pub at : ℕ
  pub len : ℕ
  pub text : Bytes

-- The bytes that `vsnprintf` writes, the terminating NUL among them.
abbrev pub written : ℕ → ℕ → ℕ
written bw len = if ltb bw len then bw + 1 else len

-- None where it writes behind the end of the buffer.
unfoldable pub snprintfcat : Bytes → Cursor → Option Cursor
snprintfcat t c =
    let bw = length t in
    let moved = record c { at = c.at + bw; len = (c.len + 2 ^ 64 - bw % 2 ^ 64) % 2 ^ 64 } in
    if c.len == 0
    then some moved
    else if ltb scratch_size (c.at + written bw c.len)
    then none
    else some (record moved { text = take c.at c.text ++ take (c.len - 1) t })

infixl 5 ◌>>=◌
abbrev pub ◌>>=◌ : {A B : Type 0} → Option A → (A → Option B) → Option B
none >>= k = none
some x >>= k = k x

-- `snprintfcat(&ptr, &len, " ")`, as often as it says.
abbrev pub spaces : ℕ → Cursor → Option Cursor
spaces zero c = some c
spaces (suc n) c = snprintfcat (codes " ") c >>= spaces n

abbrev pub rewind : Cursor → Cursor
rewind c = record c { at = 0; len = scratch_size }

-- `%d`
abbrev pub decimal_loop : (fuel : ℕ) → ℕ → Bytes
decimal_loop zero n = []
decimal_loop (suc k) n =
    let front = decimal_loop k (n / 10) in
    let digit = 48 + n % 10 in if ltb n 10 then digit ∷ [] else front ++ digit ∷ []

abbrev pub decimal : ℤ → Bytes
decimal (pos n) = decimal_loop (n + 1) n
decimal (negsuc n) = b'-' ∷ decimal_loop (n + 2) (n + 1)

-- A stack frame, as `lua_getinfo` with "nSl" fills a `lua_Debug`; `known` says whether it succeeds.
pub record Frame : Type 0 where
  pub known : Bool
  pub namewhat : Bytes
  pub name : Option Bytes
  pub what : Bytes
  pub source : Bytes
  pub short_src : Bytes
  pub currentline : ℤ

abbrev pub is_empty : Bytes → Bool
is_empty [] = true
is_empty (c ∷ s) = false

abbrev pub kind : Bytes → Bytes
kind what =
    if str_eq what (codes "main")
    then codes "mainline of chunk"
    else if str_eq what (codes "tail")
    then codes "tail call"
    else codes "unidentifiable function"

-- The text on what the frame runs.
unfoldable pub function_text : Frame → Bytes
function_text f = elim f.name [
  | none ↦ kind f.what
  | some n ↦ if is_empty n then kind f.what else codes "function " ++ n ++ codes " ()"
]

abbrev pub is_stripped : Frame → Bool
is_stripped f = str_eq f.source (codes "=?") && eq_ℤ f.currentline (pos 0)

-- The line number, unless it is -1.
abbrev pub at_line : ℤ → Cursor → Option Cursor
at_line z c = if eq_ℤ z (negsuc 0) then some c else snprintfcat (b':' ∷ decimal z) c

-- The file, the line and the function's name.
unfoldable pub in_file : (name : Option Bytes) (file : Bytes) → ℤ → Cursor → Option Cursor
in_file name file z c = do
  d ← snprintfcat (codes "in Lua code at " ++ file) c
  e ← at_line z d
  n ← name
  snprintfcat (codes " " ++ n ++ codes "()") e

-- Where the frame runs.
unfoldable pub place : Frame → Cursor → Option Cursor
unfolding in_file
place f c =
    if str_eq f.what (codes "C")
    then snprintfcat (codes "in native code") c
    else if str_eq f.what (codes "tail")
    then snprintfcat (codes "in Lua code") c
    else if is_stripped f
    then snprintfcat (codes "in Lua code (debug info stripped)") c
    else in_file f.name f.short_src f.currentline c

abbrev pub number : ℕ → Bytes
number i = b'#' ∷ decimal (pos (i - 1))

abbrev pub when_some : Bytes → Bytes → Cursor → Option Cursor
when_some [] t c = some c
when_some (_ ∷ _) t c = snprintfcat t c

-- The rest of a round, for a frame of which something is known.
unfoldable pub describe : Frame → Cursor → Option Cursor
unfolding function_text place
describe f c = do
  c1 ← when_some f.namewhat (f.namewhat ++ codes " ") c
  c2 ← snprintfcat (function_text f) c1
  c3 ← spaces 4 (rewind c2)
  place f c3

-- A round of the loop; it logs the text of the cursor.
unfoldable pub frame_line : (i : ℕ) → Frame → Cursor → Option Cursor
unfolding describe
frame_line i f c = do
  c1 ← snprintfcat (number i) (rewind c)
  c2 ← spaces (4 - length (number i)) c1
  if f.known then describe f c2 else snprintfcat (codes "???\n") c2

-- The loop over the frames from level `i` on: what it logs.
unfoldable pub frame_lines : (i : ℕ) → List Frame → Cursor → Option (List Bytes)
unfolding frame_line
frame_lines i [] c = some []
frame_lines i (f ∷ fs) c = do
  d ← frame_line i f c
  lines ← frame_lines (i + 1) fs d
  some (d.text ∷ lines)

abbrev pub message_lines : Option Bytes → List Bytes → List Bytes
message_lines none lines = lines
message_lines (some m) lines = m ∷ lines

abbrev pub or_empty : Option Bytes → Bytes
or_empty none = []
or_empty (some m) = m

-- `luahook_stackwalk` on its argument and the frames from level 1 on: what it logs, and what it returns.
unfoldable pub stackwalk : Option Bytes → List Frame → Cursor → Option (List Bytes × Bytes)
unfolding frame_lines
stackwalk message frames c = do
  lines ← frame_lines 1 frames c
  some (message_lines message (codes "Lua stack backtrace:" ∷ lines), or_empty message)

-- `debugger_trace`: what it prints on stderr.
unfoldable pub debugger_trace : LuaDebug → Bytes
debugger_trace ar =
    if ar.is_line && str_eq ar.what (codes "Lua")
    then codes "L[" ++ ar.source ++ codes ":" ++ decimal ar.currentline ++ codes "]\n"
    else []
