-- ===== src/Debugger/Stackwalk/Tests.antt =====
-- Stack traces of src/mojosetup_luadebugger.c with three frames, one of which has no name.
use ck_agent.Base.{◌≡◌, refl, true, false, none, some, [], ◌∷◌, arith, pos, negsuc, codes}
use ck_agent.Debugger.Stackwalk.{
  Cursor, Frame, ◌>>=◌, function_text, snprintfcat, stackwalk, debugger_trace,
}
use ck_agent.Debugger.Stackwalk.Fits.{cursor, blanks, snprintfcat-overrun}
use ck_agent.Debugger.Stackwalk.Lines.{AllShort, length-blanks, stackwalk-texts}

abbrev in_function : Frame
in_function = record {
  known = true;
  namewhat = codes "global";
  name = some (codes "poll");
  what = codes "Lua";
  source = codes "@agent.lua";
  short_src = codes "agent.lua";
  currentline = pos 12;
}

abbrev native : Frame
native = record in_function { what = codes "C"; currentline = negsuc 0 }

abbrev unknown : Frame
unknown = record native { known = false }

abbrev chunk : Frame
chunk = record in_function { namewhat = []; name = none; what = codes "main" }

abbrev empty_cursor : Cursor
empty_cursor = cursor []

frames-AllShort : AllShort 1 (in_function ∷ native ∷ unknown ∷ [])
unfolding function_text
frames-AllShort =
    ((omega arith, omega arith), ((omega arith, omega arith), ((omega arith, omega arith), tt)))

stackwalk-texts_example :
    stackwalk (some (codes "oops")) (in_function ∷ native ∷ unknown ∷ []) empty_cursor
    ≡ some (
      codes "oops"
          ∷ codes "Lua stack backtrace:"
          ∷ codes "    in Lua code at agent.lua:12 poll()"
          ∷ codes "    in native code"
          ∷ codes "#2  ???\n"
          ∷ [],
      codes "oops",
    )
stackwalk-texts_example =
    stackwalk-texts (some (codes "oops")) (in_function ∷ native ∷ unknown ∷ []) empty_cursor
      frames-AllShort

-- The frame of a chunk has no name.
nameless : stackwalk none (chunk ∷ []) empty_cursor ≡ none
unfolding stackwalk snprintfcat function_text
nameless = refl

traced :
    debugger_trace
      (record { is_line = true; what = codes "Lua"; source = codes "@a"; currentline = pos 40 })
    ≡ codes "L[@a:40]\n"
unfolding debugger_trace
traced = refl

snprintfcat-overrun_example :
    (snprintfcat (blanks 131073) (cursor []) >>= snprintfcat (codes "x")) ≡ none
snprintfcat-overrun_example =
    snprintfcat-overrun [] (blanks 131073) (codes "x") (omega arith)
      (omega (arith, length-blanks 131073)) (omega (arith, length-blanks 131073)) (omega arith)
