-- ===== src/Debugger/Stackwalk/Lines.antt =====
-- What a stack trace logs, as plain text.
use ck_agent.Base.{
  ℕ, zero, suc, ◌+◌, ◌-◌, ◌≤◌, ◌<◌, ◌≡◌, refl, ◌∙◌, Bool, true, false, Option, none, some, List, [],
  ◌∷◌, ◌++◌, append-nil, arith, if◌then◌else◌, Bytes, codes, length, length-append,
}
use ck_agent.Debugger.Stackwalk.{
  scratch_size, Cursor, snprintfcat, ◌>>=◌, spaces, rewind, decimal, Frame, function_text, number,
  when_some, describe, frame_line, frame_lines, message_lines, or_empty, stackwalk,
}
use ck_agent.Debugger.Stackwalk.Fits.{
  cursor, snprintfcat-fits, fits_at, blanks, spaces-fits, behind, place_text, place-fits,
}

-- What a round needs of the buffer.
abbrev pub IsShort : (i : ℕ) → Frame → Type 0
IsShort i f =
    (length (number i) + length f.namewhat + length (function_text f) + 10 < scratch_size)
    × (length f.short_src + length (decimal f.currentline) + length (or_empty f.name) + 40
        < scratch_size)

abbrev pub AllShort : (i : ℕ) → List Frame → Type 0
AllShort i [] = Unit
AllShort i (f ∷ fs) = IsShort i f × AllShort (i + 1) fs

-- The line on a frame: where it runs, or its number where nothing is known of it.
abbrev pub frame_text : (i : ℕ) → Frame → Option Bytes
frame_text i f =
    if f.known
    then (place_text f >>= λ t. some (blanks 4 ++ t))
    else some (number i ++ blanks (4 - length (number i)) ++ codes "???\n")

abbrev pub frame_texts : (i : ℕ) → List Frame → Option (List Bytes)
frame_texts i [] = some []
frame_texts i (f ∷ fs) =
    frame_text i f >>= λ t. frame_texts (i + 1) fs >>= λ lines. some (t ∷ lines)

abbrev named : Bytes → Bytes
named [] = []
named (b ∷ s) = b ∷ s ++ codes " "

length-named-le : (w : Bytes) → length (named w) ≤ length w + 1
length-named-le [] = omega arith
length-named-le (b ∷ w) = omega (arith, length-append w (codes " "))

when_some-fits :
    (w s : Bytes)
    → length s + length w + 1 < scratch_size
    → when_some w (w ++ codes " ") (cursor s) ≡ some (cursor (s ++ named w))
when_some-fits [] s fits = rw (append-nil s) refl
when_some-fits (b ∷ w) s fits =
    fits_at s (b ∷ w ++ codes " ") (omega (arith, length-append w (codes " ")))

rewound-fits :
    (t : Bytes) (c : Cursor) → length t < scratch_size → snprintfcat t (rewind c) ≡ some (cursor t)
rewound-fits t c fits = snprintfcat-fits [] t (rewind c) (refl, refl, refl) (omega arith)

spaces_rewound : (c : Cursor) → spaces 4 (rewind c) ≡ some (cursor (blanks 4))
spaces_rewound c =
    rw (rewound-fits (codes " ") c (omega arith)) (spaces-fits 3 (codes " ") (omega arith))

pub length-blanks : (n : ℕ) → length (blanks n) ≡ n
length-blanks zero = refl
length-blanks (suc n) = omega (arith, length-blanks n)

behind-some :
    (s : Bytes) (o : Option Bytes)
    → behind s o ≡ ((o >>= λ t. some (s ++ t)) >>= λ u. some (cursor u))
behind-some s none = refl
behind-some s (some t) = refl

describe-fits :
    (f : Frame) (s : Bytes)
    → length s + length f.namewhat + length (function_text f) + 1 < scratch_size
    → length f.short_src + length (decimal f.currentline) + length (or_empty f.name) + 40
      < scratch_size
    → describe f (cursor s)
      ≡ ((place_text f >>= λ t. some (blanks 4 ++ t)) >>= λ u. some (cursor u))
unfolding describe
describe-fits f s first second =
    let w : Bytes = s ++ named f.namewhat in
    let size : length w ≤ length s + length f.namewhat + 1 =
      omega (arith, length-append s (named f.namewhat), length-named-le f.namewhat) in
    let name_fits : when_some f.namewhat (f.namewhat ++ codes " ") (cursor s) ≡ some (cursor w) =
      when_some-fits f.namewhat s (omega arith) in
    let function_fits : snprintfcat (function_text f) (cursor w)
        ≡ some (cursor (w ++ function_text f)) =
      fits_at w (function_text f) (omega arith) in
    rw (name_fits, function_fits, spaces_rewound (cursor (w ++ function_text f)))
      (place-fits f (blanks 4) (omega arith) ∙ behind-some (blanks 4) (place_text f))

if-bind :
    (b : Bool) {x y : Option Cursor} (p q : Option Bytes) (k : Bytes → Option Cursor)
    → x ≡ (p >>= k)
    → y ≡ (q >>= k)
    → (if b then x else y) ≡ ((if b then p else q) >>= k)
if-bind true p q k e d = e
if-bind false p q k e d = d

frame_line-fits :
    (i : ℕ) (f : Frame) (c : Cursor)
    → IsShort i f
    → frame_line i f c ≡ (frame_text i f >>= λ t. some (cursor t))
unfolding frame_line
frame_line-fits i f c (first, second) =
    let s : Bytes = number i ++ blanks (4 - length (number i)) in
    let size : length s ≤ length (number i) + 4 = omega (
      arith,
      length-append (number i) (blanks (4 - length (number i))),
      length-blanks (4 - length (number i)),
    ) in
    let numbered : snprintfcat (number i) (rewind c) ≡ some (cursor (number i)) =
      rewound-fits (number i) c (omega arith) in
    let spaced : spaces (4 - length (number i)) (cursor (number i)) ≡ some (cursor s) =
      spaces-fits (4 - length (number i)) (number i) (omega arith) in
    rw (numbered, spaced)
      (if-bind f.known _ _ (λ t. some (cursor t)) (describe-fits f s (omega arith) second)
        (fits_at s (codes "???\n") (omega arith)))

on_line :
    (o : Option Bytes) (lines : Cursor → Option (List Bytes)) (texts : Option (List Bytes))
    → ((t : Bytes) → lines (cursor t) ≡ texts)
    → ((o >>= λ t. some (cursor t)) >>= λ d. lines d >>= λ ls. some (d.text ∷ ls))
      ≡ (o >>= λ t. texts >>= λ ls. some (t ∷ ls))
on_line none lines texts h = refl
on_line (some t) lines texts h = rw (h t) refl

frame_lines-texts :
    (i : ℕ) (fs : List Frame) (c : Cursor) → AllShort i fs → frame_lines i fs c ≡ frame_texts i fs
unfolding frame_lines
frame_lines-texts i [] c h = refl
frame_lines-texts i (f ∷ fs) c (short, h) = rw (frame_line-fits i f c short) (
    on_line (frame_text i f) (frame_lines (i + 1) fs) (frame_texts (i + 1) fs)
      (λ t. frame_lines-texts (i + 1) fs (cursor t) h))

-- A stack trace in which every line fits into the scratch buffer logs the message, if there is one, a
-- heading, and per frame where it runs, or its number where nothing is known of it; it returns the
-- message. Its behaviour is undefined where one of these lines has a name in it that is NULL.
pub stackwalk-texts :
    (message : Option Bytes) (frames : List Frame) (c : Cursor)
    → AllShort 1 frames
    → stackwalk message frames c ≡ (
        frame_texts 1 frames >>= λ lines.
        some (message_lines message (codes "Lua stack backtrace:" ∷ lines), or_empty message))
unfolding stackwalk
stackwalk-texts message frames c h = rw (frame_lines-texts 1 frames c h) refl
