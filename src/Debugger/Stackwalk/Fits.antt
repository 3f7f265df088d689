-- ===== src/Debugger/Stackwalk/Fits.antt =====
-- Stack traces that fit into the scratch buffer.
use ck_agent.Base.{
  ℕ, zero, suc, ◌+◌, ◌-◌, ◌^◌, ◌%◌, ◌≤◌, ◌<◌, ◌≡◌, refl, sym, ◌∙◌, ap, inl, inr, true, false,
  Option, none, some, [], ◌∷◌, ◌++◌, append_assoc, append-nil, arith, ◌==◌, ltb, if◌then◌else◌,
  Bool-cases, ℤ, negsuc, eq_ℤ, Bytes, codes, str_eq, length, length-append, take, take-all,
}
use ck_agent.Debugger.Stackwalk.{
  scratch_size, Cursor, at_line, in_file, snprintfcat, ◌>>=◌, spaces, decimal, Frame, is_stripped,
  place, or_empty,
}

-- The cursor behind this text.
abbrev pub cursor : Bytes → Cursor
cursor s = record { at = length s; len = scratch_size - length s; text = s }

abbrev pub IsReady : Bytes → Cursor → Type 0
IsReady s c = (c.at ≡ length s) × (c.len ≡ scratch_size - length s) × (take c.at c.text ≡ s)

cursor-IsReady : (s : Bytes) → IsReady s (cursor s)
cursor-IsReady s = (refl, refl, take-all (length s) s (omega arith))

pub snprintfcat-fits :
    (s t : Bytes) (c : Cursor)
    → IsReady s c
    → length s + length t < scratch_size
    → snprintfcat t c ≡ some (cursor (s ++ t))
unfolding snprintfcat
snprintfcat-fits s t c (at, len, text) fits =
    let total : length (s ++ t) ≡ length s + length t = length-append s t in
    let some_room : (c.len == 0) ≡ false = ground arith in
    let room : ltb (length t) c.len ≡ true = ground arith in
    let inside : ltb scratch_size (c.at + (length t + 1)) ≡ false = ground arith in
    let left : (c.len + 2 ^ 64 - length t % 2 ^ 64) % 2 ^ 64 ≡ scratch_size - length (s ++ t) =
      omega arith in
    let whole : take (c.len - 1) t ≡ t = take-all (c.len - 1) t (omega arith) in
    let moved : c.at + length t ≡ length (s ++ t) = omega arith in
    rw (some_room, room, inside, text, whole, left, moved) refl

pub fits_at :
    (s t : Bytes)
    → length s + length t < scratch_size
    → snprintfcat t (cursor s) ≡ some (cursor (s ++ t))
fits_at s t fits = snprintfcat-fits s t (cursor s) (cursor-IsReady s) fits

abbrev pub blanks : ℕ → Bytes
blanks zero = []
blanks (suc n) = codes " " ++ blanks n

pub spaces-fits :
    (n : ℕ) (s : Bytes)
    → length s + n < scratch_size
    → spaces n (cursor s) ≡ some (cursor (s ++ blanks n))
spaces-fits zero s fits = rw (append-nil s) refl
spaces-fits (suc n) s fits =
    rw
      (
        fits_at s (codes " ") (omega arith),
        spaces-fits n (s ++ codes " ") (omega (arith, length-append s (codes " "))),
        append_assoc s (codes " ") (blanks n),
      )
      refl

abbrev pub line_text : ℤ → Bytes
line_text z = if eq_ℤ z (negsuc 0) then [] else b':' ∷ decimal z

abbrev pub file_text : Option Bytes → Bytes → ℤ → Option Bytes
file_text name file z = name >>= λ n.
    some (codes "in Lua code at " ++ file ++ line_text z ++ (codes " " ++ n ++ codes "()"))

abbrev pub place_text : Frame → Option Bytes
place_text f =
    if str_eq f.what (codes "C")
    then some (codes "in native code")
    else if str_eq f.what (codes "tail")
    then some (codes "in Lua code")
    else if is_stripped f
    then some (codes "in Lua code (debug info stripped)")
    else file_text f.name f.short_src f.currentline

abbrev pub behind : Bytes → Option Bytes → Option Cursor
behind s none = none
behind s (some t) = some (cursor (s ++ t))

behind-bind :
    (name : Option Bytes) (s : Bytes) (f : Bytes → Bytes)
    → behind s (name >>= λ n. some (f n)) ≡ (name >>= λ n. some (cursor (s ++ f n)))
behind-bind none s f = refl
behind-bind (some n) s f = refl

at_line-fits :
    (z : ℤ) (s : Bytes)
    → length s + length (decimal z) + 1 < scratch_size
    → at_line z (cursor s) ≡ some (cursor (s ++ line_text z))
at_line-fits z s fits = elim (Bool-cases (eq_ℤ z (negsuc 0))) [
  | inl unknown ↦ rw (unknown, append-nil s) refl
  | inr known ↦ rw known (fits_at s (b':' ∷ decimal z) (omega arith))
]

length-line_text-le : (z : ℤ) → length (line_text z) ≤ length (decimal z) + 1
length-line_text-le z = ground arith

name_fits :
    (name : Option Bytes) (s a b : Bytes)
    → length (s ++ a ++ b) + length (or_empty name) + 3 < scratch_size
    → (name >>= λ n. snprintfcat (codes " " ++ n ++ codes "()") (cursor (s ++ a ++ b)))
      ≡ (name >>= λ n. some (cursor (s ++ (a ++ b ++ (codes " " ++ n ++ codes "()")))))
name_fits none s a b fits = refl
name_fits (some n) s a b fits =
    let c : Bytes = codes " " ++ n ++ codes "()" in
    let name_length : length c ≡ length n + 3 = omega (arith, length-append n (codes "()")) in
    fits_at (s ++ a ++ b) c (omega arith)
    ∙ ap (λ t. some (cursor t))
        (append_assoc (s ++ a) b c
          ∙ append_assoc s a (b ++ c)
          ∙ ap (◌++◌ s) (sym (append_assoc a b c)))

in_file-fits :
    (name : Option Bytes) (file : Bytes) (z : ℤ) (s : Bytes)
    → length s + length file + length (decimal z) + length (or_empty name) + 36 < scratch_size
    → in_file name file z (cursor s) ≡ behind s (file_text name file z)
unfolding in_file
in_file-fits name file z s fits =
    let a : Bytes = codes "in Lua code at " ++ file in
    let b : Bytes = line_text z in
    let file_length : length (s ++ a) ≡ length s + length file + 15 =
      omega (arith, length-append s a) in
    let line_length : length (s ++ a ++ b) ≤ length s + length file + length (decimal z) + 16 =
      omega (arith, length-append (s ++ a) b, length-line_text-le z) in
    let file_fits : snprintfcat a (cursor s) ≡ some (cursor (s ++ a)) = fits_at s a (omega arith) in
    let line_fits : at_line z (cursor (s ++ a)) ≡ some (cursor (s ++ a ++ b)) =
      at_line-fits z (s ++ a) (omega arith) in
    rw (file_fits, line_fits)
      (name_fits name s a b (omega arith)
        ∙ sym (behind-bind name s (λ n. a ++ b ++ (codes " " ++ n ++ codes "()"))))

pub place-fits :
    (f : Frame) (s : Bytes)
    → length s + length f.short_src + length (decimal f.currentline) + length (or_empty f.name) + 36
      < scratch_size
    → place f (cursor s) ≡ behind s (place_text f)
unfolding place
place-fits f s fits = elim (Bool-cases (str_eq f.what (codes "C"))) [
  | inl native ↦ rw native (fits_at s (codes "in native code") (omega arith))
  | inr other ↦ elim (Bool-cases (str_eq f.what (codes "tail"))) [
    | inl tail ↦ rw (other, tail) (fits_at s (codes "in Lua code") (omega arith))
    | inr call ↦ elim (Bool-cases (is_stripped f)) [
      | inl stripped ↦
          rw (other, call, stripped)
            (fits_at s (codes "in Lua code (debug info stripped)") (omega arith))
      | inr here ↦ rw (other, call, here) (in_file-fits f.name f.short_src f.currentline s fits)
    ]
  ]
]

-- Behind what the buffer holds, a text that it has no room for, by more than the NUL at its end, makes the
-- next call write behind the end of the buffer, whatever that call appends; both texts are shorter
-- than 2 ^ 31 bytes.
pub snprintfcat-overrun :
    (s t u : Bytes)
    → length s ≤ scratch_size
    → scratch_size < length s + length t
    → length t < 2 ^ 31
    → length u < 2 ^ 31
    → (snprintfcat t (cursor s) >>= snprintfcat u) ≡ none
unfolding snprintfcat
snprintfcat-overrun s t u inside long small_t small_u = ground arith
