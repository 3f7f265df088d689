-- ===== src/Conf/Lines.antt =====
-- The lines that `fgets` reads from a file.
use ck_agent.Base.{
  ℕ, ◌-◌, ◌<◌, ◌≡◌, ◌≢◌, refl, ap, false, ◌||◌, List, [], ◌∷◌, ◌++◌, map, arith, ◌==◌, Bytes,
  c_string, HasNoNul, HasNoNul-append, length,
}
use ck_agent.Conf.{buffer_size, fgets_all, read_lines}

abbrev pub HasNoNewline : Bytes → Type 0
HasNoNewline [] = Unit
HasNoNewline (c ∷ s) = (c ≢ b'\n') × HasNoNewline s

-- A line that `fgets` reads whole into the buffer.
abbrev pub IsLine : Bytes → Type 0
IsLine l = HasNoNewline l × HasNoNul l × (length l < buffer_size - 1)

abbrev pub AreLines : List Bytes → Type 0
AreLines [] = Unit
AreLines (l ∷ ls) = IsLine l × AreLines ls

abbrev pub ended : Bytes → Bytes
ended l = l ++ b'\n' ∷ []

-- The file with these lines.
abbrev pub file_text : List Bytes → Bytes
file_text [] = []
file_text (l ∷ ls) = l ++ b'\n' ∷ file_text ls

fgets_all-line :
    (n left : ℕ) (l s : Bytes)
    → HasNoNewline l
    → length l < left
    → fgets_all n left (l ++ b'\n' ∷ s) ≡ ended l ∷ fgets_all n n s
unfolding fgets_all
fgets_all-line n left [] s h fits = refl
fgets_all-line n left (c ∷ l) s (ne, h) fits =
    let other : (c == b'\n' || left == 1) ≡ false = ground arith in
    rw (other, fgets_all-line n (left - 1) l s h (omega arith))

c_string-all : (a : Bytes) → HasNoNul a → c_string a ≡ a
c_string-all [] h = refl
c_string-all (c ∷ a) (ne, h) = ground (arith, c_string-all a h)

-- Of a file of lines that fit the buffer the loop of `conf_parse` sees each line, with its newline.
pub read_lines-file_text :
    (ls : List Bytes) → AreLines ls → read_lines (file_text ls) ≡ map ended ls
unfolding fgets_all
read_lines-file_text [] a = refl
read_lines-file_text (l ∷ ls) ((h, k, fits), a) =
    rw
      (
        fgets_all-line 8095 8095 l (file_text ls) h fits,
        c_string-all (ended l) (HasNoNul-append l _ k (omega arith, tt)),
      )
      (ap (λ rest. ended l ∷ rest) (read_lines-file_text ls a))
