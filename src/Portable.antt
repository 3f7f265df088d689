-- ===== src/Portable.antt =====
-- The replacements for C library functions in src/equus_portable.c: `equus_vasprintf` and
-- `equus_popen_capture`. What `vsnprintf`, `malloc`, `popen` and `pclose` answer is an argument.
mod Tests
use ck_agent.Base.{
  ℕ, ◌+◌, ◌-◌, ◌^◌, ◌%◌, ◌≤◌, ◌≡◌, ◌≢◌, refl, sym, ◌∙◌, ap, Bool, true, false, ◌||◌, Option, none,
  some, List, [], ◌∷◌, ◌++◌, append_assoc, append-nil, arith, ◌==◌, ltb, if◌then◌else◌, Bool-cases,
  inl, inr, ℤ, pos, negsuc, eq_ℤ, Bytes, c_string, HasNoNul, length,
}
use ck_agent.Lua.{LuaValue, text, check_string}
use ck_agent.Conf.{fgets_all, put_first}

-- `*outstr`: as it was, NULL, or a block of that size with a text in it.
pub data OutString : Type 0 where
  untouched null : OutString
  block : (size : ℕ) → Bytes → OutString

-- What `vsnprintf` returns as a `size_t`; none is an error, for which it returns -1.
abbrev pub as_size : Option Bytes → ℕ
as_size none = 2 ^ 64 - 1
as_size (some t) = length t

-- What the second `vsnprintf` returns, and what it leaves in the block.
abbrev pub print_into : ℕ → Option Bytes → ℤ × OutString
print_into size none = (negsuc 0, block size [])
print_into size (some t) = (pos (length t), block size t)

-- `equus_vasprintf`: a `size_t` is never below 0.
unfoldable pub vasprintf : (format : Option Bytes) (allocates : Bool) → ℤ × OutString
vasprintf format allocates =
    let sz = as_size format in
    let size = (sz + 1) % 2 ^ 64 in
    if ltb sz 0
    then (negsuc 0, untouched)
    else if allocates
    then print_into size format
    else (negsuc 0, null)

-- How a call ends: it raises an error, or gives output and status.
pub data Capture : Type 0 where
  raised : Capture
  captured : Bytes → ℤ → Capture

-- The loop over `fgets`.
abbrev pub capture_loop : Bytes → List Bytes → Bytes
capture_loop acc [] = acc
capture_loop acc (b ∷ bs) = capture_loop (acc ++ c_string b) bs

-- `equus_popen_capture`; the pipe gives these bytes.
unfoldable pub popen_capture : (popen : Bytes → Option Bytes) (closes : ℤ) → List LuaValue → Capture
popen_capture popen closes args = elim (check_string args 0) [
  | none ↦ raised
  | some cmd ↦ elim (popen cmd) [
    | none ↦ raised
    | some output ↦
        if eq_ℤ closes (negsuc 0)
        then raised
        else captured (capture_loop [] (fgets_all 4095 4095 output)) closes
  ]
]

c_string-cons : (c : ℕ) (b : Bytes) → c ≢ 0 → c_string (c ∷ b) ≡ c ∷ c_string b
c_string-cons c b ne = let visible : (c == 0) ≡ false = ground arith in rw visible refl

capture_loop-cons :
    (acc : Bytes) (c : ℕ) (b : Bytes) (bs : List Bytes)
    → c ≢ 0
    → capture_loop acc ((c ∷ b) ∷ bs) ≡ capture_loop (acc ++ c ∷ []) (b ∷ bs)
capture_loop-cons acc c b bs ne =
    ap (λ x. capture_loop (acc ++ x) bs) (c_string-cons c b ne)
    ∙ ap (λ x. capture_loop x bs) (sym (append_assoc acc (c ∷ []) (c_string b)))

capture_loop-last :
    (acc : Bytes) (c : ℕ) (bs : List Bytes)
    → c ≢ 0
    → capture_loop acc ((c ∷ []) ∷ bs) ≡ capture_loop (acc ++ c ∷ []) bs
capture_loop-last acc c bs ne = ap (λ x. capture_loop (acc ++ x) bs) (c_string-cons c [] ne)

capture_loop-put_first :
    (acc : Bytes) (c : ℕ) (bs : List Bytes)
    → c ≢ 0
    → capture_loop acc (put_first c bs) ≡ capture_loop (acc ++ c ∷ []) bs
capture_loop-put_first acc c [] ne = capture_loop-last acc c [] ne
capture_loop-put_first acc c (b ∷ bs) ne = capture_loop-cons acc c b bs ne

capture_loop-fgets_all :
    (n left : ℕ) (acc s : Bytes) → HasNoNul s → capture_loop acc (fgets_all n left s) ≡ acc ++ s
unfolding fgets_all
capture_loop-fgets_all n left acc [] h = rw (append-nil acc) refl
capture_loop-fgets_all n left acc (c ∷ s) (ne, h) = elim (Bool-cases (c == b'\n' || left == 1)) [
  | inl last ↦ rw last (
      capture_loop-last acc c (fgets_all n n s) ne
      ∙ capture_loop-fgets_all n n (acc ++ c ∷ []) s h
      ∙ append_assoc acc (c ∷ []) s)
  | inr more ↦ rw more (
      capture_loop-put_first acc c (fgets_all n (left - 1) s) ne
      ∙ capture_loop-fgets_all n (left - 1) (acc ++ c ∷ []) s h
      ∙ append_assoc acc (c ∷ []) s)
]

-- A command that `popen` runs, and whose output has no NUL in it, gives the whole output, however long
-- it and its lines are, and the status that closing the pipe gives, unless that is -1.
pub popen_capture-output :
    (popen : Bytes → Option Bytes) (closes : ℤ) (cmd output : Bytes) (args : List LuaValue)
    → popen cmd ≡ some output
    → eq_ℤ closes (negsuc 0) ≡ false
    → HasNoNul output
    → popen_capture popen closes (text cmd ∷ args) ≡ captured output closes
unfolding popen_capture
popen_capture-output popen closes cmd output args runs closed h =
    rw (runs, closed, capture_loop-fgets_all 4095 4095 [] output h) refl
