-- ===== src/Log/Line.antt =====
-- The buffer of `equus_log`: date, level, message and newline in an array of 4000 bytes.
use ck_agent.Base.{
  ℕ, ◌+◌, ◌-◌, ◌≤◌, ◌≡◌, [], ◌∷◌, ◌++◌, append_assoc, arith, Bytes, codes, c_string, length, take,
  length-append, length-take, take-all, ltb, if◌then◌else◌, HasNoNul, HasNoNul-append,
  HasNoNul-take, c_string-nul, Bool-cases, inl, inr,
}
use ck_agent.Log.Level.{LogLevel, critical, errors, warnings, info, debug}

abbrev pub buffer_size : ℕ
buffer_size = 4000

-- `llstr`
unfoldable pub tag : LogLevel → Bytes
tag critical = codes " CRT: "
tag errors = codes " ERR: "
tag warnings = codes " WRN: "
tag info = codes " INF: "
tag debug = codes " DBG: "
tag _ = codes " UNK: "

-- The bytes up to `blen`: the first 24 of the date, the 6 of the level, as much of the message as
-- `availlen` allows, newline and NUL.
unfoldable pub log_buffer : (now : Bytes) → LogLevel → Bytes → Bytes
unfolding tag
log_buffer now v str =
    let availlen = buffer_size - (24 + 6) - 2 in
    let slen = if ltb availlen (length str) then availlen else length str in
    take 24 now ++ (tag v ++ (take slen str ++ b'\n' ∷ 0 ∷ []))

length-tag : (v : LogLevel) → length (tag v) ≡ 6
unfolding tag
length-tag v = ground arith

tag-HasNoNul : (v : LogLevel) → HasNoNul (tag v)
unfolding tag
tag-HasNoNul v = ground arith

-- Whatever the message, the bytes that `equus_log` puts together fit its array.
pub log_buffer_fits :
    (now : Bytes) (v : LogLevel) (str : Bytes) → length (log_buffer now v str) ≤ buffer_size
unfolding log_buffer
log_buffer_fits now v str =
    let cut : ℕ = if ltb 3968 (length str) then 3968 else length str in
    let short : cut ≤ 3968 = ground arith in
    omega (
      arith,
      length-append (take 24 now) (tag v ++ (take cut str ++ b'\n' ∷ 0 ∷ [])),
      length-append (tag v) (take cut str ++ b'\n' ∷ 0 ∷ []),
      length-append (take cut str) (b'\n' ∷ 0 ∷ []),
      length-take 24 now,
      length-tag v,
      length-take cut str,
    )

-- The line of the log: the message is cut at 3968 bytes.
abbrev pub log_line : (now : Bytes) → LogLevel → Bytes → Bytes
log_line now v str = take 24 now ++ (tag v ++ (take 3968 str ++ b'\n' ∷ []))

pub log_buffer-log_line :
    (now : Bytes) (v : LogLevel) (str : Bytes) → log_buffer now v str ≡ log_line now v str ++ 0 ∷ []
unfolding log_buffer
log_buffer-log_line now v str = elim (Bool-cases (ltb 3968 (length str))) [
  | inl long ↦ rw long (simp append_assoc)
  | inr short ↦
      rw (short, take-all (length str) str (omega arith), take-all 3968 str (ground arith))
        (simp append_assoc)
]

-- Of a message with no NUL the buffer holds the whole line, as a C string.
pub c_string-log_buffer :
    (now : Bytes) (v : LogLevel) (str : Bytes)
    → HasNoNul now
    → HasNoNul str
    → c_string (log_buffer now v str) ≡ log_line now v str
c_string-log_buffer now v str h k = rw log_buffer-log_line (
    c_string-nul (log_line now v str) [] (
      HasNoNul-append (take 24 now) _ (HasNoNul-take 24 now h) (
        HasNoNul-append (tag v) _ (tag-HasNoNul v)
          (HasNoNul-append (take 3968 str) _ (HasNoNul-take 3968 str k) ((omega arith), tt)))))
