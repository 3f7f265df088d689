-- ===== src/Log/Write.antt =====
-- What `equus_log` and `equus_log_fmtv` write.
use ck_agent.Base.{
  ◌<◌, ◌≤◌, ◌≡◌, inl, inr, true, not, ◌&&◌, Option, none, some, List, [], ◌∷◌, ◌++◌, append_assoc,
  append-nil, arith, lt→ltb, le→ltb, leb, if◌then◌else◌, Bool-cases, Bytes, HasNoNul, c_string,
  take,
}
use ck_agent.Log.Level.{LogLevel, rank, is_critical}
use ck_agent.Log.Line.{log_buffer, log_line, log_buffer-log_line, c_string-log_buffer}
use ck_agent.Log.{
  Stream, stderr, is_stderr, Logger, is_usable, target, write, log_buf, copy_critical, equus_log,
  equus_log_fmtv,
}

-- What one message adds to the record of writes: its line, and for a critical message to a file the
-- line once more to stderr, with a NUL behind it.
abbrev pub entries : (now : Bytes) → LogLevel → Bytes → Stream → List (Stream × Bytes)
entries now v str s =
    (target s, log_line now v str)
    ∷ (if is_critical v && not (is_stderr (target s))
        then (stderr, log_line now v str ++ 0 ∷ []) ∷ []
        else [])

-- A message above the level of the logger changes nothing.
pub equus_log-filtered :
    (now : Bytes) (v : LogLevel) (str : Bytes) (l : Logger)
    → rank l.level < rank v
    → equus_log now v str l ≡ some (tt, l)
unfolding equus_log
equus_log-filtered now v str l h = rw (lt→ltb (rank l.level) (rank v) h)

log_buf_lem :
    (buffer : Bytes) (l : Logger)
    → is_usable l (target l.fp) ≡ true
    → log_buf buffer l
      ≡ some (
        tt,
        record l { fp = target l.fp; written = l.written ++ (target l.fp, c_string buffer) ∷ [] },
      )
unfolding log_buf write
log_buf_lem buffer l u = rw u

copy_critical_lem :
    (v : LogLevel) (buffer : Bytes) (l : Logger)
    → copy_critical v buffer l
      ≡ some (
        tt,
        record l {
          written =
              l.written
              ++ (if is_critical v && not (is_stderr l.fp) then (stderr, buffer) ∷ [] else []);
        },
      )
unfolding copy_critical write
copy_critical_lem v buffer l = elim (Bool-cases (is_critical v && not (is_stderr l.fp))) [
  | inl yes_copy ↦ rw yes_copy
  | inr no_copy ↦ rw no_copy (rw append-nil)
]

-- A message that the level of the logger admits, with no NUL in it or in the date, and where the log can
-- be written to, is written to the log as one line, cut at 3968 bytes; a critical one goes to stderr
-- too, unless that is where the log is, and there with a NUL byte behind it. Nothing else changes, but
-- that a stream that was not set is now stderr.
pub equus_log-entries :
    (now : Bytes) (v : LogLevel) (str : Bytes) (l : Logger)
    → rank v ≤ rank l.level
    → HasNoNul now
    → HasNoNul str
    → is_usable l (target l.fp) ≡ true
    → equus_log now v str l
      ≡ some (tt, record l { fp = target l.fp; written = l.written ++ entries now v str l.fp })
unfolding equus_log
equus_log-entries now v str l h n k u =
    rw
      (
        le→ltb (rank v) (rank l.level) h,
        log_buf_lem (log_buffer now v str) l u,
        copy_critical_lem v (log_buffer now v str),
        c_string-log_buffer now v str n k,
        log_buffer-log_line now v str,
      )
      (simp append_assoc)

-- `equus_log_fmtv` passes on what `vsnprintf` made, cut at 3999 bytes, and nothing where that failed
-- or the level of the logger is lower.
pub equus_log_fmtv_lem :
    (now : Bytes) (v : LogLevel) (formatted : Option Bytes) (l : Logger)
    → equus_log_fmtv now v formatted l
      ≡ elim formatted [ none ↦ some (tt, l) | some b ↦ equus_log now v (take 3999 b) l ]
unfolding equus_log_fmtv
equus_log_fmtv_lem now v none l = ground arith
equus_log_fmtv_lem now v (some b) l = elim (Bool-cases (leb (rank v) (rank l.level))) [
  | inl shown ↦ rw shown
  | inr hidden ↦ rw (hidden, equus_log-filtered now v (take 3999 b) l (ground arith))
]
