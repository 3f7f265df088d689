-- ===== src/Log/Signals.antt =====
-- SIGHUP while the logger writes: `hup_handler` of src/equus.c runs `equus_log_rotate` of
-- src/equus_util.c between two operations of `equus_log_buf`.
use ck_agent.Base.{
  ℕ, ◌≤◌, ◌≡◌, ◌≢◌, Bool, true, false, Option, none, some, List, [], ◌∷◌, ◌++◌, append_assoc, arith,
  if◌then◌else◌, Bytes, codes, c_string, HasNoNul,
}
use ck_agent.Log.Level.{info, rank}
use ck_agent.Log.{
  Stream, file, Logger, Action, ◌>>=◌, ◌>>◌, pure, modify, is_usable, write, target, log_buf,
  Opening, mark_open, log_rotate,
}
use ck_agent.Log.Write.{entries}
use ck_agent.Log.Rotate.{close_old, log_rotate_file}

-- Where the signal comes. A call reads `g_equus_log_fp` for its argument before it starts.
pub data Moment : Type 0 where
  never entering filled writing written flushing leaving : Moment

abbrev same_moment : Moment → Moment → Bool
same_moment entering entering = true
same_moment filled filled = true
same_moment writing writing = true
same_moment written written = true
same_moment flushing flushing = true
same_moment leaving leaving = true
same_moment never _ = false
same_moment _ _ = false

unfoldable pub hup_handler : Opening → (now : Bytes) → Action (Unit {0})
hup_handler o now = log_rotate o now >> pure tt

-- `fflush`
flush : Stream → Action (Unit {0})
flush s l = if is_usable l s then some (tt, l) else none

-- The signal, if it comes at this moment.
abbrev signal : Opening → (now : Bytes) → (comes here : Moment) → Action (Unit {0})
signal o now comes here l = if same_moment comes here then hup_handler o now l else some (tt, l)

-- What `g_equus_log_fp` is.
abbrev read_fp : Action Stream
read_fp l = some (l.fp, l)

pub interrupted : Opening → (now : Bytes) → Moment → Bytes → Action (Unit {0})
unfolding hup_handler flush
interrupted o now comes buffer = do
  signal o now comes entering
  modify (λ l. record l { fp = target l.fp })
  signal o now comes filled
  s ← read_fp
  signal o now comes writing
  write s (c_string buffer)
  signal o now comes written
  s ← read_fp
  signal o now comes flushing
  flush s
  signal o now comes leaving

-- Without a signal this is `equus_log_buf`.
interrupted-never :
    (o : Opening) (now buffer : Bytes) (l : Logger)
    → interrupted o now never buffer l ≡ log_buf buffer l
unfolding interrupted log_buf write
interrupted-never o now buffer l = ground arith

-- The log is the file `h`; its path opens as the file `h'`.
module _ (now : Bytes) (l : Logger) (buffer : Bytes) (h h' : ℕ) where
  abbrev pub line_in : ℕ → List (Stream × Bytes)
  line_in k = (file k, c_string buffer) ∷ []

  abbrev pub begun : List (Stream × Bytes)
  begun = entries now info (codes "Log file started...") (file h')

  abbrev pub stays : Logger
  stays = record l { fp = file h; written = l.written ++ line_in h }

  -- The log has moved to `h'`, and `h` is closed.
  abbrev pub moves : List (Stream × Bytes) → Logger
  moves w = record (close_old (file h) (mark_open h' l)) { fp = file h'; written = l.written ++ w }

  abbrev pub outcome : Moment → Option (Unit {0} × Logger)
  outcome never = some (tt, stays)
  outcome entering = some (tt, moves (begun ++ line_in h'))
  outcome filled = some (tt, moves (begun ++ line_in h'))
  outcome writing = none
  outcome written = some (tt, moves (line_in h ++ begun))
  outcome flushing = none
  outcome leaving = some (tt, moves (line_in h ++ begun))

module _ (o : Opening) (now : Bytes) (l : Logger) (b buffer : Bytes) (h h' : ℕ) (ne : l.path ≢ 0)
    (at : l.strings l.path ≡ some b) (opens : o.opens b ≡ some h') (new : l.is_open h' ≡ false)
    (good : l.is_open h ≡ true) (plain : HasNoNul now) (shown : rank info ≤ rank l.level) where
  handled :
      (w : List (Stream × Bytes))
      → hup_handler o now (record l { fp = file h; written = w })
        ≡ some (tt, record (moves now l buffer h h' []) { written = w ++ begun now l buffer h h' })
  unfolding hup_handler
  handled w = rw (
      log_rotate_file o now (record l { fp = file h; written = w }) b h' ne at opens new good plain
        shown)

  open_now : (moves now l buffer h h' []).is_open h' ≡ true
  open_now = ground arith

  closed_now : (moves now l buffer h h' []).is_open h ≡ false
  closed_now = ground arith

  -- Where the log is an open file, its path is set and opens as a file that was not open before, the date holds
  -- no NUL and the level admits messages of level info, and SIGHUP may come once while `equus_log_buf` runs: if it comes behind the reading of `g_equus_log_fp` for `fwrite` or for `fflush`, the handler closes
  -- the file that the call then uses, which crashes. At any other moment the line is written once, to
  -- the new file behind its first line if the signal comes before `fwrite`, to the old file if it comes
  -- later, and the log is the new file, with the old one closed. Without a signal it stays the old file.
  pub interrupted-outcome :
      (comes : Moment)
      → interrupted o now comes buffer (record l { fp = file h }) ≡ outcome now l buffer h h' comes
  unfolding interrupted write
  interrupted-outcome never = rw (good, good)
  interrupted-outcome entering = rw (handled l.written, open_now, open_now) (simp append_assoc)
  interrupted-outcome filled = rw (handled l.written, open_now, open_now) (simp append_assoc)
  interrupted-outcome writing = rw (handled l.written, closed_now)
  interrupted-outcome written =
      rw (good, handled (l.written ++ line_in now l buffer h h' h), open_now) (simp append_assoc)
  interrupted-outcome flushing =
      rw (good, handled (l.written ++ line_in now l buffer h h' h), closed_now)
  interrupted-outcome leaving =
      rw (good, good, handled (l.written ++ line_in now l buffer h h' h)) (simp append_assoc)
