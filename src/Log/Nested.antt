-- ===== src/Log/Nested.antt =====
-- SIGHUP while `equus_log_rotate` of src/equus_util.c runs: `hup_handler` of src/equus.c runs the same
-- function between two of its statements.
use ck_agent.Base.{
  ℕ, ◌≤◌, ◌≡◌, ◌≢◌, refl, Bool, true, false, Option, none, some, List, ◌++◌, append_assoc, arith,
  ◌==◌, if◌then◌else◌, Bytes, codes, HasNoNul,
}
use ck_agent.Memory.Chain.{not_null}
use ck_agent.Log.Level.{info, critical, rank}
use ck_agent.Log.{
  Stream, stderr, file, Logger, Action, ◌>>=◌, ◌>>◌, pure, modify, close, equus_log, equus_log_fmtv,
  read_string, Opening, mark_open, log_rotate,
}
use ck_agent.Log.Write.{entries, equus_log-entries}
use ck_agent.Log.Rotate.{close_old, log_rotate_file, read_string-some}
use ck_agent.Log.Signals.{hup_handler}

pub data Moment : Type 0 where
  never reading opened switched closed : Moment

abbrev same_moment : Moment → Moment → Bool
same_moment reading reading = true
same_moment opened opened = true
same_moment switched switched = true
same_moment closed closed = true
same_moment never _ = false
same_moment _ _ = false

-- The signal, if it comes at this moment; `again` is what `fopen` gives in the handler.
abbrev signal : (again : Opening) → (now : Bytes) → (comes here : Moment) → Action (Unit {0})
signal again now comes here l =
    if same_moment comes here then hup_handler again now l else some (tt, l)

-- Behind `fopen`, with `old`, which was read before it.
after_open :
    (again : Opening) → (now : Bytes) → Moment → (old : Stream) → (next : Stream) → Action ℕ
after_open again now comes old next = do
  signal again now comes opened
  modify (λ l. record l { fp = next })
  signal again now comes switched
  close old
  signal again now comes closed
  equus_log now info (codes "Log file started...")
  pure 0

abbrev behind_fopen :
    (o again : Opening) → (now : Bytes) → Moment → (old : Stream) → Bytes → Option ℕ → Action ℕ
behind_fopen o again now comes old b none =
    equus_log_fmtv now critical (some (o.message b)) >> pure 1
behind_fopen o again now comes old b (some h) =
    modify (mark_open h) >> after_open again now comes old (file h)

-- `fopen` comes only where a path is set.
pub interrupted_rotate : (o again : Opening) → (now : Bytes) → Moment → Action ℕ
unfolding after_open
interrupted_rotate o again now comes = do
  old ← (λ l. some (l.fp, l))
  signal again now comes reading
  λ l.
      let with_path =
        read_string l.path >>= λ b. behind_fopen o again now comes old b (o.opens b) in
      if l.path == 0 then after_open again now comes old stderr l else with_path l

interrupted_rotate-never :
    (o again : Opening) (now : Bytes) (l : Logger)
    → interrupted_rotate o again now never l ≡ log_rotate o now l
unfolding interrupted_rotate log_rotate read_string close
interrupted_rotate-never o again now l = ground arith

abbrev pub begun : (now : Bytes) → ℕ → List (Stream × Bytes)
begun now k = entries now info (codes "Log file started...") (file k)

abbrev moved : (now : Bytes) → (from to : ℕ) → Logger → Logger
moved now x k m = record (close_old (file x) (mark_open k m)) {
  fp = file k;
  written = m.written ++ begun now k;
}

-- The handler, where the log is the file `x` and its path opens as `k`.
hup-moved :
    (o : Opening) (now : Bytes) (m : Logger) (b : Bytes) (x k : ℕ)
    → m.path ≢ 0
    → m.strings m.path ≡ some b
    → o.opens b ≡ some k
    → m.is_open k ≡ false
    → m.is_open x ≡ true
    → HasNoNul now
    → rank info ≤ rank m.level
    → hup_handler o now (record m { fp = file x }) ≡ some (tt, moved now x k m)
unfolding hup_handler
hup-moved o now m b x k ne at opens new good plain shown =
    rw (log_rotate_file o now (record m { fp = file x }) b k ne at opens new good plain shown)

-- The log is the file `h`; its path opens as the file `h'`, and in the handler as `k`.
module _ (o : Opening) (now : Bytes) (l : Logger) (h h' k : ℕ) where
  -- Both rotations have been made: the log is the handler's file, which has both first lines; the file
  -- that was in use and that of the other rotation are closed.
  abbrev pub IsTwice : Logger → Type 0
  IsTwice r =
      (r.fp ≡ file k)
      × (r.written ≡ l.written ++ begun now k ++ begun now k)
      × ((f : ℕ)
          → r.is_open f ≡ (
              if f == h
              then false
              else if f == h'
              then false
              else if f == k
              then true
              else l.is_open f))

  -- What the run comes to, by the moment of the signal.
  abbrev pub Outcome : Moment → Option (ℕ × Logger) → Type 0
  Outcome never r = r ≡ log_rotate o now (record l { fp = file h })
  Outcome reading r = r ≡ none
  Outcome opened r = r ≡ none
  Outcome switched r = (l' : Logger) × (r ≡ some (0, l')) × IsTwice l'
  Outcome closed r = (l' : Logger) × (r ≡ some (0, l')) × IsTwice l'

module _ (o again : Opening) (now : Bytes) (l : Logger) (b : Bytes) (h h' k : ℕ) (ne : l.path ≢ 0)
    (at : l.strings l.path ≡ some b) (opens : o.opens b ≡ some h')
    (opens_again : again.opens b ≡ some k) (other : k ≢ h') (new : l.is_open h' ≡ false)
    (new_too : l.is_open k ≡ false) (good : l.is_open h ≡ true) (plain : HasNoNul now)
    (shown : rank info ≤ rank l.level) where
  crash-reading : interrupted_rotate o again now reading (record l { fp = file h }) ≡ none
  unfolding interrupted_rotate close
  crash-reading =
      let gone : (mark_open h' (moved now h k l)).is_open h ≡ false = ground arith in
      rw (
        hup-moved again now l b h k ne at opens_again new_too good plain shown,
        read_string-some l.path b (moved now h k l) at,
        opens,
        gone,
        not_null l.path ne,
      )

  crash-opened : interrupted_rotate o again now opened (record l { fp = file h }) ≡ none
  unfolding interrupted_rotate read_string close
  crash-opened =
      let free : (mark_open h' l).is_open k ≡ false = ground arith in
      let still : (mark_open h' l).is_open h ≡ true = ground arith in
      let gone : (moved now h k (mark_open h' l)).is_open h ≡ false = ground arith in
      rw (
        at,
        opens,
        hup-moved again now (mark_open h' l) b h k ne at opens_again free still plain shown,
        gone,
        not_null l.path ne,
      )

  abbrev switched_over : Logger
  switched_over = moved now h' k (mark_open h' l)

  fine-switched :
      (r : Logger) × (interrupted_rotate o again now switched (record l { fp = file h })
        ≡ some (0, r))
      × IsTwice o now l h h' k r
  unfolding interrupted_rotate close
  fine-switched =
      let free : (mark_open h' l).is_open k ≡ false = ground arith in
      let mine : (mark_open h' l).is_open h' ≡ true = ground arith in
      let still : switched_over.is_open h ≡ true = ground arith in
      let m : Logger = close_old (file h) switched_over in
      let usable : m.is_open k ≡ true = ground arith in
      (
        record m { written = switched_over.written ++ begun now k },
        rw (
          read_string-some l.path b (record l { fp = file h }) at,
          opens,
          hup-moved again now (mark_open h' l) b h' k ne at opens_again free mine plain shown,
          still,
          equus_log-entries now info (codes "Log file started...") m shown plain (ground arith)
              usable,
          not_null l.path ne,
        ),
        (refl, simp append_assoc, λ f. ground arith),
      )

  fine-closed :
      (r : Logger) × (interrupted_rotate o again now closed (record l { fp = file h })
        ≡ some (0, r))
      × IsTwice o now l h h' k r
  unfolding interrupted_rotate close
  fine-closed =
      let still : (mark_open h' l).is_open h ≡ true = ground arith in
      let m : Logger = close_old (file h) (mark_open h' l) in
      let free : m.is_open k ≡ false = ground arith in
      let mine : m.is_open h' ≡ true = ground arith in
      let n : Logger = moved now h' k m in
      let usable : n.is_open k ≡ true = ground arith in
      (
        record n { written = n.written ++ begun now k },
        rw (
          read_string-some l.path b (record l { fp = file h }) at,
          opens,
          still,
          hup-moved again now m b h' k ne at opens_again free mine plain shown,
          equus_log-entries now info (codes "Log file started...") n shown plain (ground arith)
              usable,
          not_null l.path ne,
        ),
        (refl, simp append_assoc, λ f. ground arith),
      )

  -- Where the log is an open file, its path is set and opens as a file for `equus_log_rotate` and as another one
  -- for the handler, neither of which was open before, the date, the same for both, holds no NUL and the level admits messages of
  -- level info, and SIGHUP comes at most once while `equus_log_rotate` runs: if it comes behind the reading of
  -- `g_equus_log_fp` and before the new file is assigned to it, both close the file that was in use, which crashes.
  -- If it comes later, before the first line is logged, the log ends up in the handler's file, which has the
  -- first line twice, the file that was in use and the other new one are closed, and all other files are as
  -- they were. Without a signal it is `equus_log_rotate`.
  pub interrupted_rotate-Outcome :
      (comes : Moment)
      → Outcome o now l h h' k comes
          (interrupted_rotate o again now comes (record l { fp = file h }))
  interrupted_rotate-Outcome never = interrupted_rotate-never o again now (record l { fp = file h })
  interrupted_rotate-Outcome reading = crash-reading
  interrupted_rotate-Outcome opened = crash-opened
  interrupted_rotate-Outcome switched = fine-switched
  interrupted_rotate-Outcome closed = fine-closed
