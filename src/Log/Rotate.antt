-- ===== src/Log/Rotate.antt =====
-- What `equus_log_rotate` does to the log file.
use ck_agent.Base.{
  ℕ, ◌≡◌, ◌≢◌, refl, Bool, true, false, none, some, ◌++◌, arith, ◌==◌, if◌then◌else◌, Bytes, codes,
  HasNoNul, take, ◌≤◌,
}
use ck_agent.Memory.Chain.{not_null}
use ck_agent.Log.Level.{info, critical, rank}
use ck_agent.Log.{
  Stream, unset, stderr, file, Logger, is_usable, target, close, equus_log, Opening, mark_open,
  read_string, log_rotate, ◌>>◌,
}
use ck_agent.Log.Write.{entries, equus_log-entries, equus_log_fmtv_lem}

-- The stream that the logger holds can be written to or is not set.
abbrev pub IsGood : Logger → Type 0
IsGood l = is_usable l (target l.fp) ≡ true

abbrev pub open_without : Stream → (ℕ → Bool) → ℕ → Bool
open_without (file h) is_open k = if k == h then false else is_open k
open_without _ is_open k = is_open k

abbrev pub close_old : Stream → Logger → Logger
close_old s l = record l { is_open = open_without s l.is_open }

pub read_string-some :
    (p : ℕ) (b : Bytes) (l : Logger) → l.strings p ≡ some b → read_string p l ≡ some (b, l)
unfolding read_string
read_string-some p b l e = rw (e, read_string)

pub read_string-none : (p : ℕ) (l : Logger) → l.strings p ≡ none → read_string p l ≡ none
unfolding read_string
read_string-none p l e = rw (e, read_string)

pub close-open :
    (s : Stream) (l : Logger) → is_usable l (target s) ≡ true → close s l ≡ some (tt, close_old s l)
unfolding close
close-open unset l u = refl
close-open stderr l u = refl
close-open (file h) l u = rw u

-- A path that cannot be opened: `equus_log_rotate` returns 1, and what it does to the logger is what
-- the critical message does: the log stays where it was, and no file is opened or closed.
pub log_rotate_failing :
    (o : Opening) (now : Bytes) (l : Logger) (b : Bytes)
    → l.path ≢ 0
    → l.strings l.path ≡ some b
    → o.opens b ≡ none
    → log_rotate o now l ≡ (equus_log now critical (take 3999 (o.message b)) >> λ l. some (1, l)) l
unfolding log_rotate
log_rotate_failing o now l b ne at fails = rw (
  not_null l.path ne,
  read_string-some l.path b l at,
  fails,
  equus_log_fmtv_lem now critical (some (o.message b)) l,
)

close-marked :
    (s : Stream) (h : ℕ) (l : Logger)
    → is_usable l (target s) ≡ true
    → close s (record (mark_open h l) { fp = file h })
      ≡ some (tt, record (close_old s (mark_open h l)) { fp = file h })
unfolding close
close-marked unset h l u = refl
close-marked stderr h l u = refl
close-marked (file k) h l u = ground arith

still_open :
    (s : Stream) (h : ℕ) (l : Logger)
    → l.is_open h ≡ false
    → is_usable l (target s) ≡ true
    → (close_old s (mark_open h l)).is_open h ≡ true
still_open unset h l new u = ground arith
still_open stderr h l new u = ground arith
still_open (file k) h l new u = ground arith

-- A path that opens as a new file `h`: the log moves to `h`, the file that was in use is closed, every
-- other file stays as it was, and the first line of the new file says that it was started.
pub log_rotate_file :
    (o : Opening) (now : Bytes) (l : Logger) (b : Bytes) (h : ℕ)
    → l.path ≢ 0
    → l.strings l.path ≡ some b
    → o.opens b ≡ some h
    → l.is_open h ≡ false
    → IsGood l
    → HasNoNul now
    → rank info ≤ rank l.level
    → log_rotate o now l
      ≡ some (
        0,
        record (close_old l.fp (mark_open h l)) {
          fp = file h;
          written = l.written ++ entries now info (codes "Log file started...") (file h);
        },
      )
unfolding log_rotate
log_rotate_file o now l b h ne at opens new good n shown =
    let m : Logger = record (mark_open h l) { fp = file h } in
    let m' : Logger = record (close_old l.fp (mark_open h l)) { fp = file h } in
    let closed : close l.fp m ≡ some (tt, m') = close-marked l.fp h l good in
    let usable : is_usable m' (file h) ≡ true = still_open l.fp h l new good in
    rw (
      not_null l.path ne,
      read_string-some l.path b l at,
      opens,
      closed,
      equus_log-entries now info (codes "Log file started...") m' shown n (omega arith) usable,
    )
