-- ===== src/Log/Journal/Agrees.antt =====
-- What the logger of src/equus_util.c holds in memory, beside the journal.
use ck_agent.Base.{
  ℕ, ◌+◌, ◌<◌, ◌≤◌, ◌≡◌, ◌≢◌, refl, Bool, true, false, Option, none, some, ltb, ◌==◌, Bytes, codes,
  HasNoNul, arith, Bool-cases, inl, inr, ap,
}
use ck_agent.Log.Level.{LogLevel, info, rank}
use ck_agent.Log.{
  Stream, unset, stderr, file, Logger, is_usable, target, equus_log, mark_open, close, switch_to,
}
use ck_agent.Log.Write.{equus_log-filtered, equus_log-entries}
use ck_agent.Log.Rotate.{close_old, open_without, close-open}
use ck_agent.Log.Journal.{Journal, note, started}

abbrev pub is_file : ℕ → Stream → Bool
is_file k (file h) = k == h
is_file k _ = false

abbrev pub PathAt : (addr : ℕ) → Logger → Option Bytes → Type 0
PathAt addr l none = l.path ≡ 0
PathAt addr l (some b) = (l.path ≢ 0) × (l.path < addr) × (l.strings l.path ≡ some b)

-- The logger is where the journal is. Only the file in use is open, and only the path in use is
-- allocated.
pub record Agrees (addr next : ℕ) (l : Logger) (j : Journal) : Type 0 where
  pub level : l.level ≡ j.level
  pub to : l.fp ≡ j.to
  pub written : l.written ≡ j.written
  pub path : PathAt addr l j.path
  pub only : (q : ℕ) → q ≢ 0 → q ≢ l.path → l.strings q ≡ none
  pub opened : (k : ℕ) → l.is_open k ≡ is_file k j.to
  pub older : (k : ℕ) → is_file k j.to ≡ true → k < next
  pub unnamed : j.path ≡ none → (k : ℕ) → is_file k j.to ≡ false

usable :
    (s : Stream) (l : Logger)
    → ((k : ℕ) → l.is_open k ≡ is_file k s)
    → is_usable l (target s) ≡ true
usable unset l o = refl
usable stderr l o = refl
usable (file h) l o = ground (arith, o h)

is_file-target : (k : ℕ) (s : Stream) → is_file k (target s) ≡ is_file k s
is_file-target k unset = refl
is_file-target k stderr = refl
is_file-target k (file h) = refl

pub older_path :
    (addr addr' : ℕ) (l : Logger) (p : Option Bytes)
    → addr ≤ addr'
    → PathAt addr l p
    → PathAt addr' l p
older_path addr addr' l none le at = at
older_path addr addr' l (some b) le (ne, lt, at) = (ne, omega arith, at)

pub older-Agrees :
    (addr next addr' next' : ℕ) (l : Logger) (j : Journal)
    → addr ≤ addr'
    → next ≤ next'
    → Agrees addr next l j
    → Agrees addr' next' l j
older-Agrees addr next addr' next' l j le le' a = record {
  level = a.level;
  to = a.to;
  written = a.written;
  path = older_path addr addr' l j.path le a.path;
  only = a.only;
  opened = a.opened;
  older = λ k h. omega (arith, a.older k h);
  unnamed = a.unnamed;
}

-- The run ends, and leaves the logger at this journal.
abbrev pub Leaves : {A : Type 0} → (addr next : ℕ) → Option (A × Logger) → Journal → Type 0
Leaves {A} addr next r j = (a : A) × (l : Logger) × (r ≡ some (a, l)) × Agrees addr next l j

module _ (now : Bytes) (message : Bytes → Bytes) (plain : HasNoNul now) where
  pub log-Leaves :
      (addr next : ℕ) (v : LogLevel) (str : Bytes) (l : Logger) (j : Journal)
      → HasNoNul str
      → Agrees addr next l j
      → Leaves addr next (equus_log now v str l) (note now message v str j)
  unfolding note
  log-Leaves addr next v str l j s a = elim (Bool-cases (ltb (rank j.level) (rank v))) [
    | inl hidden ↦ (tt, l, equus_log-filtered now v str l (rw a.level (ground arith)), rw hidden a)
    | inr shown ↦
        let ready : is_usable l (target l.fp) ≡ true = usable l.fp l (rw a.to (a.opened)) in
        let admitted : rank v ≤ rank l.level = rw a.level (ground (arith, shown)) in
        rw shown (
          tt,
          _,
          equus_log-entries now v str l admitted plain s ready,
          record {
            level = a.level;
            to = ap target a.to;
            written = rw (a.written, a.to) refl;
            path = a.path;
            only = a.only;
            opened = λ k. rw (is_file-target k j.to) (a.opened k);
            older = λ k. rw (is_file-target k j.to) (a.older k);
            unnamed = λ none_yet k. rw (is_file-target k j.to) (a.unnamed none_yet k);
          },
        )
  ]

  open_without-none :
      (s : Stream) (l : Logger) (k : ℕ)
      → ((k : ℕ) → l.is_open k ≡ is_file k s)
      → is_file k s ≡ false
      → open_without s l.is_open k ≡ false
  open_without-none unset l k o out = ground (arith, o k)
  open_without-none stderr l k o out = ground (arith, o k)
  open_without-none (file h) l k o out = ground (arith, o k)

  usable_marked :
      (s : Stream) (l : Logger) (h : ℕ)
      → ((k : ℕ) → l.is_open k ≡ is_file k s)
      → is_usable (mark_open h l) (target s) ≡ true
  usable_marked unset l h o = refl
  usable_marked stderr l h o = refl
  usable_marked (file i) l h o = ground (arith, o i)

  -- The end of `equus_log_rotate` with stderr, where no path was given.
  pub to_stderr-Leaves :
      (addr next : ℕ) (l : Logger) (j : Journal)
      → j.path ≡ none
      → Agrees addr next l j
      → Leaves addr next (switch_to now stderr l) (started now message stderr j)
  unfolding switch_to
  to_stderr-Leaves addr next l j unnamed a =
      let m : Logger = record l { fp = stderr } in
      let closed : close l.fp m ≡ some (tt, close_old l.fp m) =
        close-open l.fp m (usable l.fp m (rw a.to a.opened)) in
      let (t, l', done, a') =
        log-Leaves addr next info (codes "Log file started...") (close_old l.fp m)
          (record j { to = stderr }) (ground arith)
          (record {
            level = a.level;
            to = refl;
            written = a.written;
            path = a.path;
            only = a.only;
            opened = λ k.
                open_without-none l.fp l k (rw a.to (a.opened)) (rw a.to (a.unnamed unnamed k));
            older = λ k h. cc;
            unnamed = λ _ k. refl;
          }) in
      (0, l', rw (closed, done) refl, a')

  open_without-file :
      (s : Stream) (l : Logger) (h k : ℕ)
      → ((k : ℕ) → l.is_open k ≡ is_file k s)
      → is_file h s ≡ false
      → open_without s (mark_open h l).is_open k ≡ (k == h)
  open_without-file unset l h k o new = ground (arith, o k)
  open_without-file stderr l h k o new = ground (arith, o k)
  open_without-file (file i) l h k o new = ground (arith, o k)

  -- With a file that was not open before.
  pub to_file-Leaves :
      (addr next : ℕ) (l : Logger) (j : Journal)
      → j.path ≢ none
      → Agrees addr next l j
      → Leaves addr
          (next + 1)
          (switch_to now (file next) (mark_open next l))
          (started now message (file next) j)
  unfolding switch_to
  to_file-Leaves addr next l j named a =
      let m : Logger = record (mark_open next l) { fp = file next } in
      let new : is_file next l.fp ≡ false = rw a.to (ground (arith, a.older next)) in
      let was : (k : ℕ) → l.is_open k ≡ is_file k l.fp = rw a.to a.opened in
      let closed : close l.fp m ≡ some (tt, close_old l.fp m) =
        close-open l.fp m (usable_marked l.fp l next was) in
      let (t, l', done, a') =
        log-Leaves addr (next + 1) info (codes "Log file started...") (close_old l.fp m)
          (record j { to = file next }) (ground arith)
          (record {
            level = a.level;
            to = refl;
            written = a.written;
            path = a.path;
            only = a.only;
            opened = λ k. open_without-file l.fp l next k was new;
            older = λ k h. ground arith;
            unnamed = λ none_yet k. absurd (named none_yet);
          }) in
      (0, l', rw (closed, done) refl, a')
