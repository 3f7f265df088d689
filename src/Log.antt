-- ===== src/Log.antt =====
-- The agent's logger (src/equus_util.c). The state is the file's static variables, with the copies of
-- paths in memory, the files that are open, and what was written. `none` is a crash: a read of a freed
-- path, or a use of a closed file. What the clock and `fopen` give are arguments.
pub mod Level
pub mod Line
pub mod Write
pub mod Wrappers
pub mod Rotate
pub mod SetPath
pub mod Journal
pub mod Signals
pub mod Nested
mod Tests
use ck_agent.Base.{
  ℕ, zero, ◌+◌, ◌-◌, Bool, true, false, not, ◌&&◌, ◌||◌, Option, none, some, List, [], ◌∷◌, ◌++◌,
  ◌==◌, ltb, leb, if◌then◌else◌, Bytes, codes, str_eq, c_string, take, length,
}
use ck_agent.Log.Level.{
  LogLevel, nothing, critical, errors, warnings, info, debug, everything, rank, is_critical,
}
use ck_agent.Log.Line.{log_buffer}

pub data Stream : Type 0 where
  unset : Stream
  stderr : Stream
  file : ℕ → Stream

abbrev pub is_stderr : Stream → Bool
is_stderr stderr = true
is_stderr _ = false

-- `path` is the address of the copy of the path, 0 for NULL.
pub record Logger : Type 0 where
  pub level : LogLevel
  pub fp : Stream
  pub path : ℕ
  pub strings : ℕ → Option Bytes
  pub is_open : ℕ → Bool
  pub written : List (Stream × Bytes)

abbrev pub Action : Type 0 → Type 0
Action A = Logger → Option (A × Logger)

abbrev pub continue : {A B : Type 0} → Option (A × Logger) → (A → Action B) → Option (B × Logger)
continue none f = none
continue (some (a, l)) f = f a l

infixl 5 ◌>>=◌ ◌>>◌
abbrev pub ◌>>=◌ : {A B : Type 0} → Action A → (A → Action B) → Action B
c >>= f = λ l. continue (c l) f

abbrev pub ◌>>◌ : {A B : Type 0} → Action A → Action B → Action B
c >> d = c >>= λ _. d

abbrev pub pure : {A : Type 0} → A → Action A
pure a l = some (a, l)

abbrev pub modify : (Logger → Logger) → Action (Unit {0})
modify f l = some (tt, f l)

abbrev pub is_usable : Logger → Stream → Bool
is_usable l unset = false
is_usable l stderr = true
is_usable l (file h) = l.is_open h

-- `fwrite` and `fflush`
unfoldable pub write : Stream → Bytes → Action (Unit {0})
write s b l =
    if is_usable l s then some (tt, record l { written = l.written ++ (s, b) ∷ [] }) else none

-- `fclose` of a stream that is not stderr and not NULL; nothing at those two.
unfoldable pub close : Stream → Action (Unit {0})
close (file h) l =
    if l.is_open h
    then some (tt, record l { is_open = λ k. if k == h then false else l.is_open k })
    else none
close _ l = some (tt, l)

unfoldable pub log_level_set : LogLevel → Action (Unit {0})
log_level_set v = modify (λ l. record l { level = v })

unfoldable pub log_level_get : Logger → LogLevel
log_level_get l = l.level

-- Where the logger writes: stderr as long as no stream was set.
abbrev pub target : Stream → Stream
target unset = stderr
target stderr = stderr
target (file h) = file h

-- The whole buffer is passed on, and written up to its first NUL.
unfoldable pub log_buf : Bytes → Action (Unit {0})
log_buf buffer =
    modify (λ l. record l { fp = target l.fp }) >> (λ l. write l.fp (c_string buffer) l)

-- `if (level == EQUUS_LOG_CRITICAL && g_equus_log_fp != stderr)`
unfoldable pub copy_critical : LogLevel → Bytes → Action (Unit {0})
copy_critical v buffer l =
    if is_critical v && not (is_stderr l.fp) then write stderr buffer l else some (tt, l)

-- `now` is the text of `asctime_r`.
unfoldable pub equus_log : (now : Bytes) → LogLevel → Bytes → Action (Unit {0})
equus_log now v str l =
    let buffer = log_buffer now v str in
    if ltb (rank l.level) (rank v)
    then some (tt, l)
    else (log_buf buffer >> copy_critical v buffer) l

-- `formatted` is the full text of `vsnprintf`, none where that fails.
unfoldable pub equus_log_fmtv :
    (now : Bytes) → LogLevel → (formatted : Option Bytes) → Action (Unit {0})
equus_log_fmtv now v formatted l =
    let line : Action (Unit {0}) = elim formatted [
      | none ↦ pure tt
      | some b ↦ equus_log now v (take 3999 b)
    ] in
    if leb (rank v) (rank l.level) then line l else some (tt, l)

abbrev pub Formatted : Type 0
Formatted = (now : Bytes) → (formatted : Option Bytes) → Action (Unit {0})

-- `equus_log_fmt`, and the functions for one level each.
unfoldable pub log_fmt : LogLevel → Formatted
log_fmt v now formatted = equus_log_fmtv now v formatted

unfoldable pub log_criticalf : Formatted
log_criticalf now formatted = equus_log_fmtv now critical formatted

unfoldable pub log_errorf : Formatted
log_errorf now formatted = equus_log_fmtv now errors formatted

unfoldable pub log_warningf : Formatted
log_warningf now formatted = equus_log_fmtv now warnings formatted

unfoldable pub log_infof : Formatted
log_infof now formatted = equus_log_fmtv now info formatted

unfoldable pub log_debugf : Formatted
log_debugf now formatted = equus_log_fmtv now debug formatted

abbrev pub Plain : Type 0
Plain = (now str : Bytes) → Action (Unit {0})

unfoldable pub log_critical : Plain
log_critical now str = equus_log now critical str

unfoldable pub log_error : Plain
log_error now str = equus_log now errors str

unfoldable pub log_warning : Plain
log_warning now str = equus_log now warnings str

unfoldable pub log_info : Plain
log_info now str = equus_log now info str

unfoldable pub log_debug : Plain
log_debug now str = equus_log now debug str

-- The string at an address: a crash where it was freed.
unfoldable pub read_string : ℕ → Action Bytes
read_string p l = elim (l.strings p) [ none ↦ none | some b ↦ some (b, l) ]

-- What `fopen` gives for a path, and the text of the message where it fails.
pub record Opening : Type 0 where
  pub opens : Bytes → Option ℕ
  pub message : Bytes → Bytes

abbrev pub mark_open : ℕ → Logger → Logger
mark_open h l = record l { is_open = λ k. if k == h then true else l.is_open k }

-- The end of `equus_log_rotate`, with the next stream.
pub switch_to : (now : Bytes) → Stream → Action ℕ
switch_to now next l =
    (modify (λ l. record l { fp = next })
        >> close l.fp
        >> equus_log now info (codes "Log file started...")
        >> pure 0)
      l

-- Behind `fopen` of a path.
reopened : Opening → (now : Bytes) → (path : Bytes) → Option ℕ → Action ℕ
reopened o now b none = equus_log_fmtv now critical (some (o.message b)) >> pure 1
reopened o now b (some h) = modify (mark_open h) >> switch_to now (file h)

unfoldable pub log_rotate : Opening → (now : Bytes) → Action ℕ
unfolding reopened switch_to
log_rotate o now l =
    let reopen = read_string l.path >>= λ b. reopened o now b (o.opens b) in
    if l.path == 0 then switch_to now stderr l else reopen l

-- `path == NULL || strcmp(path, "-") == 0`
abbrev pub means_stderr : Option Bytes → Bool
means_stderr none = true
means_stderr (some b) = str_eq b (codes "-")

abbrev pub free_string : ℕ → Logger → Logger
free_string p l = record l { strings = λ q. if q == p then none else l.strings q }

-- `if (oldstr != NULL) free(oldstr)`
abbrev pub free_old : ℕ → Logger → Logger
free_old p l = if p == 0 then l else free_string p l

-- The first two branches: to stderr, closing the file that was in use; nothing where stderr is.
to_stderr : Action (Unit {0})
to_stderr l =
    if is_stderr l.fp
    then some (tt, l)
    else (modify (λ l. record l { fp = stderr }) >> close l.fp) l

-- The third branch; `fresh` is what `strdup` returns.
copy_path : (fresh : ℕ) → Bytes → Logger → Logger
copy_path fresh b l = record l {
  path = fresh;
  strings = λ q. if q == fresh then some b else l.strings q;
}

choose_path : (fresh : ℕ) → Option Bytes → Action (Unit {0})
unfolding to_stderr copy_path
choose_path fresh p =
    if means_stderr p
    then to_stderr
    else (elim p [ none ↦ pure tt | some b ↦ modify (copy_path fresh b) ])

unfoldable pub log_set_path : Opening → (now : Bytes) → (fresh : ℕ) → Option Bytes → Action ℕ
unfolding choose_path
log_set_path o now fresh p l =
    (choose_path fresh p >> modify (free_old l.path) >> log_rotate o now) l
