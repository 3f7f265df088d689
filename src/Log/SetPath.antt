-- ===== src/Log/SetPath.antt =====
-- What `equus_log_set_path` does.
use ck_agent.Base.{
  ℕ, ◌≡◌, ◌≢◌, refl, ◌⊎◌, inl, inr, true, false, Option, none, some, ◌++◌, arith, ◌==◌,
  if◌then◌else◌, Bool-cases, Bytes, codes, HasNoNul, ◌≤◌,
}
use ck_agent.Memory.Chain.{not_null}
use ck_agent.Log.Level.{info, rank}
use ck_agent.Log.{
  Stream, unset, stderr, file, Logger, is_stderr, close, Opening, mark_open, means_stderr,
  free_string, log_rotate, log_set_path, choose_path, to_stderr, copy_path,
}
use ck_agent.Log.Write.{entries}
use ck_agent.Log.Rotate.{IsGood, close_old, open_without, log_rotate_file, read_string-none}

abbrev copied : ℕ → Bytes → Logger → Logger
copied fresh b l = record l {
  path = fresh;
  strings = λ q. if q == fresh then some b else l.strings q;
}

open_without-mark :
    (s : Stream) (l : Logger) (h k : ℕ)
    → k ≢ h
    → open_without s (mark_open h l).is_open k ≡ open_without s l.is_open k
open_without-mark unset l h k ne = ground arith
open_without-mark stderr l h k ne = ground arith
open_without-mark (file j) l h k ne = ground arith

-- Logging to a file `b` (not "-") that opens as a new file `h`: the log moves there as
-- `equus_log_rotate` says, the fresh copy of the path is kept, and the copy of the old path is freed.
pub log_set_path_file :
    (o : Opening) (now : Bytes) (l : Logger) (fresh : ℕ) (b : Bytes) (h : ℕ)
    → means_stderr (some b) ≡ false
    → fresh ≢ 0
    → fresh ≢ l.path
    → o.opens b ≡ some h
    → l.is_open h ≡ false
    → IsGood l
    → HasNoNul now
    → rank info ≤ rank l.level
    → (r : Logger) × (log_set_path o now fresh (some b) l ≡ some (0, r))
      × (r.fp ≡ file h)
      × (r.path ≡ fresh)
      × (r.strings fresh ≡ some b)
      × (l.path ≢ 0 → r.strings l.path ≡ none)
      × ((k : ℕ) → k ≢ h → r.is_open k ≡ (close_old l.fp l).is_open k)
unfolding log_set_path choose_path copy_path
log_set_path_file o now l fresh b h named live other opens new good n shown =
    elim (Bool-cases (l.path == 0)) [
      | inl unset_path ↦
          let m : Logger = copied fresh b l in
          (
            record (close_old l.fp (mark_open h m)) {
              fp = file h;
              written = l.written ++ entries now info (codes "Log file started...") (file h);
            },
            rw (named, unset_path)
                (log_rotate_file o now m b h live (ground arith) opens new good n shown),
            refl,
            refl,
            ground arith,
            (λ ne. ground arith),
            λ k ne. open_without-mark l.fp l h k ne,
          )
      | inr old_path ↦
          let m : Logger = free_string l.path (copied fresh b l) in
          (
            record (close_old l.fp (mark_open h m)) {
              fp = file h;
              written = l.written ++ entries now info (codes "Log file started...") (file h);
            },
            rw (named, old_path)
                (log_rotate_file o now m b h live (ground arith) opens new good n shown),
            refl,
            refl,
            ground arith,
            (λ ne. ground arith),
            λ k ne. open_without-mark l.fp l h k ne,
          )
    ]

close-cases :
    (s : Stream) (l : Logger)
    → (close s l ≡ none) ⊎ ((m : Logger) × (close s l ≡ some (tt, m)) × (m.path ≡ l.path))
unfolding close
close-cases unset l = inr (l, refl, refl)
close-cases stderr l = inr (l, refl, refl)
close-cases (file h) l = elim (Bool-cases (l.is_open h)) [
  | inl was_open ↦ inr (close_old (file h) l, rw was_open, refl)
  | inr was_closed ↦ inl (rw was_closed)
]

to_stderr_cases :
    (l : Logger)
    → (to_stderr l ≡ none) ⊎ ((m : Logger) × (to_stderr l ≡ some (tt, m)) × (m.path ≡ l.path))
unfolding to_stderr
to_stderr_cases l = elim (Bool-cases (is_stderr l.fp)) [
  | inl here ↦ inr (l, rw here, refl)
  | inr away ↦ rw away (close-cases l.fp (record l { fp = stderr }))
]

rotate_freed :
    (o : Opening) (now : Bytes) (p : ℕ) (m : Logger)
    → p ≢ 0
    → m.path ≡ p
    → log_rotate o now (free_string p m) ≡ none
unfolding log_rotate
rotate_freed o now p m set same =
    let gone : (free_string p m).strings m.path ≡ none = ground arith in
    let ne : m.path ≢ 0 = rw same set in
    rw (not_null m.path ne, read_string-none m.path (free_string p m) gone)

-- Going back to stderr (NULL or "-") once a path is set crashes: the function frees the copy of the
-- path, keeps its address, and `equus_log_rotate` reads it.
pub log_set_path-crash :
    (o : Opening) (now : Bytes) (l : Logger) (fresh : ℕ) (p : Option Bytes) (b : Bytes)
    → means_stderr p ≡ true
    → l.path ≢ 0
    → l.strings l.path ≡ some b
    → log_set_path o now fresh p l ≡ none
unfolding log_set_path choose_path
log_set_path-crash o now l fresh p b back set at = elim (to_stderr_cases l) [
  | inl crashed ↦ rw (back, crashed)
  | inr (m, done, same) ↦
      rw (back, done, not_null l.path set) (rotate_freed o now l.path m set same)
]
