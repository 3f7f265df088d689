-- ===== src/Log/Journal/Calls.antt =====
-- Single calls of the logger of src/equus_util.c against the journal.
use ck_agent.Base.{
  ℕ, ◌+◌, ◌<◌, ◌≡◌, ◌≢◌, refl, Bool, true, false, Option, none, some, List, ◌==◌, Bytes, codes,
  str_eq, take, HasNoNul, HasNoNul-take, arith, Bool-cases, inl, inr,
}
use ck_agent.Memory.Chain.{not_null}
use ck_agent.Log.Level.{LogLevel, critical}
use ck_agent.Log.{
  continue, pure, Stream, unset, stderr, file, Logger, log_rotate, log_set_path, log_level_set,
  choose_path, close, means_stderr, free_old, copy_path,
}
use ck_agent.Log.Rotate.{read_string-some, log_rotate_failing}
use ck_agent.Log.SetPath.{log_set_path-crash}
use ck_agent.Log.Journal.{
  Op, line, set_level, set_path, rotate, Journal, answer, call, reopen, go_to, to_stderr, expected,
  IsPlain,
}
use ck_agent.Log.Journal.Agrees.{
  is_file, older_path, PathAt, Agrees, Leaves, log-Leaves, to_stderr-Leaves, to_file-Leaves,
  older-Agrees,
}

-- The run crashes where the journal says so, and otherwise ends at what the journal says.
abbrev pub Ends : (addr next : ℕ) → {A : Type 0} → Option (A × Logger) → Option Journal → Type 0
Ends addr next none none = Unit
Ends addr next (some (_, l)) (some j) = Agrees addr next l j
Ends addr next none (some _) = ⊥
Ends addr next (some _) none = ⊥

drop-Ends :
    {A : Type 0} (addr next : ℕ) (r : Option (A × Logger)) (o : Option Journal)
    → Ends addr next r o
    → Ends addr next (continue r (λ _. pure tt)) o
drop-Ends addr next none none e = tt
drop-Ends addr next (some _) (some j) e = e
drop-Ends addr next none (some j) e = absurd e
drop-Ends addr next (some _) none e = absurd e

null_path : (l : Logger) → l.path ≡ 0 → (l.path == 0) ≡ true
null_path l e = ground arith

module _ (now : Bytes) (message : Bytes → Bytes) (plain : HasNoNul now)
    (plain_message : (b : Bytes) → HasNoNul (message b)) where
  rotate-Leaves :
      (addr next : ℕ) (ok : Bool) (l : Logger) (p : Option Bytes) (level : LogLevel) (to : Stream)
      (written : List (Stream × Bytes))
      → let j : Journal = record { level = level; path = p; to = to; written = written } in
        Agrees addr next l j
        → Leaves addr
            (next + 1)
            (log_rotate (answer now message next ok) now l)
            (reopen now message p next ok j)
  unfolding log_rotate
  rotate-Leaves addr next ok l none level to written a =
      let (r, l', done, a') =
        to_stderr-Leaves now message plain addr next l
          (record { level = level; path = none; to = to; written = written }) refl a in
      (
        r,
        l',
        rw (null_path l a.path) done,
        older-Agrees addr next addr (next + 1) l' _ (omega arith) (omega arith) a',
      )
  rotate-Leaves addr next true l (some b) level to written a =
      let (ne, _, at) = a.path in
      let (r, l', done, a') =
        to_file-Leaves now message plain addr next l
          (record { level = level; path = some b; to = to; written = written }) (λ e. cc) a in
      (r, l', rw (not_null l.path ne, read_string-some l.path b l at) done, a')
  rotate-Leaves addr next false l (some b) level to written a =
      let (ne, _, at) = a.path in
      let (r, l', done, a') =
        log-Leaves now message plain addr next critical (take 3999 (message b)) l
          (record { level = level; path = some b; to = to; written = written })
          (HasNoNul-take 3999 (message b) (plain_message b)) a in
      (
        1,
        l',
        rw (log_rotate_failing (answer now message next false) now l b ne at refl, done) refl,
        older-Agrees addr next addr (next + 1) l' _ (omega arith) (omega arith) a',
      )

  at_stderr :
      (addr next : ℕ) (l m : Logger) (j : Journal)
      → j.path ≡ none
      → Agrees addr next l j
      → m ≡ record l { fp = stderr }
      → Agrees addr next m (record j { to = stderr })
  at_stderr addr next l m j unnamed a same = rw same (record {
    level = a.level;
    to = refl;
    written = a.written;
    path = a.path;
    only = a.only;
    opened = λ k. rw (a.opened k) (a.unnamed unnamed k);
    older = λ k h. cc;
    unnamed = λ _ k. refl;
  })

  -- `choose_path` with NULL or "-", before a path was given.
  stay :
      (addr next : ℕ) (l : Logger) (j : Journal) (fresh : ℕ) (p : Option Bytes)
      → means_stderr p ≡ true
      → j.path ≡ none
      → (s : Stream) → l.fp ≡ s
      → Agrees addr next l j
      → (choose_path fresh p l ≡ some (tt, record l { fp = stderr }))
  unfolding choose_path close
  stay addr next l j fresh p back unnamed unset at a = rw back (ground arith)
  stay addr next l j fresh p back unnamed stderr at a = rw back (ground arith)
  stay addr next l j fresh p back unnamed (file h) at a =
      let same : is_file h j.to ≡ true = rw (← a.to, at) (ground arith) in
      cc (same, a.unnamed unnamed h)

  path_lt :
      (addr : ℕ) (l : Logger) (p : Option Bytes) → PathAt addr l p → l.path ≢ 0 → l.path < addr
  path_lt addr l none at ne = absurd (ne at)
  path_lt addr l (some b) at ne = at.1

  -- `strdup`, and `free` of the old copy.
  renamed :
      (addr next : ℕ) (l : Logger) (j : Journal) (b : Bytes)
      → Agrees addr next l j
      → 0 < addr
      → Agrees (addr + 1) next (free_old l.path (copy_path addr b l)) (record j { path = some b })
  unfolding copy_path
  renamed addr next l j b a real = elim (Bool-cases (l.path == 0)) [
    | inl unset_path ↦ rw unset_path (record {
      level = a.level;
      to = a.to;
      written = a.written;
      path = ((λ e. omega arith), omega arith, ground arith);
      only = λ q ne out. ground (arith, a.only q);
      opened = a.opened;
      older = a.older;
      unnamed = λ e. cc;
    })
    | inr old_path ↦ rw old_path (record {
      level = a.level;
      to = a.to;
      written = a.written;
      path = ((λ e. omega arith), omega arith, ground (arith, path_lt addr l j.path a.path));
      only = λ q ne out. ground (arith, a.only q);
      opened = a.opened;
      older = a.older;
      unnamed = λ e. cc;
    })
  ]

  back-Ends :
      (next : ℕ) (ok : Bool) (p : Option Bytes) (l : Logger) (o : Option Bytes) (level : LogLevel)
      (to : Stream) (written : List (Stream × Bytes))
      → means_stderr p ≡ true
      → let j : Journal = record { level = level; path = o; to = to; written = written } in
        Agrees next next l j
        → Ends
            (next + 1)
            (next + 1)
            (log_set_path (answer now message next ok) now next p l)
            (to_stderr now message o j)
  unfolding log_set_path
  back-Ends next ok p l (some b) level to written back a =
      rw (log_set_path-crash (answer now message next ok) now l next p b back a.path.0 a.path.2) tt
  back-Ends next ok p l none level to written back a =
      let j : Journal = record { level = level; path = none; to = to; written = written } in
      let m : Logger = record l { fp = stderr } in
      let there : Agrees next next m (record j { to = stderr }) =
        at_stderr next next l m j refl a refl in
      let (r, l', done, a') = rotate-Leaves next next ok m none level stderr written there in
      rw (stay next next l j next p back refl l.fp refl a, null_path l a.path, done)
        (older-Agrees next (next + 1) (next + 1) (next + 1) l' _ (omega arith) (omega arith) a')

  file-Ends :
      (next : ℕ) (ok : Bool) (b : Bytes) (l : Logger) (j : Journal)
      → str_eq b (codes "-") ≡ false
      → 0 < next
      → Agrees next next l j
      → Ends
          (next + 1)
          (next + 1)
          (log_set_path (answer now message next ok) now next (some b) l)
          (some (reopen now message (some b) next ok (record j { path = some b })))
  unfolding log_set_path choose_path
  file-Ends next ok b l j named real a =
      let m : Logger = free_old l.path (copy_path next b l) in
      let there : Agrees (next + 1) next m (record j { path = some b }) =
        renamed next next l j b a real in
      let (r, l', done, a') =
        rotate-Leaves (next + 1) next ok m (some b) j.level j.to j.written there in
      rw (named, done) a'

  pub call-Ends :
      (next : ℕ) (op : Op) (l : Logger) (j : Journal)
      → IsPlain op
      → 0 < next
      → Agrees next next l j
      → Ends (next + 1) (next + 1) (call now message next op l) (expected now message next op j)
  unfolding call expected log_level_set
  call-Ends next (line v str) l j plain_ops real a =
      let (r, l', done, a') = log-Leaves now message plain next next v str l j plain_ops a in
      rw done (older-Agrees next next (next + 1) (next + 1) l' _ (omega arith) (omega arith) a')
  call-Ends next (set_level v) l j plain_ops real a = record {
    level = refl;
    to = a.to;
    written = a.written;
    path = older_path next (next + 1) l j.path (omega arith) a.path;
    only = a.only;
    opened = a.opened;
    older = λ k h. omega (arith, a.older k h);
    unnamed = a.unnamed;
  }
  call-Ends next (set_path none ok) l j plain_ops real a =
      drop-Ends (next + 1) (next + 1) _ (to_stderr now message j.path j)
        (back-Ends next ok none l j.path j.level j.to j.written refl a)
  call-Ends next (set_path (some b) ok) l j plain_ops real a =
      drop-Ends (next + 1) (next + 1) _ (go_to now message (some b) next ok j)
        (elim (Bool-cases (str_eq b (codes "-"))) [
          | inl back ↦ rw back (back-Ends next ok (some b) l j.path j.level j.to j.written back a)
          | inr named ↦ rw named (file-Ends next ok b l j named real a)
        ])
  call-Ends next (rotate ok) l j plain_ops real a =
      let (r, l', done, a') = rotate-Leaves next next ok l j.path j.level j.to j.written a in
      rw done
        (older-Agrees next (next + 1) (next + 1) (next + 1) l' _ (omega arith) (omega arith) a')
