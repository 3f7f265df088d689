-- ===== src/Exec/Core/Ends.antt =====
-- How a call ends: what is closed when it returns, and what is left open when it raises.
use ck_agent.Base.{ℕ, ◌≡◌, refl, inl, inr, true, false, none, List, [], ◌∷◌, arith, Option-cases}
use ck_agent.Exec.{
  Select, Wait, wait_error, other_pid, exited, killed, Call, pipe_stdout, pipe_stderr, fork, select,
  read_stdout, read_stderr, waitpid, Parent, finished, raised, pluaerror, >>=-eq-finished,
  >>=-eq-raised,
}
use ck_agent.Exec.Loop.{read_loop, wait_loop}
use ck_agent.Exec.Loop.Reads.{InStep, Collected, ReportsAsked, read_loop-Collected}
use ck_agent.Exec.Loop.Ends.{
  RaisedIn, read_loop-RaisedIn, read_loop-InStep, EndsBoth, read_loop-total,
}
use ck_agent.Exec.Core.{Script, initial, parent, call}

wait_loop-same :
    (ws : List Wait) (p : Parent) {code : ℕ} {q : Parent} → wait_loop ws p ≡ finished code q → p ≡ q
unfolding wait_loop
wait_loop-same [] p h = cc
wait_loop-same (wait_error e ∷ ws) p h = cc
wait_loop-same (other_pid ∷ ws) p h = wait_loop-same ws p h
wait_loop-same (exited c ∷ ws) p h = cc
wait_loop-same (killed ∷ ws) p h = cc

wait_loop-raised :
    (ws : List Wait) (p : Parent) {c : Call} {e : ℕ} {q : Parent}
    → wait_loop ws p ≡ raised c e q
    → (c ≡ waitpid) × (q ≡ record p { strings = 0 })
unfolding wait_loop
wait_loop-raised [] p h = cc
wait_loop-raised (wait_error e ∷ ws) p h = (cc, cc)
wait_loop-raised (other_pid ∷ ws) p h = wait_loop-raised ws p h
wait_loop-raised (exited c ∷ ws) p h = cc
wait_loop-raised (killed ∷ ws) p h = cc

-- No pipe end is open.
abbrev pub AllClosed : Parent → Type 0
AllClosed p =
    (p.out_read ≡ false) × (p.out_write ≡ false) × (p.err_read ≡ false) × (p.err_write ≡ false)

-- Both pipes are open, as behind a successful `fork`.
abbrev opened : ℕ → Parent
opened n = record (initial n) {
  out_read = true;
  out_write = true;
  out_live = true;
  err_read = true;
  err_write = true;
  err_live = true;
}

abbrev stdout_opened : ℕ → Parent
stdout_opened n = record (initial n) { out_read = true; out_write = true; out_live = true }

abbrev reading : ℕ → Parent
reading n = record (opened n) { out_write = false; err_write = false; output = [] }

reading-InStep : (n : ℕ) → InStep (reading n)
reading-InStep n = record { out_step = refl; err_step = refl }

parent-AllClosed :
    (s : Script) (n : ℕ) {code : ℕ} {q : Parent}
    → parent s (opened n) ≡ finished code q
    → AllClosed q × (q.strings ≡ n)
unfolding parent
parent-AllClosed s n h =
    let (_, m, first, second) =
      >>=-eq-finished (read_loop s.selects (reading n)) (λ _ p. wait_loop s.waits p) h in
    let ((z, w, w'), o, e) = read_loop-InStep s.selects (reading n) (reading-InStep n) first in
    rw (← wait_loop-same s.waits m second) ((o, w, e, w'), z)

-- A call that returns its two values to Lua has closed all four pipe ends; the copies in `argv` are
-- all still allocated.
pub call-AllClosed :
    (s : Script) (n : ℕ) {code : ℕ} {q : Parent}
    → call s (initial n) ≡ finished code q
    → AllClosed q × (q.strings ≡ n)
unfolding call parent
call-AllClosed s n {code} {q} h = ground (arith, parent-AllClosed s n {code = code} {q = q})

-- What each failing call leaves open, once the error is raised.
abbrev pub LeftOpen : Call → Parent → Type 0
LeftOpen pipe_stdout p = AllClosed p
LeftOpen pipe_stderr p =
    (p.out_read ≡ true) × (p.out_write ≡ true) × (p.err_read ≡ false) × (p.err_write ≡ false)
LeftOpen fork p =
    (p.out_read ≡ true) × (p.out_write ≡ true) × (p.err_read ≡ true) × (p.err_write ≡ true)
LeftOpen select p = AllClosed p
LeftOpen read_stdout p =
    (p.out_read ≡ false) × (p.out_write ≡ false) × (p.err_read ≡ p.err_live) × (p.err_write ≡ false)
LeftOpen read_stderr p =
    (p.out_read ≡ p.out_live) × (p.out_write ≡ false) × (p.err_read ≡ false) × (p.err_write ≡ false)
LeftOpen waitpid p = AllClosed p

RaisedIn-LeftOpen :
    (c : Call) (q : Parent)
    → RaisedIn c q
    → q.out_write ≡ false
    → q.err_write ≡ false
    → LeftOpen c q
RaisedIn-LeftOpen select q (o, e) w w' = (o, w, e, w')
RaisedIn-LeftOpen read_stdout q (o, e) w w' = (o, w, e, w')
RaisedIn-LeftOpen read_stderr q (e, o) w w' = (o, w, e, w')
RaisedIn-LeftOpen pipe_stdout q r w w' = absurd r
RaisedIn-LeftOpen pipe_stderr q r w w' = absurd r
RaisedIn-LeftOpen fork q r w w' = absurd r
RaisedIn-LeftOpen waitpid q r w w' = absurd r

parent-LeftOpen :
    (s : Script) (n : ℕ) {c : Call} {e : ℕ} {q : Parent}
    → parent s (opened n) ≡ raised c e q
    → LeftOpen c q × (q.strings ≡ 0)
unfolding parent
parent-LeftOpen s n {c} {e} {q} h =
    elim (>>=-eq-raised (read_loop s.selects (reading n)) (λ _ p. wait_loop s.waits p) h) [
      | inl loop ↦
          let (r, z, w, w') = read_loop-RaisedIn s.selects (reading n) (reading-InStep n) loop in
          (RaisedIn-LeftOpen c q r w w', z)
      | inr (_, m, first, second) ↦
          let ((z, w, w'), o, e) =
            read_loop-InStep s.selects (reading n) (reading-InStep n) first in
          let (which, same) = wait_loop-raised s.waits m second in
          rw (which, same) ((o, w, e, w'), refl)
    ]

pluaerror-LeftOpen :
    (c : Call) (x : ℕ) (p : Parent) {c' : Call} {e : ℕ} {q : Parent}
    → pluaerror {A = ℕ} c x p ≡ raised c' e q
    → LeftOpen c (record p { strings = 0 })
    → LeftOpen c' q × (q.strings ≡ 0)
pluaerror-LeftOpen c x p {c'} {e} {q} h l =
    let same : c ≡ c' = cc h in
    let left : record p { strings = 0 } ≡ q = cc h in rw (← same, ← left) (l, refl)

-- Where the part from the first `pipe` on raises, the copies in `argv` are freed, and these pipe ends stay
-- open: both of stdout where the second `pipe` failed, all four where `fork` failed, the other stream's read end where a
-- `read` failed and that stream has not ended, none otherwise.
pub call-LeftOpen :
    (s : Script) (n : ℕ) {c : Call} {e : ℕ} {q : Parent}
    → call s (initial n) ≡ raised c e q
    → LeftOpen c q × (q.strings ≡ 0)
unfolding call parent
call-LeftOpen s n {c} {e} {q} h = elim (Option-cases s.pipe_out) [
  | inr (x, bad) ↦
      pluaerror-LeftOpen pipe_stdout x (initial n) (rw (bad, call) at h) (refl, refl, refl, refl)
  | inl ok1 ↦ elim (Option-cases s.pipe_err) [
    | inr (x, bad) ↦
        pluaerror-LeftOpen pipe_stderr x (stdout_opened n) (rw (ok1, bad) at h)
          (refl, refl, refl, refl)
    | inl ok2 ↦ elim (Option-cases s.forking) [
      | inr (x, bad) ↦
          pluaerror-LeftOpen fork x (opened n) (rw (ok1, ok2, bad) at h) (refl, refl, refl, refl)
      | inl ok3 ↦ parent-LeftOpen s n {e = e} (rw (ok1, ok2, ok3) at h)
    ]
  ]
]

-- Where no call fails for good, both streams end and the child is reported to exit, the call returns
-- the exit code, and as output the bytes of all reads, of both streams in the order of the reads.
pub call_returns :
    (s : Script) (n code : ℕ) (ws : List Wait)
    → (s.pipe_out ≡ none) × (s.pipe_err ≡ none) × (s.forking ≡ none)
    → EndsBoth s.selects true true
    → ReportsAsked s.selects true true
    → s.waits ≡ exited code ∷ ws
    → (q : Parent) × (call s (initial n) ≡ finished code q)
      × ((rest : List Select) × Collected s.selects (reading n) rest q)
unfolding call parent wait_loop
call_returns s n code ws (a, b, c) ends asked w =
    let (rest, q, run) = read_loop-total s.selects (reading n) ends in
    (q, rw (a, b, c, run, w), (rest, read_loop-Collected s.selects (reading n) asked run))
