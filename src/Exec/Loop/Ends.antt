-- ===== src/Exec/Loop/Ends.antt =====
-- The end of the reading loop: when it comes, and which descriptors it leaves open.
use ck_agent.Base.{
  ℕ, ◌≡◌, refl, ◌∙◌, inl, inr, Bool, true, false, not, ◌&&◌, Option, none, some, List, [], ◌∷◌,
  ◌++◌, arith, Bool-cases,
}
use ck_agent.Exec.{
  eintr, eagain, Read, eof, got, read_error, Select, select_error, ready, Call, select, read_stdout,
  read_stderr, Parent, finished, raised, >>=-eq-finished, >>=-eq-raised,
}
use ck_agent.Exec.Loop.{read_out, read_err, round, read_loop}
use ck_agent.Exec.Loop.Reads.{still, InStep, round-InStep}

-- The only failure is "try again".
abbrev pub IsBenign : Option Read → Type 0
IsBenign (some (read_error e)) = e ≡ eagain
IsBenign _ = Unit

-- No call fails for good, and each stream that is live is reported to end.
abbrev pub EndsBoth : List Select → Bool → Bool → Type 0
EndsBoth [] o e = (o ≡ false) × (e ≡ false)
EndsBoth (select_error n ∷ ss) o e = (n ≡ eintr) × EndsBoth ss o e
EndsBoth (ready x y ∷ ss) o e = IsBenign x × IsBenign y × EndsBoth ss (still x o) (still y e)

read_out-total :
    (x : Option Read) (p : Parent)
    → IsBenign x
    → (q : Parent) × (read_out x p ≡ finished tt q)
      × (q.out_live ≡ still x p.out_live)
      × (q.err_live ≡ p.err_live)
unfolding read_out
read_out-total none p b = (p, refl, refl, refl)
read_out-total (some eof) p b = elim (Bool-cases p.out_live) [
  | inl live ↦ (record p { out_read = false; out_live = false }, rw live, refl, refl)
  | inr dead ↦ (p, rw dead, dead, refl)
]
read_out-total (some (got d)) p b = elim (Bool-cases p.out_live) [
  | inl live ↦ (record p { output = p.output ++ d }, rw live, refl, refl)
  | inr dead ↦ (p, rw dead, refl, refl)
]
read_out-total (some (read_error e)) p b = (p, ground arith, refl, refl)

read_err-total :
    (x : Option Read) (p : Parent)
    → IsBenign x
    → (q : Parent) × (read_err x p ≡ finished tt q)
      × (q.err_live ≡ still x p.err_live)
      × (q.out_live ≡ p.out_live)
unfolding read_err
read_err-total none p b = (p, refl, refl, refl)
read_err-total (some eof) p b = elim (Bool-cases p.err_live) [
  | inl live ↦ (record p { err_read = false; err_live = false }, rw live, refl, refl)
  | inr dead ↦ (p, rw dead, dead, refl)
]
read_err-total (some (got d)) p b = elim (Bool-cases p.err_live) [
  | inl live ↦ (record p { output = p.output ++ d }, rw live, refl, refl)
  | inr dead ↦ (p, rw dead, refl, refl)
]
read_err-total (some (read_error e)) p b = (p, ground arith, refl, refl)

round-total :
    (s : Select) (ss : List Select) (p : Parent)
    → EndsBoth (s ∷ ss) p.out_live p.err_live
    → (q : Parent) × (round s p ≡ finished tt q) × EndsBoth ss q.out_live q.err_live
unfolding round
round-total (select_error n) ss p (e, b) = (p, ground arith, b)
round-total (ready x y) ss p (bx, by, b) =
    let (m, first, l1, k1) = read_out-total x p bx in
    let (q, second, l2, k2) = read_err-total y m by in (q, rw first second, rw (k2, l1, l2, k1) b)

-- Where no call fails for good and both streams are reported to end, the reading loop finishes.
pub read_loop-total :
    (ss : List Select) (p : Parent)
    → EndsBoth ss p.out_live p.err_live
    → (rest : List Select) × (q : Parent) × (read_loop ss p ≡ finished rest q)
unfolding read_loop
read_loop-total [] p (o, e) = ([], p, rw (o, e))
read_loop-total (s ∷ ss) p b = elim (Bool-cases (not p.out_live && not p.err_live)) [
  | inl over ↦ (s ∷ ss, p, rw over)
  | inr more ↦
      let (m, step, b') = round-total s ss p b in
      let (rest, q, run) = read_loop-total ss m b' in (rest, q, rw (more, step) run)
]

-- An error in a round: the failing stream's descriptor is closed; a failing `select` closes both.
abbrev pub RaisedIn : Call → Parent → Type 0
RaisedIn select p = (p.out_read ≡ false) × (p.err_read ≡ false)
RaisedIn read_stdout p = (p.out_read ≡ false) × (p.err_read ≡ p.err_live)
RaisedIn read_stderr p = (p.err_read ≡ false) × (p.out_read ≡ p.out_live)
RaisedIn _ p = ⊥

round-RaisedIn :
    (s : Select) (p q : Parent) (c : Call) (n : ℕ)
    → InStep p
    → round s p ≡ raised c n q
    → RaisedIn c q × (q.strings ≡ 0) × (q.out_write ≡ p.out_write) × (q.err_write ≡ p.err_write)
unfolding round
round-RaisedIn (select_error e) p q c n i h = ground arith
round-RaisedIn (ready none none) p q c n i h = ground arith
round-RaisedIn (ready none (some e)) p q c n i h = ground arith
round-RaisedIn (ready (some o) none) p q c n i h = ground arith
round-RaisedIn (ready (some o) (some e)) p q c n i h = ground arith

-- What no round touches.
abbrev pub SameElse : Parent → Parent → Type 0
SameElse p q = (q.strings ≡ p.strings) × (q.out_write ≡ p.out_write) × (q.err_write ≡ p.err_write)

round-SameElse : (s : Select) (p q : Parent) → round s p ≡ finished tt q → SameElse p q
unfolding round
round-SameElse (select_error e) p q h = ground arith
round-SameElse (ready none none) p q h = ground arith
round-SameElse (ready none (some e)) p q h = ground arith
round-SameElse (ready (some o) none) p q h = ground arith
round-SameElse (ready (some o) (some e)) p q h = ground arith

-- An error of the loop: which descriptors it leaves open, with no copy of `argv` left.
pub read_loop-RaisedIn :
    (ss : List Select) (p : Parent) {q : Parent} {c : Call} {n : ℕ}
    → InStep p
    → read_loop ss p ≡ raised c n q
    → RaisedIn c q × (q.strings ≡ 0) × (q.out_write ≡ p.out_write) × (q.err_write ≡ p.err_write)
unfolding read_loop
read_loop-RaisedIn [] p {q} {c} {n} i h = elim (Bool-cases (not p.out_live && not p.err_live)) [
  | inl over ↦ cc (rw over at h)
  | inr more ↦ cc (rw more at h)
]
read_loop-RaisedIn (s ∷ ss) p {q} {c} {n} i h =
    elim (Bool-cases (not p.out_live && not p.err_live)) [
      | inl over ↦ cc (rw over at h)
      | inr more ↦ elim (>>=-eq-raised (round s p) (λ _ p. read_loop ss p) (rw more at h)) [
        | inl here ↦ round-RaisedIn s p q c n i here
        | inr (_, m, first, later) ↦
            let (r, z, w, w') = read_loop-RaisedIn ss m (round-InStep s p m i first) later in
            let (_, v, v') = round-SameElse s p m first in (r, z, w ∙ v, w' ∙ v')
      ]
    ]

over-InStep :
    (p : Parent) {l r : List Select} {q : Parent}
    → InStep p
    → (not p.out_live && not p.err_live) ≡ true
    → finished l p ≡ finished r q
    → SameElse p q × (q.out_read ≡ false) × (q.err_read ≡ false)
over-InStep p i over h = ground arith

-- What the loop does not touch, and the descriptors when it has finished.
pub read_loop-InStep :
    (ss : List Select) (p : Parent) {rest : List Select} {q : Parent}
    → InStep p
    → read_loop ss p ≡ finished rest q
    → SameElse p q × (q.out_read ≡ false) × (q.err_read ≡ false)
unfolding read_loop
read_loop-InStep [] p {rest} {q} i h = elim (Bool-cases (not p.out_live && not p.err_live)) [
  | inl over ↦ over-InStep p {r = rest} i over (rw over at h)
  | inr more ↦ cc (rw more at h)
]
read_loop-InStep (s ∷ ss) p {rest} {q} i h = elim (Bool-cases (not p.out_live && not p.err_live)) [
  | inl over ↦ over-InStep p {r = rest} i over (rw over at h)
  | inr more ↦
      let (_, m, first, second) =
        >>=-eq-finished (round s p) (λ _ p. read_loop ss p) (rw more at h) in
      let (v, v', v'') = round-SameElse s p m first in
      let ((w, w', w''), o, e) = read_loop-InStep ss m (round-InStep s p m i first) second in
      ((w ∙ v, w' ∙ v', w'' ∙ v''), o, e)
]
