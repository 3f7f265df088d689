-- ===== src/Exec/Loop/Reads.antt =====
-- What the reading loop collects, and the descriptors that it closes.
use ck_agent.Base.{
  ◌≡◌, inl, inr, ◌∙◌, sym, ap, Bool, true, false, not, ◌&&◌, Option, none, some, List, [], ◌∷◌,
  ◌++◌, append_assoc, append-nil, arith, Bool-cases, Bytes,
}
use ck_agent.Exec.{
  Read, eof, got, read_error, Select, select_error, ready, Parent, finished, >>=-eq-finished,
}
use ck_agent.Exec.Loop.{read_out, read_err, round, read_loop}

-- The bytes of one read, and of the reads behind one `select`.
abbrev pub read_bytes : Option Read → Bytes
read_bytes none = []
read_bytes (some eof) = []
read_bytes (some (got b)) = b
read_bytes (some (read_error _)) = []

abbrev pub select_bytes : Select → Bytes
select_bytes (select_error _) = []
select_bytes (ready o e) = read_bytes o ++ read_bytes e

abbrev pub all_bytes : List Select → Bytes
all_bytes [] = []
all_bytes (s ∷ ss) = select_bytes s ++ all_bytes ss

-- `select` reports only descriptors that it was asked about: none of a stream behind its end.
abbrev pub still : Option Read → Bool → Bool
still (some eof) live = false
still _ live = live

abbrev pub Asked : Option Read → Bool → Type 0
Asked none live = Unit
Asked (some _) live = live ≡ true

abbrev pub ReportsAsked : List Select → Bool → Bool → Type 0
ReportsAsked [] o e = Unit
ReportsAsked (select_error _ ∷ ss) o e = ReportsAsked ss o e
ReportsAsked (ready x y ∷ ss) o e = Asked x o × Asked y e × ReportsAsked ss (still x o) (still y e)

-- What a finished loop has done: `used` is the part of the script that it took.
pub record Collected (ss : List Select) (p : Parent) (rest : List Select) (q : Parent)
    : Type 0 where
  pub used : List Select
  pub splits : ss ≡ used ++ rest
  pub output : q.output ≡ p.output ++ all_bytes used
  pub out_closed : q.out_live ≡ false
  pub err_closed : q.err_live ≡ false

-- A read descriptor is open exactly while its variable is not -1.
pub record InStep (p : Parent) : Type 0 where
  pub out_step : p.out_read ≡ p.out_live
  pub err_step : p.err_read ≡ p.err_live

pub round-InStep : (s : Select) (p q : Parent) → InStep p → round s p ≡ finished tt q → InStep q
unfolding round
round-InStep (select_error e) p q i h = ground arith
round-InStep (ready none none) p q i h = ground arith
round-InStep (ready none (some e)) p q i h = ground arith
round-InStep (ready (some o) none) p q i h = ground arith
round-InStep (ready (some o) (some e)) p q i h = ground arith

read_out-output :
    (x : Option Read) (p q : Parent)
    → Asked x p.out_live
    → read_out x p ≡ finished tt q
    → (q.output ≡ p.output ++ read_bytes x)
      × (q.out_live ≡ still x p.out_live)
      × (q.err_live ≡ p.err_live)
unfolding read_out
read_out-output none p q a h = ground (arith, append-nil p.output)
read_out-output (some eof) p q a h = ground (arith, append-nil p.output)
read_out-output (some (got b)) p q a h = ground arith
read_out-output (some (read_error e)) p q a h = ground (arith, append-nil p.output)

read_err-output :
    (x : Option Read) (p q : Parent)
    → Asked x p.err_live
    → read_err x p ≡ finished tt q
    → (q.output ≡ p.output ++ read_bytes x)
      × (q.err_live ≡ still x p.err_live)
      × (q.out_live ≡ p.out_live)
unfolding read_err
read_err-output none p q a h = ground (arith, append-nil p.output)
read_err-output (some eof) p q a h = ground (arith, append-nil p.output)
read_err-output (some (got b)) p q a h = ground arith
read_err-output (some (read_error e)) p q a h = ground (arith, append-nil p.output)

round-output :
    (s : Select) (ss : List Select) (p q : Parent)
    → ReportsAsked (s ∷ ss) p.out_live p.err_live
    → round s p ≡ finished tt q
    → (q.output ≡ p.output ++ select_bytes s) × ReportsAsked ss q.out_live q.err_live
unfolding round
round-output (select_error e) ss p q a h = ground (arith, append-nil p.output)
round-output (ready x y) ss p q (ax, ay, a) h =
    let (_, m, first, second) = >>=-eq-finished (read_out x p) (λ _ p. read_err y p) h in
    let (o1, l1, k1) = read_out-output x p m ax first in
    let (o2, l2, k2) = read_err-output y m q (rw k1 ay) second in
    (
      o2 ∙ ap (λ b. b ++ read_bytes y) o1 ∙ append_assoc p.output (read_bytes x) (read_bytes y),
      rw (k2, l1, l2, k1) a,
    )

-- A loop that is over has taken nothing.
Collected-nothing :
    (ss : List Select) (p : Parent) {rest : List Select} {q : Parent}
    → (not p.out_live && not p.err_live) ≡ true
    → finished ss p ≡ finished rest q
    → Collected ss p rest q
Collected-nothing ss p {rest} {q} over h =
    let e : p ≡ q = cc h in
    record {
      used = [];
      splits = cc h;
      output = rw (← e) (sym (append-nil p.output));
      out_closed = rw (← e) (ground arith);
      err_closed = rw (← e) (ground arith);
    }

-- When the reading loop finishes, both pipes are at their end; it has taken the bytes of a first part
-- of the script, of both streams in the order of the reads, and appended exactly these to the output.
pub read_loop-Collected :
    (ss : List Select) (p : Parent) {rest : List Select} {q : Parent}
    → ReportsAsked ss p.out_live p.err_live
    → read_loop ss p ≡ finished rest q
    → Collected ss p rest q
unfolding read_loop
read_loop-Collected [] p {rest} {q} a h = elim (Bool-cases (not p.out_live && not p.err_live)) [
  | inl over ↦ Collected-nothing [] p over (rw over at h)
  | inr more ↦ cc (rw more at h)
]
read_loop-Collected (s ∷ ss) p {rest} {q} a h =
    elim (Bool-cases (not p.out_live && not p.err_live)) [
      | inl over ↦ Collected-nothing (s ∷ ss) p over (rw over at h)
      | inr more ↦
          let (_, m, first, second) =
            >>=-eq-finished (round s p) (λ _ p. read_loop ss p) (rw more at h) in
          let (o, a') = round-output s ss p m a first in
          let c = read_loop-Collected ss m a' second in
          record {
            used = s ∷ c.used;
            splits = ap (◌∷◌ s) c.splits;
            output =
                c.output
                ∙ ap (λ b. b ++ all_bytes c.used) o
                ∙ append_assoc p.output (select_bytes s) (all_bytes c.used);
            out_closed = c.out_closed;
            err_closed = c.err_closed;
          }
    ]
