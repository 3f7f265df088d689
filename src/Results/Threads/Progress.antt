-- ===== src/Results/Threads/Progress.antt =====
-- How long a thread on the results stack of src/equus_util.c holds `resmtx`.
use ck_agent.Base.{ℕ, ◌≡◌, ◌≢◌, ◌<◌, ◌≤◌, ◌==◌, refl, true, none, some, arith}
use ck_agent.Memory.{null}
use ck_agent.Results.Refines.{Op, push, take}
use ck_agent.Results.Threads.{
  Place, idle, locking_push, allocating, publishing, unlocking, locking_pop, testing, reading,
  removing, leaving, owning, crashed, Store, advance, System, turn, Reach,
}
use ck_agent.Results.Threads.Invariant.{inside}
use ck_agent.Results.Threads.Sound.{Reach-Keeps, turn-Keeps}

-- The statements that a thread at this place may still run before `MTX_UNLOCK` has returned.
abbrev pub remaining : Place → ℕ
remaining idle = 0
remaining (locking_push r b) = 0
remaining (allocating r b) = 3
remaining (publishing r b e) = 2
remaining unlocking = 1
remaining locking_pop = 0
remaining testing = 4
remaining (reading e) = 3
remaining (removing e r) = 2
remaining (leaving r b) = 1
remaining (owning r b) = 0
remaining crashed = 0

advance-remaining :
    (i fresh : ℕ) (call : Op) (s : Store) (p : Place)
    → inside p ≡ true
    → remaining (advance i fresh call s p).1 < remaining p
unfolding advance
advance-remaining i fresh call s (allocating r b) now = omega arith
advance-remaining i fresh call s (publishing r b e) now = omega arith
advance-remaining i fresh call s unlocking now = omega arith
advance-remaining i fresh call s testing now = ground arith
advance-remaining i fresh call s (reading e) now = ground arith
advance-remaining i fresh call s (removing e r) now = ground arith
advance-remaining i fresh call s (leaving r b) now = omega arith
advance-remaining i fresh call s idle now = cc
advance-remaining i fresh call s (locking_push r b) now = cc
advance-remaining i fresh call s locking_pop now = cc
advance-remaining i fresh call s (owning r b) now = cc
advance-remaining i fresh call s crashed now = cc

inside-remaining : (p : Place) → remaining p ≡ 0 → inside p ≢ true
inside-remaining (allocating r b) e now = omega arith
inside-remaining (publishing r b c) e now = omega arith
inside-remaining unlocking e now = omega arith
inside-remaining testing e now = omega arith
inside-remaining (reading c) e now = omega arith
inside-remaining (removing c r) e now = omega arith
inside-remaining (leaving r b) e now = omega arith
inside-remaining idle e now = cc
inside-remaining (locking_push r b) e now = cc
inside-remaining locking_pop e now = cc
inside-remaining (owning r b) e now = cc
inside-remaining crashed e now = cc

-- A statement leaves the mutex with whom it is, takes it for this thread, or releases it.
advance-holder :
    (i fresh : ℕ) (call : Op) (s : Store) (p : Place)
    → s.holder ≡ some i
    → (advance i fresh call s p).0.holder ≢ some i
    → (advance i fresh call s p).0.holder ≡ none
unfolding advance
advance-holder i fresh (push b) s idle mine lost = absurd (lost mine)
advance-holder i fresh take s idle mine lost = absurd (lost mine)
advance-holder i fresh call s (locking_push r b) mine lost = ground arith
advance-holder i fresh call s (allocating r b) mine lost = absurd (lost mine)
advance-holder i fresh call s (publishing r b e) mine lost = absurd (lost mine)
advance-holder i fresh call s unlocking mine lost = refl
advance-holder i fresh call s locking_pop mine lost = ground arith
advance-holder i fresh call s testing mine lost = ground arith
advance-holder i fresh call s (reading e) mine lost = ground arith
advance-holder i fresh call s (removing e r) mine lost = ground arith
advance-holder i fresh call s (leaving r b) mine lost = refl
advance-holder i fresh call s (owning r b) mine lost = ground arith
advance-holder i fresh call s crashed mine lost = absurd (lost mine)

remaining_le : (p : Place) → remaining p ≤ 4
remaining_le (allocating r b) = omega arith
remaining_le _ = omega arith

self : (i : ℕ) → (i == i) ≡ true
self i = ground arith

-- In every reachable state, a thread that holds `resmtx` is not blocked: each of its turns leaves it fewer
-- statements, of at most four, and when none are left the mutex is free. The turn of any other thread
-- takes no statement from it and leaves the mutex with it.
pub holder_releases :
    {y : System}
    → Reach y
    → (i fresh : ℕ) (call : Op) → y.store.holder ≡ some i
    → fresh ≢ null
    → y.store.memory fresh ≡ none
    → (remaining (y.place i) ≤ 4)
      × (remaining ((turn i fresh call y).place i) < remaining (y.place i))
      × (remaining ((turn i fresh call y).place i) ≡ 0 → (turn i fresh call y).store.holder ≡ none)
      × ((j : ℕ)
          → j ≢ i
          → ((turn j fresh call y).place i ≡ y.place i)
            × ((turn j fresh call y).store.holder ≡ some i))
unfolding turn
holder_releases {y} way i fresh call mine real free =
    let (xs, rs, g) = Reach-Keeps way in
    let now : inside (y.place i) ≡ true = g.held i mine in
    let (xs', rs', g') = turn-Keeps y i fresh call real free (xs, rs, g) in
    (
      remaining_le (y.place i),
      rw (self i) (advance-remaining i fresh call y.store (y.place i) now),
      (λ nil.
          advance-holder i fresh call y.store (y.place i) mine
            (λ still. inside-remaining _ nil (g'.held i still))),
      (λ j ne.
          let (_, _, h) = turn-Keeps y j fresh call real free (xs, rs, g) in
          let same : (turn j fresh call y).place i ≡ y.place i = ground arith in
          (same, h.alone i (rw same now))),
    )
