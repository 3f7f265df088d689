-- ===== src/Results/Threads/Told.antt =====
-- What each thread on the results stack of src/equus_util.c has done last.
use ck_agent.Base.{
  ℕ, ◌≡◌, ◌≢◌, refl, Bytes, List, [], ◌∷◌, Option, none, some, arith, ◌==◌, if◌then◌else◌, inl, inr,
  Bool-cases,
}
use ck_agent.Results.Refines.{Op, push, take}
use ck_agent.Results.Threads.{
  Place, idle, locking_push, allocating, publishing, unlocking, locking_pop, testing, reading,
  removing, leaving, owning, crashed, Event, took, Store, advance, System, turn, Reach, start,
  later,
}

-- What this thread has done last.
abbrev pub latest : ℕ → List (ℕ × Event) → Option Event
latest i [] = none
latest i ((j, d) ∷ h) = if j == i then some d else latest i h

-- The bytes that this thread has popped and still has.
abbrev taken : Place → Option Bytes
taken (leaving r b) = some b
taken (owning r b) = some b
taken idle = none
taken _ = none

abbrev Told : List (ℕ × Event) → ℕ → Place → Type 0
Told h i p = (b : Bytes) → taken p ≡ some b → latest i h ≡ some (took b)

-- A turn adds to the history at most what this thread has done.
advance-latest :
    (i j fresh : ℕ) (call : Op) (s : Store) (p : Place)
    → j ≢ i
    → latest j (advance i fresh call s p).0.history ≡ latest j s.history
unfolding advance
advance-latest i j fresh (push b) s idle ne = refl
advance-latest i j fresh take s idle ne = refl
advance-latest i j fresh call s (locking_push r b) ne = ground arith
advance-latest i j fresh call s (allocating r b) ne = refl
advance-latest i j fresh call s (publishing r b e) ne = ground arith
advance-latest i j fresh call s unlocking ne = refl
advance-latest i j fresh call s locking_pop ne = ground arith
advance-latest i j fresh call s testing ne = ground arith
advance-latest i j fresh call s (reading e) ne = ground arith
advance-latest i j fresh call s (removing e r) ne = ground arith
advance-latest i j fresh call s (leaving r b) ne = refl
advance-latest i j fresh call s (owning r b) ne = ground arith
advance-latest i j fresh call s crashed ne = refl

advance-Told :
    (i fresh : ℕ) (call : Op) (s : Store) (p : Place)
    → Told s.history i p
    → Told (advance i fresh call s p).0.history i (advance i fresh call s p).1
unfolding advance
advance-Told i fresh (push c) s idle t b now = ground (arith, t b)
advance-Told i fresh take s idle t b now = ground (arith, t b)
advance-Told i fresh call s (locking_push r c) t b now = ground (arith, t b)
advance-Told i fresh call s (allocating r c) t b now = ground (arith, t b)
advance-Told i fresh call s (publishing r c e) t b now = ground (arith, t b)
advance-Told i fresh call s unlocking t b now = ground (arith, t b)
advance-Told i fresh call s locking_pop t b now = ground (arith, t b)
advance-Told i fresh call s testing t b now = ground (arith, t b)
advance-Told i fresh call s (reading e) t b now = ground (arith, t b)
advance-Told i fresh call s (removing e r) t b now = ground (arith, t b)
advance-Told i fresh call s (leaving r c) t b now = ground (arith, t b)
advance-Told i fresh call s (owning r c) t b now = ground (arith, t b)
advance-Told i fresh call s crashed t b now = ground (arith, t b)

turn-Told :
    (y : System) (i fresh : ℕ) (call : Op)
    → ((j : ℕ) → Told y.store.history j (y.place j))
    → (j : ℕ) → Told (turn i fresh call y).store.history j ((turn i fresh call y).place j)
unfolding turn
turn-Told y i fresh call t j b = elim (Bool-cases (j == i)) [
  | inl e ↦ rw (e) (
      let same : j ≡ i = ground arith in
      rw same (advance-Told i fresh call y.store (y.place i) (t i) b))
  | inr n ↦ rw (n, advance-latest i j fresh call y.store (y.place i) (ground arith)) (t j b)
]

told : {y : System} → Reach y → (j : ℕ) → Told y.store.history j (y.place j)
told start j b now = cc
told (later {y} r i fresh call real free) j b now = turn-Told y i fresh call (told r) j b now

pub Reach-Told :
    {y : System}
    → Reach y
    → (i r : ℕ) (b : Bytes) → y.place i ≡ owning r b
    → latest i y.store.history ≡ some (took b)
Reach-Told way i r b at = told way i b (rw at)
