-- ===== src/Results/Threads/Sound.antt =====
-- Any number of threads on the results stack of src/equus_util.c, in any order.
use ck_agent.Base.{ℕ, ◌≡◌, ◌≢◌, refl, inl, true, Bytes, List, [], none, some, arith}
use ck_agent.Memory.{Ptr, null}
use ck_agent.Memory.Chain.{Entries, first}
use ck_agent.Results.{Item}
use ck_agent.Results.Stack.{IsStack}
use ck_agent.Results.Refines.{Op, push, take, texts}
use ck_agent.Results.Threads.{
  Place, idle, locking_push, allocating, publishing, unlocking, locking_pop, testing, reading,
  removing, leaving, owning, crashed, took, Store, text_at, advance, System, turn, Reach, start,
  later,
}
use ck_agent.Results.Threads.Invariant.{inside, Local, Good, Turns-Good, Explains, nothing}
use ck_agent.Results.Threads.Told.{latest, Reach-Told}
use ck_agent.Results.Threads.Frames.{text_at_lem}
use ck_agent.Results.Threads.Turns.{Here, Leads, here, quiet, locking, releasing}
use ck_agent.Results.Threads.Moves.{pushing, linking, publish, freeing}
use ck_agent.Results.Threads.Pops.{test, read, detach}

module _ {s : Store} {place : ℕ → Place} {xs : Entries Item} {rs : List (Ptr × Bytes)}
    (g : Good s place xs rs) (i : ℕ) {fresh : Ptr} (real : fresh ≢ null)
    (free : s.memory fresh ≡ none) where
  advance-Leads :
      (call : Op) (p : Place) → Here s place i xs rs p → Leads s place i (advance i fresh call s p)
  unfolding advance
  advance-Leads (push b) idle h = pushing g i fresh b real free h
  advance-Leads take idle h = quiet g i idle locking_pop h tt refl (inl refl)
  advance-Leads call (locking_push r b) h =
      locking g i s.holder (locking_push r b) (allocating r b) refl h h.local refl refl refl
  advance-Leads call (allocating r b) h = linking g i fresh r b real free h
  advance-Leads call (publishing r b e) h = publish g i r b e h
  advance-Leads call unlocking h = releasing g i unlocking idle h tt refl refl refl
  advance-Leads call locking_pop h =
      locking g i s.holder locking_pop testing refl h tt refl refl refl
  advance-Leads call testing h = test i fresh call xs rs g h
  advance-Leads call (reading e) h = read i fresh call e xs rs g h
  advance-Leads call (removing e r) h = detach i fresh call e r xs rs g h
  advance-Leads call (leaving r b) h =
      releasing g i (leaving r b) (owning r b) h h.local refl refl refl
  advance-Leads call (owning r b) h = rw (text_at_lem s.memory r b h.local.1) (freeing g i r b h)
  advance-Leads call crashed h = absurd h.local

abbrev pub Keeps : System → Type 0
Keeps y = (xs : Entries Item) × (rs : List (Ptr × Bytes)) × Good y.store y.place xs rs

pub turn-Keeps :
    (y : System) (i fresh : ℕ) (call : Op)
    → fresh ≢ null
    → y.store.memory fresh ≡ none
    → Keeps y
    → Keeps (turn i fresh call y)
unfolding turn
turn-Keeps y i fresh call real free (xs, rs, g) =
    let (xs', rs', t) = advance-Leads g i real free call (y.place i) (here g i (y.place i) refl) in
    (xs', rs', Turns-Good g t)

pub Reach-Keeps : {y : System} → Reach y → Keeps y
Reach-Keeps start = (
  [],
  [],
  record {
    whole = record { stack = (tt, tt); at_head = refl; distinct = tt; explained = nothing };
    local = λ j. tt;
    alone = λ j e. cc;
    held = λ j e. cc;
    unique = λ j k real. absurd (real refl);
  },
)
Reach-Keeps (later {y} r i fresh call real free) =
    turn-Keeps y i fresh call real free (Reach-Keeps r)

-- The list in memory is a stack that the history explains, and no thread is where it must not be.
abbrev pub IsSound : System → Type 0
IsSound y =
    ((xs : Entries Item) × (rs : List (Ptr × Bytes)) × IsStack y.store.memory xs rs
      × (y.store.head ≡ first xs)
      × Explains y.store.history (texts rs))
    × ((i : ℕ) → y.place i ≢ crashed)
    × ((i j : ℕ) → inside (y.place i) ≡ true → inside (y.place j) ≡ true → i ≡ j)
    × ((i r : ℕ) (b : Bytes)
        → y.place i ≡ owning r b
        → (text_at y.store.memory r ≡ some b) × (latest i y.store.history ≡ some (took b)))
    × ((i j r : ℕ) (b c : Bytes) → y.place i ≡ owning r b → y.place j ≡ owning r c → i ≡ j)

-- Whatever threads push, pop, read and free results, in whatever order their statements run: between any
-- two statements the cells from `head` on are a stack of live results, and the history of the calls that have
-- taken effect is one of a plain stack with their texts; no thread has crashed, at most one is between
-- `MTX_LOCK` and `MTX_UNLOCK`, and a popped result still has the bytes that the history says were taken and
-- belongs to one thread alone.
pub Reach-IsSound : {y : System} → Reach y → IsSound y
Reach-IsSound {y} r =
    let (xs, rs, g) = Reach-Keeps r in
    (
      (xs, rs, g.whole.stack, g.whole.at_head, g.whole.explained),
      (λ i at. let l : Local y.store.memory xs rs crashed = rw at at (g.local i) in l),
      (λ i j now then. ground (arith, g.alone i, g.alone j)),
      (λ i p b at.
          let l : Local y.store.memory xs rs (owning p b) = rw at at (g.local i) in
          (text_at_lem y.store.memory p b l.1, Reach-Told r i p b at)),
      (λ i j p b c at at'.
          let l : Local y.store.memory xs rs (owning p b) = rw at at (g.local i) in
          ground (arith, g.unique i j)),
    )
