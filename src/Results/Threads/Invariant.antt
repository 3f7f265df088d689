-- ===== src/Results/Threads/Invariant.antt =====
-- The invariant of the threads on the results stack of src/equus_util.c.
use ck_agent.Base.{
  ℕ, Bool, true, false, ◌≡◌, ◌≢◌, ◌↔◌, inl, inr, Bool-cases, ◌==◌, Bytes, List, [], ◌∷◌, Option,
  some, length, arith,
}
use ck_agent.Memory.{Ptr, null, cell, Memory}
use ck_agent.Memory.Chain.{Entries, has, first}
use ck_agent.Results.{Item, entry, result}
use ck_agent.Results.Stack.{IsStack}
use ck_agent.Results.Refines.{texts, Distinct}
use ck_agent.Results.Threads.{
  Place, idle, locking_push, allocating, publishing, unlocking, locking_pop, testing, reading,
  removing, leaving, owning, crashed, Event, pushed, took, took_nothing, Store, set_place,
}

-- The history is one of a plain stack, which now has these texts, the last pushed first.
pub data Explains : List (ℕ × Event) → List Bytes → Type 0 where
  nothing : Explains [] []
  after_push :
      {i : ℕ} {h : List (ℕ × Event)} {b : Bytes} {st : List Bytes}
      → Explains h st
      → Explains ((i, pushed b) ∷ h) (b ∷ st)
  after_take :
      {i : ℕ} {h : List (ℕ × Event)} {b : Bytes} {st : List Bytes}
      → Explains h (b ∷ st)
      → Explains ((i, took b) ∷ h) st
  after_none : {i : ℕ} {h : List (ℕ × Event)} → Explains h [] → Explains ((i, took_nothing) ∷ h) []

-- Between `MTX_LOCK` and `MTX_UNLOCK`.
abbrev pub inside : Place → Bool
inside idle = false
inside (locking_push r b) = false
inside (allocating r b) = true
inside (publishing r b e) = true
inside unlocking = true
inside locking_pop = false
inside testing = true
inside (reading e) = true
inside (removing e r) = true
inside (leaving r b) = true
inside (owning r b) = false
inside crashed = false

-- The result that only this thread has.
abbrev pub owned : Place → Ptr
owned idle = null
owned (locking_push r b) = r
owned (allocating r b) = r
owned (publishing r b e) = r
owned unlocking = null
owned locking_pop = null
owned testing = null
owned (reading e) = null
owned (removing e r) = null
owned (leaving r b) = r
owned (owning r b) = r
owned crashed = null

module _ (m : Memory Item) where
  -- A live result that is not on the stack.
  abbrev pub IsOwned : List (Ptr × Bytes) → Ptr → Bytes → Type 0
  IsOwned rs r b = (r ≢ null) × (m r ≡ some (cell (result b (length b)) null)) × (has r rs ≡ false)

  -- The list cell that a thread has filled and not yet published.
  abbrev pub IsNew : Entries Item → Ptr → Ptr → Type 0
  IsNew xs e r = (e ≢ null) × (m e ≡ some (cell (entry r) (first xs))) × (has e xs ≡ false)

  -- What a thread at this place relies on.
  abbrev pub Local : Entries Item → List (Ptr × Bytes) → Place → Type 0
  Local xs rs idle = Unit
  Local xs rs (locking_push r b) = IsOwned rs r b
  Local xs rs (allocating r b) = IsOwned rs r b
  Local xs rs (publishing r b e) = IsOwned rs r b × IsNew xs e r
  Local xs rs unlocking = Unit
  Local xs rs locking_pop = Unit
  Local xs rs testing = Unit
  Local xs rs (reading e) = (e ≢ null) × (e ≡ first xs)
  Local xs rs (removing e r) = (e ≢ null) × (e ≡ first xs) × (r ≡ first rs)
  Local xs rs (leaving r b) = IsOwned rs r b
  Local xs rs (owning r b) = IsOwned rs r b
  Local xs rs crashed = ⊥

-- The store holds this list of cells and these results.
pub record Whole (s : Store) (xs : Entries Item) (rs : List (Ptr × Bytes)) : Type 0 where
  pub stack : IsStack s.memory xs rs
  pub at_head : s.head ≡ first xs
  pub distinct : Distinct rs
  pub explained : Explains s.history (texts rs)

pub record Good (s : Store) (place : ℕ → Place) (xs : Entries Item) (rs : List (Ptr × Bytes))
    : Type 0 where
  pub whole : Whole s xs rs
  pub local : (j : ℕ) → Local s.memory xs rs (place j)
  pub alone : (j : ℕ) → inside (place j) ≡ true → s.holder ≡ some j
  pub held : (j : ℕ) → s.holder ≡ some j → inside (place j) ≡ true
  pub unique : (j k : ℕ) → owned (place j) ≢ null → owned (place j) ≡ owned (place k) → j ≡ k

-- What a turn of thread `i` does to the mutex, if it leaves the thread inside or not.
pub record Mutex (i : ℕ) (before after : Option ℕ) (stays : Bool) : Type 0 where
  pub alone : stays ≡ true → after ≡ some i
  pub held : after ≡ some i → stays ≡ true
  pub still : (j : ℕ) → j ≢ i → (after ≡ some j) ↔ (before ≡ some j)

-- What a turn of thread `i` has to show.
pub record Turns (s : Store) (place : ℕ → Place) (i : ℕ) (s' : Store) (p : Place)
    (xs : Entries Item) (rs : List (Ptr × Bytes)) : Type 0 where
  pub whole : Whole s' xs rs
  pub local : Local s'.memory xs rs p
  pub others : (j : ℕ) → j ≢ i → Local s'.memory xs rs (place j)
  pub mutex : Mutex i s.holder s'.holder (inside p)
  pub unique : (j : ℕ) → j ≢ i → owned p ≢ null → owned p ≢ owned (place j)

pub Turns-Good :
    {s : Store} {place : ℕ → Place} {i : ℕ} {xs xs' : Entries Item} {rs rs' : List (Ptr × Bytes)}
    {s' : Store} {p : Place}
    → Good s place xs rs
    → Turns s place i s' p xs' rs'
    → Good s' (set_place place i p) xs' rs'
Turns-Good {i} g t = record {
  whole = t.whole;
  local = λ j. elim (Bool-cases (j == i)) [
    | inl e ↦ rw e (t.local)
    | inr n ↦ rw n (t.others j (ground arith))
  ];
  alone = λ j. ground (arith, t.mutex.alone, t.mutex.still j, g.alone j);
  held = λ j. ground (arith, t.mutex.held, t.mutex.still j, g.held j);
  unique = λ j k. ground (arith, t.unique j, t.unique k, g.unique j k);
}
