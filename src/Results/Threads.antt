-- ===== src/Results/Threads.antt =====
-- Threads that call `equus_push_result`, `equus_pop_result` and `equus_free_result` of
-- src/equus_util.c at the same time, on one memory, one `head` and one mutex `resmtx`. A thread's
-- place is the statement that it is about to run; any thread may run next.
-- The message that `equus_push_result` logs is left to Log.

pub mod Invariant
mod Frames
mod Turns
mod Moves
mod Pops
pub mod Told
pub mod Sound
pub mod Progress
pub mod Conserved
mod Tests
use ck_agent.Base.{
  ℕ, Bytes, List, [], ◌∷◌, Option, none, some, length, ◌==◌, if◌then◌else◌, ◌≡◌, ◌≢◌,
}
use ck_agent.Memory.{Ptr, null, Cell, cell, Memory, update}
use ck_agent.Results.{Item, entry, result}
use ck_agent.Results.Refines.{Op, push, take, empty_memory}

-- Where a thread is. The bytes stand for the result that the thread works on; the code itself only
-- has the pointers.
pub data Place : Type 0 where
  idle : Place
  -- `push_rentry(res)`: `MTX_LOCK`, `e = malloc`, `head = e`, `MTX_UNLOCK`.
  locking_push : (res : Ptr) → Bytes → Place
  allocating : (res : Ptr) → Bytes → Place
  publishing : (res : Ptr) → Bytes → (e : Ptr) → Place
  unlocking : Place
  -- `pop_rentry(&res)`: `MTX_LOCK`, `head == NULL`, `*res = e->res`, `head = e->next`, `MTX_UNLOCK`.
  locking_pop : Place
  testing : Place
  reading : (e : Ptr) → Place
  removing : (e res : Ptr) → Place
  leaving : (res : Ptr) → Bytes → Place
  -- The client has the result: it reads it and frees it.
  owning : (res : Ptr) → Bytes → Place
  crashed : Place

-- What a call has done, noted at the statement at which it takes effect.
pub data Event : Type 0 where
  pushed : Bytes → Event
  took : Bytes → Event
  took_nothing : Event

-- What the threads share. `holder` is the thread that has locked `resmtx`; `history` is what each
-- thread has done, the latest first.
pub record Store : Type 0 where
  pub memory : Memory Item
  pub head : Ptr
  pub holder : Option ℕ
  pub history : List (ℕ × Event)

abbrev pub write : Store → Ptr → Option (Cell Item) → Store
write s p c = record s { memory = update s.memory p c }

-- `MTX_LOCK`: a thread waits while another holds the mutex.
abbrev pub acquire : (holder : Option ℕ) (i : ℕ) → Store → (waits enters : Place) → Store × Place
acquire none i s waits enters = (record s { holder = some i }, enters)
acquire (some _) i s waits enters = (s, waits)

abbrev pub release : Store → Store
release s = record s { holder = none }

-- `e->res` and `e->next` of a list cell that is live.
abbrev pub link_of : Item → Ptr → Option (Ptr × Ptr)
link_of (entry r) q = some (r, q)
link_of (result _ _) q = none

unfoldable pub link_at : Memory Item → Ptr → Option (Ptr × Ptr)
link_at m e = elim (m e) [ none ↦ none | some c ↦ link_of c.payload c.next ]

-- The bytes of a result that is live.
abbrev pub bytes_of : Item → Option Bytes
bytes_of (result b n) = some b
bytes_of (entry r) = none

unfoldable pub text_at : Memory Item → Ptr → Option Bytes
text_at m r = elim (m r) [ none ↦ none | some c ↦ bytes_of c.payload ]

-- `equus_push_result` fills a new result before it calls `push_rentry`.
abbrev begin : (fresh : Ptr) → Op → Store → Store × Place
begin fresh (push b) s =
    (write s fresh (some (cell (result b (length b)) null)), locking_push fresh b)
begin fresh take s = (s, locking_pop)

-- `*res = e->res`
abbrev read_link : Store → (e : Ptr) → Option (Ptr × Ptr) → Store × Place
read_link s e none = (s, crashed)
read_link s e (some (r, _)) = (s, removing e r)

-- `head = e->next`; the bytes of the result are for the history.
abbrev remove : (i : ℕ) → Store → (res : Ptr) → Option (Ptr × Ptr) → Option Bytes → Store × Place
remove i s r (some (_, q)) (some b) =
    (record s { head = q; history = (i, took b) ∷ s.history }, leaving r b)
remove i s r (some _) none = (s, crashed)
remove i s r none _ = (s, crashed)

-- `equus_free_result`, after the client has read the bytes.
abbrev release_result : Store → (res : Ptr) → Option Bytes → Store × Place
release_result s r none = (s, crashed)
release_result s r (some _) = (write s r none, idle)

-- One statement of thread `i`. `fresh` is what `malloc` returns, if it is called; `call` is what an
-- idle thread calls next. The new list cell is filled before any other thread can reach it.
pub advance : (i : ℕ) (fresh : Ptr) → Op → Store → Place → Store × Place
advance i fresh call s idle = begin fresh call s
advance i fresh call s (locking_push r b) = acquire s.holder i s (locking_push r b) (allocating r b)
advance i fresh call s (allocating r b) =
    (write s fresh (some (cell (entry r) s.head)), publishing r b fresh)
advance i fresh call s (publishing r b e) =
    (record s { head = e; history = (i, pushed b) ∷ s.history }, unlocking)
advance i fresh call s unlocking = (release s, idle)
advance i fresh call s locking_pop = acquire s.holder i s locking_pop testing
advance i fresh call s testing =
    if s.head == null
    then (record s { history = (i, took_nothing) ∷ s.history }, unlocking)
    else (s, reading s.head)
advance i fresh call s (reading e) = read_link s e (link_at s.memory e)
advance i fresh call s (removing e r) = remove i s r (link_at s.memory e) (text_at s.memory r)
advance i fresh call s (leaving r b) = (release s, owning r b)
advance i fresh call s (owning r b) = release_result s r (text_at s.memory r)
advance i fresh call s crashed = (s, crashed)

pub record System : Type 0 where
  pub store : Store
  pub place : ℕ → Place

abbrev pub set_place : (ℕ → Place) → ℕ → Place → ℕ → Place
set_place f i p j = if j == i then p else f j

unfoldable pub turn : (i : ℕ) (fresh : Ptr) → Op → System → System
turn i fresh call y =
    let (s, p) = advance i fresh call y.store (y.place i) in
    record { store = s; place = set_place y.place i p }

abbrev pub initial : System
initial = record {
  store = record { memory = empty_memory; head = null; holder = none; history = [] };
  place = λ _. idle;
}

-- Any thread may make the next turn; `malloc` returns an address at which nothing lives.
pub data Reach : System → Type 0 where
  start : Reach initial
  later :
      {y : System}
      → Reach y
      → (i fresh : ℕ) (call : Op) → fresh ≢ null
      → y.store.memory fresh ≡ none
      → Reach (turn i fresh call y)
