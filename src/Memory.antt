-- ===== src/Memory.antt =====
-- Linked-list cells in memory, and the commands that the C code runs on them. A cell is one
-- `malloc`ed struct: its payload and its `next` pointer. A string that one struct owns alone, and
-- that is freed with it, is part of the payload.
pub mod Chain
use ck_agent.Base.{ℕ, Bool, true, false, Option, none, some, ◌==◌, if◌then◌else◌}

abbrev pub Ptr : Type 0
Ptr = ℕ

abbrev pub null : Ptr
null = 0

pub record Cell (V : Type 0) : Type 0 where
  pub payload : V
  pub next : Ptr

abbrev pub cell : {V : Type 0} → V → Ptr → Cell V
cell v q = record { payload = v; next = q }

abbrev pub Memory : Type 0 → Type 0
Memory V = Ptr → Option (Cell V)

-- What a run of C code comes to: a value and the memory, a crash (a read or write through NULL or
-- through a pointer to freed memory), or a loop that outlasts the rounds it is given.
pub data Outcome (V A : Type 0) : Type 0 where
  done : A → Memory V → Outcome V A
  crash : Outcome V A
  endless : Outcome V A

abbrev pub Command : Type 0 → Type 0 → Type 0
Command V A = Memory V → Outcome V A

abbrev pub Void : Type 0
Void = Unit {0}

module _ {V : Type 0} where
  unfoldable pub update : Memory V → Ptr → Option (Cell V) → Memory V
  update m p c a = if a == p then c else m a

  abbrev pub pure : {A : Type 0} → A → Command V A
  pure = done

  abbrev pub continue : {A B : Type 0} → Outcome V A → (A → Command V B) → Outcome V B
  continue (done a m) k = k a m
  continue crash k = crash
  continue endless k = endless

  infixl 5 ◌>>=◌ ◌>>◌
  abbrev pub ◌>>=◌ : {A B : Type 0} → Command V A → (A → Command V B) → Command V B
  c >>= k = λ m. continue (c m) k

  abbrev pub ◌>>◌ : {A B : Type 0} → Command V A → Command V B → Command V B
  c >> d = c >>= λ _. d

  -- `*p`
  unfoldable pub load : Ptr → Command V (Cell V)
  load p m = if p == null then crash else elim (m p) [ none ↦ crash | some c ↦ done c m ]

  -- The writes that fill a struct at an address that `malloc` has just returned.
  unfoldable pub initialise : Ptr → Cell V → Command V Void
  unfolding update
  initialise p c m = if p == null then crash else done tt (update m p (some c))

  -- `p->next = q`
  unfoldable pub set_next : Ptr → Ptr → Command V Void
  unfolding load update
  set_next p q = do c ← load p; λ m. done tt (update m p (some (record c { next = q })))

  -- `free(p)`, with the strings that the struct owns.
  unfoldable pub free : Ptr → Command V Void
  unfolding load update
  free p = do c ← load p; λ m. done tt (update m p none)

-- A list head behind a mutex.
pub record Shared : Type 0 where
  pub locked : Bool
  pub head : Ptr

abbrev pub shared : Ptr → Shared
shared p = record { locked = false; head = p }

-- `MTX_UNLOCK`
abbrev pub unlock : Shared → Shared
unlock s = record s { locked = false }

module _ {V : Type 0} where
  -- `MTX_LOCK`: taking a mutex that is not released blocks for ever.
  abbrev pub lock : Shared → Command V Shared
  lock s = if s.locked then (λ _. endless) else pure (record s { locked = true })
