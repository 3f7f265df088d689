-- ===== src/Results.antt =====
-- The stack of results of src/equus_util.c: `equus_push_result`, `equus_pop_result` and
-- `equus_free_result` over the list `head`, which the mutex `resmtx` guards. An `eqr_list_t` is a
-- cell `entry`, an `equus_result_t` a cell `result` that owns its bytes and has no `next`.
-- The message that `equus_push_result` logs is left to Log.
pub mod Stack
pub mod Refines
pub mod Threads
mod Tests
use ck_agent.Base.{ℕ, zero, Bool, Bytes, ltb, ◌==◌, if◌then◌else◌, length, take, ◌≡◌, refl}
use ck_agent.Memory.{
  Ptr, null, Cell, cell, Command, Void, Outcome, crash, Shared, pure, ◌>>=◌, ◌>>◌, load, initialise,
  free, lock, unlock,
}

pub data Item : Type 0 where
  entry : Ptr → Item
  result : Bytes → ℕ → Item

-- `fresh` is what `malloc` returns.
pub push_rentry : (fresh : Ptr) → Shared → (res : Ptr) → Command Item Shared
push_rentry fresh s res = do
  s ← lock s
  initialise fresh (cell (entry res) s.head)
  pure (unlock (record s { head = fresh }))

-- `e->res` of a list cell.
entry_of : Item → Command Item Ptr
entry_of (entry r) = pure r
entry_of (result _ _) = λ _. crash

pub pop_rentry : Shared → Command Item (Ptr × Shared)
unfolding entry_of
pop_rentry s = do
  s ← lock s
  let taken =
      load s.head >>= λ e. entry_of e.payload >>= λ r. pure (r, unlock (record s { head = e.next }))
  if s.head == null then pure (null, unlock s) else taken

-- `memcpy(tmp, data, len)` reads past the end of shorter data.
pub equus_push_result : (new_res new_entry : Ptr) → Shared → Bytes → ℕ → Command Item Shared
unfolding push_rentry
equus_push_result new_res new_entry s bytes len =
    if ltb (length bytes) len then (λ _. crash) else do
      initialise new_res (cell (result (take len bytes) len) null)
      push_rentry new_entry s new_res

pub equus_pop_result : Shared → Command Item (Ptr × Shared)
unfolding pop_rentry
equus_pop_result s = pop_rentry s

pub equus_free_result : Ptr → Command Item Void
equus_free_result res = if res == null then pure tt else free res
