-- ===== src/Cache.antt =====
-- The cache of Lua modules of src/equus_loader.c: the list `cache_head`, which the mutex `cachemtx`
-- guards. A cell is an `eql_cache_t` with the two strings that it owns. Loops run on fuel.
pub mod Find
pub mod Push
pub mod Lua
pub mod Refines
mod Tests
use ck_agent.Base.{ℕ, zero, suc, Bytes, ◌==◌, if◌then◌else◌, str_eq}
use ck_agent.Memory.{
  Ptr, null, Cell, cell, Command, Void, endless, Shared, pure, ◌>>=◌, ◌>>◌, load, set_next, free,
  lock, unlock,
}

pub record CacheEntry : Type 0 where
  pub len : ℕ
  pub name : Bytes
  pub bytes : Bytes

find_nolock_loop : Bytes → ℕ → (e : Ptr) → Command CacheEntry Ptr
find_nolock_loop name zero e = λ _. endless
find_nolock_loop name (suc k) e = if e == null then pure null else do
  c ← load e
  if str_eq c.payload.name name then pure e else find_nolock_loop name k c.next

pub find_nolock : ℕ → Shared → Bytes → Command CacheEntry Ptr
unfolding find_nolock_loop
find_nolock k s name = find_nolock_loop name k s.head

pub local_cache_find : ℕ → Shared → Bytes → Command CacheEntry (Ptr × Shared)
unfolding find_nolock
local_cache_find k s name = do s ← lock s; e ← find_nolock k s name; pure (e, unlock s)

-- The loop reads `next`, and writes NULL to it, before it frees the struct.
pub local_cache_free : ℕ → (x : Ptr) → Command CacheEntry Void
local_cache_free zero e = λ _. endless
local_cache_free (suc k) e =
    if e == null then pure tt else do c ← load e; set_next e null; free e; local_cache_free k c.next

pub local_cache_clear : ℕ → Shared → Command CacheEntry Shared
unfolding local_cache_free
local_cache_clear k s = do
  s ← lock s
  local_cache_free k s.head
  pure (unlock (record s { head = null }))

-- The branches of `if (e != NULL)`: the entry that the cache holds for the name.
pub local_cache_push : ℕ → Shared → (x : Ptr) → Command CacheEntry (Ptr × Shared)
unfolding find_nolock local_cache_free
local_cache_push k s x = do
  s ← lock s
  c ← load x
  e ← find_nolock k s c.payload.name
  let insert = set_next x s.head >> pure (x, unlock (record s { head = x }))
  let drop = local_cache_free k x >> pure (e, unlock s)
  if e == null then insert else drop
