-- ===== src/Cache/Find.antt =====
-- What looking up, freeing and clearing do to the cache of src/equus_loader.c.
use ck_agent.Base.{
  ℕ, zero, suc, ◌<◌, ◌≡◌, ◌≢◌, refl, sym, inl, inr, true, Bool, none, some, [], ◌∷◌, arith, Bytes,
  str_eq, length, if◌then◌else◌, Bool-cases,
}
use ck_agent.Memory.{
  Ptr, null, cell, Memory, Outcome, done, crash, endless, continue, Shared, shared, update, ◌>>=◌,
  ◌>>◌, load,
}
use ck_agent.Memory.Chain.{
  Entries, not_null, has, first, IsChain, SameOutside, Returns, weaken, bind, frame-update,
  load-done, free-done, set_next-done,
}
use ck_agent.Cache.{
  CacheEntry, find_nolock_loop, find_nolock, local_cache_find, local_cache_free, local_cache_clear,
}

-- The address of the first entry with this name, or NULL.
abbrev pub lookup : Bytes → Entries CacheEntry → Ptr
lookup name [] = null
lookup name ((p, v) ∷ xs) = if str_eq v.name name then p else lookup name xs

find_nolock_loop-lookup :
    (k : ℕ) (name : Bytes) (xs : Entries CacheEntry) (m : Memory CacheEntry)
    → IsChain m xs
    → length xs < k
    → find_nolock_loop name k (first xs) m ≡ done (lookup name xs) m
unfolding find_nolock_loop
find_nolock_loop-lookup zero name xs m c fuel = absurd (omega arith)
find_nolock_loop-lookup (suc k) name [] m c fuel = refl
find_nolock_loop-lookup (suc k) name ((p, v) ∷ xs) m (live, at, out, c) fuel =
    elim (Bool-cases (str_eq v.name name)) [
      | inl hit ↦ rw (not_null p live, load-done m live at, hit)
      | inr miss ↦
          rw (not_null p live, load-done m live at, miss)
            (find_nolock_loop-lookup k name xs m c (omega arith))
    ]

pub find_nolock-lookup :
    (k : ℕ) (name : Bytes) (held : Bool) (xs : Entries CacheEntry) (m : Memory CacheEntry)
    → IsChain m xs
    → length xs < k
    → find_nolock k (record { locked = held; head = first xs }) name m ≡ done (lookup name xs) m
unfolding find_nolock
find_nolock-lookup k name held xs m c fuel = find_nolock_loop-lookup k name xs m c fuel

-- `equus_local_cache_find` returns the first entry with the name, or NULL, changes no memory and
-- releases the mutex.
pub find-lookup :
    (k : ℕ) (name : Bytes) (xs : Entries CacheEntry) (m : Memory CacheEntry)
    → IsChain m xs
    → length xs < k
    → local_cache_find k (shared (first xs)) name m ≡ done (lookup name xs, shared (first xs)) m
unfolding local_cache_find
find-lookup k name xs m c fuel = rw (find_nolock-lookup k name true xs m c fuel)

abbrev pub Released : Entries CacheEntry → Memory CacheEntry → Memory CacheEntry → Type 0
Released xs m n = SameOutside xs m n × ((a : Ptr) → has a xs ≡ true → n a ≡ none)

pub free-Released :
    (k : ℕ) (xs : Entries CacheEntry) (m : Memory CacheEntry)
    → IsChain m xs
    → length xs < k
    → Returns (λ _ n. Released xs m n) (local_cache_free k (first xs) m)
unfolding local_cache_free update
free-Released zero xs m c fuel = absurd (omega arith)
free-Released (suc k) [] m c fuel = ((λ a h. refl), λ a h. cc)
free-Released (suc k) ((p, v) ∷ xs) m (live, at, out, c) fuel =
    let m1 : Memory CacheEntry = update m p (some (cell v null)) in
    let m2 : Memory CacheEntry = update m1 p none in
    let at1 : m1 p ≡ some (cell v null) = ground arith in
    rw (not_null p live, load-done m live at, set_next-done m live at null, free-done m1 live at1)
      (weaken (λ _ n. Released xs m2 n) (λ _ n. Released ((p, v) ∷ xs) m n) _
        (λ _ n (same, gone).
          ((λ a i. ground (arith, same a)), λ a i. ground (arith, same a, gone a)))
        (free-Released k xs m2 (frame-update xs m1 p none (frame-update xs m p _ c out) out)
          (omega arith)))

-- `equus_local_cache_clear` frees every entry, writes nowhere else, and leaves the cache empty with
-- the mutex released.
pub clear-Released :
    (k : ℕ) (xs : Entries CacheEntry) (m : Memory CacheEntry)
    → IsChain m xs
    → length xs < k
    → Returns
        (λ s n. (s ≡ shared null) × Released xs m n)
        (local_cache_clear k (shared (first xs)) m)
unfolding local_cache_clear
clear-Released k xs m c fuel =
    bind (λ _ n. Released xs m n) (λ s n. (s ≡ shared null) × Released xs m n) _ _
      (λ _ n r. (refl, r)) (free-Released k xs m c fuel)

lookup-has :
    (name : Bytes) (xs : Entries CacheEntry) (q : Ptr)
    → lookup name xs ≡ q
    → q ≢ null
    → has q xs ≡ true
lookup-has name [] q e ne = absurd (ne (sym e))
lookup-has name ((p, v) ∷ xs) q e ne = elim (Bool-cases (str_eq v.name name)) [
  | inl hit ↦ let same : p ≡ q = rw hit at e in ground arith
  | inr miss ↦
      let rest : lookup name xs ≡ q = rw miss at e in ground (arith, lookup-has name xs q rest ne)
]

load-gone :
    (xs : Entries CacheEntry) (m : Memory CacheEntry) (r : Outcome CacheEntry Shared) (e : Ptr)
    → has e xs ≡ true
    → Returns (λ s n. (s ≡ shared null) × Released xs m n) r
    → continue r (λ _. load e) ≡ crash
unfolding load
load-gone xs m (done s n) e i (_, (same, gone)) = ground (arith, gone e i)
load-gone xs m crash e i h = refl
load-gone xs m endless e i h = absurd h

-- The entry that `equus_local_cache_find` returns is good only while nobody clears the cache: once
-- `equus_local_cache_clear` has run, a read of it, as `equus_local_cache_get` makes one, crashes.
pub find_clear-crash :
    (k : ℕ) (name : Bytes) (xs : Entries CacheEntry) (m : Memory CacheEntry)
    → IsChain m xs
    → length xs < k
    → lookup name xs ≢ null
    → ((do (e, s) ← local_cache_find k (shared (first xs)) name; local_cache_clear k s; load e) m)
      ≡ crash
find_clear-crash k name xs m c fuel found = rw (find-lookup k name xs m c fuel) (
    load-gone xs m (local_cache_clear k (shared (first xs)) m) (lookup name xs)
      (lookup-has name xs _ refl found) (clear-Released k xs m c fuel))
