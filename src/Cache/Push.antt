-- ===== src/Cache/Push.antt =====
-- What `equus_local_cache_push` does, with a new name and with one that is there.
use ck_agent.Base.{
  ℕ, ◌<◌, ◌≡◌, ◌≢◌, refl, sym, true, false, none, some, [], ◌∷◌, arith, Bytes, str_eq_refl, length,
}
use native.Mathlib.Decide.{ℕ_discrete}
use ck_agent.Memory.{Ptr, null, cell, Memory, Shared, shared, update}
use ck_agent.Memory.Chain.{
  Entries, not_null, has, first, IsChain, SameOutside, Returns, weaken, bind, frame, frame-update,
  load-done, set_next-done,
}
use ck_agent.Cache.{CacheEntry, local_cache_push}
use ck_agent.Cache.Find.{lookup, find_nolock-lookup, free-Released, Released}

-- No two entries have one name.
abbrev pub HasUniqueNames : Entries CacheEntry → Type 0
HasUniqueNames [] = Unit
HasUniqueNames ((p, v) ∷ xs) = (lookup v.name xs ≡ null) × HasUniqueNames xs

-- The new entry `x` stands in front.
abbrev pub Added :
    Ptr
    → CacheEntry
    → Entries CacheEntry
    → Memory CacheEntry
    → Ptr × Shared
    → Memory CacheEntry
    → Type 0
Added x v xs m (e, s) n =
    (e ≡ x) × (s ≡ shared x) × IsChain n ((x, v) ∷ xs) × SameOutside ((x, v) ∷ []) m n

-- The new entry `x` is freed, and the old one returned.
abbrev pub Kept :
    Ptr
    → CacheEntry
    → Entries CacheEntry
    → Memory CacheEntry
    → Ptr × Shared
    → Memory CacheEntry
    → Type 0
Kept x v xs m (e, s) n =
    (e ≡ lookup v.name xs)
    × (s ≡ shared (first xs))
    × IsChain n xs
    × (n x ≡ none)
    × SameOutside ((x, v) ∷ []) m n

-- Where no entry has the name yet, `equus_local_cache_push` puts the entry in front and returns it.
pub push_new :
    (k : ℕ) (x : Ptr) (v : CacheEntry) (xs : Entries CacheEntry) (m : Memory CacheEntry)
    → IsChain m xs
    → length xs < k
    → x ≢ null
    → m x ≡ some (cell v null)
    → has x xs ≡ false
    → lookup v.name xs ≡ null
    → Returns (Added x v xs m) (local_cache_push k (shared (first xs)) x m)
unfolding local_cache_push update
push_new k x v xs m c fuel live at out absent =
    rw
      (
        load-done m live at,
        find_nolock-lookup k v.name true xs m c fuel,
        absent,
        set_next-done m live at (first xs),
      )
      (
        refl,
        refl,
        (live, ground arith, out, frame-update xs m x (some (cell v (first xs))) c out),
        λ a i. ground arith,
      )

-- Where an entry has the name already, `equus_local_cache_push` frees the new entry, leaves the
-- cache as it was and returns the old one.
pub push_old :
    (k : ℕ) (x : Ptr) (v : CacheEntry) (xs : Entries CacheEntry) (m : Memory CacheEntry)
    → IsChain m xs
    → length xs < k
    → 1 < k
    → x ≢ null
    → m x ≡ some (cell v null)
    → has x xs ≡ false
    → lookup v.name xs ≢ null
    → Returns (Kept x v xs m) (local_cache_push k (shared (first xs)) x m)
unfolding local_cache_push
push_old k x v xs m c fuel one live at out present =
    rw
      (
        load-done m live at,
        find_nolock-lookup k v.name true xs m c fuel,
        not_null (lookup v.name xs) present,
      )
      (bind (λ _ n. Released ((x, v) ∷ []) m n) (Kept x v xs m) _ _
        (λ _ n (same, gone).
          (refl, refl, frame xs c (λ a i. same a (ground arith)), gone x (ground arith), same))
        (free-Released k ((x, v) ∷ []) m (live, at, refl, tt) one))

-- What `equus_local_cache_push` leaves: a cache with unique names, in which the name leads to the
-- entry that it returned.
abbrev pub PushedTo : Bytes → Ptr × Shared → Memory CacheEntry → Type 0
PushedTo name (e, s) n =
    (ys : Entries CacheEntry) × (s ≡ shared (first ys))
    × IsChain n ys
    × HasUniqueNames ys
    × (lookup name ys ≡ e)

-- `equus_local_cache_push` keeps the names of the cache unique, releases the mutex, and returns the
-- one entry that the cache then has for the name.
pub push-HasUniqueNames :
    (k : ℕ) (x : Ptr) (v : CacheEntry) (xs : Entries CacheEntry) (m : Memory CacheEntry)
    → IsChain m xs
    → HasUniqueNames xs
    → length xs < k
    → 1 < k
    → x ≢ null
    → m x ≡ some (cell v null)
    → has x xs ≡ false
    → Returns (PushedTo v.name) (local_cache_push k (shared (first xs)) x m)
push-HasUniqueNames k x v xs m c unique fuel one live at out =
    elim (ℕ_discrete (lookup v.name xs) null) [
      | yes absent ↦
          weaken (Added x v xs m) (PushedTo v.name) (local_cache_push k (shared (first xs)) x m)
            (λ (e, s) n (is, at_x, c', _).
              ((x, v) ∷ xs, at_x, c', (absent, unique), rw (str_eq_refl v.name) (sym is)))
            (push_new k x v xs m c fuel live at out absent)
      | no present ↦
          weaken (Kept x v xs m) (PushedTo v.name) (local_cache_push k (shared (first xs)) x m)
            (λ (e, s) n (is, kept, c', _, _). (xs, kept, c', unique, sym is))
            (push_old k x v xs m c fuel one live at out present)
    ]
