-- ===== src/Cache/Tests.antt =====
-- Runs of the cache of src/equus_loader.c that holds one module. In them a text compiles unless it is
-- empty.
use ck_agent.Base.{ℕ, ◌≡◌, refl, none, some, [], ◌∷◌, arith, ◌==◌, if◌then◌else◌, Bytes, codes}
use ck_agent.Lua.{text}
use ck_agent.Memory.{cell, Memory, crash, shared, ◌>>=◌, ◌>>◌, load}
use ck_agent.Memory.Chain.{Entries, IsChain, Returns}
use ck_agent.Cache.{CacheEntry, local_cache_find, local_cache_clear, local_cache_push}
use ck_agent.Cache.Find.{find_clear-crash}
use ck_agent.Cache.Push.{PushedTo, push-HasUniqueNames}
use ck_agent.Cache.Refines.{store, get, clear, play}
use ck_agent.Cache.Refines.Calls.{empty_memory, play_refines}
use ck_agent.Cache.Lua.{Compiles, local_cache_add, local_cache_get, add-get}

abbrev module_m : CacheEntry
module_m = record { len = 1; name = codes "m"; bytes = codes "x" }

abbrev module_n : CacheEntry
module_n = record { len = 1; name = codes "n"; bytes = codes "y" }

abbrev one : Entries CacheEntry
one = (4, module_m) ∷ []

-- The cell at 8 is a new entry with the name of the one in the cache, the cell at 12 has another name.
abbrev one_memory : Memory CacheEntry
one_memory a =
    if a == 4
    then some (cell module_m 0)
    else if a == 8
    then some (cell module_m 0)
    else if a == 12
    then some (cell module_n 0)
    else none

one-IsChain : IsChain one_memory one
one-IsChain = (ground arith, refl, refl, tt)

abbrev load_nonempty : Bytes → Bytes → ℕ
load_nonempty [] name = 3
load_nonempty (c ∷ b) name = 0

find_clear-crash_example :
    (do (e, s) ← local_cache_find 2 (shared 4) (codes "m"); local_cache_clear 2 s; load e)
      one_memory
    ≡ crash
find_clear-crash_example =
    find_clear-crash 2 (codes "m") one one_memory one-IsChain (omega arith) (ground arith)

push-HasUniqueNames_example :
    Returns (PushedTo (codes "n")) (local_cache_push 2 (shared 4) 12 one_memory)
push-HasUniqueNames_example =
    push-HasUniqueNames 2 12 module_n one one_memory one-IsChain (refl, tt) (omega arith)
      (omega arith) (ground arith) refl refl

add-get_example :
    Returns (Compiles 16 (record { len = 1; name = codes "z"; bytes = codes "w" }) one) (
      (do
        a ←
            local_cache_add load_nonempty 3 16
              (text (codes "z") ∷ text (codes "w") ∷ [])
              1
              (shared 4)
        local_cache_get load_nonempty 3 (text (codes "z") ∷ []) a.cache)
        one_memory)
add-get_example =
    add-get load_nonempty 3 16 (codes "z") (codes "w") 1 one one_memory one-IsChain (omega arith)
      (ground arith, refl, refl) refl refl

-- A second text under a name, a name that is not there, and a lookup behind `clear`.
play_refines_example :
    Returns
      (λ os n. os ≡ some (codes "y") ∷ none ∷ none ∷ [])
      (play 8 4
        (store (codes "m") (codes "y")
          ∷ store (codes "m") (codes "z")
          ∷ get (codes "m")
          ∷ get (codes "n")
          ∷ clear
          ∷ get (codes "m")
          ∷ [])
        (shared 0)
        empty_memory)
play_refines_example = play_refines _ 8 4 (omega arith) (omega arith)
