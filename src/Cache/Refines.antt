-- ===== src/Cache/Refines.antt =====
-- Any sequence of calls on the cache of src/equus_loader.c against a map from names to texts.
pub mod Calls
use ck_agent.Base.{
  ℕ, zero, suc, ◌+◌, ◌≤◌, ◌<◌, ◌≡◌, ◌≢◌, refl, sym, ◌∙◌, ◌⊎◌, inl, inr, Bool, true, false, ◌||◌,
  Option, none, some, List, [], ◌∷◌, arith, ◌==◌, if◌then◌else◌, Bool-cases, Bytes, length, str_eq,
  str_eq_iff,
}
use native.Mathlib.Decide.{ℕ_discrete}
use ck_agent.Memory.{
  Ptr, null, Cell, cell, Memory, Command, Outcome, crash, done, Shared, shared, pure, update,
  continue, ◌>>=◌, ◌>>◌, load, initialise,
}
use ck_agent.Memory.Chain.{
  not-has_of_none, Entries, not_null, has, first, IsChain, SameOutside, Returns, weaken, bind,
  load-done, initialise-done, frame-update,
}
use ck_agent.Cache.{CacheEntry, local_cache_find, local_cache_push, local_cache_clear}
use ck_agent.Cache.Find.{lookup, find-lookup, Released, clear-Released}
use ck_agent.Cache.Push.{Added, Kept, push_new, push_old}

-- A call of a client: `get` looks a name up and reads the entry's text.
pub data Op : Type 0 where
  store : (name text : Bytes) → Op
  get : (name : Bytes) → Op
  clear : Op

abbrev pub module_entry : (name text : Bytes) → CacheEntry
module_entry name text = record { len = length text; name = name; bytes = text }

pub get_text : ℕ → Bytes → Shared → Command CacheEntry (Option Bytes × Shared)
get_text k name s = do
  (e, s') ← local_cache_find k s name
  if e == null then pure (none, s') else load e >>= λ c. pure (some c.payload.bytes, s')

-- The calls on memory; `malloc` returns the addresses from `next` on, `k` is the fuel of the loops.
pub play : (k next : ℕ) → List Op → Shared → Command CacheEntry (List (Option Bytes))
unfolding get_text
play k next [] s = pure []
play k next (store name text ∷ ops) s =
    initialise next (cell (module_entry name text) null)
    >> (local_cache_push k s next >>= λ (_, s'). play k (next + 1) ops s')
play k next (get name ∷ ops) s =
    get_text k name s >>= λ (o, s'). play k next ops s' >>= λ os. pure (o ∷ os)
play k next (clear ∷ ops) s = local_cache_clear k s >>= λ s'. play k next ops s'

-- A map from names to texts; to store under a name that is there changes nothing.
abbrev pub TextMap : Type 0
TextMap = Bytes → Option Bytes

abbrev pub or_else : Option Bytes → Bytes → Option Bytes
or_else none b = some b
or_else (some d) b = some d

abbrev pub put_absent : (name text : Bytes) → TextMap → TextMap
put_absent name text f q = if str_eq name q then or_else (f q) text else f q

abbrev pub no_texts : TextMap
no_texts q = none

-- The same calls on a map: what each `get` gives.
abbrev pub mirror : List Op → TextMap → List (Option Bytes)
mirror [] f = []
mirror (store name text ∷ ops) f = mirror ops (put_absent name text f)
mirror (get name ∷ ops) f = f name ∷ mirror ops f
mirror (clear ∷ ops) f = mirror ops no_texts

-- The map that a list of entries stands for: the first entry with a name counts.
abbrev pub meaning : Entries CacheEntry → TextMap
meaning [] q = none
meaning ((_, v) ∷ xs) q = if str_eq v.name q then some v.bytes else meaning xs q

-- The memory holds these entries, nothing lives from `next` on, and the fuel is enough for the calls.
pub record Holding (k next left : ℕ) (m : Memory CacheEntry) (xs : Entries CacheEntry) (f : TextMap)
    : Type 0 where
  pub chain : IsChain m xs
  pub unused : (a : Ptr) → next ≤ a → m a ≡ none
  pub real : 0 < next
  pub fuel : length xs + left + 1 < k
  pub means : (q : Bytes) → meaning xs q ≡ f q

-- What the lookup of a name comes to.
pub lookup-cases :
    (m : Memory CacheEntry) (name : Bytes) (xs : Entries CacheEntry)
    → IsChain m xs
    → ((lookup name xs ≡ null) × (meaning xs name ≡ none))
      ⊎ ((v : CacheEntry) × (q : Ptr) × (lookup name xs ≢ null)
          × (m (lookup name xs) ≡ some (cell v q))
          × (meaning xs name ≡ some v.bytes))
lookup-cases m name [] c = inl (refl, refl)
lookup-cases m name ((p, v) ∷ xs) (live, at, out, c) = elim (Bool-cases (str_eq v.name name)) [
  | inl hit ↦ inr (v, first xs, rw hit live, rw hit at, rw hit)
  | inr miss ↦ rw miss (lookup-cases m name xs c)
]

pub get_text-meaning :
    (k : ℕ) (m : Memory CacheEntry) (name : Bytes) (xs : Entries CacheEntry)
    → IsChain m xs
    → length xs < k
    → get_text k name (shared (first xs)) m ≡ done (meaning xs name, shared (first xs)) m
unfolding get_text
get_text-meaning k m name xs c fuel = elim (lookup-cases m name xs c) [
  | inl (absent, nothing) ↦ rw (find-lookup k name xs m c fuel, absent, nothing)
  | inr (v, q, live, at, is) ↦
      rw (find-lookup k name xs m c fuel, not_null (lookup name xs) live, load-done m live at, is)
]
