-- ===== src/Cache/Lua.antt =====
-- The two functions of src/equus_loader.c that Lua code calls on the cache: `equus_local_cache_add`
-- and `equus_local_cache_get`. The arguments on the Lua stack are a list, the first one at the
-- bottom. `load_buffer text name` is the status of `luaL_loadbuffer`, 0 where the text compiles. The
-- bytecode that `lua_dump` makes goes on the stack of the second state, and nothing reads it.
use ck_agent.Base.{
  ℕ, suc, ◌-◌, ◌<◌, ◌≡◌, ◌≢◌, refl, false, Option, none, some, List, [], ◌∷◌, arith, Bytes, length,
  ◌==◌, if◌then◌else◌, str_eq_refl,
}
use ck_agent.Lua.{LuaValue, text, check_string, top_string}
use ck_agent.Memory.{
  Ptr, null, cell, Memory, Command, done, Shared, shared, pure, update, ◌>>=◌, ◌>>◌, load,
  initialise,
}
use ck_agent.Memory.Chain.{
  Entries, not_null, has, first, IsChain, Returns, bind, frame-update, load-done, initialise-done,
}
use ck_agent.Cache.{CacheEntry, local_cache_find, local_cache_push}
use ck_agent.Cache.Find.{lookup, find-lookup}
use ck_agent.Cache.Push.{Added, push_new}

-- `returned` is the number of results that the C function reports to Lua, none where it raises an
-- error instead; `states` counts the Lua states that are open.
pub record AddResult : Type 0 where
  pub returned : Option ℕ
  pub states : ℕ
  pub cache : Shared

-- What `equus_local_cache_get` leaves: an error, the function compiled from a text, or nil and the
-- message of a failed compilation.
pub data GetResult : Type 0 where
  raised : GetResult
  function : Bytes → GetResult
  nil_and_message : ℕ → GetResult

-- `load_aux` behind `luaL_loadbuffer`
abbrev pub load_aux : Bytes → ℕ → GetResult
load_aux b status = if status == 0 then function b else nil_and_message status

-- The function that the lookup yields is compiled from the entry's bytes, and the entry is there.
abbrev pub Compiles :
    Ptr → CacheEntry → Entries CacheEntry → GetResult × Shared → Memory CacheEntry → Type 0
Compiles x v xs (out, _) n = (out ≡ function v.bytes) × (n x ≡ some (cell v (first xs)))

module _ (load_buffer : Bytes → Bytes → ℕ) where
  -- The part of `equus_local_cache_add` behind the checks of its arguments.
  store_module :
      ℕ
      → (x : Ptr) → List LuaValue
      → ℕ
      → Shared
      → (name module_text : Bytes) → Command CacheEntry AddResult
  store_module k x args states s name module_text =
      let d = top_string args in
      let stored =
        initialise x (cell (record { len = length d; name = name; bytes = d }) null)
        >> (local_cache_push k s x >>= λ (c, s').
            pure (record { returned = some 0; states = suc states - 1; cache = s' })) in
      let rv = load_buffer module_text name in
      if rv == 0
      then stored
      else pure (record { returned = some rv; states = suc states; cache = s })

  pub local_cache_add : ℕ → (x : Ptr) → List LuaValue → ℕ → Shared → Command CacheEntry AddResult
  unfolding store_module
  local_cache_add k x args states s =
      let raises : Command CacheEntry AddResult =
        pure (record { returned = none; states = states; cache = s }) in
      elim (check_string args 0) [
        | none ↦ raises
        | some name ↦ elim (check_string args 1) [
          | none ↦ raises
          | some module_text ↦ store_module k x args states s name module_text
        ]
      ]

  pub local_cache_get : ℕ → List LuaValue → Shared → Command CacheEntry (GetResult × Shared)
  local_cache_get k args s = elim (check_string args 0) [
    | none ↦ pure (raised, s)
    | some name ↦ do
      (e, s) ← local_cache_find k s name
      let read = load e >>= λ c.
          pure (load_aux c.payload.bytes (load_buffer c.payload.bytes c.payload.name), s)
      if e == null then pure (raised, s) else read
  ]

  -- A module that does not compile is not stored: `equus_local_cache_add` leaves the new Lua state
  -- open, and reports the status of the compiler to Lua as a number of results.
  pub local_cache_add-leak :
      (k : ℕ) (x : Ptr) (name module_text : Bytes) (rest : List LuaValue) (states : ℕ) (s : Shared)
      (m : Memory CacheEntry)
      → load_buffer module_text name ≢ 0
      → local_cache_add k x (text name ∷ text module_text ∷ rest) states s m
        ≡ done
            (record {
              returned = some (load_buffer module_text name);
              states = suc states;
              cache = s;
            })
            m
  unfolding local_cache_add
  local_cache_add-leak k x name module_text rest states s m bad =
      rw (not_null (load_buffer module_text name) bad)

  get-Compiles :
      (k : ℕ) (x : Ptr) (v : CacheEntry) (xs : Entries CacheEntry) (n : Memory CacheEntry)
      → IsChain n ((x, v) ∷ xs)
      → load_buffer v.bytes v.name ≡ 0
      → suc (length xs) < k
      → Returns (Compiles x v xs) (local_cache_get k (text v.name ∷ []) (shared x) n)
  unfolding local_cache_get
  get-Compiles k x v xs n c good fuel =
      rw
        (
          find-lookup k v.name ((x, v) ∷ xs) n c fuel,
          str_eq_refl v.name,
          not_null x c.0,
          load-done n c.0 c.1,
          good,
        )
        (refl, c.1)

  -- What `equus_local_cache_add` stores under a new name is the module as it was given, not its
  -- bytecode: the `equus_local_cache_get` that follows compiles the source text once more.
  pub add-get :
      (k : ℕ) (x : Ptr) (name module_text : Bytes) (states : ℕ) (xs : Entries CacheEntry)
      (m : Memory CacheEntry)
      → IsChain m xs
      → suc (length xs) < k
      → (x ≢ null) × (m x ≡ none) × (has x xs ≡ false)
      → lookup name xs ≡ null
      → load_buffer module_text name ≡ 0
      → Returns
          (Compiles x (record { len = length module_text; name = name; bytes = module_text }) xs)
          ((do
            a ← local_cache_add k x (text name ∷ text module_text ∷ []) states (shared (first xs))
            local_cache_get k (text name ∷ []) a.cache)
            m)
  unfolding local_cache_add local_cache_get update
  add-get k x name module_text states xs m c fuel (live, unused, out) absent good =
      let v : CacheEntry = record { len = length module_text; name = name; bytes = module_text } in
      let m' : Memory CacheEntry = update m x (some (cell v null)) in
      let c' : IsChain m' xs = frame-update xs m x (some (cell v null)) c out in
      let at' : m' x ≡ some (cell v null) = ground arith in
      rw (good, initialise-done m (cell v null) live)
        (bind (λ a n. (a.cache ≡ shared x) × IsChain n ((x, v) ∷ xs)) (Compiles x v xs) _ _
          (λ a n (at_x, chain). rw at_x (get-Compiles k x v xs n chain good fuel))
          (bind (Added x v xs m') (λ a n. (a.cache ≡ shared x) × IsChain n ((x, v) ∷ xs))
            (local_cache_push k (shared (first xs)) x m') _
            (λ (e, s') n (_, at_x, chain, _). (at_x, chain))
            (push_new k x v xs m' c' (omega arith) live at' out absent)))
