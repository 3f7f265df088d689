-- ===== src/Cache/Refines/Calls.antt =====
-- What each call on the cache does to the map that it stands for.
use ck_agent.Base.{
  ℕ, suc, ◌+◌, ◌≤◌, ◌<◌, ◌≡◌, ◌≢◌, refl, sym, ◌∙◌, inl, inr, false, none, some, List, [], ◌∷◌,
  arith, Bool-cases, Bytes, length, str_eq, str_eq_iff,
}
use native.Mathlib.Decide.{ℕ_discrete}
use ck_agent.Memory.{Ptr, null, cell, Memory, Shared, shared, update}
use ck_agent.Memory.Chain.{
  not-has_of_none, Entries, has, first, IsChain, Returns, weaken, bind, initialise-done,
  frame-update,
}
use ck_agent.Cache.{CacheEntry, local_cache_push}
use ck_agent.Cache.Find.{lookup, Released, clear-Released}
use ck_agent.Cache.Push.{Added, Kept, push_new, push_old}
use ck_agent.Cache.Refines.{
  Op, store, get, clear, module_entry, play, TextMap, put_absent, no_texts, mirror, meaning,
  Holding, lookup-cases, get_text-meaning,
}

-- The cache after a store: either way it stands for the changed map.
abbrev Stored : (k next left : ℕ) → TextMap → Ptr × Shared → Memory CacheEntry → Type 0
Stored k next left f (e, s) n =
    (ys : Entries CacheEntry) × (s ≡ shared (first ys)) × Holding k next left n ys f

meaning-absent :
    (m : Memory CacheEntry) (name text : Bytes) (next : Ptr) (xs : Entries CacheEntry) (f : TextMap)
    → IsChain m xs
    → lookup name xs ≡ null
    → ((q : Bytes) → meaning xs q ≡ f q)
    → (q : Bytes) → meaning ((next, module_entry name text) ∷ xs) q ≡ put_absent name text f q
meaning-absent m name text next xs f c absent means q = elim (Bool-cases (str_eq name q)) [
  | inl same ↦
      let named : name ≡ q = (str_eq_iff name q).0 same in
      elim (lookup-cases m name xs c) [
        | inl (_, nothing) ↦
            let empty : f q ≡ none = sym (means q) ∙ rw named at nothing in rw (same, empty)
        | inr (v, p, live, _, _) ↦ absurd (live absent)
      ]
  | inr differs ↦ rw differs (means q)
]

meaning-present :
    (m : Memory CacheEntry) (name text : Bytes) (xs : Entries CacheEntry) (f : TextMap)
    → IsChain m xs
    → lookup name xs ≢ null
    → ((q : Bytes) → meaning xs q ≡ f q)
    → (q : Bytes) → meaning xs q ≡ put_absent name text f q
meaning-present m name text xs f c present means q = elim (Bool-cases (str_eq name q)) [
  | inl same ↦
      let named : name ≡ q = (str_eq_iff name q).0 same in
      elim (lookup-cases m name xs c) [
        | inl (absent, _) ↦ absurd (present absent)
        | inr (v, p, _, _, is) ↦
            let there : f q ≡ some v.bytes = sym (means q) ∙ rw named at is in
            rw (same, there) (rw named at is)
      ]
  | inr differs ↦ rw differs (means q)
]

push-Stored :
    (k next left : ℕ) (m : Memory CacheEntry) (xs : Entries CacheEntry) (f : TextMap)
    (name text : Bytes)
    → Holding k next (suc left) m xs f
    → Returns (Stored k (next + 1) left (put_absent name text f)) (
        local_cache_push k
          (shared (first xs))
          next
          (update m next (some (cell (module_entry name text) null))))
unfolding update
push-Stored k next left m xs f name text h =
    let v : CacheEntry = module_entry name text in
    let n : Memory CacheEntry = update m next (some (cell v null)) in
    let live : next ≢ null = λ e. omega (arith, h.real) in
    let out : has next xs ≡ false =
      not-has_of_none m next xs h.chain (h.unused next (omega arith)) in
    let c : IsChain n xs = frame-update xs m next (some (cell v null)) h.chain out in
    let at : n next ≡ some (cell v null) = ground arith in
    let fuel : length xs < k = omega (arith, h.fuel) in
    let rest : (a : Ptr) → next + 1 ≤ a → n a ≡ none = λ a le. ground (arith, h.unused a) in
    let beyond : (a : Ptr) → next + 1 ≤ a → has a ((next, v) ∷ []) ≡ false = λ a le. ground arith in
    elim (ℕ_discrete (lookup name xs) null) [
      | yes absent ↦
          weaken (Added next v xs n) (Stored k (next + 1) left (put_absent name text f)) _
            (λ (e, s) o (_, at_next, chain, same). (
              (next, v) ∷ xs,
              at_next,
              record {
                chain = chain;
                unused = λ a le. same a (beyond a le) ∙ rest a le;
                real = omega arith;
                fuel = omega (arith, h.fuel);
                means = meaning-absent m name text next xs f h.chain absent h.means;
              },
            ))
            (push_new k next v xs n c fuel live at out absent)
      | no present ↦
          weaken (Kept next v xs n) (Stored k (next + 1) left (put_absent name text f)) _
            (λ (e, s) o (_, kept, chain, _, same). (
              xs,
              kept,
              record {
                chain = chain;
                unused = λ a le. same a (beyond a le) ∙ rest a le;
                real = omega arith;
                fuel = omega (arith, h.fuel);
                means = meaning-present m name text xs f h.chain present h.means;
              },
            ))
            (push_old k next v xs n c fuel (omega (arith, h.fuel)) live at out present)
    ]

-- The calls that are left need no more fuel than there are calls.
play-mirror :
    (ops : List Op) (k next : ℕ) (m : Memory CacheEntry) (xs : Entries CacheEntry) (f : TextMap)
    → Holding k next (length ops) m xs f
    → Returns (λ os n. os ≡ mirror ops f) (play k next ops (shared (first xs)) m)
unfolding play
play-mirror [] k next m xs f h = refl
play-mirror (store name text ∷ ops) k next m xs f h =
    let live : next ≢ null = λ e. omega (arith, h.real) in
    rw (initialise-done m (cell (module_entry name text) null) live) (
      bind (Stored k (next + 1) (length ops) (put_absent name text f))
        (λ os n. os ≡ mirror ops (put_absent name text f)) _ _
        (λ (e, s) n (ys, at_ys, held).
          rw at_ys (play-mirror ops k (next + 1) n ys (put_absent name text f) held))
        (push-Stored k next (length ops) m xs f name text h))
play-mirror (get name ∷ ops) k next m xs f h =
    rw (get_text-meaning k m name xs h.chain (omega (arith, h.fuel)), h.means name)
      (bind (λ os n. os ≡ mirror ops f) (λ os n. os ≡ f name ∷ mirror ops f) _ _ (λ os n e. cc)
        (play-mirror ops k next m xs f (record {
          chain = h.chain;
          unused = h.unused;
          real = h.real;
          fuel = omega (arith, h.fuel);
          means = h.means;
        })))
play-mirror (clear ∷ ops) k next m xs f h =
    bind (λ s n. (s ≡ shared null) × Released xs m n) (λ os n. os ≡ mirror ops no_texts) _ _
      (λ s n (emptied, (same, gone)). rw emptied (
        play-mirror ops k next n [] no_texts (record {
          chain = tt;
          unused = λ a le. elim (Bool-cases (has a xs)) [
            | inl inside ↦ gone a inside
            | inr outside ↦ same a outside ∙ h.unused a le
          ];
          real = h.real;
          fuel = omega (arith, h.fuel);
          means = λ q. refl;
        })))
      (clear-Released k xs m h.chain (omega (arith, h.fuel)))

abbrev pub empty_memory : Memory CacheEntry
empty_memory a = none

-- The cache implements a map from names to texts in which the first text stored under a name stays:
-- any sequence of calls on the empty cache returns, and each lookup gives what the map gives. The new
-- entries are at addresses from one on that is not NULL, and the fuel exceeds the calls by two.
pub play_refines :
    (ops : List Op) (k next : ℕ)
    → 0 < next
    → length ops + 1 < k
    → Returns (λ os n. os ≡ mirror ops no_texts) (play k next ops (shared null) empty_memory)
play_refines ops k next real fuel = play-mirror ops k next empty_memory [] no_texts (record {
  chain = tt;
  unused = λ a le. refl;
  real = real;
  fuel = omega arith;
  means = λ q. refl;
})
