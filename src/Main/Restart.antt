-- ===== src/Main/Restart.antt =====
-- The rounds of the restart loop in `main_core`.
use ck_agent.Base.{
  Bool, true, false, some, pos, ℕ, suc, ◌+◌, ◌-◌, ◌<◌, ◌≡◌, refl, ◌∙◌, List, [], ◌∷◌, ◌++◌, arith,
  if◌then◌else◌, length,
}
use ck_agent.Memory.{null, Memory, Outcome, done, crash, endless, Shared, shared}
use ck_agent.Memory.Chain.{Entries, first, IsChain, Returns}
use ck_agent.Cache.{CacheEntry}
use ck_agent.Cache.Find.{Released, clear-Released}
use ck_agent.Conf.{World, Global, util_init}
use ck_agent.Main.{
  Agent, Round, Exit, returned, running, crashed, hung, after_clear, main_loop, main_core,
}

-- A round whose Lua code compiles, returns without an error, and leaves a cache that fits the fuel and
-- whose mutex is free.
pub record IsGood (k : ℕ) (asks : Bool) (r : Round) : Type 0 where
  pub loads : r.load ≡ 0
  pub calls : r.call ≡ 0
  pub flagged : r.asks ≡ asks
  pub entries : Entries CacheEntry
  pub unlocked : r.cache ≡ shared (first entries)
  pub chain : IsChain r.memory entries
  pub fits : length entries < k

abbrev pub AreGood : (k : ℕ) → (asks : Bool) → List Round → Type 0
AreGood k asks [] = Unit
AreGood k asks (r ∷ rs) = IsGood k asks r × AreGood k asks rs

-- The process returns 0, behind `n` rounds from `a` on, with as many Lua states open as in `a`, and the
-- module cache, whose last entries were `xs` in the memory `m`, is empty and freed.
abbrev pub Returned : Agent → ℕ → Entries CacheEntry → Memory CacheEntry → Exit → Type 0
Returned a n xs m (returned code b) =
    (code ≡ 0)
    × (b.run_count ≡ a.run_count + n)
    × (b.states ≡ a.states)
    × (b.cache ≡ shared null)
    × Released xs m b.memory
Returned a n xs m (running b) = ⊥
Returned a n xs m crashed = ⊥
Returned a n xs m hung = ⊥

after_clear-Cleared :
    (P : Exit → Type 0) (xs : Entries CacheEntry) (m : Memory CacheEntry)
    (r : Outcome CacheEntry Shared) (a : Agent) (next : Agent → Exit)
    → Returns (λ s n. (s ≡ shared null) × Released xs m n) r
    → ((n : Memory CacheEntry)
        → Released xs m n
        → P (next (record a { cache = shared null; memory = n })))
    → P (after_clear r a next)
after_clear-Cleared P xs m (done s n) a next (e, rel) f = rw e (f n rel)
after_clear-Cleared P xs m crash a next h f = absurd h
after_clear-Cleared P xs m endless a next h f = absurd h

-- One good round: the loop goes on, or returns, with one more run counted and the cache cleared.
main_loop-round :
    (P : Exit → Type 0) (k : ℕ) (asks : Bool) (r : Round) (rs : List Round) (a : Agent)
    (g : IsGood k asks r)
    → ((n : Memory CacheEntry)
        → Released g.entries r.memory n
        → P (
            if asks
            then main_loop k rs (record a {
              restart = if asks then 1 else 0;
              run_count = a.run_count + 1;
              cache = shared null;
              memory = n;
            })
            else returned 0 (record a {
              restart = if asks then 1 else 0;
              run_count = a.run_count + 1;
              cache = shared null;
              memory = n;
            })))
    → P (main_loop k (r ∷ rs) a)
unfolding main_loop
main_loop-round P k true r rs a g f =
    rw (g.loads, g.calls, g.unlocked)
      (after_clear-Cleared P g.entries r.memory _ _ _
        (clear-Released k g.entries r.memory g.chain g.fits)
        (λ n rel.
          let closed : a.states + 1 - 1 ≡ a.states = omega arith in
          rw (g.flagged, closed) (f n rel)))
main_loop-round P k false r rs a g f =
    rw (g.loads, g.calls, g.unlocked)
      (after_clear-Cleared P g.entries r.memory _ _ _
        (clear-Released k g.entries r.memory g.chain g.fits)
        (λ n rel.
          let closed : a.states + 1 - 1 ≡ a.states = omega arith in
          rw (g.flagged, closed) (f n rel)))

Returned-more :
    (a b : Agent) (n n' : ℕ) (xs : Entries CacheEntry) (m : Memory CacheEntry) (e : Exit)
    → b.run_count ≡ a.run_count + 1
    → b.states ≡ a.states
    → n' ≡ n + 1
    → Returned b n xs m e
    → Returned a n' xs m e
Returned-more a b n n' xs m (returned code c) counted opened more (z, count, states, cache, freed) =
    (z, omega arith, states ∙ opened, cache, freed)
Returned-more a b n n' xs m (running c) counted opened more h = h
Returned-more a b n n' xs m crashed counted opened more h = h
Returned-more a b n n' xs m hung counted opened more h = h

main_loop-Returned :
    (k : ℕ) (asking : List Round) (last : Round) (rest : List Round) (a : Agent)
    → AreGood k true asking
    → (g : IsGood k false last)
    → Returned a (length asking + 1) g.entries last.memory (main_loop k (asking ++ last ∷ rest) a)
main_loop-Returned k [] last rest a good g =
    main_loop-round (Returned a 1 g.entries last.memory) k false last rest a g
      (λ n rel. (refl, refl, refl, refl, rel))
main_loop-Returned k (r ∷ asking) last rest a (h, good) g =
    main_loop-round (Returned a (suc (length asking) + 1) g.entries last.memory) k true r
      (asking ++ last ∷ rest) a h
      (λ n rel.
        let b : Agent = record a {
          restart = 1;
          run_count = a.run_count + 1;
          cache = shared null;
          memory = n;
        } in
        Returned-more a b (length asking + 1) (suc (length asking) + 1) g.entries last.memory
          (main_loop k (asking ++ last ∷ rest) b) refl refl (omega arith)
          (main_loop-Returned k asking last rest b good g))

-- The agent restarts exactly as often as it is asked to: where `equus_util_init` succeeds, the bootstrap
-- module is found, the Lua code of each round compiles and returns without an error and leaves a module
-- cache that fits the fuel and whose mutex is free, and all rounds before the last ask for a restart
-- while the last does not, `main_core` runs each of them once and returns 0, every Lua state that it
-- opened is closed, and the module cache is empty, with every entry of the last round freed.
pub main_core-Returned :
    (k : ℕ) (w : World) (asking : List Round) (last : Round) (rest : List Round) (a : Agent)
    (g h : Global) (rv : ℕ)
    → util_init w g ≡ some (pos rv, h)
    → AreGood k true asking
    → (good : IsGood k false last)
    → (e : Exit) × (main_core k w 0 (asking ++ last ∷ rest) a g ≡ some (e, h))
      × Returned a (length asking + 1) good.entries last.memory e
unfolding main_core
main_core-Returned k w asking last rest a g h rv init goods good = (
  main_loop k (asking ++ last ∷ rest) a,
  rw (main_core, init),
  main_loop-Returned k asking last rest a goods good,
)
