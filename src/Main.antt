-- ===== src/Main.antt =====
-- The main program (src/equus.c), as on Unix: `main_core` with its restart loop, and the handler of
-- SIGUSR1. What happens inside the Lua state is a script: per round the status of the compiler and of
-- `lua_pcall`, whether a restart is asked for, and the module cache that the round leaves.
pub mod Restart
pub mod Windows
pub mod Switches
mod Tests
use ck_agent.Base.{
  ℕ, ◌+◌, ◌-◌, Bool, true, false, Option, none, some, List, [], ◌∷◌, ◌==◌, if◌then◌else◌, ℤ,
  is_negative,
}
use ck_agent.Memory.{Memory, Outcome, done, crash, endless, Shared}
use ck_agent.Cache.{CacheEntry, local_cache_clear}
use ck_agent.Conf.{World, Global, load_config, util_init}

-- The main loop's part of the process: the restart flag, the run counter, the Lua states that are open,
-- and the module cache.
pub record Agent : Type 0 where
  pub restart : ℕ
  pub run_count : ℕ
  pub states : ℕ
  pub cache : Shared
  pub memory : Memory CacheEntry

-- `equus_restart_set` and `equus_restart_get`
abbrev pub restart_set : ℕ → Agent → Agent
restart_set i a = record a { restart = i }

abbrev pub restart_get : Agent → ℕ
restart_get a = a.restart

-- `asks` says whether SIGUSR1 comes in the course of the round, so that its handler sets the flag.
pub record Round : Type 0 where
  pub load : ℕ
  pub call : ℕ
  pub asks : Bool
  pub cache : Shared
  pub memory : Memory CacheEntry

-- `returned` carries the exit code; `running` waits for a round that the script does not have.
pub data Exit : Type 0 where
  returned : ℕ → Agent → Exit
  running : Agent → Exit
  crashed hung : Exit

-- `equus_local_cache_clear` behind `lua_close`.
abbrev pub after_clear : Outcome CacheEntry Shared → Agent → (Agent → Exit) → Exit
after_clear (done s m) a next = next (record a { cache = s; memory = m })
after_clear crash a next = crashed
after_clear endless a next = hung

-- The start of a round: flag, counter and a new Lua state.
abbrev pub begin_round : Agent → Agent
begin_round a = record a { restart = 0; run_count = a.run_count + 1; states = a.states + 1 }

abbrev pub ask : Bool → Agent → Agent
ask true a = restart_set 1 a
ask false a = a

-- What the Lua code leaves: the flag is as it was unless a restart is asked for.
abbrev pub run_lua : Round → Agent → Agent
run_lua r a = record (ask r.asks a) { cache = r.cache; memory = r.memory }

abbrev pub close_state : Agent → Agent
close_state a = record a { states = a.states - 1 }

-- `do { … } while (equus_restart_get() == 1)`; `k` is the fuel of the loops over the cache.
unfoldable pub main_loop : ℕ → List Round → Agent → Exit
main_loop k [] a = running a
main_loop k (r ∷ rs) a =
    let b = begin_round a in
    let c = close_state (run_lua r b) in
    let rest =
      after_clear (local_cache_clear k c.cache c.memory) c
        (λ d. let again = main_loop k rs d in if restart_get d == 1 then again else returned 0 d) in
    let called = if r.call == 0 then rest else returned 1 (run_lua r b) in
    if r.load == 0 then called else returned 1 b

-- `main_core`, with the configuration that it leaves; none is a crash on the arguments. `bootstrap` is
-- the status of `equus_bootstrap_get_module`.
unfoldable pub main_core :
    ℕ → World → (bootstrap : ℕ) → List Round → Agent → Global → Option (Exit × Global)
unfolding main_loop
main_core k w bootstrap rs a g = elim (util_init w g) [
  | none ↦ none
  | some (rv, h) ↦
      if is_negative rv
      then some (returned 1 a, h)
      else if bootstrap == 0
      then some (main_loop k rs a, h)
      else some (returned 1 a, h)
]

-- What the handler comes to: the process exits with a code, or goes on with the flag set.
pub data Handled : Type 0 where
  exits : ℕ → Handled
  goes_on : Agent → Global → Handled

unfoldable pub usr1_handler : World → Agent → Global → Option Handled
usr1_handler w a g = elim (load_config w g) [
  | none ↦ none
  | some (rv, h) ↦ if is_negative rv then some (exits 1) else some (goes_on (restart_set 1 a) h)
]
