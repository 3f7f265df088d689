-- ===== src/Main/Tests.antt =====
-- A run of the restart loop of src/equus.c: the first round leaves a module in the cache and asks for a
-- restart, the second asks for none.
use ck_agent.Base.{
  pos, true, false, ◌≡◌, refl, none, some, [], ◌∷◌, arith, ◌==◌, if◌then◌else◌, codes,
}
use ck_agent.Memory.{cell, Memory, shared}
use ck_agent.Cache.{CacheEntry}
use ck_agent.Conf.{World, Global, util_init, get_argv}
use ck_agent.Main.{Exit, main_core, Agent, Round}
use ck_agent.Main.Switches.{stop, switch}
use ck_agent.Main.Restart.{IsGood, Returned, main_core-Returned}

abbrev entry_m : CacheEntry
entry_m = record { len = 1; name = codes "m"; bytes = codes "x" }

abbrev left : Memory CacheEntry
left a = if a == 4 then some (cell entry_m 0) else none

abbrev nothing_left : Memory CacheEntry
nothing_left a = none

abbrev asking : Round
asking = record { load = 0; call = 0; asks = true; cache = shared 4; memory = left }

abbrev final : Round
final = record { load = 0; call = 0; asks = false; cache = shared 0; memory = nothing_left }

abbrev fresh_agent : Agent
fresh_agent = record {
  restart = 0;
  run_count = 0;
  states = 0;
  cache = shared 0;
  memory = nothing_left;
}

asking-IsGood : IsGood 2 true asking
asking-IsGood = record {
  loads = refl;
  calls = refl;
  flagged = refl;
  entries = (4, entry_m) ∷ [];
  unlocked = refl;
  chain = (ground arith, refl, refl, tt);
  fits = omega arith;
}

abbrev final-IsGood : IsGood 2 false final
final-IsGood = record {
  loads = refl;
  calls = refl;
  flagged = refl;
  entries = [];
  unlocked = refl;
  chain = tt;
  fits = omega arith;
}

abbrev asks_help : World
asks_help = record {
  argv = codes "agent" ∷ codes "-h" ∷ [];
  files = λ p. none;
  bootstrap = none;
  platform = codes "linux";
  prints = true;
}

abbrev unloaded : Global
unloaded = record { conf = none; made = 0; freed = 0 }

init-run : util_init asks_help unloaded ≡ some (pos 0, unloaded)
unfolding util_init get_argv
init-run = refl

main_core-Returned_example :
    (e : Exit) × (main_core 2 asks_help 0 (asking ∷ final ∷ []) fresh_agent unloaded
      ≡ some (e, unloaded))
    × Returned fresh_agent 2 [] nothing_left e
main_core-Returned_example =
    main_core-Returned 2 asks_help (asking ∷ []) final [] fresh_agent unloaded unloaded 0 init-run
      (asking-IsGood, tt) final-IsGood

no_switch : switch (codes "-c") ≡ none
unfolding switch
no_switch = refl

stop_switch : switch (codes "--STOP") ≡ some stop
unfolding switch
stop_switch = refl
