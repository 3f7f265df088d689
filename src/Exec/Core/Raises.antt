-- ===== src/Exec/Core/Raises.antt =====
-- How `equus_exec_call_unix_core` of src/equus_portable.c raises an error, from its first statement on.
use ck_agent.Base.{ℕ, ◌≡◌, ◌<◌, List, ◌∷◌, ◌++◌, Bytes, length, map}
use ck_agent.Lua.{LuaValue, text, other}
use ck_agent.Exec.{finished, raised, running}
use ck_agent.Exec.Argv.{Argv}
use ck_agent.Exec.Core.{Exec, bad_argument, ran}
use ck_agent.Exec.Core.Ends.{LeftOpen}

-- The table starts with `n` strings, at most 62, and then has a value that is no string.
abbrev pub IsRefusedAt : List LuaValue → ℕ → Type 0
IsRefusedAt vs n =
    (bs : List Bytes) × (rest : List LuaValue) × (vs ≡ map text bs ++ other ∷ rest)
    × (length bs ≡ n)
    × (n < 63)

-- What an error leaves: the copies of an argument vector that is refused, or what the failing call
-- leaves open.
abbrev pub LeftByError : List LuaValue → Exec → Type 0
LeftByError vs (bad_argument leaked) = IsRefusedAt vs leaked
LeftByError vs (ran argv (raised c e q)) = LeftOpen c q × (q.strings ≡ 0)
LeftByError vs (ran argv (finished code q)) = Unit
LeftByError vs (ran argv (running q)) = Unit
