-- ===== src/Log/Level.antt =====
-- The log levels of src/equus_util.h, in their order.
use ck_agent.Base.{ℕ, Bool, true, false}

pub data LogLevel : Type 0 where
  nothing critical errors warnings info debug everything : LogLevel

-- The value of the C enumerator.
unfoldable pub rank : LogLevel → ℕ
rank nothing = 0
rank critical = 1
rank errors = 2
rank warnings = 3
rank info = 4
rank debug = 5
rank everything = 6

abbrev pub is_critical : LogLevel → Bool
is_critical critical = true
is_critical _ = false
