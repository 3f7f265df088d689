-- ===== src/Debugger/Console/Commands.antt =====
-- What the commands of the console do.
use ck_agent.Base.{◌≡◌, ◌≢◌, refl, false, none, some, [], ◌∷◌, ◌++◌, arith, ◌==◌, Bytes, codes}
use ck_agent.Debugger.Console.{last_colon, atoi, location, break_at, clear_at, instruction}

abbrev pub HasNoColon : Bytes → Type 0
HasNoColon [] = Unit
HasNoColon (c ∷ s) = (c ≢ b':') × HasNoColon s

last_colon-none : (s : Bytes) → HasNoColon s → last_colon s ≡ none
last_colon-none [] h = refl
last_colon-none (c ∷ s) (ne, h) =
    let other : (c == b':') ≡ false = ground arith in rw (last_colon-none s h, other)

last_colon-append : (a s : Bytes) → HasNoColon s → last_colon (a ++ b':' ∷ s) ≡ some (a, s)
last_colon-append [] s h = rw (last_colon-none s h)
last_colon-append (c ∷ a) s h = rw (last_colon-append a s h)

-- The console reads `break` and `clear` with a name, which may have colons in it, and behind the last
-- colon a line number, as that breakpoint.
pub instruction-location :
    (name n : Bytes)
    → HasNoColon n
    → (instruction (codes "break " ++ (name ++ b':' ∷ n)) ≡ break_at name (atoi n))
      × (instruction (codes "clear " ++ (name ++ b':' ∷ n)) ≡ clear_at name (atoi n))
unfolding instruction location
instruction-location name n h =
    (rw (location, last_colon-append name n h), rw (location, last_colon-append name n h))
