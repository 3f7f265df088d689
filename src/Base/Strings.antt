-- ===== src/Base/Strings.antt =====
-- C strings as lists of bytes without the terminating NUL, and their library tests.
use Prim.Native.Nat.{ℕ, zero, suc}
use Prim.Native.Char.{code}
use Prim.Native.String.{String}
use mathlib.Core.Path.{◌≡◌, refl}
use mathlib.Core.Logic.{◌↔◌, ◌≢◌}
use mathlib.Core.Bool.{Bool, true, false, ◌&&◌, ◌||◌}
use mathlib.Core.List.{List, [], ◌∷◌, ◌++◌}
use native.Mathlib.Omega.{arith}
use ck_agent.Base.Lists.{take}
use ck_agent.Base.Tests.{◌==◌, leb, if◌then◌else◌}

abbrev pub Bytes : Type 0
Bytes = List ℕ

-- The bytes of an ASCII literal.
abbrev pub codes : String → Bytes
codes String.[] = []
codes (String.◌∷◌ c s) = code c ∷ codes s

-- `strcmp(a, b) == 0`
abbrev pub str_eq : Bytes → Bytes → Bool
str_eq [] [] = true
str_eq (x ∷ a) (y ∷ b) = x == y && str_eq a b
str_eq _ _ = false

-- `strncmp(prefix, s, strlen(prefix)) == 0`
abbrev pub starts_with : Bytes → Bytes → Bool
starts_with [] s = true
starts_with (x ∷ a) [] = false
starts_with (x ∷ a) (y ∷ b) = x == y && starts_with a b

-- What a buffer holds as a C string: its bytes up to the first NUL.
abbrev pub c_string : Bytes → Bytes
c_string [] = []
c_string (c ∷ s) = if c == 0 then [] else c ∷ c_string s

-- `isspace` of the C locale.
abbrev pub is_space : ℕ → Bool
is_space c = c == 32 || (leb 9 c && leb c 13)

pub str_eq_iff : (a b : Bytes) → (str_eq a b ≡ true) ↔ (a ≡ b)
str_eq_iff [] [] = ground arith
str_eq_iff (x ∷ a) (y ∷ b) = ground (arith, str_eq_iff a b)
str_eq_iff _ _ = ground arith

pub str_eq_refl : (a : Bytes) → str_eq a a ≡ true
str_eq_refl a = (str_eq_iff a a).1 refl

-- A text that C can hold: no byte of it is NUL.
abbrev pub HasNoNul : Bytes → Type 0
HasNoNul [] = Unit
HasNoNul (c ∷ s) = (c ≢ 0) × HasNoNul s

pub HasNoNul-append : (a b : Bytes) → HasNoNul a → HasNoNul b → HasNoNul (a ++ b)
HasNoNul-append [] b h k = k
HasNoNul-append (c ∷ a) b (h, hs) k = (h, HasNoNul-append a b hs k)

pub HasNoNul-take : (n : ℕ) (a : Bytes) → HasNoNul a → HasNoNul (take n a)
HasNoNul-take zero a h = tt
HasNoNul-take (suc n) [] h = tt
HasNoNul-take (suc n) (c ∷ a) (h, hs) = (h, HasNoNul-take n a hs)

pub c_string-nul : (a b : Bytes) → HasNoNul a → c_string (a ++ 0 ∷ b) ≡ a
c_string-nul [] b h = refl
c_string-nul (c ∷ a) b (h, hs) = ground (arith, c_string-nul a b hs)
