-- ===== src/Loader/Tests.antt =====
-- A run of `equus_local_load` of src/equus_loader.c on a table with one signed module.
use ck_agent.Base.{ℕ, ◌≡◌, refl, some, [], ◌∷◌, ℤ, pos, Bytes, codes}
use ck_agent.Lua.{text, check_string}
use ck_agent.Loader.{Crypto, Modules, chunk, local_load}
use ck_agent.Loader.Signed.{IsSigned, local_load-IsSigned}

abbrev compiles : Bytes → Bytes → ℕ
compiles b name = 0

abbrev accept : Bytes → ℤ
accept [] = pos 0
accept (c ∷ s) = pos 1

-- A signature that is not empty is correct, under any key.
abbrev lenient : Crypto
lenient = record {
  pem_read = λ b. some 1;
  verify_final = λ b s k. accept s;
  default_key = codes "k";
}

abbrev modules : Modules
modules = record {
  has_module = λ n. pos 0;
  get_module = λ n. (pos 0, codes "x");
  get_signature = λ n. (pos 0, codes "s");
  get_pubkey = λ n. (pos 0, []);
}

local_load-run : local_load compiles lenient modules (text (codes "m") ∷ []) ≡ chunk (codes "x")
unfolding local_load
local_load-run = refl

local_load-IsSigned_example :
    (name : Bytes) × (check_string (text (codes "m") ∷ []) 0 ≡ some name)
    × (modules.has_module name ≡ pos 0)
    × (modules.get_module name ≡ (pos 0, codes "x"))
    × ((modules.get_signature name).0 ≡ pos 0)
    × ((modules.get_pubkey name).0 ≡ pos 0)
    × (compiles (codes "x") name ≡ 0)
    × IsSigned lenient (codes "x") (modules.get_signature name).1 (some (modules.get_pubkey name).1)
local_load-IsSigned_example =
    local_load-IsSigned compiles lenient modules (text (codes "m") ∷ []) (codes "x") local_load-run
