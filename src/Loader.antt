-- ===== src/Loader.antt =====
-- Loading a module into a Lua state: `equus_loader_load` and `equus_local_load` of
-- src/equus_loader.c, and `equus_verify` of src/equus_util.c. OpenSSL, the generated tables of modules
-- and the Lua compiler are parameters.
pub mod Signed
pub mod Machine
pub mod Register
pub mod Dump
mod Tests
use ck_agent.Base.{
  ℕ, Bool, true, false, not, Option, none, some, List, ◌==◌, if◌then◌else◌, ℤ, pos, negsuc, eq_ℤ,
  Bytes, length,
}
use ck_agent.Lua.{LuaValue, check_string}

-- `pem_read` is `PEM_read_bio_PUBKEY`, `verify_final` is `EVP_VerifyFinal` with SHA-1 over a text, a
-- signature and a key, and `default_key` is what `equus_pubkey_get` gives.
pub record Crypto : Type 0 where
  pub pem_read : Bytes → Option ℕ
  pub verify_final : Bytes → Bytes → ℕ → ℤ
  pub default_key : Bytes

-- The key that counts: the default one where none, or an empty one, is given.
abbrev pub chosen_key : Crypto → Option Bytes → Bytes
chosen_key c none = c.default_key
chosen_key c (some key) = if length key == 0 then c.default_key else key

-- none is `abort`, where the key cannot be read.
unfoldable pub verify : Crypto → (input signature : Bytes) → Option Bytes → Option ℤ
verify c input signature key = elim (c.pem_read (chosen_key c key)) [
  | none ↦ none
  | some k ↦ some (if eq_ℤ (c.verify_final input signature k) (pos 1) then pos 0 else negsuc 0)
]

-- The generated table of modules: each function returns a status, and what it fills in.
pub record Modules : Type 0 where
  pub has_module : Bytes → ℤ
  pub get_module : Bytes → ℤ × Bytes
  pub get_signature : Bytes → ℤ × Bytes
  pub get_pubkey : Bytes → ℤ × Bytes

-- What a loader gives to `require`.
pub data Loaded : Type 0 where
  nil_value error_raised aborted : Loaded
  chunk : Bytes → Loaded

abbrev pub is_zero : ℤ → Bool
is_zero n = eq_ℤ n (pos 0)

-- `if (rv != 0) { lua_pushnil(L); return 1; }`
abbrev pub or_nil : ℤ → Loaded → Loaded
or_nil rv next = if is_zero rv then next else nil_value

module _ (load_buffer : Bytes → Bytes → ℕ) where
  -- `luaL_loadbuffer`, and the error where it fails.
  abbrev pub load_chunk : Bytes → Bytes → Loaded
  load_chunk name text = if load_buffer text name == 0 then chunk text else error_raised

  unfoldable pub loader_load : Modules → List LuaValue → Loaded
  loader_load t args = elim (check_string args 0) [
    | none ↦ error_raised
    | some name ↦
        or_nil (t.has_module name)
          (or_nil (t.get_module name).0 (load_chunk name (t.get_module name).1))
  ]

  -- Behind `equus_verify`.
  abbrev pub after_verify : (name text : Bytes) → Option ℤ → Loaded
  after_verify name text none = aborted
  after_verify name text (some rv) = if is_zero rv then load_chunk name text else error_raised

  unfoldable pub local_load : Crypto → Modules → List LuaValue → Loaded
  unfolding verify
  local_load c t args = elim (check_string args 0) [
    | none ↦ error_raised
    | some name ↦ or_nil (t.has_module name) (
        or_nil (t.get_module name).0 (
          or_nil (t.get_signature name).0 (
            or_nil (t.get_pubkey name).0 (
              after_verify name (t.get_module name).1 (
                verify c (t.get_module name).1 (t.get_signature name).1
                  (some (t.get_pubkey name).1))))))
  ]
