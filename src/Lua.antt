-- ===== src/Lua.antt =====
-- Values on the Lua stack, as the C functions that Lua code calls read them.
use ck_agent.Base.{ℕ, Option, none, some, List, [], ◌∷◌, Bytes, get_elem?}

-- A number counts as the text that it converts to.
pub data LuaValue : Type 0 where
  text : Bytes → LuaValue
  other : LuaValue

-- `luaL_checkstring` on a value: none where it raises.
abbrev pub as_string : LuaValue → Option Bytes
as_string (text b) = some b
as_string other = none

-- `luaL_checkstring` on the argument at an index from 0.
abbrev pub check_string : List LuaValue → ℕ → Option Bytes
check_string args i = elim (get_elem? args i) [ none ↦ none | some v ↦ as_string v ]

-- The bytes of `lua_tolstring(L, -1, &len)`; NULL, of length 0, where the top is no string.
abbrev pub top_string : List LuaValue → Bytes
top_string [] = []
top_string (v ∷ []) = elim (as_string v) [ none ↦ [] | some b ↦ b ]
top_string (v ∷ w ∷ vs) = top_string (w ∷ vs)
