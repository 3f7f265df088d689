-- ===== src/Loader/Register.antt =====
-- `luaopen_equus_loader` and `equus_loader_preload` of src/equus_loader.c, with `luaopen_equus_debugger` of
-- src/mojosetup_luadebugger.c: which functions, modules and loaders a new Lua state is given. The build's
-- choices between Windows and Unix, and of a local development build, are arguments.
pub mod Stack
pub mod Whole
mod Tests
use ck_agent.Base.{
  ℕ, ◌+◌, ◌-◌, ◌≡◌, ◌≢◌, refl, sym, Bool, true, false, List, [], ◌∷◌, ◌++◌, ◌==◌, if◌then◌else◌,
  arith, Bytes, codes, length, drop,
}
use ck_agent.Loader.Machine.{
  Value, literal, table, function, Fields, Table, World, State, Result, ok, aborted, raised, Action,
  ◌>>◌, and_then, field, change, put_field, add_item, put_global, push, get_global, register,
  push_value, get_table, set_field, push_next, set_table, is_table, is_function, demand, set_top,
  Calls, call,
}

abbrev pub nothing : Action
nothing s = ok s

-- The modules of `equus_loader_preload`, in its order.
unfoldable pub modules : (windows : Bool) → List (Bytes × Bytes)
modules windows =
    let rest =
      (codes "mime.core", codes "luaopen_mime_core")
      ∷ (codes "ssl.context", codes "luaopen_ssl_context")
      ∷ (codes "ssl.core", codes "luaopen_ssl_core")
      ∷ (codes "alien.core", codes "luaopen_alien_core")
      ∷ (codes "alien.struct", codes "luaopen_alien_struct")
      ∷ (codes "pack", codes "luaopen_pack")
      ∷ (codes "lua51-lanes", codes "luaopen_lanes")
      ∷ [] in
    (codes "socket.core", codes "luaopen_socket_core")
    ∷ (if windows then rest else (codes "socket.unix", codes "luaopen_socket_unix") ∷ rest)

abbrev pub set_fields : List (Bytes × Bytes) → Action
set_fields [] = nothing
set_fields ((name, fn) ∷ ms) = push (function fn) >> set_field name >> set_fields ms

-- A field of `package`, which has to be a table, and so has the field.
unfoldable pub package_table : Bytes → Action
package_table name =
    get_global (codes "package")
    >> demand is_table
    >> push (literal name)
    >> get_table
    >> demand is_table

-- `equus_loader_preload`
unfoldable pub loader_preload : (windows : Bool) → Action
unfolding modules package_table
loader_preload windows s =
    (package_table (codes "preload") >> set_fields (modules windows) >> set_top (length s.stack)) s

-- The functions that Lua code calls, in the order of their registration.
unfoldable pub functions : (windows : Bool) → List (Bytes × Bytes)
functions windows =
    (codes "equus_local_cache_add", codes "equus_local_cache_add")
    ∷ (codes "equus_local_cache_get", codes "equus_local_cache_get")
    ∷ (codes "equus_lua_stack_dump", codes "equus_lua_stack_dump")
    ∷ (codes "equus_debugger", codes "luahook_debugger")
    ∷ (codes "equus_stackwalk", codes "luahook_stackwalk")
    ∷ (codes "equus_popen_capture", codes "equus_popen_capture")
    ∷ (if windows
        then (codes "equus_exec_call_win32_core", codes "equus_exec_call_win32_core") ∷ []
        else (codes "equus_exec_call_unix_core", codes "equus_exec_call_unix_core") ∷ [])

abbrev pub register_all : List (Bytes × Bytes) → Action
register_all [] = nothing
register_all ((name, fn) ∷ fs) = register name fn >> register_all fs

-- A loader at the end of the table on the top.
unfoldable pub append_loader : Value → Action
append_loader v = push_next >> push v >> set_table

-- The last loader: the one for a local build, or what `require` gives for the module `http_loader`.
unfoldable pub last_loader : (local_dev : Bool) → Calls → Action
unfolding append_loader
last_loader local_dev calls =
    if local_dev
    then append_loader (function (codes "equus_local_load"))
    else get_global (codes "require")
      >> demand is_function
      >> push (literal (codes "http_loader"))
      >> call calls
      >> get_global (codes "package")
      >> push (literal (codes "loaders"))
      >> get_table
      >> push_next
      >> push_value 4
      >> set_table

-- `luaopen_equus_loader`
unfoldable pub luaopen_loader : (windows local_dev : Bool) → Calls → Action
unfolding loader_preload functions last_loader
luaopen_loader windows local_dev calls =
    register_all (functions windows) >> loader_preload windows >> λ s.
    (package_table (codes "loaders")
        >> append_loader (function (codes "equus_loader_load"))
        >> last_loader local_dev calls
        >> set_top (length s.stack))
      s
