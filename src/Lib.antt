-- ===== src/Lib.antt =====
-- Verification of the agent's C core (src/*.c).
--
-- The agent is a C program around an embedded Lua state. Lua code does the monitoring and the network;
-- the C core gives it what Lua lacks. The parts that are modelled, and the files that model them:
--
-- - Memory and Memory/Chain: structs on the heap. A memory maps addresses to cells (a payload and a
--   `next` pointer). A run of C code returns, crashes (it reads or writes through NULL or through a
--   freed pointer), or outlasts its fuel. `IsChain` says that the cells from an address on form a
--   linked list. A head behind a mutex is a `Shared`; locking a held mutex never ends.
-- - Lua: values on the Lua stack, as `luaL_checkstring` and `lua_tolstring` see them.
-- - Results: the stack of results in src/equus_util.c (`equus_push_result`, `equus_pop_result`,
--   `equus_free_result`, with `push_rentry` and `pop_rentry`). Results/Refines has a client's calls on it,
--   and a plain stack of texts for the same calls. Results/Threads has any number of threads that make
--   these calls at the same time, statement by statement; `Reach` are the states that any order of their
--   statements leads to.
-- - Cache: the module cache of src/equus_loader.c. `find_nolock`, `local_cache_find`, ... are
--   `equus_local_cache_find_nolock`, `equus_local_cache_find`, ...; Cache/Lua has the functions that Lua
--   code calls, over a parameter for `luaL_loadbuffer`; Cache/Refines a client's calls and a map from
--   names to texts for the same calls.
-- - Exec: `equus_exec_call_unix_core` of src/equus_portable.c. Exec/Argv fills `argv`, Exec/Child is the
--   child up to `execvp`, Exec/Loop the parent's loops over `select`, `read` and `waitpid`, Exec/Core the
--   whole, with `pluaerror` for its errors. What the system calls answer is a script, one answer per
--   call; a run that needs more answers than the script has is `running`.
-- - Log: the logger of src/equus_util.c and src/equus_util.h. Log/Level has the levels, Log/Line the
--   buffer of a line, Log the state (`Logger`) and `equus_log`, `equus_log_fmtv`, `equus_log_rotate`,
--   `equus_log_set_path`. The clock, `fopen`, `strdup` and `vsnprintf` are arguments.
--   Log/Journal has any sequence of these calls, and a plain journal for the same calls; Log/Signals has
--   `equus_log_buf` with `hup_handler` of src/equus.c between its operations, Log/Nested `equus_log_rotate`
--   with it.
-- - Service: the control of the Windows service in src/equus_service.c, with one file for
--   `win32_service_start`, one for `win32_service_stop` and one for the other three functions. The
--   answers of the service control manager are a script.
-- - Debugger/Breakpoints: the list of breakpoints of src/mojosetup_luadebugger.c and the line hook
--   `debugger_breakpoint`, up to the point where it starts the console.
-- - Debugger/Console: the debugger's console (`luahook_debugger`): its commands, and the loop over the
--   input. Console/Session has the same session on a plain list of breakpoints. Debugger/Program: the hook
--   with the console, on the events of a program, and the same events on a list.
-- - Debugger/Stackwalk: `snprintfcat` on the scratch buffer, `luahook_stackwalk` and `debugger_trace`.
-- - Conf: `argv`, the configuration file of src/equus_conf.c, and `global_conf` of src/equus_util.c
--   (`equus_load_config`, `equus_util_init`, `equus_url`). Conf/Args is about the switches, Conf/Lines
--   and Conf/Parse about the file, Conf/Reload about loading it again, Conf/Exit about a whole process.
-- - Loader: `equus_loader_load` and `equus_local_load` of src/equus_loader.c, with `equus_verify` of
--   src/equus_util.c, over parameters for OpenSSL and for the generated tables of modules.
-- - Loader/Register: `luaopen_equus_loader` and `equus_loader_preload`, which tell a new Lua state of all
--   that, on the part of the Lua API that they use (Loader/Machine). Loader/Dump: `lua_stack_dump`.
-- - Main: `main_core` of src/equus.c, which ties these together: it loads the configuration, and runs
--   Lua states in a loop as long as a restart is asked for, clearing the module cache in between.
-- - Main/Windows: the same program as a Windows service: `win32_service_main`, `win32_service_handler`
--   and the thread of the agent as steps on the globals that they share. `Reach` are the states that any
--   order of these steps leads to. Main/Windows/Client: `win32_service_stop` against that process.
--   Main/Windows/Entry: `win32_run_service` and `win32_thread_proc`. Main/Switches: the switches of `main`
--   on Windows.
-- - Exec/Windows: `equus_exec_call_win32_core` of src/equus_portable.c. Portable: `equus_vasprintf` and
--   `equus_popen_capture`.
-- - Platform: the functions of src/equus_util.c that ask the platform, `equus_shutdown_stdio`, and the wrappers
--   of sigar.
-- - Base: numbers, lists, byte strings and Boolean tests for all of them.
--
-- Loops over lists in memory run on fuel, the number of rounds. The theorems ask for more fuel than the
-- list has cells, which is as much as the loops can use, since each round goes one cell on. Loops that
-- depend on the system recurse on the script. Addresses from `malloc` and `strdup` are arguments, and
-- `malloc` that fails is NULL, through which the code writes without a test. A C `int` that is compared
-- only is a ℤ; `GetTickCount` wraps at 2 ^ 32. A string that one struct owns is part of its cell.
--
-- Not modelled: the memory debugging on Windows, which calls the C runtime, and `pipe_win32`, which is code of libev; the Lua code under src/lua, the Java helper and the libraries
-- under extern. The run counter is not bounded. Apart from Results/Threads and Main/Windows, threads are
-- modelled only as far as the mutexes show: a theorem is about one thread, or about calls in the order
-- that it gives. A memory access is one step, as if every processor saw the same order.
mod Base
pub mod Memory
pub mod Log
pub mod Debugger
pub mod Results
mod Lua
pub mod Cache
pub mod Exec
pub mod Service
pub mod Conf
pub mod Loader
pub mod Portable
pub mod Main
mod Platform
