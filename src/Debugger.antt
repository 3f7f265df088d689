-- ===== src/Debugger.antt =====
-- The Lua debugger of src/mojosetup_luadebugger.c.
pub mod Breakpoints
pub mod Console
pub mod Stackwalk
pub mod Program
mod Tests
