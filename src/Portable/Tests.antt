-- ===== src/Portable/Tests.antt =====
-- A run of `equus_vasprintf` of src/equus_portable.c.
use ck_agent.Base.{◌≡◌, refl, true, none, [], negsuc}
use ck_agent.Portable.{block, vasprintf}

-- An error of `vsnprintf` is found only after a block of 0 bytes has been allocated.
vasprintf_error : vasprintf none true ≡ (negsuc 0, block 0 [])
unfolding vasprintf
vasprintf_error = refl
