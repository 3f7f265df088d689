-- ===== src/Platform.antt =====
-- The small functions of src/equus_util.c that ask the platform: `p_platform` and the `p_is_...`
-- functions over the macros that the compiler defines, `equus_shutdown_stdio` over the answers of
-- `freopen`, and the wrappers of `sigar_open` and `sigar_close`.
use ck_agent.Base.{
  ℕ, ◌+◌, ◌≡◌, ◌≢◌, ◌↔◌, Bool, true, false, Option, none, some, Bytes, ◌==◌, if◌then◌else◌, arith,
}

-- Which macros are defined, and the text of `EQUUS_PLATFORM`.
pub record Macros : Type 0 where
  pub name : Bytes
  pub win32 : Bool
  pub apple : Bool
  pub free_bsd : Bool
  pub open_bsd : Bool
  pub net_bsd : Bool
  pub sun : Bool
  pub linux : Bool

-- `#ifdef`
abbrev defined : Bool → ℕ
defined true = 1
defined false = 0

pub p_platform : Macros → Bytes
p_platform m = m.name

pub p_is_windows : Macros → ℕ
p_is_windows m = defined m.win32

-- `!p_is_windows()`
pub p_is_unix : Macros → ℕ
unfolding p_is_windows
p_is_unix m = if p_is_windows m == 0 then 1 else 0

pub p_is_darwin : Macros → ℕ
p_is_darwin m = defined m.apple

pub p_is_freebsd : Macros → ℕ
p_is_freebsd m = defined m.free_bsd

pub p_is_openbsd : Macros → ℕ
p_is_openbsd m = defined m.open_bsd

pub p_is_netbsd : Macros → ℕ
p_is_netbsd m = defined m.net_bsd

pub p_is_solaris : Macros → ℕ
p_is_solaris m = defined m.sun

pub p_is_linux : Macros → ℕ
p_is_linux m = defined m.linux

-- Every platform is either Windows or Unix, and not both.
p_is_unix-windows : (m : Macros) → p_is_unix m + p_is_windows m ≡ 1
unfolding p_is_unix
p_is_unix-windows m = ground arith

-- Where a standard stream goes.
pub data Standard : Type 0 where
  original dev_null closed : Standard

pub record Stdio : Type 0 where
  pub stdin : Standard
  pub stdout : Standard
  pub stderr : Standard

-- `freopen` of /dev/null: none where it succeeds, else `errno`; then the stream is closed.
abbrev after_freopen : Option ℕ → Standard
after_freopen none = dev_null
after_freopen (some e) = closed

abbrev and_then : Option ℕ → Stdio → (Stdio → ℕ × Stdio) → ℕ × Stdio
and_then none s next = next s
and_then (some e) s next = (e, s)

-- The answers of the three calls.
pub equus_shutdown_stdio : (input output errors : Option ℕ) → Stdio → ℕ × Stdio
equus_shutdown_stdio input output errors s =
    and_then input (record s { stdin = after_freopen input })
      (λ s.
        and_then output (record s { stdout = after_freopen output })
          (λ s. and_then errors (record s { stderr = after_freopen errors }) (λ s. (0, s))))

-- Where `errno` is not 0 after a failure, the function returns 0 exactly when all three streams go to
-- /dev/null behind it.
equus_shutdown_stdio-eq-zero :
    (input output errors : Option ℕ)
    → input ≢ some 0
    → output ≢ some 0
    → errors ≢ some 0
    → (s s' : Stdio) (rv : ℕ) → equus_shutdown_stdio input output errors s ≡ (rv, s')
    → (rv ≡ 0) ↔ ((s'.stdin ≡ dev_null) × (s'.stdout ≡ dev_null) × (s'.stderr ≡ dev_null))
unfolding equus_shutdown_stdio
equus_shutdown_stdio-eq-zero none none none i o e s s' rv run = ground arith
equus_shutdown_stdio-eq-zero none none (some c) i o e s s' rv run = ground arith
equus_shutdown_stdio-eq-zero none (some c) errors i o e s s' rv run = ground arith
equus_shutdown_stdio-eq-zero (some c) output errors i o e s s' rv run = ground arith

-- `sigar_open` gives a handle, or fails; `si` is a local variable, NULL when the call starts.
pub sigar_create : (opens : Option ℕ) → ℕ
sigar_create none = 0
sigar_create (some handle) = handle

-- `sigar_close` is only called on a handle.
pub sigar_destroy : (close : ℕ → ℕ) → (si : ℕ) → ℕ
sigar_destroy close si = if si == 0 then 0 else close si
