-- ===== src/Exec.antt =====
-- Running a command on Unix: `equus_exec_call_unix_core` of src/equus_portable.c, with `pluaerror`.
-- What the system calls return is a script: one answer for each call, in the order of the calls. The
-- parent's four pipe ends are flags (open or not); a descriptor variable that holds -1 is a flag
-- that is false.
pub mod Argv
pub mod Child
pub mod Loop
pub mod Core
pub mod Windows
use ck_agent.Base.{
  ℕ, zero, suc, Bool, true, false, not, ◌&&◌, Option, none, some, List, [], ◌∷◌, ◌++◌, ◌==◌,
  if◌then◌else◌, Bytes, ◌≡◌, refl, ◌⊎◌, inl, inr,
}

abbrev pub eintr : ℕ
eintr = 4

abbrev pub eagain : ℕ
eagain = 11

-- What one `read` comes to.
pub data Read : Type 0 where
  eof : Read
  got : Bytes → Read
  read_error : ℕ → Read

-- What one `select` comes to: its error, or for each stream that is ready the `read` on it.
pub data Select : Type 0 where
  select_error : ℕ → Select
  ready : Option Read → Option Read → Select

-- What one `waitpid` comes to.
pub data Wait : Type 0 where
  wait_error : ℕ → Wait
  other_pid : Wait
  exited : ℕ → Wait
  killed : Wait

-- The system calls whose failure raises a Lua error.
pub data Call : Type 0 where
  pipe_stdout pipe_stderr fork select read_stdout read_stderr waitpid : Call

-- `strings` counts the copies in `argv` that are not freed, `output` is the string on the Lua stack.
pub record Parent : Type 0 where
  pub out_read : Bool
  pub out_write : Bool
  pub err_read : Bool
  pub err_write : Bool
  pub out_live : Bool
  pub err_live : Bool
  pub strings : ℕ
  pub output : Bytes

-- `running p` is a run that waits for a system call which the script does not answer.
pub data Run (A : Type 0) : Type 0 where
  finished : A → Parent → Run A
  raised : Call → ℕ → Parent → Run A
  running : Parent → Run A

infixl 5 ◌>>=◌
abbrev pub ◌>>=◌ : {A B : Type 0} → Run A → (A → Parent → Run B) → Run B
finished a p >>= f = f a p
raised c e p >>= f = raised c e p
running p >>= f = running p

-- `pluaerror`: frees the copies in `argv`, and raises.
abbrev pub pluaerror : {A : Type 0} → Call → ℕ → Parent → Run A
pluaerror c e p = raised c e (record p { strings = 0 })

-- Inversion of a finished run.
pub >>=-eq-finished :
    {A B : Type 0} (r : Run A) (f : A → Parent → Run B) {b : B} {q : Parent}
    → (r >>= f) ≡ finished b q
    → (a : A) × (p : Parent) × (r ≡ finished a p) × (f a p ≡ finished b q)
>>=-eq-finished (finished a p) f h = (a, p, refl, h)
>>=-eq-finished (raised c e p) f h = cc
>>=-eq-finished (running p) f h = cc

-- Inversion of a run that raises.
pub >>=-eq-raised :
    {A B : Type 0} (r : Run A) (f : A → Parent → Run B) {c : Call} {e : ℕ} {q : Parent}
    → (r >>= f) ≡ raised c e q
    → (r ≡ raised c e q) ⊎ ((a : A) × (p : Parent) × (r ≡ finished a p) × (f a p ≡ raised c e q))
>>=-eq-raised (finished a p) f h = inr (a, p, refl, h)
>>=-eq-raised (raised c e p) f h = inl cc
>>=-eq-raised (running p) f h = cc
