-- ===== src/Exec/Child.antt =====
-- The child of `fork`: its descriptors at `execvp`, and how it ends if that fails.
use ck_agent.Base.{ℕ, ◌≡◌, ◌≢◌, ◌<◌, Option, none, some, arith, ◌==◌, if◌then◌else◌, Bytes}

-- What a descriptor stands for: an end of one of the parent's pipes, or a file from before.
pub data File : Type 0 where
  stdout_read stdout_write stderr_read stderr_write inherited : File

abbrev pub Table : Type 0
Table = ℕ → Option File

abbrev pub put_file : Table → ℕ → Option File → Table
put_file t d f a = if a == d then f else t a

close : ℕ → Table → Table
close d t = put_file t d none

-- `dup2(old, new)`
dup2 : ℕ → ℕ → Table → Table
dup2 old new t = put_file t new (t old)

-- The numbers that `pipe` gave the four ends.
pub record Pipes : Type 0 where
  pub out0 : ℕ
  pub out1 : ℕ
  pub err0 : ℕ
  pub err1 : ℕ

-- The descriptors of the child before its first call.
pub forked : Table → Pipes → Table
forked t p =
    put_file
      (put_file (put_file (put_file t p.out0 (some stdout_read)) p.out1 (some stdout_write)) p.err0
        (some stderr_read))
      p.err1 (some stderr_write)

-- The calls between `fork` and `execvp`.
pub redirect : Pipes → Table → Table
unfolding close dup2
redirect p t =
    let t1 = close 0 t in
    let t2 = close p.out1 (dup2 p.out1 1 (close p.out0 t1)) in
    close p.err1 (dup2 p.err1 2 (close p.err0 t2))

-- `execvp` that returns: the text written to stderr, and the exit code. `strerror` is the C library's.
pub exec_failed : (ℕ → Bytes) → ℕ → Bytes × ℕ
exec_failed strerror e = (strerror e, 1)

-- The four ends have different numbers, none of them a standard descriptor.
pub record AreFresh (p : Pipes) : Type 0 where
  pub out0_fresh : 2 < p.out0
  pub out1_fresh : 2 < p.out1
  pub err0_fresh : 2 < p.err0
  pub err1_fresh : 2 < p.err1
  pub out0_out1 : p.out0 ≢ p.out1
  pub out0_err0 : p.out0 ≢ p.err0
  pub out0_err1 : p.out0 ≢ p.err1
  pub out1_err0 : p.out1 ≢ p.err0
  pub out1_err1 : p.out1 ≢ p.err1
  pub err0_err1 : p.err0 ≢ p.err1

-- The program that the child executes writes its standard output and its standard error into the two
-- pipes, has no standard input and none of the pipe ends under their own numbers, and else the
-- descriptors that were there.
pub redirect_lem :
    (t : Table) (p : Pipes)
    → AreFresh p
    → (redirect p (forked t p) 0 ≡ none)
      × (redirect p (forked t p) 1 ≡ some stdout_write)
      × (redirect p (forked t p) 2 ≡ some stderr_write)
      × (redirect p (forked t p) p.out0 ≡ none)
      × (redirect p (forked t p) p.out1 ≡ none)
      × (redirect p (forked t p) p.err0 ≡ none)
      × (redirect p (forked t p) p.err1 ≡ none)
      × ((d : ℕ)
          → 2 < d
          → d ≢ p.out0
          → d ≢ p.out1
          → d ≢ p.err0
          → d ≢ p.err1
          → redirect p (forked t p) d ≡ t d)
unfolding redirect forked
redirect_lem t p f = (
  ground arith,
  ground arith,
  ground arith,
  ground arith,
  ground arith,
  ground arith,
  ground arith,
  λ d a b c e g. ground arith,
)
