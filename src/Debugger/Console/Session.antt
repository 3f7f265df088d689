-- ===== src/Debugger/Console/Session.antt =====
-- A session at the console against a plain list of breakpoints.
pub mod Run
use ck_agent.Base.{
  ℕ, zero, suc, ◌+◌, ◌≤◌, ◌<◌, ◌≡◌, ◌≢◌, refl, sym, ◌∙◌, ap, inl, inr, Bool, true, false, ◌||◌,
  Option, none, some, List, [], ◌∷◌, arith, ◌==◌, if◌then◌else◌, Bool-cases, ℤ, Bytes, codes,
  length,
}
use ck_agent.Log.Level.{LogLevel, everything}
use ck_agent.Memory.{
  Ptr, null, Memory, Outcome, done, crash, endless, Command, continue, ◌>>=◌, pure,
}
use ck_agent.Memory.Chain.{
  not-has_of_none, Entries, has, first, payloads, IsChain, SameOutside, Returns,
}
use ck_agent.Debugger.Breakpoints.{
  Breakpoint, breakpoint, matching, breakpoint_add, breakpoint_clear, breakpoint_clearall,
}
use ck_agent.Debugger.Breakpoints.Clear.{
  others, Freed, Cleared, head_matches, breakpoint_clear-others, breakpoint_clear-crash,
}
use ck_agent.Debugger.Breakpoints.Edit.{Emptied, breakpoint_add_lem, breakpoint_clearall_lem}
use ck_agent.Debugger.Console.{
  strip_end, Instruction, quit, clear_all, toggle_trace, backtrace, break_at, clear_at, evaluate,
  instruction, Hook, no_hook, stop_hook, Console, trace, Chunk, run_chunk, step, enter, session,
  debugger,
}

-- The console with its breakpoints as a list, the last one set first.
pub record Outline : Type 0 where
  pub list : List Breakpoint
  pub hook : Hook
  pub tracing : Bool
  pub level : LogLevel

pub data Ending : Type 0 where
  crashes : Ending
  ended : Outline → Ending

abbrev pub unmatched : Bytes → ℤ → List Breakpoint → List Breakpoint
unmatched name line [] = []
unmatched name line (b ∷ bs) =
    if matching name line b then unmatched name line bs else b ∷ unmatched name line bs

abbrev pub first_matches : Bytes → ℤ → List Breakpoint → Bool
first_matches name line [] = false
first_matches name line (b ∷ bs) = matching name line b

-- The console with a head in place of the list.
abbrev pub console_at : Ptr → Outline → Console
console_at p o = record { head = p; hook = o.hook; tracing = o.tracing; level = o.level }

-- What a command that leaves the breakpoints alone does to the rest.
abbrev pub with_rest : Outline → Console → Outline
with_rest o c = record { list = o.list; hook = c.hook; tracing = c.tracing; level = c.level }

-- The commands on the list: to clear the first breakpoint crashes.
abbrev pub react :
    Chunk → LogLevel → Instruction → Outline → (finish next : Outline → Ending) → Ending
react run orig quit o finish next = finish o
react run orig (break_at name line) o finish next =
    next (record o { list = breakpoint name line ∷ o.list; hook = stop_hook })
react run orig (clear_at name line) o finish next =
    if first_matches name line o.list
    then crashes
    else next (record o { list = unmatched name line o.list; hook = no_hook })
react run orig clear_all o finish next = next (record o { list = []; hook = no_hook })
react run orig toggle_trace o finish next = next (with_rest o (trace (console_at null o)))
react run orig backtrace o finish next = next (
    with_rest o (
      run_chunk run orig (codes "equus_stackwalk()")
        (record (console_at null o) { level = everything })))
react run orig (evaluate b) o finish next =
    next (with_rest o (run_chunk run orig b (console_at null o)))

abbrev pub rehearse : Chunk → LogLevel → List Bytes → Outline → (finish : Outline → Ending) → Ending
rehearse run orig [] o finish = finish o
rehearse run orig (line ∷ lines) o finish =
    react run orig (instruction (strip_end line)) o finish (λ d. rehearse run orig lines d finish)

-- The run on memory ends as the run on the list does, and leaves its list in memory.
abbrev pub Agrees : Ending → Outcome Breakpoint Console → Type 0
Agrees crashes r = r ≡ crash
Agrees (ended o) (done c n) =
    (xs : Entries Breakpoint) × IsChain n xs
    × (payloads xs ≡ o.list)
    × (c ≡ console_at (first xs) o)
Agrees (ended o) crash = ⊥
Agrees (ended o) endless = ⊥

-- The memory holds the list, nothing lives from `next` on, and the fuel is enough.
pub record Holding (k next left : ℕ) (m : Memory Breakpoint) (xs : Entries Breakpoint) (o : Outline)
    : Type 0 where
  pub chain : IsChain m xs
  pub unused : (a : Ptr) → next ≤ a → m a ≡ none
  pub real : 0 < next
  pub fuel : length xs + left < k
  pub listed : payloads xs ≡ o.list

pub payloads-others :
    (name : Bytes) (line : ℤ) (xs : Entries Breakpoint)
    → payloads (others name line xs) ≡ unmatched name line (payloads xs)
payloads-others name line [] = refl
payloads-others name line ((p, b) ∷ xs) = elim (Bool-cases (matching name line b)) [
  | inl hit ↦ rw hit (payloads-others name line xs)
  | inr miss ↦ rw miss (ap (◌∷◌ b) (payloads-others name line xs))
]

pub length-others-le :
    (name : Bytes) (line : ℤ) (xs : Entries Breakpoint) → length (others name line xs) ≤ length xs
length-others-le name line [] = omega arith
length-others-le name line ((p, b) ∷ xs) = elim (Bool-cases (matching name line b)) [
  | inl hit ↦ rw hit (omega (arith, length-others-le name line xs))
  | inr miss ↦ rw miss (omega (arith, length-others-le name line xs))
]

pub first-others :
    (name : Bytes) (line : ℤ) (xs : Entries Breakpoint)
    → head_matches name line xs ≡ false
    → first (others name line xs) ≡ first xs
first-others name line [] h = refl
first-others name line ((p, b) ∷ xs) h = rw h

pub head_matches-payloads :
    (name : Bytes) (line : ℤ) (xs : Entries Breakpoint)
    → head_matches name line xs ≡ first_matches name line (payloads xs)
head_matches-payloads name line [] = refl
head_matches-payloads name line ((p, b) ∷ xs) = refl

pub Agrees-bind :
    (P : Ptr → Memory Breakpoint → Type 0) (e : Ending) (r : Outcome Breakpoint Ptr)
    (d : Ptr → Console) (f : Option Console → Command Breakpoint Console)
    → ((a : Ptr) (n : Memory Breakpoint) → P a n → Agrees e (f (some (d a)) n))
    → Returns P r
    → Agrees e (continue (continue r (λ p. pure (some (d p)))) f)
Agrees-bind P e (done a n) d f g p = g a n p
Agrees-bind P e crash d f g p = absurd p
Agrees-bind P e endless d f g p = absurd p
