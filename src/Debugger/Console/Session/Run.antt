-- ===== src/Debugger/Console/Session/Run.antt =====
-- What each instruction and a whole session of `luahook_debugger` do to the list.
use ck_agent.Base.{
  ℕ, suc, ◌+◌, ◌≤◌, ◌≡◌, refl, sym, ◌∙◌, ap, inl, inr, Option, none, some, List, [], ◌∷◌, arith,
  Bool-cases, ℤ, Bytes, length,
}
use ck_agent.Log.Level.{LogLevel}
use ck_agent.Memory.{Ptr, Memory, Outcome, Command, continue, pure, done, crash, endless}
use ck_agent.Memory.Chain.{not-has_of_none, Entries, first, IsChain, SameOutside}
use ck_agent.Debugger.Breakpoints.{
  Breakpoint, breakpoint, breakpoint_add, breakpoint_clear, breakpoint_clearall,
}
use ck_agent.Debugger.Breakpoints.Clear.{
  others, Cleared, head_matches, breakpoint_clear-others, breakpoint_clear-crash,
}
use ck_agent.Debugger.Breakpoints.Edit.{Emptied, breakpoint_add_lem, breakpoint_clearall_lem}
use ck_agent.Debugger.Console.{
  strip_end, Instruction, quit, clear_all, toggle_trace, backtrace, break_at, clear_at, evaluate,
  instruction, Hook, no_hook, stop_hook, Console, Chunk, step, enter, session,
}
use ck_agent.Debugger.Console.Session.{
  Outline, Ending, unmatched, first_matches, console_at, react, rehearse, Agrees, Holding,
  payloads-others, length-others-le, first-others, head_matches-payloads, Agrees-bind,
}

-- How the loop goes on behind an instruction: none leaves it.
abbrev onward :
    Console
    → (leave loop : Console → Command Breakpoint Console) → Option Console
    → Command Breakpoint Console
onward c leave loop r = elim r [ none ↦ leave c | some d ↦ loop d ]

onward-continue :
    (c : Console) (leave loop : Console → Command Breakpoint Console) (r : Option Console)
    (n : Memory Breakpoint)
    → continue (onward c pure loop r n) leave
      ≡ onward c leave (λ d p. continue (loop d p) leave) r n
onward-continue c leave loop none n = refl
onward-continue c leave loop (some d) n = refl

module _ (k : ℕ) (run : Chunk) (orig : LogLevel) (next left : ℕ) (m : Memory Breakpoint)
    (xs : Entries Breakpoint) (o : Outline) (h : Holding k next (suc left) m xs o)
    (finish cont : Outline → Ending) (leave loop : Console → Command Breakpoint Console)
    (leaves : (d : Outline) (ys : Entries Breakpoint) (n : Memory Breakpoint)
      → Holding k (next + 1) left n ys d
      → Agrees (finish d) (leave (console_at (first ys) d) n))
    (goes_on : (d : Outline) (ys : Entries Breakpoint) (n : Memory Breakpoint)
      → Holding k (next + 1) left n ys d
      → Agrees (cont d) (loop (console_at (first ys) d) n)) where
  -- The run of one instruction and of what follows.
  abbrev continued : Instruction → Outcome Breakpoint Console
  continued i =
      continue (step k run orig next i (console_at (first xs) o) m)
        (onward (console_at (first xs) o) leave loop)

  abbrev moved : Hook → Ptr → Console
  moved w p = record (console_at (first xs) o) { head = p; hook = w }

  -- The next step of a console whose breakpoints stay.
  stays : (d : Outline) → d.list ≡ o.list → Holding k (next + 1) left m xs d
  stays d same = record {
    chain = h.chain;
    unused = λ a le. h.unused a (omega arith);
    real = omega arith;
    fuel = omega (arith, h.fuel);
    listed = h.listed ∙ sym same;
  }

  add-Agrees :
      (name : Bytes) (line : ℤ)
      → Agrees (react run orig (break_at name line) o finish cont) (continued (break_at name line))
  unfolding step
  add-Agrees name line =
      let b : Breakpoint = breakpoint name line in
      let d : Outline = record o { list = b ∷ o.list; hook = stop_hook } in
      let gone : m next ≡ none = h.unused next (omega arith) in
      Agrees-bind
        (λ p n. (p ≡ next) × IsChain n ((next, b) ∷ xs) × SameOutside ((next, b) ∷ []) m n) (cont d)
        (breakpoint_add next (first xs) name line m) (moved stop_hook)
        (onward (console_at (first xs) o) leave loop)
        (λ p n (at_next, c, same). rw at_next (
          goes_on d ((next, b) ∷ xs) n (record {
            chain = c;
            unused = λ a le. same a (ground arith) ∙ h.unused a (omega arith);
            real = omega arith;
            fuel = omega (arith, h.fuel);
            listed = ap (◌∷◌ b) h.listed;
          })))
        (breakpoint_add_lem next name line xs m h.chain (λ e. omega (arith, h.real))
          (not-has_of_none m next xs h.chain gone))

  clear-Agrees :
      (name : Bytes) (line : ℤ)
      → Agrees (react run orig (clear_at name line) o finish cont) (continued (clear_at name line))
  unfolding step
  clear-Agrees name line =
      let d : Outline = record o { list = unmatched name line o.list; hook = no_hook } in
      let same_test : head_matches name line xs ≡ first_matches name line o.list =
        head_matches-payloads name line xs ∙ ap (first_matches name line) h.listed in
      elim (Bool-cases (first_matches name line o.list)) [
        | inl hit ↦ rw (
          hit,
          breakpoint_clear-crash k name line xs m h.chain (omega (arith, h.fuel)) (same_test ∙ hit),
        )
        | inr miss ↦ rw miss (
            Agrees-bind (Cleared name line xs m) (cont d)
              (breakpoint_clear k (first xs) name line m) (moved no_hook)
              (onward (console_at (first xs) o) leave loop)
              (λ p n (c, same, _, at_first).
                rw (at_first, sym (first-others name line xs (same_test ∙ miss)))
                  (goes_on d (others name line xs) n (record {
                    chain = c;
                    unused = λ a le.
                        same a (not-has_of_none m a xs h.chain (h.unused a (omega arith)))
                        ∙ h.unused a (omega arith);
                    real = omega arith;
                    fuel = omega (arith, h.fuel, length-others-le name line xs);
                    listed = payloads-others name line xs ∙ ap (unmatched name line) h.listed;
                  })))
              (breakpoint_clear-others k name line xs m h.chain (omega (arith, h.fuel))
                (same_test ∙ miss)))
      ]

  clearall-Agrees : Agrees (react run orig clear_all o finish cont) (continued clear_all)
  unfolding step
  clearall-Agrees =
      let d : Outline = record o { list = []; hook = no_hook } in
      Agrees-bind (Emptied xs m) (cont d) (breakpoint_clearall k (first xs) m) (moved no_hook)
        (onward (console_at (first xs) o) leave loop)
        (λ p n (at_null, same, _). rw at_null (
          goes_on d [] n (record {
            chain = tt;
            unused = λ a le.
                same a (not-has_of_none m a xs h.chain (h.unused a (omega arith)))
                ∙ h.unused a (omega arith);
            real = omega arith;
            fuel = omega (arith, h.fuel);
            listed = refl;
          })))
        (breakpoint_clearall_lem k xs m h.chain (omega (arith, h.fuel)))

  step-Agrees : (i : Instruction) → Agrees (react run orig i o finish cont) (continued i)
  unfolding step
  step-Agrees quit = leaves o xs m (stays o refl)
  step-Agrees (break_at name line) = add-Agrees name line
  step-Agrees (clear_at name line) = clear-Agrees name line
  step-Agrees clear_all = clearall-Agrees
  step-Agrees toggle_trace = elim (Bool-cases o.tracing) [
    | inl on ↦ rw on (goes_on _ xs m (stays _ refl))
    | inr off ↦ rw off (goes_on _ xs m (stays _ refl))
  ]
  step-Agrees backtrace = goes_on _ xs m (stays _ refl)
  step-Agrees (evaluate b) = goes_on _ xs m (stays _ refl)

continue-continue :
    {A B C : Type 0} (r : Outcome Breakpoint A) (f : A → Command Breakpoint B)
    (g : B → Command Breakpoint C) (h : A → Command Breakpoint C)
    → ((a : A) (n : Memory Breakpoint) → continue (f a n) g ≡ h a n)
    → continue (continue r f) g ≡ continue r h
continue-continue (done a n) f g h e = e a n
continue-continue crash f g h e = refl
continue-continue endless f g h e = refl

pub Agrees-path : (e : Ending) {r s : Outcome Breakpoint Console} → r ≡ s → Agrees e s → Agrees e r
Agrees-path e same h = rw same h

-- More addresses in use and less to do.
pub later :
    {k next left next' left' : ℕ} (m : Memory Breakpoint) (xs : Entries Breakpoint) (o : Outline)
    → next ≤ next'
    → left' ≤ left
    → Holding k next left m xs o
    → Holding k next' left' m xs o
later m xs o more less h = record {
  chain = h.chain;
  unused = λ a le. h.unused a (omega arith);
  real = omega (arith, h.real);
  fuel = omega (arith, h.fuel);
  listed = h.listed;
}

module _ (k : ℕ) (run : Chunk) (orig : LogLevel) (rest : ℕ) (finish : Outline → Ending)
    (leave : Console → Command Breakpoint Console) where
  -- A session, and what follows it.
  pub session-Agrees :
      (lines : List Bytes) (next : ℕ) (m : Memory Breakpoint) (xs : Entries Breakpoint)
      (o : Outline)
      → ((d : Outline) (ys : Entries Breakpoint) (n : Memory Breakpoint)
          → Holding k (next + length lines) rest n ys d
          → Agrees (finish d) (leave (console_at (first ys) d) n))
      → Holding k next (length lines + rest) m xs o
      → Agrees
          (rehearse run orig lines o finish)
          (continue (session k next run orig lines (console_at (first xs) o) m) leave)
  unfolding session enter
  session-Agrees [] next m xs o leaves h =
      leaves o xs m (later m xs o (omega arith) (omega arith) h)
  session-Agrees (line ∷ lines) next m xs o leaves h =
      let i : Instruction = instruction (strip_end line) in
      let c : Console = console_at (first xs) o in
      let loop : Console → Command Breakpoint Console = session k (next + 1) run orig lines in
      let goes_on : Console → Command Breakpoint Console = λ d n. continue (loop d n) leave in
      Agrees-path (react run orig i o finish (λ d. rehearse run orig lines d finish))
        (continue-continue (step k run orig next i c m) (onward c pure loop) leave
          (onward c leave goes_on) (onward-continue c leave loop))
        (step-Agrees k run orig next (length lines + rest) m xs o
          (later m xs o (omega arith) (omega arith) h) finish
          (λ d. rehearse run orig lines d finish) leave goes_on
          (λ d ys n held. leaves d ys n (later n ys d (omega arith) (omega arith) held))
          (λ d ys n held.
            session-Agrees lines (next + 1) n ys d
              (λ e zs p kept. leaves e zs p (later p zs e (omega arith) (omega arith) kept)) held)
          i)
