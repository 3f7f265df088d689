-- ===== src/Results/Refines.antt =====
-- Any sequence of calls on the list of results against a plain stack of texts.
use ck_agent.Base.{
  ℕ, ◌+◌, ◌≤◌, ◌<◌, ◌≡◌, ◌≢◌, refl, ◌∙◌, false, Option, none, some, List, [], ◌∷◌, arith, ◌==◌,
  if◌then◌else◌, Bytes, length,
}
use ck_agent.Memory.{
  Ptr, null, cell, Memory, Command, crash, done, Shared, shared, pure, update, ◌>>=◌, ◌>>◌, load,
}
use ck_agent.Memory.Chain.{
  Entries, not_null, has, first, IsChain, Returns, bind, load-done, free-done, frame-update,
}
use ck_agent.Results.{Item, entry, result, equus_push_result, equus_pop_result, equus_free_result}
use ck_agent.Results.Stack.{Holds, IsStack, push-cons, pop-cons, pop-nil}

-- A call of a client: `take` pops a result, reads it and frees it, if there is one.
pub data Op : Type 0 where
  push : Bytes → Op
  take : Op

text_of : Item → Command Item Bytes
text_of (result b n) = pure b
text_of (entry r) = λ _. crash

take_result : Shared → Command Item (Option Bytes × Shared)
unfolding text_of
take_result s = do
  (r, s') ← equus_pop_result s
  let taken = load r >>= λ c. text_of c.payload >>= λ b. equus_free_result r >> pure (some b, s')
  if r == null then pure (none, s') else taken

-- The calls on memory; `malloc` returns the addresses from `next` on.
pub run : (next : ℕ) → List Op → Shared → Command Item (List (Option Bytes))
unfolding take_result
run next [] s = pure []
run next (push b ∷ ops) s =
    equus_push_result next (next + 1) s b (length b) >>= λ s'. run (next + 2) ops s'
run next (take ∷ ops) s = take_result s >>= λ (o, s'). run next ops s' >>= λ os. pure (o ∷ os)

-- The same calls on a stack of texts: what each `take` gives.
abbrev pub replay : List Op → List Bytes → List (Option Bytes)
replay [] st = []
replay (push b ∷ ops) st = replay ops (b ∷ st)
replay (take ∷ ops) [] = none ∷ replay ops []
replay (take ∷ ops) (b ∷ st) = some b ∷ replay ops st

abbrev pub texts : List (Ptr × Bytes) → List Bytes
texts [] = []
texts ((_, b) ∷ rs) = b ∷ texts rs

abbrev pub Distinct : Entries Bytes → Type 0
Distinct [] = Unit
Distinct ((r, _) ∷ rs) = (has r rs ≡ false) × Distinct rs

-- The memory holds this stack, and nothing lives from `next` on.
record Holding (next : ℕ) (m : Memory Item) (xs : Entries Item) (rs : List (Ptr × Bytes))
    : Type 0 where
  stack : IsStack m xs rs
  distinct : Distinct rs
  unused : (a : Ptr) → next ≤ a → m a ≡ none
  real : 0 < next

pub not-has_of_unused :
    (m : Memory Item) (p : Ptr) (xs : Entries Item) (rs : List (Ptr × Bytes))
    → Holds m xs rs
    → m p ≡ none
    → has p rs ≡ false
not-has_of_unused m p [] [] h free = refl
not-has_of_unused m p ((e, entry q) ∷ xs) ((r, b) ∷ rs) (same, at, live, h) free =
    ground (arith, not-has_of_unused m p xs rs h free)
not-has_of_unused m p [] (r ∷ rs) h free = absurd h
not-has_of_unused m p ((e, entry q) ∷ xs) [] h free = absurd h
not-has_of_unused m p ((e, result _ _) ∷ xs) [] h free = absurd h
not-has_of_unused m p ((e, result _ _) ∷ xs) (r ∷ rs) h free = absurd h

-- A cell of the list is no result.
pub not-has_of_result :
    (m : Memory Item) (p : Ptr) (b : Bytes) (xs : Entries Item) (rs : List (Ptr × Bytes))
    → IsChain m xs
    → Holds m xs rs
    → m p ≡ some (cell (result b (length b)) null)
    → has p xs ≡ false
not-has_of_result m p b [] [] c h at = refl
not-has_of_result m p b ((e, entry q) ∷ xs) ((r, d) ∷ rs) (live, here, out, c) (_, _, _, h) at =
    ground (arith, not-has_of_result m p b xs rs c h at)
not-has_of_result m p b [] (r ∷ rs) c h at = absurd h
not-has_of_result m p b ((e, entry q) ∷ xs) [] c h at = absurd h
not-has_of_result m p b ((e, result _ _) ∷ xs) [] c h at = absurd h
not-has_of_result m p b ((e, result _ _) ∷ xs) (r ∷ rs) c h at = absurd h

pub Holds-free :
    (m : Memory Item) (p : Ptr) (xs : Entries Item) (rs : List (Ptr × Bytes))
    → Holds m xs rs
    → has p rs ≡ false
    → Holds (update m p none) xs rs
unfolding update
Holds-free m p [] [] h out = tt
Holds-free m p ((e, entry q) ∷ xs) ((r, b) ∷ rs) (same, at, live, h) out =
    (same, ground arith, live, Holds-free m p xs rs h (ground arith))
Holds-free m p [] (r ∷ rs) h out = absurd h
Holds-free m p ((e, entry q) ∷ xs) [] h out = absurd h
Holds-free m p ((e, result _ _) ∷ xs) [] h out = absurd h
Holds-free m p ((e, result _ _) ∷ xs) (r ∷ rs) h out = absurd h

take_result-nil : (m : Memory Item) → take_result (shared null) m ≡ done (none, shared null) m
unfolding take_result
take_result-nil m = rw (pop-nil m)

take_result-cons :
    (next : ℕ) (m : Memory Item) (e : Ptr) (v : Item) (xs : Entries Item) (r : Ptr) (b : Bytes)
    (rs : List (Ptr × Bytes))
    → Holding next m ((e, v) ∷ xs) ((r, b) ∷ rs)
    → take_result (shared e) m ≡ done (some b, shared (first xs)) (update m r none)
unfolding take_result equus_free_result
take_result-cons next m e (result _ _) xs r b rs h = absurd h.stack.1
take_result-cons next m e (entry q) xs r b rs h =
    let (popped, _, at) = pop-cons m e (entry q) xs r b rs h.stack in
    let same : q ≡ r = h.stack.1.0 in
    let live : r ≢ null = rw same at h.stack.1.2 in
    rw (popped, not_null r live, load-done m live at, free-done m live at)

Holding-take :
    (next : ℕ) (m : Memory Item) (e : Ptr) (v : Item) (xs : Entries Item) (r : Ptr) (b : Bytes)
    (rs : List (Ptr × Bytes))
    → Holding next m ((e, v) ∷ xs) ((r, b) ∷ rs)
    → Holding next (update m r none) xs rs
unfolding update
Holding-take next m e (result _ _) xs r b rs h = absurd h.stack.1
Holding-take next m e (entry q) xs r b rs h =
    let (_, (c, holds), at) = pop-cons m e (entry q) xs r b rs h.stack in
    record {
      stack = (
        frame-update xs m r none c (not-has_of_result m r b xs rs c holds at),
        Holds-free m r xs rs holds h.distinct.0,
      );
      distinct = h.distinct.1;
      unused = λ a le. ground (arith, h.unused a);
      real = h.real;
    }

-- What a push leaves, as `push-cons` says it.
abbrev Pushed :
    ℕ → Memory Item → Entries Item → List (Ptr × Bytes) → Bytes → Shared → Memory Item → Type 0
Pushed next m xs rs b s n =
    (s ≡ shared (next + 1))
    × IsStack n ((next + 1, entry next) ∷ xs) ((next, b) ∷ rs)
    × ((a : Ptr) → a ≢ next → a ≢ next + 1 → n a ≡ m a)

Holding-push :
    (next : ℕ) (m n : Memory Item) (xs : Entries Item) (rs : List (Ptr × Bytes)) (b : Bytes)
    (s : Shared)
    → Holding next m xs rs
    → Pushed next m xs rs b s n
    → Holding (next + 2) n ((next + 1, entry next) ∷ xs) ((next, b) ∷ rs)
Holding-push next m n xs rs b s h (_, stack, same) = record {
  stack = stack;
  distinct = (not-has_of_unused m next xs rs h.stack.1 (h.unused next (omega arith)), h.distinct);
  unused = λ a le. same a (λ e. omega arith) (λ e. omega arith) ∙ h.unused a (omega arith);
  real = omega arith;
}

run-replay :
    (ops : List Op) (next : ℕ) (m : Memory Item) (xs : Entries Item) (rs : List (Ptr × Bytes))
    → Holding next m xs rs
    → Returns (λ os n. os ≡ replay ops (texts rs)) (run next ops (shared (first xs)) m)
unfolding run
run-replay [] next m xs rs h = refl
run-replay (push b ∷ ops) next m xs rs h =
    bind (Pushed next m xs rs b) (λ os n. os ≡ replay ops (b ∷ texts rs))
      (equus_push_result next (next + 1) (shared (first xs)) b (length b) m) _
      (λ s n pushed. rw pushed.0 (
        run-replay ops (next + 2) n ((next + 1, entry next) ∷ xs) ((next, b) ∷ rs)
          (Holding-push next m n xs rs b s h pushed)))
      (push-cons m next (next + 1) b xs rs h.stack
        ((λ e. omega (arith, h.real)), h.unused next (omega arith))
        ((λ e. omega arith), h.unused (next + 1) (omega arith), (λ e. omega arith)))
run-replay (take ∷ ops) next m [] [] h = rw (take_result-nil m) (
    bind (λ os n. os ≡ replay ops []) (λ os n. os ≡ none ∷ replay ops []) _ _ (λ os n e. cc)
      (run-replay ops next m [] [] h))
run-replay (take ∷ ops) next m ((e, v) ∷ xs) ((r, b) ∷ rs) h =
    rw (take_result-cons next m e v xs r b rs h) (
      bind (λ os n. os ≡ replay ops (texts rs)) (λ os n. os ≡ some b ∷ replay ops (texts rs)) _ _
        (λ os n e. cc)
        (run-replay ops next (update m r none) xs rs (Holding-take next m e v xs r b rs h)))
run-replay (take ∷ ops) next m [] (r ∷ rs) h = absurd h.stack.1
run-replay (take ∷ ops) next m ((e, entry _) ∷ xs) [] h = absurd h.stack.1
run-replay (take ∷ ops) next m ((e, result _ _) ∷ xs) [] h = absurd h.stack.1

abbrev pub empty_memory : Memory Item
empty_memory a = none

-- The list of results implements a stack: any sequence of calls on the empty list, each taken result
-- being read and freed, returns, and gives what the same calls on a plain stack of texts give. The new
-- cells are at addresses from one on that is not NULL.
pub run_refines :
    (ops : List Op) (next : ℕ)
    → 0 < next
    → Returns (λ os n. os ≡ replay ops []) (run next ops (shared null) empty_memory)
run_refines ops next real =
    run-replay ops next empty_memory [] []
      (record { stack = (tt, tt); distinct = tt; unused = λ a le. refl; real = real })
