-- ===== src/Results/Stack.antt =====
-- What the functions on the list of results do to it.
use ck_agent.Base.{
  ◌≡◌, ◌≢◌, refl, false, none, some, List, [], ◌∷◌, arith, Bytes, length, Option, take-all,
  ltb_irrefl,
}
use ck_agent.Memory.{Ptr, null, Cell, cell, Memory, done, shared, update, ◌>>=◌, ◌>>◌, pure}
use ck_agent.Memory.Chain.{
  not-has_of_none, Entries, not_null, has, first, IsChain, Returns, frame-update, load-done,
  free-done, initialise-done,
}
use ck_agent.Results.{Item, entry, result, equus_push_result, equus_pop_result, equus_free_result}

-- The results that the entries point at, each live.
abbrev pub Holds : Memory Item → Entries Item → List (Ptr × Bytes) → Type 0
Holds m [] [] = Unit
Holds m ((e, entry r) ∷ xs) ((r', b) ∷ rs) =
    (r ≡ r') × (m r ≡ some (cell (result b (length b)) null)) × (r ≢ null) × Holds m xs rs
Holds m _ _ = ⊥

-- From `first xs` the list holds these results, the last pushed first.
abbrev pub IsStack : Memory Item → Entries Item → List (Ptr × Bytes) → Type 0
IsStack m xs rs = IsChain m xs × Holds m xs rs

pub Holds-update :
    (m : Memory Item) (p : Ptr) (c : Option (Cell Item)) (xs : Entries Item)
    (rs : List (Ptr × Bytes))
    → m p ≡ none
    → Holds m xs rs
    → Holds (update m p c) xs rs
unfolding update
Holds-update m p c [] [] free h = tt
Holds-update m p c ((e, entry r) ∷ xs) ((r', b) ∷ rs) free (eq, at, ne, h) =
    (eq, ground arith, ne, Holds-update m p c xs rs free h)
Holds-update m p c [] (r ∷ rs) free h = h
Holds-update m p c ((e, entry r) ∷ xs) [] free h = h
Holds-update m p c ((e, result _ _) ∷ xs) [] free h = h
Holds-update m p c ((e, result _ _) ∷ xs) (r ∷ rs) free h = h

-- On an empty stack `equus_pop_result` returns NULL, changes nothing and releases the mutex.
pub pop-nil : (m : Memory Item) → equus_pop_result (shared null) m ≡ done (null, shared null) m
unfolding equus_pop_result
pop-nil m = refl

-- `equus_pop_result` returns the result that was pushed last, leaves the others, releases the mutex,
-- and frees nothing: the memory is as it was.
pub pop-cons :
    (m : Memory Item) (e : Ptr) (v : Item) (xs : Entries Item) (r : Ptr) (b : Bytes)
    (rs : List (Ptr × Bytes))
    → IsStack m ((e, v) ∷ xs) ((r, b) ∷ rs)
    → (equus_pop_result (shared e) m ≡ done (r, shared (first xs)) m)
      × IsStack m xs rs
      × (m r ≡ some (cell (result b (length b)) null))
unfolding equus_pop_result
pop-cons m e (entry q) xs r b rs ((live, at, out, c), (eq, held, ne, h)) =
    (rw (not_null e live, load-done m live at, eq), (c, h), rw eq at held)
pop-cons m e (result _ _) xs r b rs (c, h) = absurd h

-- `equus_push_result` puts a copy of the data on top of the stack, in the two structs that it
-- allocates, writes nowhere else and releases the mutex.
pub push-cons :
    (m : Memory Item) (new_res new_entry : Ptr) (b : Bytes) (xs : Entries Item)
    (rs : List (Ptr × Bytes))
    → IsStack m xs rs
    → (new_res ≢ null) × (m new_res ≡ none)
    → (new_entry ≢ null) × (m new_entry ≡ none) × (new_entry ≢ new_res)
    → Returns
        (λ s n.
          (s ≡ shared new_entry)
          × IsStack n ((new_entry, entry new_res) ∷ xs) ((new_res, b) ∷ rs)
          × ((a : Ptr) → a ≢ new_res → a ≢ new_entry → n a ≡ m a))
        (equus_push_result new_res new_entry (shared (first xs)) b (length b) m)
unfolding equus_push_result update
push-cons m new_res new_entry b xs rs (c, h) (live, unused) (live', unused', ne) =
    let res : Cell Item = cell (result b (length b)) null in
    let ent : Cell Item = cell (entry new_res) (first xs) in
    let m' : Memory Item = update m new_res (some res) in
    let unused2 : m' new_entry ≡ none = ground arith in
    let c' : IsChain m' xs =
      frame-update xs m new_res (some res) c (not-has_of_none m new_res xs c unused) in
    let out : has new_entry xs ≡ false = not-has_of_none m new_entry xs c unused' in
    rw
      (
        ltb_irrefl (length b),
        take-all (length b) b (omega arith),
        initialise-done m res live,
        initialise-done m' ent live',
      )
      (
        refl,
        (
          (live', ground arith, out, frame-update xs m' new_entry (some ent) c' out),
          (
            refl,
            ground arith,
            live,
            Holds-update m' new_entry (some ent) xs rs unused2
                (Holds-update m new_res (some res) xs rs unused h),
          ),
        ),
        λ a ne_res ne_entry. ground arith,
      )

-- After a push, the pop that takes the result back and `equus_free_result` on it, the mutex is released
-- and the list is the one before, the result is freed, but the list cell of the push is still allocated,
-- while it is none of the cells of the list; the rest of the memory is as before. The cell and the
-- result are put at two addresses that were not in use.
pub push_pop_free-leak :
    (m : Memory Item) (new_res new_entry : Ptr) (b : Bytes) (xs : Entries Item)
    (rs : List (Ptr × Bytes))
    → IsStack m xs rs
    → (new_res ≢ null) × (m new_res ≡ none)
    → (new_entry ≢ null) × (m new_entry ≡ none) × (new_entry ≢ new_res)
    → Returns
        (λ s n.
          (s ≡ shared (first xs))
          × (n new_res ≡ none)
          × (n new_entry ≡ some (cell (entry new_res) (first xs)))
          × (has new_entry xs ≡ false)
          × ((a : Ptr) → a ≢ new_entry → n a ≡ m a))
        ((do
          s ← equus_push_result new_res new_entry (shared (first xs)) b (length b)
          (r, s') ← equus_pop_result s
          equus_free_result r
          pure s')
          m)
unfolding equus_push_result equus_pop_result equus_free_result update
push_pop_free-leak m new_res new_entry b xs rs (c, h) (live, unused) (live', unused', ne) =
    let res : Cell Item = cell (result b (length b)) null in
    let ent : Cell Item = cell (entry new_res) (first xs) in
    let m' : Memory Item = update m new_res (some res) in
    let n : Memory Item = update m' new_entry (some ent) in
    let at : n new_entry ≡ some ent = ground arith in
    let at_res : n new_res ≡ some res = ground arith in
    rw
      (
        ltb_irrefl (length b),
        take-all (length b) b (omega arith),
        initialise-done m res live,
        initialise-done m' ent live',
      )
      (rw
        (
          not_null new_entry live',
          load-done n live' at,
          not_null new_res live,
          free-done n live at_res,
        )
        (
          refl,
          ground arith,
          ground arith,
          not-has_of_none m new_entry xs c unused',
          λ a i. ground arith,
        ))
