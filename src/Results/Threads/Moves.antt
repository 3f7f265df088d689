-- ===== src/Results/Threads/Moves.antt =====
-- The statements of a thread on the results stack of src/equus_util.c that write what is shared:
-- `malloc`, `head = e` and `free`.
use ck_agent.Base.{
  ℕ, ◌≡◌, ◌≢◌, refl, sym, true, false, ◌⊎◌, Bytes, List, ◌∷◌, none, some, length, arith, inl, inr,
}
use ck_agent.Memory.{Ptr, null, Cell, cell, Memory, update}
use ck_agent.Memory.Chain.{Entries, has, not-has_of_none, frame-update}
use ck_agent.Results.{Item, entry, result}
use ck_agent.Results.Stack.{Holds-update}
use ck_agent.Results.Refines.{not-has_of_unused, not-has_of_result, Holds-free}
use ck_agent.Results.Threads.{
  Place, idle, locking_push, allocating, publishing, unlocking, owning, pushed, Store, write,
}
use ck_agent.Results.Threads.Invariant.{inside, owned, Local, Whole, Good, after_push}
use ck_agent.Results.Threads.Turns.{Mutex-same, Here, Leads, outside}
use ck_agent.Results.Threads.Frames.{owned-live, Local-write, Local-free, Local-push}

module _ {s : Store} {place : ℕ → Place} {xs : Entries Item} {rs : List (Ptr × Bytes)}
    (g : Good s place xs rs) (i : ℕ) where
  abbrev m : Memory Item
  m = s.memory

  -- `malloc` and the writes to what it returns.
  module _ (fresh : Ptr) (free : m fresh ≡ none) (c : Cell Item) where
    filled_whole : Whole (write s fresh (some c)) xs rs
    filled_whole =
        let (chain, holds) = g.whole.stack in
        record {
          stack = (
            frame-update xs m fresh (some c) chain (not-has_of_none m fresh xs chain free),
            Holds-update m fresh (some c) xs rs free holds,
          );
          at_head = g.whole.at_head;
          distinct = g.whole.distinct;
          explained = g.whole.explained;
        }

    filling :
        (p p' : Place)
        → Here s place i xs rs p
        → Local (update m fresh (some c)) xs rs p'
        → inside p' ≡ inside p
        → (owned p' ≡ fresh) ⊎ (owned p' ≡ owned p)
        → Leads s place i (write s fresh (some c), p')
    filling p p' h l same o = (
      xs,
      rs,
      record {
        whole = filled_whole;
        local = l;
        others = λ j ne. Local-write m xs rs (place j) fresh (some c) free (g.local j);
        mutex =
            Mutex-same i s.holder (inside p') (λ e. h.alone (ground arith))
              (λ e. ground (arith, h.held));
        unique = λ j ne. ground (arith, h.unique j, owned-live m xs rs (place j) (g.local j));
      },
    )

    unused : has fresh rs ≡ false
    unused = not-has_of_unused m fresh xs rs g.whole.stack.1 free

  pub pushing :
      (fresh : Ptr) (b : Bytes)
      → fresh ≢ null
      → m fresh ≡ none
      → Here s place i xs rs idle
      → Leads s place i
          (write s fresh (some (cell (result b (length b)) null)), locking_push fresh b)
  unfolding update
  pushing fresh b live free h =
      let c : Cell Item = cell (result b (length b)) null in
      filling fresh free c idle (locking_push fresh b) h (live, ground arith, unused fresh free c)
        refl (inl refl)

  pub linking :
      (fresh : Ptr) (r : Ptr) (b : Bytes)
      → fresh ≢ null
      → m fresh ≡ none
      → Here s place i xs rs (allocating r b)
      → Leads s place i (write s fresh (some (cell (entry r) s.head)), publishing r b fresh)
  unfolding update
  linking fresh r b live free h =
      let c : Cell Item = cell (entry r) s.head in
      let (real, at, out) = h.local in
      filling fresh free c (allocating r b) (publishing r b fresh) h
        (
          (real, ground arith, out),
          (live, ground (arith, g.whole.at_head), not-has_of_none m fresh xs g.whole.stack.0 free),
        )
        refl (inr refl)

  pub publish :
      (r : Ptr) (b : Bytes) (e : Ptr)
      → Here s place i xs rs (publishing r b e)
      → Leads s place i (record s { head = e; history = (i, pushed b) ∷ s.history }, unlocking)
  publish r b e h =
      let ((real, at, out), (live, cell_at, fresh)) = h.local in
      let (chain, holds) = g.whole.stack in
      (
        (e, entry r) ∷ xs,
        (r, b) ∷ rs,
        record {
          whole = record {
            stack = ((live, cell_at, fresh, chain), (refl, at, real, holds));
            at_head = refl;
            distinct = (out, g.whole.distinct);
            explained = after_push g.whole.explained;
          };
          local = tt;
          others = λ j ne.
              Local-push m xs rs (place j) e r b (outside g i (h.alone refl) j ne)
                (h.unique j ne real) (g.local j);
          mutex = Mutex-same i s.holder true h.alone h.held;
          unique = λ j ne real. absurd (real refl);
        },
      )

  pub freeing :
      (r : Ptr) (b : Bytes)
      → Here s place i xs rs (owning r b)
      → Leads s place i (write s r none, idle)
  freeing r b h =
      let (real, at, out) = h.local in
      let (chain, holds) = g.whole.stack in
      (
        xs,
        rs,
        record {
          whole = record {
            stack = (
              frame-update xs m r none chain (not-has_of_result m r b xs rs chain holds at),
              Holds-free m r xs rs holds out,
            );
            at_head = g.whole.at_head;
            distinct = g.whole.distinct;
            explained = g.whole.explained;
          };
          local = tt;
          others = λ j ne.
              Local-free m xs rs (place j) r b at (λ same. h.unique j ne real (sym same))
                (g.local j);
          mutex = Mutex-same i s.holder false h.alone h.held;
          unique = λ j ne real. absurd (real refl);
        },
      )
