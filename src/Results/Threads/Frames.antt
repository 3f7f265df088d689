-- ===== src/Results/Threads/Frames.antt =====
-- What a thread on the results stack of src/equus_util.c relies on while others run.
use ck_agent.Base.{◌≡◌, ◌≢◌, refl, false, Bytes, List, ◌∷◌, Option, none, some, length, arith}
use ck_agent.Memory.{Ptr, null, Cell, cell, Memory, update}
use ck_agent.Memory.Chain.{Entries, has}
use ck_agent.Results.{Item, entry, result}
use ck_agent.Results.Threads.{
  Place, idle, locking_push, allocating, publishing, unlocking, locking_pop, testing, reading,
  removing, leaving, owning, crashed, link_at, text_at,
}
use ck_agent.Results.Threads.Invariant.{inside, owned, Local}

module _ (m : Memory Item) where
  pub link_at_lem : (e r q : Ptr) → m e ≡ some (cell (entry r) q) → link_at m e ≡ some (r, q)
  unfolding link_at
  link_at_lem e r q at = rw (at, link_at)

  pub text_at_lem :
      (r : Ptr) (b : Bytes) → m r ≡ some (cell (result b (length b)) null) → text_at m r ≡ some b
  unfolding text_at
  text_at_lem r b at = rw (at, text_at)

module _ (m : Memory Item) (xs : Entries Item) (rs : List (Ptr × Bytes)) where
  -- The result of a thread is live.
  pub owned-live : (q : Place) → Local m xs rs q → owned q ≢ null → m (owned q) ≢ none
  owned-live (locking_push r b) l h = ground arith
  owned-live (allocating r b) l h = ground arith
  owned-live (publishing r b e) l h = ground arith
  owned-live (leaving r b) l h = ground arith
  owned-live (owning r b) l h = ground arith
  owned-live idle l h = absurd (h refl)
  owned-live unlocking l h = absurd (h refl)
  owned-live locking_pop l h = absurd (h refl)
  owned-live testing l h = absurd (h refl)
  owned-live (reading e) l h = absurd (h refl)
  owned-live (removing e r) l h = absurd (h refl)
  owned-live crashed l h = absurd (h refl)

  pub owned-off : (q : Place) → Local m xs rs q → owned q ≢ null → has (owned q) rs ≡ false
  owned-off (locking_push r b) l h = l.2
  owned-off (allocating r b) l h = l.2
  owned-off (publishing r b e) l h = l.0.2
  owned-off (leaving r b) l h = l.2
  owned-off (owning r b) l h = l.2
  owned-off idle l h = absurd (h refl)
  owned-off unlocking l h = absurd (h refl)
  owned-off locking_pop l h = absurd (h refl)
  owned-off testing l h = absurd (h refl)
  owned-off (reading e) l h = absurd (h refl)
  owned-off (removing e r) l h = absurd (h refl)
  owned-off crashed l h = absurd (h refl)

  -- `malloc` at an address at which nothing lives.
  pub Local-write :
      (q : Place) (p : Ptr) (c : Option (Cell Item))
      → m p ≡ none
      → Local m xs rs q
      → Local (update m p c) xs rs q
  unfolding update
  Local-write (locking_push r b) p c free l = ground arith
  Local-write (allocating r b) p c free l = ground arith
  Local-write (publishing r b e) p c free l = ground arith
  Local-write (leaving r b) p c free l = ground arith
  Local-write (owning r b) p c free l = ground arith
  Local-write idle p c free l = l
  Local-write unlocking p c free l = l
  Local-write locking_pop p c free l = l
  Local-write testing p c free l = l
  Local-write (reading e) p c free l = l
  Local-write (removing e r) p c free l = l
  Local-write crashed p c free l = l

  -- `free` of a result that another thread has.
  pub Local-free :
      (q : Place) (p : Ptr) (b : Bytes)
      → m p ≡ some (cell (result b (length b)) null)
      → owned q ≢ p
      → Local m xs rs q
      → Local (update m p none) xs rs q
  unfolding update
  Local-free (locking_push r b) p c live ne l = ground arith
  Local-free (allocating r b) p c live ne l = ground arith
  Local-free (publishing r b e) p c live ne l = ground arith
  Local-free (leaving r b) p c live ne l = ground arith
  Local-free (owning r b) p c live ne l = ground arith
  Local-free idle p c live ne l = l
  Local-free unlocking p c live ne l = l
  Local-free locking_pop p c live ne l = l
  Local-free testing p c live ne l = l
  Local-free (reading e) p c live ne l = l
  Local-free (removing e r) p c live ne l = l
  Local-free crashed p c live ne l = l

  -- `head = e` of another thread.
  pub Local-push :
      (q : Place) (e r : Ptr) (b : Bytes)
      → inside q ≡ false
      → r ≢ owned q
      → Local m xs rs q
      → Local m ((e, entry r) ∷ xs) ((r, b) ∷ rs) q
  Local-push (locking_push r' c) e r b out ne l = ground arith
  Local-push (owning r' c) e r b out ne l = ground arith
  Local-push idle e r b out ne l = l
  Local-push locking_pop e r b out ne l = l
  Local-push crashed e r b out ne l = l
  Local-push (allocating _ _) e r b out ne l = cc
  Local-push (publishing _ _ _) e r b out ne l = cc
  Local-push unlocking e r b out ne l = cc
  Local-push testing e r b out ne l = cc
  Local-push (reading _) e r b out ne l = cc
  Local-push (removing _ _) e r b out ne l = cc
  Local-push (leaving _ _) e r b out ne l = cc

  -- `head = e->next` of another thread.
  pub Local-pop :
      (q : Place) (e r : Ptr) (v : Item) (b : Bytes)
      → inside q ≡ false
      → Local m ((e, v) ∷ xs) ((r, b) ∷ rs) q
      → Local m xs rs q
  Local-pop (locking_push r' c) e r v b out l = ground arith
  Local-pop (owning r' c) e r v b out l = ground arith
  Local-pop idle e r v b out l = l
  Local-pop locking_pop e r v b out l = l
  Local-pop crashed e r v b out l = l
  Local-pop (allocating _ _) e r v b out l = cc
  Local-pop (publishing _ _ _) e r v b out l = cc
  Local-pop unlocking e r v b out l = cc
  Local-pop testing e r v b out l = cc
  Local-pop (reading _) e r v b out l = cc
  Local-pop (removing _ _) e r v b out l = cc
  Local-pop (leaving _ _) e r v b out l = cc
