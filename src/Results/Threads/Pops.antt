-- ===== src/Results/Threads/Pops.antt =====
-- The statements of `pop_rentry` of src/equus_util.c under the mutex: the test of `head`,
-- `*res = e->res` and `head = e->next`.
use ck_agent.Base.{ℕ, true, ◌≢◌, ◌∙◌, sym, ◌==◌, ◌≡◌, refl, inl, List, [], ◌∷◌, arith}
use ck_agent.Memory.{Ptr, null}
use ck_agent.Memory.Chain.{Entries, first, not_null}
use ck_agent.Results.{entry, result}
use ck_agent.Results.Refines.{Op}
use ck_agent.Results.Threads.{Place, testing, reading, removing, Store, advance}
use ck_agent.Results.Threads.Invariant.{Good, after_take, after_none}
use ck_agent.Results.Threads.Turns.{Mutex-same, Here, Leads, outside, quiet}
use ck_agent.Results.Threads.Frames.{link_at_lem, text_at_lem, owned-off, Local-pop}

null_head : (s : Store) → s.head ≡ null → (s.head == null) ≡ true
null_head s e = ground arith

module _ {s : Store} {place : ℕ → Place} (i : ℕ) (fresh : Ptr) (call : Op) where
  pub test :
      (xs : Entries _) (rs : List (Ptr × _)) (g : Good s place xs rs)
      → Here s place i xs rs testing
      → Leads s place i (advance i fresh call s testing)
  unfolding advance
  test [] [] g h = rw (null_head s g.whole.at_head) (
    [],
    [],
    record {
      whole = record {
        stack = (tt, tt);
        at_head = g.whole.at_head;
        distinct = tt;
        explained = after_none g.whole.explained;
      };
      local = tt;
      others = λ j ne. g.local j;
      mutex = Mutex-same i s.holder true h.alone h.held;
      unique = λ j ne real. absurd (real refl);
    },
  )
  test ((e, entry q) ∷ xs) ((r, b) ∷ rs) g h =
      let live : e ≢ null = g.whole.stack.0.0 in
      let same : s.head ≡ e = g.whole.at_head in
      rw (not_null s.head (λ nil. live (sym same ∙ nil))) (
        quiet g i testing (reading s.head) h ((λ nil. live (sym same ∙ nil)), same) refl (inl refl))
  test [] (r ∷ rs) g h = absurd g.whole.stack.1
  test ((e, entry _) ∷ xs) [] g h = absurd g.whole.stack.1
  test ((e, result _ _) ∷ xs) [] g h = absurd g.whole.stack.1
  test ((e, result _ _) ∷ xs) (r ∷ rs) g h = absurd g.whole.stack.1

  pub read :
      (e : Ptr) (xs : Entries _) (rs : List (Ptr × _)) (g : Good s place xs rs)
      → Here s place i xs rs (reading e)
      → Leads s place i (advance i fresh call s (reading e))
  unfolding advance
  read e [] rs g h = absurd (h.local.0 h.local.1)
  read e ((x, entry q) ∷ xs) ((r, b) ∷ rs) g h =
      let (live, same) = h.local in
      let (_, at, _, _) = g.whole.stack.0 in
      rw (same, link_at_lem s.memory x q (first xs) at)
        (quiet g i (reading e) (removing x q) h (g.whole.stack.0.0, refl, g.whole.stack.1.0) refl
          (inl refl))
  read e ((x, entry _) ∷ xs) [] g h = absurd g.whole.stack.1
  read e ((x, result _ _) ∷ xs) [] g h = absurd g.whole.stack.1
  read e ((x, result _ _) ∷ xs) (r ∷ rs) g h = absurd g.whole.stack.1

  pub detach :
      (e p : Ptr) (xs : Entries _) (rs : List (Ptr × _)) (g : Good s place xs rs)
      → Here s place i xs rs (removing e p)
      → Leads s place i (advance i fresh call s (removing e p))
  unfolding advance
  detach e p [] rs g h = absurd (h.local.0 h.local.1)
  detach e p ((x, entry q) ∷ xs) ((r, b) ∷ rs) g h =
      let (_, same, mine) = h.local in
      let (_, at, _, chain) = g.whole.stack.0 in
      let (_, at_r, real, holds) = g.whole.stack.1 in
      rw
        (
          same,
          mine,
          link_at_lem s.memory x q (first xs) at,
          text_at_lem s.memory r b (rw g.whole.stack.1.0 at at_r),
        )
        (
          xs,
          rs,
          record {
            whole = record {
              stack = (chain, holds);
              at_head = refl;
              distinct = g.whole.distinct.1;
              explained = after_take g.whole.explained;
            };
            local =
                (rw g.whole.stack.1.0 at real, rw g.whole.stack.1.0 at at_r, g.whole.distinct.0);
            others = λ j ne.
                Local-pop s.memory xs rs (place j) x r (entry q) b (outside g i (h.alone refl) j ne)
                  (g.local j);
            mutex = Mutex-same i s.holder true h.alone h.held;
            unique = λ j ne live same.
                ground (
                  arith,
                  owned-off s.memory ((x, entry q) ∷ xs) ((r, b) ∷ rs) (place j) (g.local j),
                );
          },
        )
  detach e p ((x, entry _) ∷ xs) [] g h = absurd g.whole.stack.1
  detach e p ((x, result _ _) ∷ xs) [] g h = absurd g.whole.stack.1
  detach e p ((x, result _ _) ∷ xs) (r ∷ rs) g h = absurd g.whole.stack.1
