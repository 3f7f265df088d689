-- ===== src/Results/Threads/Turns.antt =====
-- The statements of a thread on the results stack of src/equus_util.c that change no more than its
-- place and the mutex.
use ck_agent.Base.{
  ℕ, ◌≡◌, ◌≢◌, refl, sym, Bool, true, false, ◌⊎◌, Bytes, List, Option, none, some, arith, inl,
}
use ck_agent.Memory.{Ptr, null}
use ck_agent.Memory.Chain.{Entries}
use ck_agent.Results.{Item}
use ck_agent.Results.Threads.{Place, Store, acquire, release}
use ck_agent.Results.Threads.Invariant.{inside, owned, Local, Whole, Good, Mutex, Turns}

pub Mutex-same :
    (i : ℕ) (h : Option ℕ) (b : Bool)
    → (b ≡ true → h ≡ some i)
    → (h ≡ some i → b ≡ true)
    → Mutex i h h b
Mutex-same i h b alone held = record {
  alone = alone;
  held = held;
  still = λ j ne. (λ e. e, λ e. e);
}

pub Mutex-lock : (i : ℕ) → Mutex i none (some i) true
Mutex-lock i = record {
  alone = λ e. refl;
  held = λ e. refl;
  still = λ j ne. (λ e. ground arith, λ e. cc);
}

pub Mutex-unlock : (i : ℕ) (h : Option ℕ) → h ≡ some i → Mutex i h none false
Mutex-unlock i h mine = record {
  alone = λ e. cc;
  held = λ e. cc;
  still = λ j ne. (λ e. cc, λ e. ground arith);
}

module _ (s : Store) (place : ℕ → Place) (i : ℕ) where
  -- What thread `i` knows when it is at `p`.
  pub record Here (xs : Entries Item) (rs : List (Ptr × Bytes)) (p : Place) : Type 0 where
    pub local : Local s.memory xs rs p
    pub alone : inside p ≡ true → s.holder ≡ some i
    pub held : s.holder ≡ some i → inside p ≡ true
    pub unique : (j : ℕ) → j ≢ i → owned p ≢ null → owned p ≢ owned (place j)

  -- Where a turn leads keeps what holds.
  abbrev pub Leads : Store × Place → Type 0
  Leads (s', p) = (xs : Entries Item) × (rs : List (Ptr × Bytes)) × Turns s place i s' p xs rs

module _ {s : Store} {place : ℕ → Place} {xs : Entries Item} {rs : List (Ptr × Bytes)}
    (g : Good s place xs rs) (i : ℕ) where
  pub here : (p : Place) → place i ≡ p → Here s place i xs rs p
  here p at = rw (sym at) (record {
    local = g.local i;
    alone = g.alone i;
    held = g.held i;
    unique = λ j ne real same. ne (sym (g.unique i j real same));
  })

  -- The others are outside while this thread is inside.
  pub outside : s.holder ≡ some i → (j : ℕ) → j ≢ i → inside (place j) ≡ false
  outside mine j ne = ground (arith, g.alone j)

  abbrev re_whole : (h : Option ℕ) → Whole (record s { holder = h }) xs rs
  re_whole h = record {
    stack = g.whole.stack;
    at_head = g.whole.at_head;
    distinct = g.whole.distinct;
    explained = g.whole.explained;
  }

  -- A statement that writes nothing that is shared.
  pub quiet :
      (p p' : Place)
      → Here s place i xs rs p
      → Local s.memory xs rs p'
      → inside p' ≡ inside p
      → (owned p' ≡ owned p) ⊎ (owned p' ≡ null)
      → Leads s place i (s, p')
  quiet p p' h l same o = (
    xs,
    rs,
    record {
      whole = g.whole;
      local = l;
      others = λ j ne. g.local j;
      mutex =
          Mutex-same i s.holder (inside p') (λ e. h.alone (ground arith))
            (λ e. ground (arith, h.held));
      unique = λ j ne. ground (arith, h.unique j);
    },
  )

  pub locking :
      (o : Option ℕ) (p p' : Place)
      → s.holder ≡ o
      → Here s place i xs rs p
      → Local s.memory xs rs p'
      → (inside p ≡ false)
      → (inside p' ≡ true)
      → (owned p' ≡ owned p)
      → Leads s place i (acquire o i s p p')
  locking (some k) p p' eq h l out now same = quiet p p h h.local refl (inl refl)
  locking none p p' eq h l out now same = (
    xs,
    rs,
    record {
      whole = re_whole (some i);
      local = l;
      others = λ j ne. g.local j;
      mutex = rw (eq, now) (Mutex-lock i);
      unique = λ j ne. ground (arith, h.unique j);
    },
  )

  pub releasing :
      (p p' : Place)
      → Here s place i xs rs p
      → Local s.memory xs rs p'
      → (inside p ≡ true)
      → (inside p' ≡ false)
      → (owned p' ≡ owned p)
      → Leads s place i (release s, p')
  releasing p p' h l was out same = (
    xs,
    rs,
    record {
      whole = re_whole none;
      local = l;
      others = λ j ne. g.local j;
      mutex = rw out (Mutex-unlock i s.holder (h.alone was));
      unique = λ j ne. ground (arith, h.unique j);
    },
  )
