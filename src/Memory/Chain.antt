-- ===== src/Memory/Chain.antt =====
-- Linked lists in memory: the cells that a list stands for, and what a write elsewhere leaves alone.
use ck_agent.Base.{
  ◌≡◌, ◌≢◌, refl, Bool, true, false, ◌||◌, none, Option, some, List, [], ◌∷◌, arith, ◌==◌,
}
use ck_agent.Memory.{
  Ptr, null, Cell, cell, Memory, Command, Outcome, continue, done, crash, endless, update, load,
  set_next, free, initialise,
}

-- Address and payload of each cell, in order.
abbrev pub Entries : Type 0 → Type 0
Entries V = List (Ptr × V)

pub not_null : (p : Ptr) → p ≢ null → (p == null) ≡ false
not_null p h = ground arith

module _ {V : Type 0} where
  abbrev pub has : Ptr → Entries V → Bool
  has a [] = false
  has a ((p, _) ∷ xs) = (a == p) || has a xs

  abbrev pub first : Entries V → Ptr
  first [] = null
  first ((p, _) ∷ xs) = p

  abbrev pub payloads : Entries V → List V
  payloads [] = []
  payloads ((_, v) ∷ xs) = v ∷ payloads xs

  -- From its first address the `next` pointers lead through distinct live cells to NULL.
  abbrev pub IsChain : Memory V → Entries V → Type 0
  IsChain m [] = Unit
  IsChain m ((p, v) ∷ xs) =
      (p ≢ null) × (m p ≡ some (cell v (first xs))) × (has p xs ≡ false) × IsChain m xs

  -- The memories differ at most at the addresses of the entries.
  abbrev pub SameOutside : Entries V → Memory V → Memory V → Type 0
  SameOutside xs m n = (a : Ptr) → has a xs ≡ false → n a ≡ m a

  pub has-cons-ne : (p q : Ptr) (v : V) (xs : Entries V) → has p ((q, v) ∷ xs) ≡ false → q ≢ p
  has-cons-ne p q v xs h = ground arith

  pub has-tail :
      (p q : Ptr) (v : V) (xs : Entries V) → has p ((q, v) ∷ xs) ≡ false → has p xs ≡ false
  has-tail p q v xs h = ground arith

  -- A cell that is not live is not in a chain.
  pub not-has_of_none :
      (m : Memory V) (p : Ptr) (xs : Entries V) → IsChain m xs → m p ≡ none → has p xs ≡ false
  not-has_of_none m p [] c gone = refl
  not-has_of_none m p ((q, v) ∷ xs) (live, at, out, c) gone =
      ground (arith, not-has_of_none m p xs c gone)

  pub frame :
      (xs : Entries V) {m n : Memory V}
      → IsChain m xs
      → ((a : Ptr) → has a xs ≡ true → n a ≡ m a)
      → IsChain n xs
  frame [] c same = tt
  frame ((p, v) ∷ xs) (live, at, out, c) same =
      (live, ground (arith, same p), out, frame xs c λ a h. same a (ground arith))

  pub frame-update :
      (xs : Entries V) (m : Memory V) (p : Ptr) (c : Option (Cell V))
      → IsChain m xs
      → has p xs ≡ false
      → IsChain (update m p c) xs
  unfolding update
  frame-update xs m p c chain out = frame xs chain λ a h. ground arith

  pub initialise-done :
      (m : Memory V) {p : Ptr} (c : Cell V)
      → p ≢ null
      → initialise p c m ≡ done tt (update m p (some c))
  unfolding initialise
  initialise-done m c live = ground arith

  module _ (m : Memory V) {p q : Ptr} {v : V} (live : p ≢ null) (at : m p ≡ some (cell v q)) where
    pub load-done : load p m ≡ done (cell v q) m
    unfolding load
    load-done = ground arith

    pub free-done : free p m ≡ done tt (update m p none)
    unfolding free
    free-done = ground arith

    pub set_next-done : (r : Ptr) → set_next p r m ≡ done tt (update m p (some (cell v r)))
    unfolding set_next
    set_next-done r = ground arith

  -- The run ends, and what it leaves satisfies `P`.
  abbrev pub Returns : {A : Type 0} → (A → Memory V → Type 0) → Outcome V A → Type 0
  Returns P (done a m) = P a m
  Returns P crash = ⊥
  Returns P endless = ⊥

  pub weaken :
      {A : Type 0} (P Q : A → Memory V → Type 0) (r : Outcome V A)
      → ((a : A) (m : Memory V) → P a m → Q a m)
      → Returns P r
      → Returns Q r
  weaken P Q (done a m) f p = f a m p
  weaken P Q crash f p = p
  weaken P Q endless f p = p

  pub bind :
      {A B : Type 0} (P : A → Memory V → Type 0) (Q : B → Memory V → Type 0) (r : Outcome V A)
      (k : A → Command V B)
      → ((a : A) (m : Memory V) → P a m → Returns Q (k a m))
      → Returns P r
      → Returns Q (continue r k)
  bind P Q (done a m) k f p = f a m p
  bind P Q crash k f p = p
  bind P Q endless k f p = p
