-- ===== src/Debugger/Breakpoints/Clear.antt =====
-- What `breakpoint_clear` does to the list in memory.
use ck_agent.Base.{
  ℕ, zero, suc, ◌<◌, ◌≡◌, ◌≢◌, refl, ◌∙◌, inl, inr, Bool, true, false, none, some, [], ◌∷◌, arith,
  if◌then◌else◌, Bool-cases, ℤ, Bytes, length,
}
use ck_agent.Memory.{Ptr, null, Cell, cell, Memory, crash, done, update}
use ck_agent.Memory.Chain.{
  Entries, not_null, has, has-cons-ne, has-tail, first, IsChain, SameOutside, Returns, weaken,
  frame-update, load-done, free-done, set_next-done,
}
use ck_agent.Debugger.Breakpoints.{
  Breakpoint, matching, unlink, visit, clear_loop, breakpoint_clear,
}

-- The breakpoints that do not match, in their order.
abbrev pub others : Bytes → ℤ → Entries Breakpoint → Entries Breakpoint
others name line [] = []
others name line ((p, b) ∷ xs) =
    if matching name line b then others name line xs else (p, b) ∷ others name line xs

-- Every cell of the first list that the second lacks is freed.
abbrev pub Freed : Entries Breakpoint → Entries Breakpoint → Memory Breakpoint → Type 0
Freed xs ys m = (a : Ptr) → has a xs ≡ true → has a ys ≡ false → m a ≡ none

abbrev pub Cleared :
    Bytes → ℤ → Entries Breakpoint → Memory Breakpoint → Ptr → Memory Breakpoint → Type 0
Cleared name line xs m head n =
    IsChain n (others name line xs)
    × SameOutside xs m n
    × Freed xs (others name line xs) n
    × (head ≡ first xs)

module _ (name : Bytes) (line : ℤ) where
  not-has-others :
      (a : Ptr) (xs : Entries Breakpoint) → has a xs ≡ false → has a (others name line xs) ≡ false
  not-has-others a [] h = refl
  not-has-others a (x ∷ xs) h = ground (arith, not-has-others a xs)

  visit_miss :
      (head p q r : Ptr) (d : Breakpoint) (m : Memory Breakpoint)
      → q ≢ null
      → m q ≡ some (cell d r)
      → matching name line d ≡ false
      → visit name line head p q m ≡ done (head, q) m
  unfolding visit
  visit_miss head p q r d m live at miss = rw (load-done m live at, miss)

  visit_hit :
      (head p q r : Ptr) (b d : Breakpoint) (m : Memory Breakpoint)
      → p ≢ null
      → m p ≡ some (cell b q)
      → q ≢ null
      → m q ≡ some (cell d r)
      → q ≢ p
      → matching name line d ≡ true
      → visit name line head p q m ≡ done (head, p) (update (update m p (some (cell b r))) q none)
  unfolding visit update
  visit_hit head p q r b d m live at live' at' ne hit =
      let m' = update m p (some (cell b r)) in
      let kept : m' q ≡ some (cell d r) = ground arith in
      rw (load-done m live' at', hit, not_null p live, set_next-done m live at r)
        (rw (free-done m' live' kept))

  unlinked-IsChain :
      (p q : Ptr) (b : Breakpoint) (xs : Entries Breakpoint) (m : Memory Breakpoint)
      → p ≢ null
      → q ≢ p
      → has p xs ≡ false
      → has q xs ≡ false
      → IsChain m xs
      → IsChain (update (update m p (some (cell b (first xs)))) q none) ((p, b) ∷ xs)
  unfolding update
  unlinked-IsChain p q b xs m live ne out out' c =
      let n = update m p (some (cell b (first xs))) in
      (live, ground arith, out, frame-update xs n q none (frame-update xs m p _ c out) out')

  -- What the loop leaves of the cells `xs` behind the cell `p`, which it keeps.
  abbrev Pruned :
      Ptr
      → Ptr
      → Breakpoint
      → Entries Breakpoint
      → Memory Breakpoint
      → Ptr
      → Memory Breakpoint
      → Type 0
  Pruned head p b xs m h n =
      IsChain n ((p, b) ∷ others name line xs)
      × SameOutside ((p, b) ∷ xs) m n
      × Freed xs (others name line xs) n
      × (h ≡ head)

  Pruned-hit :
      (head p q : Ptr) (b d : Breakpoint) (xs : Entries Breakpoint) (m : Memory Breakpoint)
      → has q xs ≡ false
      → q ≢ p
      → matching name line d ≡ true
      → (h : Ptr) (n : Memory Breakpoint)
      → Pruned head p b xs (update (update m p (some (cell b (first xs)))) q none) h n
      → Pruned head p b ((q, d) ∷ xs) m h n
  unfolding update
  Pruned-hit head p q b d xs m out ne hit h n (c, same, freed, e) = (
    rw hit c,
    (λ a i. ground (arith, same a)),
    rw hit (λ a i i'. ground (arith, freed a, same a)),
    e,
  )

  Pruned-miss :
      (head p q : Ptr) (b d : Breakpoint) (xs : Entries Breakpoint) (m : Memory Breakpoint)
      → p ≢ null
      → m p ≡ some (cell b q)
      → has p ((q, d) ∷ xs) ≡ false
      → matching name line d ≡ false
      → (h : Ptr) (n : Memory Breakpoint) → Pruned head q d xs m h n
      → Pruned head p b ((q, d) ∷ xs) m h n
  Pruned-miss head p q b d xs m live at out miss h n (c, same, freed, e) =
      let out' = not-has-others p xs (has-tail p q d xs out) in
      rw miss (
        (live, same p out ∙ at, ground arith, c),
        (λ a i. same a (ground arith)),
        (λ a i i'. freed a (ground arith) (ground arith)),
        e,
      )

  clear_loop_lem :
      (k : ℕ) (head p : Ptr) (b : Breakpoint) (xs : Entries Breakpoint) (m : Memory Breakpoint)
      → IsChain m ((p, b) ∷ xs)
      → length xs < k
      → Returns (Pruned head p b xs m) (clear_loop name line k head p (first xs) m)
  unfolding clear_loop
  clear_loop_lem zero head p b xs m c fuel = absurd (omega arith)
  clear_loop_lem (suc k) head p b [] m c fuel = (c, λ a h. refl, λ a h h'. cc, refl)
  clear_loop_lem (suc k) head p b ((q, d) ∷ xs) m (live, at, out, (live', at', out', c)) fuel =
      elim (Bool-cases (matching name line d)) [
        | inl hit ↦
            let n : Memory Breakpoint = update (update m p (some (cell b (first xs)))) q none in
            let ne : q ≢ p = has-cons-ne p q d xs out in
            let chain : IsChain n ((p, b) ∷ xs) =
              unlinked-IsChain p q b xs m live ne (has-tail p q d xs out) out' c in
            rw
              (
                not_null q live',
                visit_hit head p q (first xs) b d m live at live' at' ne hit,
                load-done n live chain.1,
              )
              (weaken (Pruned head p b xs n) (Pruned head p b ((q, d) ∷ xs) m) _
                (Pruned-hit head p q b d xs m out' ne hit)
                (clear_loop_lem k head p b xs n chain (omega arith)))
        | inr miss ↦
            rw
              (
                not_null q live',
                visit_miss head p q (first xs) d m live' at' miss,
                load-done m live' at',
              )
              (weaken (Pruned head q d xs m) (Pruned head p b ((q, d) ∷ xs) m) _
                (Pruned-miss head p q b d xs m live at out miss)
                (clear_loop_lem k head q d xs m (live', at', out', c) (omega arith)))
      ]

abbrev pub head_matches : Bytes → ℤ → Entries Breakpoint → Bool
head_matches name line [] = false
head_matches name line ((p, b) ∷ xs) = matching name line b

-- Where the first breakpoint does not match, `breakpoint_clear` ends, keeps exactly the breakpoints
-- that do not match, in their order, frees the cells of the others, writes nowhere else, and leaves
-- the head as it was.
pub breakpoint_clear-others :
    (k : ℕ) (name : Bytes) (line : ℤ) (xs : Entries Breakpoint) (m : Memory Breakpoint)
    → IsChain m xs
    → length xs < k
    → head_matches name line xs ≡ false
    → Returns (Cleared name line xs m) (breakpoint_clear k (first xs) name line m)
unfolding breakpoint_clear
breakpoint_clear-others zero name line xs m c fuel miss = absurd (omega arith)
breakpoint_clear-others (suc k) name line [] m c fuel miss =
    (tt, (λ a h. refl), (λ a h h'. cc), refl)
breakpoint_clear-others (suc k) name line ((p, b) ∷ xs) m (live, at, out, c) fuel miss =
    rw
      (
        not_null p live,
        visit_miss name line p null p (first xs) b m live at miss,
        load-done m live at,
      )
      (weaken (Pruned name line p p b xs m) (Cleared name line ((p, b) ∷ xs) m) _
        (λ h n (c', same, freed, e).
          rw miss (c', same, (λ a i i'. freed a (ground arith) (ground arith)), e))
        (clear_loop_lem name line k p p b xs m (live, at, out, c) (omega arith)))

-- Where the first breakpoint matches, `breakpoint_clear` frees it and then reads through NULL.
pub breakpoint_clear-crash :
    (k : ℕ) (name : Bytes) (line : ℤ) (xs : Entries Breakpoint) (m : Memory Breakpoint)
    → IsChain m xs
    → 0 < k
    → head_matches name line xs ≡ true
    → breakpoint_clear k (first xs) name line m ≡ crash
unfolding breakpoint_clear visit unlink ck_agent.Memory.load
breakpoint_clear-crash zero name line xs m c fuel hit = absurd (omega arith)
breakpoint_clear-crash (suc k) name line [] m c fuel hit = cc
breakpoint_clear-crash (suc k) name line ((p, b) ∷ xs) m (live, at, out, c) fuel hit =
    rw (not_null p live, load-done m live at, hit, free-done m live at)
