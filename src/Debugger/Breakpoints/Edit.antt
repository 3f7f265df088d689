-- ===== src/Debugger/Breakpoints/Edit.antt =====
-- What `breakpoint_add` and `breakpoint_clearall` do to the list in memory.
use ck_agent.Base.{
  ℕ, zero, suc, ◌<◌, ◌≡◌, ◌≢◌, refl, false, none, some, [], ◌∷◌, arith, ℤ, Bytes, length,
}
use ck_agent.Memory.{Ptr, null, cell, Memory, update}
use ck_agent.Memory.Chain.{
  Entries, not_null, has, first, IsChain, SameOutside, Returns, weaken, frame-update, load-done,
  free-done, initialise-done,
}
use ck_agent.Debugger.Breakpoints.{
  Breakpoint, breakpoint, breakpoint_add, clearall_loop, breakpoint_clearall,
}
use ck_agent.Debugger.Breakpoints.Clear.{Freed}

abbrev pub Emptied : Entries Breakpoint → Memory Breakpoint → Ptr → Memory Breakpoint → Type 0
Emptied xs m h n = (h ≡ null) × SameOutside xs m n × Freed xs [] n

clearall_loop_lem :
    (k : ℕ) (xs : Entries Breakpoint) (m : Memory Breakpoint)
    → IsChain m xs
    → length xs < k
    → Returns (Emptied xs m) (clearall_loop k (first xs) m)
unfolding clearall_loop update
clearall_loop_lem zero xs m c fuel = absurd (omega arith)
clearall_loop_lem (suc k) [] m c fuel = (refl, (λ a h. refl), λ a h h'. cc)
clearall_loop_lem (suc k) ((p, b) ∷ xs) m (live, at, out, c) fuel =
    rw (not_null p live, load-done m live at, free-done m live at)
      (weaken (Emptied xs (update m p none)) (Emptied ((p, b) ∷ xs) m) _
        (λ h n (e, same, freed).
          (e, (λ a i. ground (arith, same a)), λ a i j. ground (arith, freed a, same a)))
        (clearall_loop_lem k xs (update m p none) (frame-update xs m p none c out) (omega arith)))

-- `breakpoint_clearall` empties the list, frees each of its cells and writes nowhere else.
pub breakpoint_clearall_lem :
    (k : ℕ) (xs : Entries Breakpoint) (m : Memory Breakpoint)
    → IsChain m xs
    → length xs < k
    → Returns (Emptied xs m) (breakpoint_clearall k (first xs) m)
unfolding breakpoint_clearall
breakpoint_clearall_lem k xs m c fuel = clearall_loop_lem k xs m c fuel

-- `breakpoint_add` puts the new breakpoint in front and writes only its cell.
pub breakpoint_add_lem :
    (fresh : Ptr) (name : Bytes) (line : ℤ) (xs : Entries Breakpoint) (m : Memory Breakpoint)
    → IsChain m xs
    → fresh ≢ null
    → has fresh xs ≡ false
    → Returns
        (λ h n.
          (h ≡ fresh)
          × IsChain n ((fresh, breakpoint name line) ∷ xs)
          × SameOutside ((fresh, breakpoint name line) ∷ []) m n)
        (breakpoint_add fresh (first xs) name line m)
unfolding breakpoint_add update
breakpoint_add_lem fresh name line xs m c live out =
    let c' = cell (breakpoint name line) (first xs) in
    rw (initialise-done m c' live) (
      refl,
      (live, ground arith, out, frame-update xs m fresh (some c') c out),
      λ a i. ground arith,
    )
