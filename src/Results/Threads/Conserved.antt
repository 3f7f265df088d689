-- ===== src/Results/Threads/Conserved.antt =====
-- The bytes that threads push to the results stack of src/equus_util.c and take from it.
use ck_agent.Base.{ℕ, ◌≡◌, Bytes, List, [], ◌∷◌, ◌++◌}
use mathlib.Core.List.{Perm, perm_middle}
use mathlib.Core.List.Perm
use ck_agent.Memory.{Ptr}
use ck_agent.Memory.Chain.{Entries, first}
use ck_agent.Results.{Item}
use ck_agent.Results.Stack.{IsStack}
use ck_agent.Results.Refines.{texts}
use ck_agent.Results.Threads.{Event, pushed, took, took_nothing, System, Reach}
use ck_agent.Results.Threads.Invariant.{Explains, nothing, after_push, after_take, after_none}
use ck_agent.Results.Threads.Sound.{Reach-IsSound}

-- The bytes that were pushed, and those that were taken.
abbrev pub pushes : List (ℕ × Event) → List Bytes
pushes [] = []
pushes ((i, pushed b) ∷ h) = b ∷ pushes h
pushes ((i, took b) ∷ h) = pushes h
pushes ((i, took_nothing) ∷ h) = pushes h

abbrev pub takes : List (ℕ × Event) → List Bytes
takes [] = []
takes ((i, pushed b) ∷ h) = takes h
takes ((i, took b) ∷ h) = b ∷ takes h
takes ((i, took_nothing) ∷ h) = takes h

Explains-Perm :
    {h : List (ℕ × Event)} {st : List Bytes} → Explains h st → Perm (pushes h) (takes h ++ st)
Explains-Perm nothing = Perm.refl []
Explains-Perm (after_push {h} {b} {st} e) =
    Perm.trans (Perm.cons b (Explains-Perm e)) (Perm.symm (perm_middle (takes h) st))
Explains-Perm (after_take {h} {b} {st} e) = Perm.trans (Explains-Perm e) (perm_middle (takes h) st)
Explains-Perm (after_none e) = Explains-Perm e

-- However threads push and take results, the bytes that were pushed are, in some order, those that were
-- taken and those of the results that the list in memory still holds from `head` on: no result is lost,
-- taken twice or made up.
pub Reach-Perm :
    {y : System}
    → Reach y
    → (xs : Entries Item) × (rs : List (Ptr × Bytes)) × IsStack y.store.memory xs rs
      × (y.store.head ≡ first xs)
      × Perm (pushes y.store.history) (takes y.store.history ++ texts rs)
Reach-Perm r =
    let ((xs, rs, stack, at, e), _, _, _, _) = Reach-IsSound r in
    (xs, rs, stack, at, Explains-Perm e)
