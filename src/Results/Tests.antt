-- ===== src/Results/Tests.antt =====
-- Runs of the stack of results of src/equus_util.c that holds one result.
use ck_agent.Base.{◌≡◌, ◌≢◌, refl, false, none, some, [], ◌∷◌, arith, ◌==◌, if◌then◌else◌, codes}
use ck_agent.Memory.{Ptr, cell, Memory, shared, ◌>>=◌, ◌>>◌, pure}
use ck_agent.Memory.Chain.{Entries, has, Returns}
use ck_agent.Results.{Item, entry, result, equus_push_result, equus_pop_result, equus_free_result}
use ck_agent.Results.Stack.{IsStack, push_pop_free-leak}
use ck_agent.Results.Refines.{push, take, run, empty_memory, run_refines}

abbrev one : Entries Item
one = (4, entry 8) ∷ []

abbrev one_memory : Memory Item
one_memory a =
    if a == 4
    then some (cell (entry 8) 0)
    else if a == 8
    then some (cell (result (codes "ok") 2) 0)
    else none

one-IsStack : IsStack one_memory one ((8, codes "ok") ∷ [])
one-IsStack = ((ground arith, refl, refl, tt), (refl, refl, ground arith, tt))

push_pop_free-leak_example :
    Returns
      (λ s n.
        (s ≡ shared 4)
        × (n 12 ≡ none)
        × (n 16 ≡ some (cell (entry 12) 4))
        × (has 16 one ≡ false)
        × ((a : Ptr) → a ≢ 16 → n a ≡ one_memory a))
      ((do
        s ← equus_push_result 12 16 (shared 4) (codes "bad") 3
        (r, s') ← equus_pop_result s
        equus_free_result r
        pure s')
        one_memory)
push_pop_free-leak_example =
    push_pop_free-leak one_memory 12 16 (codes "bad") one ((8, codes "ok") ∷ []) one-IsStack
      (ground arith, refl) (ground arith, refl, ground arith)

run_refines_example :
    Returns
      (λ os n. os ≡ some (codes "bad") ∷ some (codes "ok") ∷ none ∷ [])
      (run 4
        (push (codes "ok") ∷ push (codes "bad") ∷ take ∷ take ∷ take ∷ [])
        (shared 0)
        empty_memory)
run_refines_example = run_refines _ 4 (omega arith)
