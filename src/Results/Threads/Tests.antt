-- ===== src/Results/Threads/Tests.antt =====
-- Two threads on the results stack of src/equus_util.c, one of which pushes while the other pops.
use mathlib.Core.List.{Perm}
use ck_agent.Memory.Chain.{Entries, first}
use ck_agent.Results.{Item}
use ck_agent.Results.Stack.{IsStack}
use ck_agent.Results.Threads.Conserved.{pushes, takes, Reach-Perm}
use ck_agent.Base.{ℕ, ◌≡◌, ◌≢◌, ◌<◌, ◌≤◌, refl, Bytes, none, some, List, [], ◌∷◌, ◌++◌, arith}
use ck_agent.Memory.{Ptr, null, update}
use ck_agent.Results.Refines.{push, take, texts}
use ck_agent.Results.Threads.{
  initial, System, turn, advance, link_at, text_at, Reach, start, later, owning, took, pushed,
}
use ck_agent.Results.Threads.Sound.{IsSound, Reach-IsSound}
use ck_agent.Results.Threads.Progress.{remaining, holder_releases}

abbrev text : Bytes
text = b'h' ∷ b'i' ∷ []

-- Thread 0 is about to publish its cell; thread 1 has called `equus_pop_result` and waits.
abbrev contended : System
contended =
    turn 0 2 take (turn 1 2 take (turn 0 2 take (turn 1 2 take (turn 0 1 (push text) initial))))

-- Thread 1 has popped the result.
abbrev popped : System
popped = turn 1 3 take (
    turn 1 3 take
      (turn 1 3 take (turn 1 3 take (turn 1 3 take (turn 0 3 take (turn 0 3 take contended))))))

contended-Reach : Reach contended
unfolding turn advance update
contended-Reach =
    later
      (later
        (later
          (later (later start 0 1 (push text) (λ e. omega arith) refl) 1 2 take (λ e. omega arith)
            refl)
          0 2 take (λ e. omega arith) refl)
        1 2 take (λ e. omega arith) refl)
      0 2 take (λ e. omega arith) refl

popped-Reach : Reach popped
unfolding turn advance update link_at text_at
popped-Reach =
    later
      (later
        (later
          (later
            (later
              (later (later contended-Reach 0 3 take (λ e. omega arith) refl) 0 3 take
                (λ e. omega arith) refl)
              1 3 take (λ e. omega arith) refl)
            1 3 take (λ e. omega arith) refl)
          1 3 take (λ e. omega arith) refl)
        1 3 take (λ e. omega arith) refl)
      1 3 take (λ e. omega arith) refl

popped_place : popped.place 1 ≡ owning 1 text
unfolding turn advance update link_at text_at
popped_place = refl

popped_history : popped.store.history ≡ (1, took text) ∷ (0, pushed text) ∷ []
unfolding turn advance update link_at text_at
popped_history = refl

Reach-IsSound_example : IsSound popped
Reach-IsSound_example = Reach-IsSound {y = popped} popped-Reach

contended_holder : contended.store.holder ≡ some 0
unfolding turn advance update
contended_holder = refl

contended_unused : contended.store.memory 3 ≡ none
unfolding turn advance update
contended_unused = refl

three : ◌≢◌ {A = ℕ} 3 null
three e = omega arith

holder_releases_example :
    (remaining (contended.place 0) ≤ 4)
    × (remaining ((turn 0 3 take contended).place 0) < remaining (contended.place 0))
    × (remaining ((turn 0 3 take contended).place 0) ≡ 0
        → (turn 0 3 take contended).store.holder ≡ none)
    × ((j : ℕ)
        → j ≢ 0
        → ((turn j 3 take contended).place 0 ≡ contended.place 0)
          × ((turn j 3 take contended).store.holder ≡ some 0))
holder_releases_example =
    holder_releases {y = contended} contended-Reach 0 3 take contended_holder three contended_unused

Reach-Perm_example :
    (xs : Entries Item) × (rs : List (Ptr × Bytes)) × IsStack popped.store.memory xs rs
    × (popped.store.head ≡ first xs)
    × Perm (pushes popped.store.history) (takes popped.store.history ++ texts rs)
Reach-Perm_example = Reach-Perm {y = popped} popped-Reach
