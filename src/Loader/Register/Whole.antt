-- ===== src/Loader/Register/Whole.antt =====
-- `luaopen_equus_loader` as a whole, in a build that is not for local development.
use ck_agent.Base.{
  Bool-cases, inl, inr, ℕ, ◌+◌, ◌≡◌, ◌≢◌, refl, Bool, true, false, List, [], ◌∷◌, ◌++◌, ◌==◌,
  if◌then◌else◌, arith, Bytes, codes, length, ◌∙◌, ap,
}
use ck_agent.Loader.Machine.{
  Value, literal, table, function, World, State, Result, ok, aborted, Action, ◌>>◌, and_then, field,
  change, add_item, set_top, Calls,
}
use ck_agent.Loader.Register.{
  modules, package_table, loader_preload, functions, append_loader, last_loader, luaopen_loader,
}
use ck_agent.Loader.Register.Stack.{
  state, with_globals, with_fields, register_all-globals, set_top-append, package_table-pushed,
  loader_preload-fields, append_loader-items, ready, package-with_globals, require-with_globals,
  globals-with_fields, tables-with_fields, tables-with_globals,
}

abbrev answer : (rv : ℕ) → State → Result
answer rv s = if rv == 0 then ok s else aborted

last_loader-answer :
    (calls : Calls) (l p l' p' : ℕ) (f : Bytes) (rv : ℕ) (v : Value) (s : List Value) (u u' : World)
    → field (codes "require") u.globals ≡ function f
    → calls (function f) (literal (codes "http_loader")) u ≡ (rv, v, u')
    → field (codes "package") u'.globals ≡ table p'
    → field (codes "loaders") (u'.tables p').fields ≡ table l'
    → last_loader false calls (state (table l ∷ table p ∷ s) u)
      ≡ answer rv
          (state (table l' ∷ table p' ∷ v ∷ table l ∷ table p ∷ s) (change l' (add_item v) u'))
unfolding last_loader
last_loader-answer calls l p l' p' f rv v s u u' requires called global there =
    let same : (length (u'.tables l').items + 1 == length (u'.tables l').items + 1) ≡ true =
      ground arith in
    elim (Bool-cases (rv == 0)) [
      | inl fine ↦ rw (requires, called, fine, global, there, same) refl
      | inr fails ↦ rw (requires, called, fails) refl
    ]

answer-set_top :
    (rv : ℕ) (xs s : List Value) (w : World)
    → and_then (answer rv (state (xs ++ s) w)) (set_top (length s)) ≡ answer rv (state s w)
answer-set_top rv xs s w = elim (Bool-cases (rv == 0)) [
  | inl fine ↦ rw fine (set_top-append xs s w)
  | inr fails ↦ rw fails refl
]

-- The registration appends `equus_loader_load` to the loaders, behind the modules for `preload` and the
-- functions for Lua code, and requires `http_loader`; where that succeeds, it appends what this gives to
-- the loaders of the package that is there then, and leaves the stack as it was; else it aborts. At
-- the start `package` is a table with tables `preload`, which is not `package` itself, and `loaders`, and
-- `require` is a function; behind the call `package` is a table with a table `loaders`.
pub luaopen_loader-answer :
    (windows : Bool) (calls : Calls) (p q l l' p' : ℕ) (f : Bytes) (rv : ℕ) (v : Value)
    (s : List Value) (w u' : World)
    → field (codes "package") w.globals ≡ table p
    → field (codes "preload") (w.tables p).fields ≡ table q
    → field (codes "loaders") (w.tables p).fields ≡ table l
    → field (codes "require") w.globals ≡ function f
    → p ≢ q
    → calls (function f) (literal (codes "http_loader")) (ready windows q l w) ≡ (rv, v, u')
    → field (codes "package") u'.globals ≡ table p'
    → field (codes "loaders") (u'.tables p').fields ≡ table l'
    → luaopen_loader windows false calls (state s w)
      ≡ (if rv == 0 then ok (state s (change l' (add_item v) u')) else aborted)
unfolding luaopen_loader
luaopen_loader-answer windows calls p q l l' p' f rv v s w u' global there loaders requires ne
      called global' loaders' =
    let fs : List (Bytes × Bytes) = functions windows in
    let ms : List (Bytes × Bytes) = modules windows in
    let w1 : World = with_globals fs w in
    let w2 : World = with_fields q ms w1 in
    let w3 : World = ready windows q l w in
    let same_globals : w2.globals ≡ w1.globals = globals-with_fields ms q w1 in
    let same_package : w2.tables p ≡ w.tables p =
      tables-with_fields ms q p w1 ne ∙ ap (λ t. t p) (tables-with_globals fs w) in
    let global1 : field (codes "package") w1.globals ≡ table p =
      package-with_globals windows w ∙ global in
    let there1 : field (codes "preload") (w1.tables p).fields ≡ table q =
      ap (λ t. field (codes "preload") (t p).fields) (tables-with_globals fs w) ∙ there in
    let global2 : field (codes "package") w2.globals ≡ table p =
      ap (field (codes "package")) same_globals ∙ global1 in
    let loaders2 : field (codes "loaders") (w2.tables p).fields ≡ table l =
      ap (λ t. field (codes "loaders") t.fields) same_package ∙ loaders in
    let requires3 : field (codes "require") w3.globals ≡ function f =
      ap (field (codes "require")) same_globals ∙ require-with_globals windows w ∙ requires in
    let load : Value = function (codes "equus_loader_load") in
    let last : Action = last_loader false calls in
    let top : Action = set_top (length s) in
    let tail : Action = λ t.
      (package_table (codes "loaders") >> append_loader load >> last >> set_top (length t.stack))
        t in
    ap (λ r. and_then (and_then r (loader_preload windows)) tail) (register_all-globals fs s w)
    ∙ ap (λ r. and_then r tail) (loader_preload-fields windows p q s w1 global1 there1)
    ∙ ap (λ r. and_then (and_then (and_then r (append_loader load)) last) top)
        (package_table-pushed (codes "loaders") p l s w2 global2 loaders2)
    ∙ ap (λ r. and_then (and_then r last) top) (append_loader-items load l (table p ∷ s) w2)
    ∙ ap (λ r. and_then r top)
        (last_loader-answer calls l p l' p' f rv v s w3 u' requires3 called global' loaders')
    ∙ answer-set_top rv (table l' ∷ table p' ∷ v ∷ table l ∷ table p ∷ []) s
        (change l' (add_item v) u')
