-- ===== src/Loader/Register/Stack.antt =====
-- What the registration of the loaders leaves on the Lua stack and in the tables of `package`.
use ck_agent.Base.{
  ℕ, ◌+◌, ◌-◌, ◌≡◌, ◌≢◌, refl, Bool, true, false, List, [], ◌∷◌, ◌++◌, ◌==◌, arith, Bytes, codes,
  length, length-append, drop, ◌∙◌, ap,
}
use ck_agent.Loader.Machine.{
  Value, table, function, World, State, ok, and_then, field, change, put_field, add_item,
  put_global, set_top,
}
use ck_agent.Loader.Register.{
  modules, set_fields, package_table, loader_preload, functions, register_all, append_loader,
}

abbrev pub state : List Value → World → State
state s w = record { stack = s; world = w }

-- The world with these functions as globals.
abbrev pub with_globals : List (Bytes × Bytes) → World → World
with_globals [] w = w
with_globals ((name, fn) ∷ fs) w = with_globals fs (put_global name (function fn) w)

-- The world with these functions as fields of a table.
abbrev pub with_fields : ℕ → List (Bytes × Bytes) → World → World
with_fields r [] w = w
with_fields r ((name, fn) ∷ fs) w = with_fields r fs (change r (put_field name (function fn)) w)

pub register_all-globals :
    (fs : List (Bytes × Bytes)) (s : List Value) (w : World)
    → register_all fs (state s w) ≡ ok (state s (with_globals fs w))
register_all-globals [] s w = refl
register_all-globals ((name, fn) ∷ fs) s w =
    register_all-globals fs s (put_global name (function fn) w)

set_fields-fields :
    (ms : List (Bytes × Bytes)) (r : ℕ) (s : List Value) (w : World)
    → set_fields ms (state (table r ∷ s) w) ≡ ok (state (table r ∷ s) (with_fields r ms w))
set_fields-fields [] r s w = refl
set_fields-fields ((name, fn) ∷ ms) r s w =
    set_fields-fields ms r s (change r (put_field name (function fn)) w)

pub globals-with_fields :
    (ms : List (Bytes × Bytes)) (r : ℕ) (w : World) → (with_fields r ms w).globals ≡ w.globals
globals-with_fields [] r w = refl
globals-with_fields ((name, fn) ∷ ms) r w =
    globals-with_fields ms r (change r (put_field name (function fn)) w)

pub tables-with_fields :
    (ms : List (Bytes × Bytes)) (r a : ℕ) (w : World)
    → a ≢ r
    → (with_fields r ms w).tables a ≡ w.tables a
tables-with_fields [] r a w ne = refl
tables-with_fields ((name, fn) ∷ ms) r a w ne =
    tables-with_fields ms r a (change r (put_field name (function fn)) w) ne ∙ (ground arith)

pub tables-with_globals :
    (fs : List (Bytes × Bytes)) (w : World) → (with_globals fs w).tables ≡ w.tables
tables-with_globals [] w = refl
tables-with_globals ((name, fn) ∷ fs) w = tables-with_globals fs (put_global name (function fn) w)

drop-append : (xs s : List Value) → drop (length xs) (xs ++ s) ≡ s
drop-append [] s = refl
drop-append (x ∷ xs) s = drop-append xs s

pub set_top-append :
    (xs s : List Value) (w : World) → set_top (length s) (state (xs ++ s) w) ≡ ok (state s w)
set_top-append xs s w =
    let pushed : length (xs ++ s) - length s ≡ length xs = omega (arith, length-append xs s) in
    rw (pushed, drop-append xs s) refl

pub package_table-pushed :
    (name : Bytes) (p q : ℕ) (s : List Value) (w : World)
    → field (codes "package") w.globals ≡ table p
    → field name (w.tables p).fields ≡ table q
    → package_table name (state s w) ≡ ok (state (table q ∷ table p ∷ s) w)
unfolding package_table
package_table-pushed name p q s w global there = rw (global, there) refl

pub loader_preload-fields :
    (windows : Bool) (p q : ℕ) (s : List Value) (w : World)
    → field (codes "package") w.globals ≡ table p
    → field (codes "preload") (w.tables p).fields ≡ table q
    → loader_preload windows (state s w) ≡ ok (state s (with_fields q (modules windows) w))
unfolding loader_preload
loader_preload-fields windows p q s w global there =
    let ms : List (Bytes × Bytes) = modules windows in
    ap (λ r. and_then (and_then r (set_fields ms)) (set_top (length s)))
      (package_table-pushed (codes "preload") p q s w global there)
    ∙ ap (λ r. and_then r (set_top (length s))) (set_fields-fields ms q (table p ∷ s) w)
    ∙ set_top-append (table q ∷ table p ∷ []) s (with_fields q ms w)

pub append_loader-items :
    (v : Value) (r : ℕ) (s : List Value) (w : World)
    → append_loader v (state (table r ∷ s) w) ≡ ok (state (table r ∷ s) (change r (add_item v) w))
unfolding append_loader
append_loader-items v r s w =
    let same : (length (w.tables r).items + 1 == length (w.tables r).items + 1) ≡ true =
      ground arith in
    rw same refl

-- The world when `require` is called.
abbrev pub ready : (windows : Bool) (preload loaders : ℕ) → World → World
ready windows q l w =
    change l (add_item (function (codes "equus_loader_load")))
      (with_fields q (modules windows) (with_globals (functions windows) w))

pub package-with_globals :
    (windows : Bool) (w : World)
    → field (codes "package") (with_globals (functions windows) w).globals
      ≡ field (codes "package") w.globals
unfolding functions
package-with_globals true w = refl
package-with_globals false w = refl

pub require-with_globals :
    (windows : Bool) (w : World)
    → field (codes "require") (with_globals (functions windows) w).globals
      ≡ field (codes "require") w.globals
unfolding functions
require-with_globals true w = refl
require-with_globals false w = refl
