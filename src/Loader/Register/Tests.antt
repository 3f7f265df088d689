-- ===== src/Loader/Register/Tests.antt =====
-- A registration of the loaders in a fresh Lua state with one loader, where `http_loader` gives a function.
use ck_agent.Base.{◌≡◌, refl, false, [], ◌∷◌, arith, ◌==◌, if◌then◌else◌, codes}
use ck_agent.Loader.Machine.{
  number, table, function, other, Table, World, ok, field, change, add_item, Calls,
}
use ck_agent.Loader.Register.{modules, functions, luaopen_loader}
use ck_agent.Loader.Register.Stack.{state, ready}
use ck_agent.Loader.Register.Whole.{luaopen_loader-answer}

abbrev package_fields : Table
package_fields = record {
  fields = (codes "preload", table 2) ∷ (codes "loaders", table 3) ∷ [];
  items = [];
}

abbrev fresh : World
fresh = record {
  globals = (codes "require", function (codes "ll_require")) ∷ (codes "package", table 1) ∷ [];
  tables = λ a.
      if a == 1
      then package_fields
      else if a == 2
      then record { fields = []; items = [] }
      else record { fields = []; items = function (codes "loader_preload") ∷ [] };
}

abbrev gives_loader : Calls
gives_loader f arg w = (0, other 7, w)

abbrev registered : World
registered = ready false 2 3 fresh

registered-package : field (codes "package") registered.globals ≡ table 1
unfolding modules functions
registered-package = refl

registered-loaders : field (codes "loaders") (registered.tables 1).fields ≡ table 3
unfolding modules functions
registered-loaders = refl

-- Both loaders stand behind the one that was there.
registered-items :
    ((change 3 (add_item (other 7)) registered).tables 3).items
    ≡ function (codes "loader_preload") ∷ function (codes "equus_loader_load") ∷ other 7 ∷ []
unfolding modules functions
registered-items = refl

luaopen_loader-answer_example :
    luaopen_loader false false gives_loader (state (number 5 ∷ []) fresh)
    ≡ ok (state (number 5 ∷ []) (change 3 (add_item (other 7)) registered))
luaopen_loader-answer_example =
    luaopen_loader-answer false gives_loader 1 2 3 3 1 (codes "ll_require") 0 (other 7)
      (number 5 ∷ []) fresh registered refl refl refl refl (ground arith) refl registered-package
      registered-loaders
