-- ===== src/Loader/Machine.antt =====
-- The part of the Lua API that src/equus_loader.c uses to register its loaders: a stack of values, tables
-- by reference, and global names.
use ck_agent.Base.{
  ℕ, ◌+◌, ◌-◌, Bool, true, false, none, some, List, [], ◌∷◌, ◌++◌, ◌==◌, if◌then◌else◌, Bytes,
  str_eq, length, drop, get_elem?,
}

-- A C function is its name; `other` are values that are not looked into.
pub data Value : Type 0 where
  nil : Value
  number : ℕ → Value
  literal : Bytes → Value
  table : ℕ → Value
  function : Bytes → Value
  other : ℕ → Value

abbrev pub Fields : Type 0
Fields = List (Bytes × Value)

-- The later entry of a name stands in front and counts. `items` are the values at 1, 2, ...
pub record Table : Type 0 where
  pub fields : Fields
  pub items : List Value

pub record World : Type 0 where
  pub globals : Fields
  pub tables : ℕ → Table

-- The top of the stack comes first.
pub record State : Type 0 where
  pub stack : List Value
  pub world : World

pub data Result : Type 0 where
  ok : State → Result
  aborted raised : Result

abbrev pub Action : Type 0
Action = State → Result

abbrev pub and_then : Result → Action → Result
and_then (ok s) b = b s
and_then aborted b = aborted
and_then raised b = raised

infixl 5 ◌>>◌
abbrev pub ◌>>◌ : Action → Action → Action
a >> b = λ s. and_then (a s) b

abbrev pub field : Bytes → Fields → Value
field name [] = nil
field name ((n, v) ∷ fs) = if str_eq n name then v else field name fs

abbrev pub change : ℕ → (Table → Table) → World → World
change r f w = record w { tables = λ a. if a == r then f (w.tables a) else w.tables a }

abbrev pub put_field : Bytes → Value → Table → Table
put_field name v t = record t { fields = (name, v) ∷ t.fields }

abbrev pub add_item : Value → Table → Table
add_item v t = record t { items = t.items ++ v ∷ [] }

abbrev pub put_global : Bytes → Value → World → World
put_global name v w = record w { globals = (name, v) ∷ w.globals }

abbrev pub push : Value → Action
push v s = ok (record s { stack = v ∷ s.stack })

-- `lua_getglobal`
abbrev pub get_global : Bytes → Action
get_global name s = push (field name s.world.globals) s

-- `lua_register`
abbrev pub register : Bytes → Bytes → Action
register name fn s = ok (record s { world = put_global name (function fn) s.world })

-- `lua_pushvalue(L, -i)`
abbrev pub push_value : ℕ → Action
push_value i s = elim (get_elem? s.stack (i - 1)) [ none ↦ raised | some v ↦ push v s ]

abbrev get_on : List Value → World → Result
get_on (literal k ∷ table r ∷ s) w =
    ok (record { stack = field k (w.tables r).fields ∷ table r ∷ s; world = w })
get_on s w = raised

-- `lua_gettable(L, -2)`, with a text as the key.
abbrev pub get_table : Action
get_table s = get_on s.stack s.world

abbrev set_on : Bytes → List Value → World → Result
set_on name (v ∷ table r ∷ s) w =
    ok (record { stack = table r ∷ s; world = change r (put_field name v) w })
set_on name s w = raised

-- `lua_setfield(L, -2, name)`
abbrev pub set_field : Bytes → Action
set_field name s = set_on name s.stack s.world

abbrev next_on : List Value → World → Result
next_on (table r ∷ s) w =
    ok (record { stack = number (length (w.tables r).items + 1) ∷ table r ∷ s; world = w })
next_on s w = raised

-- `lua_pushnumber(L, lua_objlen(L, -1) + 1)`
abbrev pub push_next : Action
push_next s = next_on s.stack s.world

abbrev put_on : List Value → World → Result
put_on (v ∷ number n ∷ table r ∷ s) w =
    if n == length (w.tables r).items + 1
    then ok (record { stack = table r ∷ s; world = change r (add_item v) w })
    else raised
put_on s w = raised

-- `lua_settable(L, -3)`, with the number behind the last item as the key.
abbrev pub set_table : Action
set_table s = put_on s.stack s.world

abbrev pub is_table : Value → Bool
is_table (table r) = true
is_table v = false

abbrev pub is_function : Value → Bool
is_function (function f) = true
is_function v = false

abbrev type_on : (Value → Bool) → List Value → Bool
type_on test [] = false
type_on test (v ∷ s) = test v

-- `if (lua_type(L, -1) != ...) abort();`
abbrev pub demand : (Value → Bool) → Action
demand test s = if type_on test s.stack then ok s else aborted

-- `lua_settop` to a height not above the present one.
abbrev pub set_top : ℕ → Action
set_top n s = ok (record s { stack = drop (length s.stack - n) s.stack })

-- What `lua_pcall` of a function with an argument answers: the status, a result or an error value, and
-- the world that the function leaves.
abbrev pub Calls : Type 0
Calls = Value → Value → World → ℕ × Value × World

abbrev call_on : Calls → List Value → World → Result
call_on calls (arg ∷ f ∷ s) w =
    let (rv, v, w') = calls f arg w in
    if rv == 0 then ok (record { stack = v ∷ s; world = w' }) else aborted
call_on calls s w = raised

-- `lua_pcall(L, 1, 1, 0)`, and `abort` where it fails.
abbrev pub call : Calls → Action
call calls s = call_on calls s.stack s.world
