-- ===== src/Loader/Dump.antt =====
-- `lua_stack_dump` of src/equus_loader.c: what it logs of each value on the Lua stack. The texts that `%p`
-- and `%g` give are arguments.
use ck_agent.Base.{
  ℕ, zero, suc, ◌+◌, ◌≡◌, refl, Bool, some, List, [], ◌∷◌, ◌++◌, arith, if◌then◌else◌, pos, Bytes,
  codes, length, get_elem?,
}
use ck_agent.Debugger.Stackwalk.{decimal}

-- A value by its type, with what is printed of it: a text, an address, or the text of a number.
pub data Slot : Type 0 where
  text number unknown : Bytes → Slot
  userdata lightuserdata table thread function : ℕ → Slot
  boolean : Bool → Slot
  nil absent : Slot

module _ (pointer : ℕ → Bytes) where
  abbrev pub tagged : Bytes → ℕ → Bytes
  tagged name a = codes "<" ++ name ++ codes " " ++ pointer a ++ codes ">"

  -- The switch over the type, without the index.
  abbrev pub slot_text : Slot → Bytes
  slot_text (text s) = codes "'" ++ s ++ codes "'"
  slot_text (userdata a) = tagged (codes "userdata") a
  slot_text (lightuserdata a) = tagged (codes "lightuserdata") a
  slot_text nil = codes "NIL"
  slot_text absent = codes "None"
  slot_text (boolean b) = if b then codes "true" else codes "false"
  slot_text (number s) = s
  slot_text (table a) = tagged (codes "table") a
  slot_text (thread a) = tagged (codes "thread") a
  slot_text (function a) = tagged (codes "function") a
  slot_text (unknown s) = codes "unknown: [" ++ s ++ codes "]"

  abbrev pub slot_line : ℕ → Slot → Bytes
  slot_line i v = decimal (pos i) ++ codes ":  " ++ slot_text v

  -- The loop from an index on; the bottom of the stack comes first.
  unfoldable pub slot_lines : ℕ → List Slot → List Bytes
  slot_lines i [] = []
  slot_lines i (v ∷ vs) = slot_line i v ∷ slot_lines (i + 1) vs

  unfoldable pub stack_dump : (msg : Bytes) → List Slot → List Bytes
  unfolding slot_lines
  stack_dump msg vs =
      (codes "Lua Stack Dump: " ++ msg ++ codes " starting at " ++ decimal (pos (length vs)))
      ∷ slot_lines 1 vs

  slot_lines-get_elem :
      (i j : ℕ) (vs : List Slot) (v : Slot)
      → get_elem? vs j ≡ some v
      → get_elem? (slot_lines i vs) j ≡ some (slot_line (i + j) v)
  unfolding slot_lines
  slot_lines-get_elem i j [] v h = cc
  slot_lines-get_elem i zero (w ∷ vs) v h =
      let same : w ≡ v = cc in let index : i + 0 ≡ i = omega arith in rw (index, same) refl
  slot_lines-get_elem i (suc j) (w ∷ vs) v h =
      let index : i + 1 + j ≡ i + suc j = omega arith in
      let rest : get_elem? (slot_lines (i + 1) vs) j ≡ some (slot_line (i + 1 + j) v) =
        slot_lines-get_elem (i + 1) j vs v h in
      rw index at rest

  -- Behind the heading, the line of each value stands at the index of the value.
  pub stack_dump-get_elem :
      (msg : Bytes) (vs : List Slot) (j : ℕ) (v : Slot)
      → get_elem? vs j ≡ some v
      → get_elem? (stack_dump msg vs) (suc j) ≡ some (slot_line (1 + j) v)
  unfolding stack_dump
  stack_dump-get_elem msg vs j v h = slot_lines-get_elem 1 j vs v h
