-- ===== src/Exec/Argv.antt =====
-- The argument vector: the strings of the Lua table, in the order of `lua_next`.
use ck_agent.Base.{
  ℕ, zero, suc, ◌+◌, ◌-◌, ◌≤◌, ◌≡◌, refl, ap, inl, inr, true, none, some, List, [], ◌∷◌, ◌++◌, ◌<◌,
  arith, Bytes, length, ltb, if◌then◌else◌, Bool-cases, take, map,
}
use ck_agent.Lua.{LuaValue, text, other, as_string}

abbrev pub max_argc : ℕ
max_argc = 64

-- `refused i` is a value that is no string, met when `argv` held `i` copies.
pub data Argv : Type 0 where
  filled : List Bytes → Argv
  refused : ℕ → Argv

abbrev pub put : Bytes → Argv → Argv
put b (filled bs) = filled (b ∷ bs)
put b (refused i) = refused i

-- `while (lua_next(L, 1) != 0 && i < EQUUS_MAX_ARGC-1)`
unfoldable pub gather : ℕ → List LuaValue → Argv
gather i [] = filled []
gather i (v ∷ vs) =
    let rest : Argv = elim (as_string v) [
      | none ↦ refused i
      | some b ↦ put b (gather (i + 1) vs)
    ] in
    if ltb i (max_argc - 1) then rest else filled []

put-eq-filled :
    (b : Bytes) (a : Argv) (cs : List Bytes)
    → put b a ≡ filled cs
    → (bs : List Bytes) × (a ≡ filled bs) × (cs ≡ b ∷ bs)
put-eq-filled b (filled bs) cs e = (bs, refl, cc)
put-eq-filled b (refused i) cs e = cc

gather-length-le :
    (i : ℕ) (vs : List LuaValue) (bs : List Bytes)
    → i ≤ 63
    → gather i vs ≡ filled bs
    → i + length bs ≤ 63
unfolding gather
gather-length-le i [] bs h e = ground arith
gather-length-le i (other ∷ vs) bs h e = ground arith
gather-length-le i (text b ∷ vs) bs h e = elim (Bool-cases (ltb i 63)) [
  | inl more ↦
      let (cs, rest, same) = put-eq-filled b (gather (i + 1) vs) bs (rw more at e) in
      let fits : i + 1 ≤ 63 = ground arith in
      rw same (omega (arith, gather-length-le (i + 1) vs cs fits rest))
  | inr full ↦ let none_left : filled [] ≡ filled bs = rw full at e in ground arith
]

put-eq-refused : (b : Bytes) (a : Argv) (k : ℕ) → put b a ≡ refused k → a ≡ refused k
put-eq-refused b (filled bs) k e = cc
put-eq-refused b (refused i) k e = cc

-- A value that is no string is refused behind the strings in front of it, each of which has been copied.
pub gather-eq-refused :
    (i : ℕ) (vs : List LuaValue) (k : ℕ)
    → gather i vs ≡ refused k
    → (bs : List Bytes) × (rest : List LuaValue) × (vs ≡ map text bs ++ other ∷ rest)
      × (i + length bs ≡ k)
      × (k < 63)
unfolding gather
gather-eq-refused i [] k e = cc
gather-eq-refused i (other ∷ vs) k e = elim (Bool-cases (ltb i 63)) [
  | inl more ↦
      let same : i ≡ k = cc (rw more at e) in ([], vs, refl, omega (arith, same), ground arith)
  | inr full ↦ cc (rw full at e)
]
gather-eq-refused i (text b ∷ vs) k e = elim (Bool-cases (ltb i 63)) [
  | inl more ↦
      let later : gather (i + 1) vs ≡ refused k = put-eq-refused b _ k (rw more at e) in
      let (bs, rest, split, count, fits) = gather-eq-refused (i + 1) vs k later in
      (b ∷ bs, rest, ap (λ ws. text b ∷ ws) split, omega (arith, count), fits)
  | inr full ↦ cc (rw full at e)
]

-- The argument vector with its final NULL fits the array of 64 pointers.
pub gather_fits :
    (vs : List LuaValue) (bs : List Bytes) → gather 0 vs ≡ filled bs → length bs + 1 ≤ max_argc
gather_fits vs bs e = omega (arith, gather-length-le 0 vs bs (omega arith) e)

gather-take : (i n : ℕ) (bs : List Bytes) → i + n ≡ 63 → gather i (map text bs) ≡ filled (take n bs)
unfolding gather
gather-take i zero [] h = refl
gather-take i (suc n) [] h = refl
gather-take i zero (b ∷ bs) h = ground arith
gather-take i (suc n) (b ∷ bs) h =
    let more : ltb i 63 ≡ true = ground arith in rw (more, gather-take (i + 1) n bs (omega arith))

-- Of a table of strings the vector holds the first 63, in order.
pub gather-texts : (bs : List Bytes) → gather 0 (map text bs) ≡ filled (take 63 bs)
gather-texts bs = gather-take 0 63 bs (omega arith)
