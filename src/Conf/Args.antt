-- ===== src/Conf/Args.antt =====
-- What `get_config_path` and `is_help_switch_present` find among the arguments.
use ck_agent.Base.{
  ℕ, zero, suc, ◌+◌, ◌≤◌, ◌≡◌, refl, sym, inl, inr, Bool, false, ◌||◌, none, some, List, [], ◌∷◌,
  arith, ltb, if◌then◌else◌, Bool-cases, Bytes, length, drop, get_elem?,
}
use ck_agent.Conf.{
  get_argv, is_config_switch, is_help_switch, default_path, path_loop, get_config_path, help_loop,
  is_help_switch_present,
}

get_elem?-none : (argv : List Bytes) (i : ℕ) → length argv ≤ i → get_elem? argv i ≡ none
get_elem?-none [] i h = refl
get_elem?-none (a ∷ argv) zero h = absurd (omega arith)
get_elem?-none (a ∷ argv) (suc i) h = get_elem?-none argv i (omega arith)

get_argv_lem : (argv : List Bytes) (i : ℕ) → get_argv argv i ≡ get_elem? argv i
unfolding get_argv
get_argv_lem argv i = elim (Bool-cases (ltb (length argv) i)) [
  | inl past ↦ rw past (sym (get_elem?-none argv i (ground arith)))
  | inr within ↦ rw within
]

-- From the index `i` on the arguments are `rest`.
abbrev Follows : List Bytes → ℕ → List Bytes → Type 0
Follows argv i rest = (j : ℕ) → get_elem? argv (i + j) ≡ get_elem? rest j

Follows-tail :
    (argv : List Bytes) (i : ℕ) (a : Bytes) (rest : List Bytes)
    → Follows argv i (a ∷ rest)
    → Follows argv (i + 1) rest
Follows-tail argv i a rest f j =
    let shift : i + 1 + j ≡ i + suc j = omega arith in rw shift (f (suc j))

Follows-get_argv :
    (argv : List Bytes) (i : ℕ) (rest : List Bytes)
    → Follows argv i rest
    → get_argv argv i ≡ get_elem? rest 0
Follows-get_argv argv i rest f =
    let here : i + 0 ≡ i = omega arith in rw get_argv_lem (rw here at (f 0))

-- The argument behind the first switch that has one behind it.
abbrev pub after_switch : List Bytes → Bytes
after_switch [] = default_path
after_switch (a ∷ []) = default_path
after_switch (a ∷ b ∷ rest) = if is_config_switch a then b else after_switch (b ∷ rest)

path_loop-after_switch :
    (argv : List Bytes) (i : ℕ) (rest : List Bytes)
    → Follows argv i rest
    → path_loop argv (length rest) i ≡ some (after_switch rest)
unfolding path_loop
path_loop-after_switch argv i [] f = refl
path_loop-after_switch argv i (a ∷ []) f = elim (Bool-cases (is_config_switch a)) [
  | inl switch ↦ rw (
    path_loop,
    Follows-get_argv argv i (a ∷ []) f,
    switch,
    Follows-get_argv argv (i + 1) [] (Follows-tail argv i a [] f),
  )
  | inr plain ↦ rw (path_loop, Follows-get_argv argv i (a ∷ []) f, plain)
]
path_loop-after_switch argv i (a ∷ b ∷ rest) f =
    let tail : Follows argv (i + 1) (b ∷ rest) = Follows-tail argv i a (b ∷ rest) f in
    elim (Bool-cases (is_config_switch a)) [
      | inl switch ↦ rw (
        path_loop,
        Follows-get_argv argv i (a ∷ b ∷ rest) f,
        switch,
        Follows-get_argv argv (i + 1) (b ∷ rest) tail,
      )
      | inr plain ↦
          rw (path_loop, Follows-get_argv argv i (a ∷ b ∷ rest) f, plain)
            (path_loop-after_switch argv (i + 1) (b ∷ rest) tail)
    ]

Follows-all : (argv : List Bytes) → Follows argv 0 argv
Follows-all argv j = let here : 0 + j ≡ j = omega arith in rw here refl

-- `get_config_path` never compares NULL: it returns the argument behind the first `-c` or `--config`
-- that is not the last argument, and else the default path.
pub get_config_path-after_switch :
    (argv : List Bytes) → get_config_path argv ≡ some (after_switch argv)
unfolding get_config_path
get_config_path-after_switch argv = path_loop-after_switch argv 0 argv (Follows-all argv)

abbrev pub asks_help : List Bytes → Bool
asks_help [] = false
asks_help (a ∷ rest) = is_help_switch a || asks_help rest

help_loop-asks_help :
    (argv : List Bytes) (i : ℕ) (rest : List Bytes)
    → Follows argv i rest
    → help_loop argv (length rest) i ≡ some (asks_help rest)
unfolding help_loop
help_loop-asks_help argv i [] f = refl
help_loop-asks_help argv i (a ∷ rest) f = elim (Bool-cases (is_help_switch a)) [
  | inl switch ↦ rw (help_loop, Follows-get_argv argv i (a ∷ rest) f, switch)
  | inr plain ↦
      rw (help_loop, Follows-get_argv argv i (a ∷ rest) f, plain)
        (help_loop-asks_help argv (i + 1) rest (Follows-tail argv i a rest f))
]

-- `is_help_switch_present` never compares NULL: it reports whether `-h` or `--help` is among the
-- arguments behind the name of the program.
pub is_help_switch_present-asks_help :
    (argv : List Bytes) → is_help_switch_present argv ≡ some (asks_help (drop 1 argv))
unfolding is_help_switch_present
is_help_switch_present-asks_help [] = refl
is_help_switch_present-asks_help (prog ∷ args) =
    help_loop-asks_help (prog ∷ args) 1 args
      (Follows-tail (prog ∷ args) 0 prog args (Follows-all (prog ∷ args)))
