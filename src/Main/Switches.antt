-- ===== src/Main/Switches.antt =====
-- `main` of src/equus.c on Windows: which part of the agent the arguments choose.
use ck_agent.Base.{
  ℕ, ◌+◌, ◌≡◌, refl, Bool, false, ◌&&◌, Option, none, some, List, [], ◌∷◌, ◌++◌, arith, ◌==◌, leb,
  if◌then◌else◌, Bytes, codes, str_eq, length, drop,
}

abbrev pub to_lower : ℕ → ℕ
to_lower c = if leb 65 c && leb c 90 then c + 32 else c

abbrev pub lower : Bytes → Bytes
lower [] = []
lower (c ∷ s) = to_lower c ∷ lower s

-- `0 == stricmp(a, b)`
abbrev pub stricmp_eq : Bytes → Bytes → Bool
stricmp_eq a b = str_eq (lower a) (lower b)

-- What `main` calls: one of the functions of the service control, behind which it returns 0, `main_core`,
-- or `win32_run_service`.
pub data Part : Type 0 where
  install delete start status stop : Part
  core run_service : Part

-- The tests on one argument; none where it is not a switch.
unfoldable pub switch : Bytes → Option Part
switch arg =
    if stricmp_eq arg (codes "--install")
    then some install
    else if stricmp_eq arg (codes "--delete")
    then some delete
    else if stricmp_eq arg (codes "--start")
    then some start
    else if stricmp_eq arg (codes "--status")
    then some status
    else if stricmp_eq arg (codes "--stop")
    then some stop
    else if stricmp_eq arg (codes "--noservice")
    then some core
    else none

abbrev pub first_switch : List Bytes → Option Part
first_switch [] = none
first_switch (arg ∷ args) = elim (switch arg) [ some p ↦ some p | none ↦ first_switch args ]

unfoldable pub main_windows : (argv : List Bytes) → Part
main_windows argv = elim (first_switch (drop 1 argv)) [
  | some p ↦ p
  | none ↦ if length argv == 1 then run_service else core
]

abbrev pub HasNoSwitch : List Bytes → Type 0
HasNoSwitch [] = Unit
HasNoSwitch (arg ∷ args) = (switch arg ≡ none) × HasNoSwitch args

first_switch-append :
    (before after : List Bytes) (arg : Bytes) (p : Part)
    → HasNoSwitch before
    → switch arg ≡ some p
    → first_switch (before ++ arg ∷ after) ≡ some p
first_switch-append [] after arg p h at = rw (first_switch, at) refl
first_switch-append (b ∷ before) after arg p (other, h) at =
    rw (first_switch, other) (first_switch-append before after arg p h at)

first_switch-none : (args : List Bytes) → HasNoSwitch args → first_switch args ≡ none
first_switch-none [] h = refl
first_switch-none (arg ∷ args) (other, h) = rw (first_switch, other) (first_switch-none args h)

main_windows-none :
    (program : Bytes) (args : List Bytes)
    → HasNoSwitch args
    → main_windows (program ∷ args) ≡ (if length args == 0 then run_service else core)
unfolding main_windows
main_windows-none program [] h = refl
main_windows-none program (a ∷ args) h =
    let several : (length (program ∷ a ∷ args) == 1) ≡ false = ground arith in
    let present : (length (a ∷ args) == 0) ≡ false = ground arith in
    rw (main_windows, first_switch-none (a ∷ args) h, several, present) refl

-- The first switch among the arguments decides, whatever stands behind it; without a switch the agent
-- runs as a service where there is no argument, and else without a service.
pub main_windows_lem :
    (program : Bytes) (before after : List Bytes) (arg : Bytes) (p : Part)
    → HasNoSwitch before
    → switch arg ≡ some p
    → (main_windows (program ∷ before ++ arg ∷ after) ≡ p)
      × (main_windows (program ∷ before) ≡ (if length before == 0 then run_service else core))
unfolding main_windows
main_windows_lem program before after arg p h at =
    (rw (first_switch-append before after arg p h at) refl, main_windows-none program before h)
