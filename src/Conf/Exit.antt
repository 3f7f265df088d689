-- ===== src/Conf/Exit.antt =====
-- The configurations of a whole process, from its start to its exit.
use ck_agent.Base.{◌≡◌, refl, ◌∙◌, Option, none, some, List, [], ◌∷◌, arith, inl, inr, Option-cases}
use ck_agent.Conf.{World, Global, load_config, util_atexit}
use ck_agent.Conf.Reload.{IsBalanced, load_config-IsBalanced}

-- The configuration is loaded once per entry of the list, then the process exits.
unfoldable pub lifetime : List World → Global → Option Global
unfolding load_config util_atexit
lifetime [] g = some (util_atexit g)
lifetime (w ∷ ws) g = elim (load_config w g) [ none ↦ none | some (rv, h) ↦ lifetime ws h ]

util_atexit-freed : (g : Global) → IsBalanced g → (util_atexit g).made ≡ (util_atexit g).freed
unfolding util_atexit
util_atexit-freed g balanced = elim (Option-cases g.conf) [
  | inl never ↦ rw never (balanced ∙ rw never (omega arith))
  | inr (r, there) ↦ rw there (balanced ∙ rw there (omega arith))
]

-- However often a process loads its configuration, and whether or not it can read the files, all loads
-- return, and when it exits every allocation of a configuration has been freed, if at the start each was
-- freed or owned by the configuration in place.
pub lifetime-freed :
    (ws : List World) (g : Global)
    → IsBalanced g
    → (h : Global) × (lifetime ws g ≡ some h) × (h.made ≡ h.freed)
unfolding lifetime
lifetime-freed [] g balanced = (util_atexit g, refl, util_atexit-freed g balanced)
lifetime-freed (w ∷ ws) g balanced =
    let (rv, h, loads, still, _) = load_config-IsBalanced w g balanced in
    let (final, runs, freed) = lifetime-freed ws h still in
    (final, rw (lifetime, loads) runs, freed)
