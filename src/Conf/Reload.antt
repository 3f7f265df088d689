-- ===== src/Conf/Reload.antt =====
-- Loading the configuration, once and again.
use ck_agent.Base.{
  ℕ, ◌+◌, ◌≡◌, ◌≢◌, inl, inr, Bool, Option, none, some, List, [], ◌∷◌, arith, if◌then◌else◌,
  Bool-cases, Option-cases, ℤ, pos, negsuc, Bytes, drop,
}
use ck_agent.Conf.{
  held, Config, set_resources, parse_line, conf_parse, finish, World, conf_read, Global, empty_conf,
  install, load_config, util_init, equus_url, read_lines,
}
use ck_agent.Conf.Parse.{conf_init-conf_read}
use ck_agent.Conf.Args.{after_switch, asks_help, is_help_switch_present-asks_help}

-- The allocations of a `global_conf`: the struct and its string.
abbrev pub owned : Option (Option Bytes) → ℕ
owned none = 0
owned (some r) = held r + 1

-- Every allocation is freed or owned by `global_conf`.
abbrev pub IsBalanced : Global → Type 0
IsBalanced g = g.made ≡ g.freed + owned g.conf

-- Of a configuration under construction, beside `k` other allocations.
abbrev Owes : ℕ → Config → Type 0
Owes k c = c.made ≡ c.freed + (held c.resources + k)

set_resources-Owes : (k : ℕ) (b : Bytes) (c : Config) → Owes k c → Owes k (set_resources b c)
set_resources-Owes k b c h = omega arith

parse_line-Owes : (k : ℕ) (p : Bytes) (c : Config) → Owes k c → Owes k (parse_line p c)
unfolding parse_line
parse_line-Owes k p c h = ground arith

conf_parse-Owes : (k : ℕ) (ps : List Bytes) (c : Config) → Owes k c → Owes k (conf_parse ps c)
unfolding conf_parse
conf_parse-Owes k [] c h = h
conf_parse-Owes k (p ∷ ps) c h = conf_parse-Owes k ps (parse_line p c) (parse_line-Owes k p c h)

finish-Owes :
    (k : ℕ) (bootstrap : Option Bytes) (platform : Bytes) (prints : Bool) (c : Config)
    → Owes k c
    → Owes k (finish bootstrap platform prints c).1
unfolding finish
finish-Owes k bootstrap platform prints c h = ground arith

conf_read-Owes :
    (k : ℕ) (w : World) (text : Option Bytes) (c : Config)
    → Owes k c
    → Owes k (conf_read w text c).1
unfolding conf_read
conf_read-Owes k w none c h = h
conf_read-Owes k w (some text) c h =
    finish-Owes k w.bootstrap w.platform w.prints (conf_parse (read_lines text) c)
      (conf_parse-Owes k (read_lines text) c h)

install-IsBalanced :
    (old : Option (Option Bytes)) (c : Config) → Owes (owned old + 1) c → IsBalanced (install old c)
install-IsBalanced none c h = omega arith
install-IsBalanced (some r) c h = omega arith

install-some : (old : Option (Option Bytes)) (c : Config) → (install old c).conf ≢ none
install-some none c e = cc
install-some (some r) c e = cc

-- `equus_load_config` returns, whether or not it can read the file; it leaves a configuration in place,
-- and it has freed what belonged to the old one: every allocation is freed or owned by the new one.
pub load_config-IsBalanced :
    (w : World) (g : Global)
    → IsBalanced g
    → (rv : ℤ) × (h : Global) × (load_config w g ≡ some (rv, h)) × IsBalanced h × (h.conf ≢ none)
unfolding load_config
load_config-IsBalanced w g balanced =
    let r : ℤ × Config = conf_read w (w.files (after_switch w.argv)) (empty_conf g) in
    let start : Owes (owned g.conf + 1) (empty_conf g) = omega arith in
    (
      r.0,
      install g.conf r.1,
      rw (load_config, conf_init-conf_read w (empty_conf g)),
      install-IsBalanced g.conf r.1 (conf_read-Owes (owned g.conf + 1) w _ (empty_conf g) start),
      install-some g.conf r.1,
    )

installed_url : (w : World) (g : Global) → equus_url w (install g.conf (empty_conf g)) ≡ some none
unfolding equus_url
installed_url w g = elim (Option-cases g.conf) [
  | inl first ↦ rw (first, equus_url)
  | inr (r, again) ↦ rw (again, equus_url)
]

-- A reload that cannot open its file reports the failure, and has dropped the old configuration all the
-- same: the one in place is empty, and `equus_url` returns NULL.
pub load_config-equus_url :
    (w : World) (g : Global)
    → w.files (after_switch w.argv) ≡ none
    → (h : Global) × (load_config w g ≡ some (negsuc 0, h)) × (equus_url w h ≡ some none)
unfolding load_config equus_url
load_config-equus_url w g missing = (
  install g.conf (empty_conf g),
  rw (load_config, conf_init-conf_read w (empty_conf g), missing, conf_read),
  installed_url w g,
)

-- Where the arguments ask for help, `equus_util_init` reads no file and succeeds; else it does what
-- `equus_load_config` does.
pub util_init-asks_help :
    (w : World) (g : Global)
    → util_init w g ≡ (if asks_help (drop 1 w.argv) then some (pos 0, g) else load_config w g)
unfolding util_init
util_init-asks_help w g = elim (Bool-cases (asks_help (drop 1 w.argv))) [
  | inl help ↦ rw (util_init, is_help_switch_present-asks_help w.argv, help)
  | inr plain ↦ rw (util_init, is_help_switch_present-asks_help w.argv, plain)
]
