-- ===== src/Conf.antt =====
-- The configuration: the arguments of the process and `global_conf` of src/equus_util.c, and the
-- configuration file of src/equus_conf.c, as on Unix. `made` and `freed` count the allocations of
-- strings and of `equus_conf_t`. An argument `bootstrap` is the macro EQUUS_BOOTSTRAP_URL, none where
-- it is not defined; `platform` is EQUUS_PLATFORM.
pub mod Args
pub mod Lines
pub mod Parse
pub mod Reload
pub mod Exit
mod Tests
use ck_agent.Base.{
  ℕ, zero, suc, ◌+◌, ◌-◌, Bool, true, false, ◌||◌, Option, none, some, List, [], ◌∷◌, ◌++◌, map,
  ◌==◌, ltb, if◌then◌else◌, ℤ, pos, negsuc, Bytes, codes, str_eq, starts_with, c_string, is_space,
  length, drop, get_elem?,
}

-- `argv` and its length `argc`; `argv[argc]` is NULL.
unfoldable pub get_argv : List Bytes → ℕ → Option Bytes
get_argv argv offset = if ltb (length argv) offset then none else get_elem? argv offset

abbrev pub is_config_switch : Bytes → Bool
is_config_switch arg = str_eq arg (codes "-c") || str_eq arg (codes "--config")

abbrev pub is_help_switch : Bytes → Bool
is_help_switch arg = str_eq arg (codes "-h") || str_eq arg (codes "--help")

abbrev pub default_path : Bytes
default_path = codes "/etc/cloudkick.conf"

-- The loop from the index `i`, with `k` rounds left; none is a `strcmp` with NULL.
unfoldable pub path_loop : List Bytes → (k i : ℕ) → Option Bytes
path_loop argv zero i = some default_path
path_loop argv (suc k) i =
    let rest = path_loop argv k (i + 1) in
    elim (get_argv argv i) [
      | none ↦ none
      | some arg ↦
          if is_config_switch arg
          then (elim (get_argv argv (i + 1)) [ none ↦ rest | some p ↦ some p ])
          else rest
    ]

unfoldable pub get_config_path : List Bytes → Option Bytes
unfolding path_loop
get_config_path argv = path_loop argv (length argv) 0

unfoldable pub help_loop : List Bytes → (k i : ℕ) → Option Bool
help_loop argv zero i = some false
help_loop argv (suc k) i =
    let rest = help_loop argv k (i + 1) in
    elim (get_argv argv i) [
      | none ↦ none
      | some arg ↦ if is_help_switch arg then some true else rest
    ]

unfoldable pub is_help_switch_present : List Bytes → Option Bool
unfolding help_loop
is_help_switch_present [] = some false
is_help_switch_present (prog ∷ args) = help_loop (prog ∷ args) (length args) 1

-- `while (isspace(p[0])) p++`
abbrev pub skip_space : Bytes → Bytes
skip_space [] = []
skip_space (c ∷ s) = if is_space c then skip_space s else c ∷ s

abbrev pub is_newline : ℕ → Bool
is_newline c = c == b'\n' || c == b'\r'

abbrev pub nuke_newlines : Bytes → Bytes
nuke_newlines p = map (λ c. if is_newline c then 0 else c) p

unfoldable pub next_chunk : Bytes → Bytes
next_chunk p = c_string (nuke_newlines (skip_space p))

pub record Config : Type 0 where
  pub resources : Option Bytes
  pub made : ℕ
  pub freed : ℕ

-- The strings that a configuration owns.
abbrev pub held : Option Bytes → ℕ
held none = 0
held (some _) = 1

-- `free` of the old string, if there is one, and the new one in its place.
abbrev pub set_resources : Bytes → Config → Config
set_resources b c = record {
  resources = some b;
  made = c.made + 1;
  freed = c.freed + held c.resources;
}

-- The body of the loop, on what `fgets` has put into the buffer.
unfoldable pub parse_line : Bytes → Config → Config
unfolding next_chunk
parse_line p c =
    let q = skip_space p in
    if starts_with (codes "#") p
    then c
    else if starts_with (codes "resources") q
    then set_resources (next_chunk (drop 9 q)) c
    else c

unfoldable pub conf_parse : List Bytes → Config → Config
unfolding parse_line
conf_parse [] c = c
conf_parse (p ∷ ps) c = conf_parse ps (parse_line p c)

-- What a series of `fgets` with a buffer of `n + 1` bytes reads: up to a newline, or `n` bytes.
-- `left` is the room in the buffer.
abbrev pub put_first : ℕ → List Bytes → List Bytes
put_first c [] = (c ∷ []) ∷ []
put_first c (l ∷ ls) = (c ∷ l) ∷ ls

unfoldable pub fgets_all : (n left : ℕ) → Bytes → List Bytes
fgets_all n left [] = []
fgets_all n left (c ∷ s) =
    let ends = (c ∷ []) ∷ fgets_all n n s in
    let goes_on = put_first c (fgets_all n (left - 1) s) in
    if c == b'\n' || left == 1 then ends else goes_on

abbrev pub buffer_size : ℕ
buffer_size = 8096

-- The lines of a file as the loop sees them: the bytes up to a NUL, if the file has one.
abbrev pub read_lines : Bytes → List Bytes
read_lines text = map c_string (fgets_all (buffer_size - 1) (buffer_size - 1) text)

abbrev pub url : (platform r : Bytes) → Bytes
url platform r = codes "http://" ++ (r ++ (codes "/" ++ (platform ++ codes "/")))

abbrev pub or_empty : Option Bytes → Bytes
or_empty none = []
or_empty (some b) = b

-- Behind `fclose`; `prints` is whether `asprintf` succeeds.
unfoldable pub finish :
    (bootstrap : Option Bytes) → (platform : Bytes) → (prints : Bool) → Config → ℤ × Config
finish bootstrap platform prints c = elim c.resources [
  | none ↦ (pos 0, set_resources (or_empty bootstrap) c)
  | some r ↦ if prints then (pos 0, set_resources (url platform r) c) else (negsuc 0, c)
]

-- The system and the build as `equus_conf_init` sees them; `files` is what `fopen` and `fgets` read.
pub record World : Type 0 where
  pub argv : List Bytes
  pub files : Bytes → Option Bytes
  pub bootstrap : Option Bytes
  pub platform : Bytes
  pub prints : Bool

-- Behind `fopen`.
unfoldable pub conf_read : World → Option Bytes → Config → ℤ × Config
unfolding finish conf_parse
conf_read w none c = (negsuc 0, c)
conf_read w (some text) c = finish w.bootstrap w.platform w.prints (conf_parse (read_lines text) c)

unfoldable pub conf_init : World → Config → Option (ℤ × Config)
unfolding conf_read get_config_path
conf_init w c = elim (get_config_path w.argv) [
  | none ↦ none
  | some path ↦ some (conf_read w (w.files path) c)
]

-- `global_conf`: NULL, or the `resources` of the struct.
pub record Global : Type 0 where
  pub conf : Option (Option Bytes)
  pub made : ℕ
  pub freed : ℕ

-- `calloc` of an empty configuration.
abbrev pub empty_conf : Global → Config
empty_conf g = record { resources = none; made = g.made + 1; freed = g.freed }

-- `equus_conf_free`: the string and the struct.
abbrev pub conf_free : Option Bytes → ℕ → ℕ
conf_free old freed = freed + held old + 1

-- The global configuration behind `equus_conf_init` on the new one.
abbrev pub install : Option (Option Bytes) → Config → Global
install none c = record { conf = some c.resources; made = c.made; freed = c.freed }
install (some old) c = record {
  conf = some c.resources;
  made = c.made;
  freed = conf_free old c.freed;
}

unfoldable pub load_config : World → Global → Option (ℤ × Global)
unfolding conf_init
load_config w g = elim (conf_init w (empty_conf g)) [
  | none ↦ none
  | some (rv, c) ↦ some (rv, install g.conf c)
]

unfoldable pub util_init : World → Global → Option (ℤ × Global)
unfolding load_config is_help_switch_present
util_init w g = elim (is_help_switch_present w.argv) [
  | none ↦ none
  | some true ↦ some (pos 0, g)
  | some false ↦ load_config w g
]

-- `equus_util_atexit`, of which OpenSSL's part is left out.
unfoldable pub util_atexit : Global → Global
util_atexit g = elim g.conf [ none ↦ g | some r ↦ record g { freed = conf_free r g.freed } ]

-- The result of `equus_url`: none is a read through NULL, `some none` is NULL.
unfoldable pub equus_url : World → Global → Option (Option Bytes)
equus_url w g = elim g.conf [
  | some resources ↦ some resources
  | none ↦ elim w.bootstrap [ none ↦ none | some u ↦ some (some u) ]
]
