-- ===== src/Conf/Parse.antt =====
-- What `equus_conf_init` makes of a configuration file.
use ck_agent.Base.{
  ◌≡◌, ◌≢◌, refl, Bool, true, false, not, ◌&&◌, Option, some, List, [], ◌∷◌, ◌++◌, map, arith, ◌==◌,
  pos, Bytes, codes, starts_with, c_string, is_space, append_assoc,
}
use ck_agent.Conf.{
  skip_space, nuke_newlines, is_newline, next_chunk, Config, set_resources, parse_line, conf_parse,
  url, finish, World, conf_read, conf_init,
}
use ck_agent.Conf.Args.{after_switch, get_config_path-after_switch}
use ck_agent.Conf.Lines.{AreLines, ended, file_text, read_lines-file_text}

-- A text that can be the value of a setting: it starts with no space, and has no line end and no NUL.
abbrev pub HasNoBreak : Bytes → Type 0
HasNoBreak [] = Unit
HasNoBreak (c ∷ s) = (c ≢ 0) × (c ≢ b'\n') × (c ≢ b'\r') × HasNoBreak s

abbrev pub IsValue : Bytes → Type 0
IsValue [] = ⊥
IsValue (c ∷ s) = (is_space c ≡ false) × HasNoBreak (c ∷ s)

abbrev pub AreSpaces : Bytes → Type 0
AreSpaces [] = Unit
AreSpaces (c ∷ s) = (is_space c ≡ true) × AreSpaces s

skip_space-append : (blanks s : Bytes) → AreSpaces blanks → skip_space (blanks ++ s) ≡ skip_space s
skip_space-append [] s h = refl
skip_space-append (c ∷ blanks) s (h, hs) = rw (h, skip_space-append blanks s hs)

value-kept : (v : Bytes) → HasNoBreak v → c_string (nuke_newlines (ended v)) ≡ v
value-kept [] h = refl
value-kept (c ∷ v) (a, b, d, h) =
    let keeps : is_newline c ≡ false = ground arith in
    let live : (c == 0) ≡ false = ground arith in rw (keeps, live, value-kept v h)

next_chunk-value :
    (blanks v : Bytes) → AreSpaces blanks → IsValue v → next_chunk (blanks ++ ended v) ≡ v
unfolding next_chunk
next_chunk-value blanks [] h k = absurd k
next_chunk-value blanks (c ∷ v) h (solid, k) =
    rw (skip_space-append blanks (ended (c ∷ v)) h, solid) (value-kept (c ∷ v) k)

abbrev pub setting_line : (blanks v : Bytes) → Bytes
setting_line blanks v = codes "resources" ++ (blanks ++ v)

-- The test of the loop on a line.
abbrev pub is_setting : Bytes → Bool
is_setting p = not (starts_with (codes "#") p) && starts_with (codes "resources") (skip_space p)

-- None of the lines is a setting.
abbrev pub ArePlain : List Bytes → Type 0
ArePlain [] = Unit
ArePlain (l ∷ ls) = (is_setting (ended l) ≡ false) × ArePlain ls

parse_line-plain : (p : Bytes) (c : Config) → is_setting p ≡ false → parse_line p c ≡ c
unfolding parse_line
parse_line-plain p c h = ground arith

parse_line-setting :
    (blanks v : Bytes) (c : Config)
    → AreSpaces blanks
    → IsValue v
    → parse_line (ended (setting_line blanks v)) c ≡ set_resources v c
unfolding parse_line
parse_line-setting blanks v c h k =
    rw (append_assoc blanks v (b'\n' ∷ []), next_chunk-value blanks v h k)

conf_parse-plain : (ls : List Bytes) (c : Config) → ArePlain ls → conf_parse (map ended ls) c ≡ c
unfolding conf_parse
conf_parse-plain [] c h = refl
conf_parse-plain (l ∷ ls) c (h, hs) =
    rw (conf_parse, parse_line-plain (ended l) c h) (conf_parse-plain ls c hs)

-- The last setting is the one that counts.
conf_parse-last :
    (before : List Bytes) (blanks v : Bytes) (after : List Bytes) (c : Config)
    → AreSpaces blanks
    → IsValue v
    → ArePlain after
    → (conf_parse (map ended (before ++ setting_line blanks v ∷ after)) c).resources ≡ some v
unfolding conf_parse
conf_parse-last [] blanks v after c h k plain = rw (
  conf_parse,
  parse_line-setting blanks v c h k,
  conf_parse-plain after (set_resources v c) plain,
)
conf_parse-last (l ∷ before) blanks v after c h k plain =
    conf_parse-last before blanks v after (parse_line (ended l) c) h k plain

finish-url :
    (bootstrap : Option Bytes) (platform : Bytes) (c : Config) (v : Bytes)
    → c.resources ≡ some v
    → finish bootstrap platform true c ≡ (pos 0, set_resources (url platform v) c)
unfolding finish
finish-url bootstrap platform c v e = rw e

pub conf_init-conf_read :
    (w : World) (c : Config) → conf_init w c ≡ some (conf_read w (w.files (after_switch w.argv)) c)
unfolding conf_init
conf_init-conf_read w c = rw (conf_init, get_config_path-after_switch w.argv)

-- A readable file whose lines fit the buffer and whose last setting is `resources`, blanks and a value,
-- and an `asprintf` that succeeds:
-- `equus_conf_init` succeeds, and the resources are the URL made of this value and the platform,
-- whatever the lines before the setting, and the configuration before, say.
pub conf_init-url :
    (w : World) (c : Config) (before : List Bytes) (blanks v : Bytes) (after : List Bytes)
    → w.files (after_switch w.argv) ≡ some (file_text (before ++ setting_line blanks v ∷ after))
    → AreLines (before ++ setting_line blanks v ∷ after)
    → AreSpaces blanks
    → IsValue v
    → ArePlain after
    → w.prints ≡ true
    → (d : Config) × (conf_init w c ≡ some (pos 0, d)) × (d.resources ≡ some (url w.platform v))
unfolding conf_read
conf_init-url w c before blanks v after file fits h k plain prints =
    let ls : List Bytes = before ++ setting_line blanks v ∷ after in
    let parsed : Config = conf_parse (map ended ls) c in
    (
      set_resources (url w.platform v) parsed,
      rw (
        conf_init-conf_read w c,
        file,
        conf_read,
        prints,
        read_lines-file_text ls fits,
        finish-url w.bootstrap w.platform parsed v
            (conf_parse-last before blanks v after c h k plain),
      ),
      refl,
    )
