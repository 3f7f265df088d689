-- ===== src/Conf/Tests.antt =====
-- Runs of the configuration of src/equus_conf.c and src/equus_util.c with small files.
use ck_agent.Base.{
  ◌≡◌, refl, true, none, some, List, [], ◌∷◌, ◌++◌, arith, pos, negsuc, Bytes, codes,
}
use ck_agent.Conf.{Config, World, Global, get_config_path, conf_init, load_config, equus_url, url}
use ck_agent.Conf.Args.{get_config_path-after_switch}
use ck_agent.Conf.Lines.{file_text}
use ck_agent.Conf.Parse.{setting_line, conf_init-url}
use ck_agent.Conf.Reload.{load_config-equus_url}
use ck_agent.Conf.Exit.{lifetime, lifetime-freed}

abbrev arguments : List Bytes
arguments = codes "agent" ∷ codes "-c" ∷ codes "my.conf" ∷ []

-- A comment, a setting that a later one replaces, that one, and another key.
abbrev before_setting : List Bytes
before_setting = codes "# note" ∷ codes "resources old" ∷ []

abbrev behind_setting : List Bytes
behind_setting = codes "key value" ∷ []

abbrev conf_text : Bytes
conf_text = file_text (before_setting ++ setting_line (codes " ") (codes "host") ∷ behind_setting)

abbrev world : World
world = record {
  argv = arguments;
  files = λ p. some conf_text;
  bootstrap = none;
  platform = codes "linux";
  prints = true;
}

abbrev no_files : World
no_files = record world { files = λ p. none }

abbrev empty : Config
empty = record { resources = none; made = 1; freed = 0 }

abbrev unloaded : Global
unloaded = record { conf = none; made = 0; freed = 0 }

abbrev loaded : Global
loaded = record { conf = some (some (codes "http://old/linux/")); made = 4; freed = 2 }

get_config_path-after_switch_example : get_config_path arguments ≡ some (codes "my.conf")
get_config_path-after_switch_example = get_config_path-after_switch arguments

conf_init-url_example :
    (d : Config) × (conf_init world empty ≡ some (pos 0, d))
    × (d.resources ≡ some (url (codes "linux") (codes "host")))
conf_init-url_example =
    conf_init-url world empty before_setting (codes " ") (codes "host") behind_setting refl
      (ground arith) (refl, tt) (ground arith) (refl, tt) refl

lifetime-freed_example :
    (h : Global) × (lifetime (world ∷ no_files ∷ world ∷ []) unloaded ≡ some h) × (h.made ≡ h.freed)
lifetime-freed_example = lifetime-freed (world ∷ no_files ∷ world ∷ []) unloaded refl

load_config-equus_url_example :
    (h : Global) × (load_config no_files loaded ≡ some (negsuc 0, h))
    × (equus_url no_files h ≡ some none)
load_config-equus_url_example = load_config-equus_url no_files loaded refl
