-- ===== src/Config/Files/Tests.antt =====
-- The configuration file at a path, with a coder that writes a fixed text.
use xray_web_maneger.Common.{
  ◌≡◌, refl, Text, codes, true, false, Bool, Option, none, some, [], ◌∷◌, ◌++◌, Text-discrete,
}
use xray_web_maneger.Common.Assoc.{lookup}
use xray_web_maneger.Common.Strings.{split_byte}
use xray_web_maneger.Config.{Config, Url, new_default_config}
use xray_web_maneger.Config.Files.{ext, ext_back, header, Calls, written, load_file}
use xray_web_maneger.Config.Files.Reload.{load_file-kept, reload_same}

ext_tests :
    (ext (codes "/a.b/c") ≡ [])
    × (ext (codes "/a/c.d.yml") ≡ codes ".yml")
    × (ext (codes "c.") ≡ codes ".")
unfolding ext ext_back
ext_tests = (refl, refl, refl)

abbrev is_abs : Text → Bool
is_abs path = true

abbrev join_dir : Text → Text → Text
join_dir exe name = name

abbrev some_abs : Text → Option Text
some_abs path = some path

-- A host and a port around one colon.
abbrev at_colon : Text → Option (Text × Text)
at_colon s = elim (split_byte b':' s).1 [
  | [] ↦ none
  | port ∷ rest ↦ some ((split_byte b':' s).0, port)
]

abbrev no_url : Text → Option Url
no_url s = none

abbrev marshal : Config → Option Text
marshal c = some (codes "server:")

abbrev decode : Config → Text → Option Config
decode c bytes = some new_default_config

abbrev fine : Calls
fine = record { reads = true; makes_directory = true; write = written }

abbrev unreadable : Calls
unreadable = record { reads = false; makes_directory = true; write = written }

kept_example :
    (load_file marshal decode at_colon no_url unreadable
      ((codes "c.yaml", codes "x") ∷ [])
      (codes "c.yaml")).0
    ≡ (codes "c.yaml", codes "x") ∷ []
unfolding Text-discrete
kept_example =
    load_file-kept marshal decode at_colon no_url unreadable ((codes "c.yaml", codes "x") ∷ [])
      (codes "c.yaml") (codes "x") refl

reload_example :
    let first = load_file marshal decode at_colon no_url fine [] (codes "c.yaml") in
    let second = load_file marshal decode at_colon no_url fine first.0 (codes "c.yaml") in
    (first.1.config ≡ new_default_config)
    × (first.1.error ≡ none)
    × (lookup Text-discrete (codes "c.yaml") first.0 ≡ some (header ++ codes "server:"))
    × (second.1.saves_default ≡ false)
    × (second.1.config ≡ first.1.config)
    × (second.1.error ≡ none)
    × (second.0 ≡ first.0)
unfolding split_byte
reload_example =
    reload_same marshal decode at_colon no_url fine fine [] (codes "c.yaml") (codes "server:") refl
      refl refl refl refl refl refl
