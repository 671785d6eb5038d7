-- ===== src/Config/Files/Reload.antt =====
-- The configuration file: where it is looked for, and what a second start makes of it.
use xray_web_maneger.Common.{
  ◌≡◌, ◌⊎◌, inl, inr, refl, subst, Text, Text-discrete, codes, is_empty, Bool, true, false, Option,
  none, some, ◌++◌, arith, Option-cases, Bool-cases, if◌then◌else◌,
}
use xray_web_maneger.Common.Assoc.{lookup, put, lookup-put_self}
use xray_web_maneger.Config.{
  Config, Url, failed, contents, new_default_config, load_config, validate_config, accept,
  apply_defaults, apply_default,
}
use xray_web_maneger.Config.Loading.{new_default_config-valid, load_config-valid}
use xray_web_maneger.Config.Files.{
  ext, is_yaml, path_found, with_extension, get_config_path, Files, header, Calls, written,
  save_default_config, read_file, load_file,
}

module _ (clean : Text → Text) (is_abs : Text → Bool) (abs : Text → Option Text)
    (join_dir : Text → Text → Text) where
  with_extension_lem :
      (cleaned path : Text)
      → with_extension clean is_abs abs join_dir cleaned ≡ path_found path
      → (cleaned ≡ path) × (is_yaml (ext cleaned) ≡ true)
  unfolding with_extension
  with_extension_lem cleaned path e = elim (Bool-cases (is_yaml (ext cleaned))) [
    | inl y ↦ (ground (arith, y), y)
    | inr n ↦ absurd (ground (arith, n))
  ]

  found_cases :
      (executable : Option Text) (config_path path : Text)
      → is_empty config_path ≡ false
      → get_config_path clean is_abs abs join_dir executable config_path ≡ path_found path
      → (q : Text) × ((is_abs q ≡ true) ⊎ (abs (clean config_path) ≡ some q))
        × (with_extension clean is_abs abs join_dir q ≡ path_found path)
  unfolding get_config_path
  found_cases executable config_path path given found =
      elim (Bool-cases (is_abs (clean config_path))) [
        | inl a ↦ (clean config_path, inl a, ground (arith, a))
        | inr n ↦ elim (Option-cases (abs (clean config_path))) [
          | inl e ↦ absurd (ground (arith, n, e))
          | inr (q, e) ↦ (q, inr e, ground (arith, n, e))
        ]
      ]

  -- A path given on the command line is used only if it ends in .yaml or .yml, and is then absolute,
  -- if filepath.Abs gives absolute paths.
  pub get_config_path-IsYaml :
      (executable : Option Text) (config_path path : Text)
      → ((p q : Text) → abs p ≡ some q → is_abs q ≡ true)
      → is_empty config_path ≡ false
      → get_config_path clean is_abs abs join_dir executable config_path ≡ path_found path
      → (is_yaml (ext path) ≡ true) × (is_abs path ≡ true)
  unfolding get_config_path with_extension
  get_config_path-IsYaml executable config_path path absolute given found =
      let (q, way, cleaned) = found_cases executable config_path path given found in
      let (same, yaml) = with_extension_lem q path cleaned in
      subst (λ t. (is_yaml (ext t) ≡ true) × (is_abs t ≡ true)) same
        (yaml, elim way [ inl a ↦ a | inr e ↦ absolute (clean config_path) q e ])

module _ (marshal : Config → Option Text) (decode : Config → Text → Option Config)
    (split_host_port : Text → Option (Text × Text)) (parse_url : Text → Option Url) where
  read_contents-saves_default :
      (bytes : Text)
      → (load_config split_host_port parse_url decode (contents bytes)).saves_default ≡ false
  unfolding load_config accept
  read_contents-saves_default bytes = elim (Option-cases (decode new_default_config bytes)) [
    | inl e ↦ rw (e, load_config) refl
    | inr (c, e) ↦
        elim (Option-cases (validate_config split_host_port parse_url (apply_defaults c))) [
          | inl v ↦ rw (e, load_config, v, accept) refl
          | inr (err, v) ↦ rw (e, load_config, v, accept) refl
        ]
  ]

  loaded_default :
      (bytes : Text)
      → split_host_port (codes "localhost:10085") ≡ some (codes "localhost", codes "10085")
      → decode new_default_config bytes ≡ some new_default_config
      → load_config split_host_port parse_url decode (contents bytes)
        ≡ record { config = new_default_config; error = none; saves_default = false }
  unfolding load_config accept apply_defaults apply_default
  loaded_default bytes split restored =
      rw (restored, load_config, new_default_config-valid split_host_port parse_url split, accept)
        refl

  read_of_lookup :
      (calls : Calls) (files : Files) (filename bytes : Text)
      → lookup Text-discrete filename files ≡ some bytes
      → read_file marshal decode split_host_port parse_url calls files filename
        ≡ (if calls.reads then contents bytes else failed)
  unfolding read_file
  read_of_lookup calls files filename bytes there = rw (there, read_file) refl

  -- LoadConfig leaves every file alone if there is one with the name of the configuration.
  pub load_file-kept :
      (calls : Calls) (files : Files) (filename bytes : Text)
      → lookup Text-discrete filename files ≡ some bytes
      → (load_file marshal decode split_host_port parse_url calls files filename).0 ≡ files
  unfolding load_file read_file load_config accept
  load_file-kept calls files filename bytes there =
      ground
        (arith, read_of_lookup calls files filename bytes there, read_contents-saves_default bytes)

  -- Whatever the files hold, LoadConfig returns a configuration that passes the validation.
  pub load_file-valid :
      (calls : Calls) (files : Files) (filename : Text)
      → split_host_port (codes "localhost:10085") ≡ some (codes "localhost", codes "10085")
      → validate_config split_host_port parse_url
          (load_file marshal decode split_host_port parse_url calls files filename).1.config
        ≡ none
  unfolding load_file
  load_file-valid calls files filename split =
      load_config-valid split_host_port parse_url decode
        (read_file marshal decode split_host_port parse_url calls files filename) split

  first_start :
      (calls : Calls) (files : Files) (filename bytes : Text)
      → marshal new_default_config ≡ some bytes
      → lookup Text-discrete filename files ≡ none
      → calls.makes_directory ≡ true
      → calls.write ≡ written
      → load_file marshal decode split_host_port parse_url calls files filename ≡ (
        put Text-discrete filename (header ++ bytes) files,
        record { config = new_default_config; error = none; saves_default = true },
      )
  unfolding load_file read_file load_config save_default_config
  first_start calls files filename bytes coded new directory writes =
      rw (new, read_file, load_config, coded, save_default_config, directory, writes) refl

  next_start :
      (calls : Calls) (files : Files) (filename bytes : Text)
      → split_host_port (codes "localhost:10085") ≡ some (codes "localhost", codes "10085")
      → decode new_default_config bytes ≡ some new_default_config
      → lookup Text-discrete filename files ≡ some bytes
      → calls.reads ≡ true
      → load_file marshal decode split_host_port parse_url calls files filename
        ≡ (files, record { config = new_default_config; error = none; saves_default = false })
  unfolding load_file
  next_start calls files filename bytes split restored there reads =
      rw
        (
          read_of_lookup calls files filename bytes there,
          reads,
          loaded_default bytes split restored,
        )
        refl

  -- If there is no file and the calls succeed, the program starts with the default configuration and
  -- leaves a file of the given name that holds the comment and the encoded default; if the YAML coder
  -- restores the default from that, the next start has the same configuration with no error, does
  -- not ask to save the default, and changes no file.
  pub reload_same :
      (calls later : Calls) (files : Files) (filename bytes : Text)
      → split_host_port (codes "localhost:10085") ≡ some (codes "localhost", codes "10085")
      → marshal new_default_config ≡ some bytes
      → decode new_default_config (header ++ bytes) ≡ some new_default_config
      → lookup Text-discrete filename files ≡ none
      → calls.makes_directory ≡ true
      → calls.write ≡ written
      → later.reads ≡ true
      → let first = load_file marshal decode split_host_port parse_url calls files filename in
        let second = load_file marshal decode split_host_port parse_url later first.0 filename in
        (first.1.config ≡ new_default_config)
        × (first.1.error ≡ none)
        × (lookup Text-discrete filename first.0 ≡ some (header ++ bytes))
        × (second.1.saves_default ≡ false)
        × (second.1.config ≡ first.1.config)
        × (second.1.error ≡ none)
        × (second.0 ≡ first.0)
  reload_same calls later files filename bytes split coded restored new directory writes reads =
      rw
        (
          first_start calls files filename bytes coded new directory writes,
          next_start later (put Text-discrete filename (header ++ bytes) files) filename
              (header ++ bytes) split restored
              (lookup-put_self Text-discrete filename filename (header ++ bytes) files refl) reads,
        )
        (
          refl,
          refl,
          lookup-put_self Text-discrete filename filename (header ++ bytes) files refl,
          refl,
          refl,
          refl,
          refl,
        )
