-- ===== src/Config/Files.antt =====
-- config/config.go: GetConfigPath, SaveDefaultConfig, and LoadConfig with the file that it reads or
-- writes. Of the file system only the contents of files are kept; the calls that may fail are
-- arguments. The functions of path/filepath but Ext, and the YAML coder, are parameters.
pub mod Reload
mod Tests
use xray_web_maneger.Common.{
  ℕ, take, Text, Text-discrete, codes, text_eq, is_empty, Bool, true, false, not, ◌==◌, ◌&&◌, ◌||◌,
  Option, none, some, List, [], ◌∷◌, ◌++◌, reverse, if◌then◌else◌,
}
use xray_web_maneger.Common.Assoc.{lookup, put}
use xray_web_maneger.Config.{
  Config, Url, Loaded, FileRead, not_exist, failed, contents, new_default_config, load_config,
}

-- What filepath.Ext finds in a path that is given backwards: the part from the last dot of the last
-- element on.
pub ext_back : Text → Text → Text
ext_back [] found = []
ext_back (c ∷ path) found =
    let rest = ext_back path (c ∷ found) in
    if c == b'/' then [] else if c == b'.' then c ∷ found else rest

pub ext : Text → Text
ext path = ext_back (reverse path) []

pub data PathResult : Type 0 where
  path_found : Text → PathResult
  no_absolute_path : PathResult
  wrong_extension : Text → PathResult
  no_executable : PathResult

abbrev pub is_yaml : Text → Bool
is_yaml e = text_eq e (codes ".yaml") || text_eq e (codes ".yml")

module _ (clean : Text → Text) (is_abs : Text → Bool) (abs : Text → Option Text)
    (join_dir : Text → Text → Text) where
  pub with_extension : Text → PathResult
  with_extension cleaned =
      if not (is_yaml (ext cleaned)) then wrong_extension (ext cleaned) else path_found cleaned

  -- GetConfigPath; `join_dir exe name` stands for filepath.Join(filepath.Dir(exe), name).
  unfoldable pub get_config_path : Option Text → Text → PathResult
  get_config_path executable config_path =
      if not (is_empty config_path)
      then if is_abs (clean config_path)
        then with_extension (clean config_path)
        else elim (abs (clean config_path)) [
          | none ↦ no_absolute_path
          | some abs_path ↦ with_extension abs_path
        ]
      else elim executable [
        | none ↦ no_executable
        | some exe_path ↦ path_found (join_dir exe_path (codes "config.yaml"))
      ]

abbrev pub Files : Type 0
Files = List (Text × Text)

-- The comment at the top of a new file, in UTF-8.
abbrev pub header : Text
header =
    codes "# Xray Web Manager "
    ++ (0xE9 ∷ 0x85 ∷ 0x8D ∷ 0xE7 ∷ 0xBD ∷ 0xAE ∷ 0xE6 ∷ 0x96 ∷ 0x87 ∷ 0xE4 ∷ 0xBB ∷ 0xB6 ∷ 10 ∷ 10
        ∷ [])

-- os.WriteFile: it writes all, does not open the file, or fails after some bytes.
pub data Write : Type 0 where
  written not_opened : Write
  cut_off : ℕ → Write

-- How the calls of the file system end.
pub record Calls : Type 0 where
  pub reads : Bool
  pub makes_directory : Bool
  pub write : Write

module _ (marshal : Config → Option Text) (decode : Config → Text → Option Config)
    (split_host_port : Text → Option (Text × Text)) (parse_url : Text → Option Url) where
  -- SaveDefaultConfig: the files, and whether it returns no error.
  pub save_default_config : Calls → Files → Text → Files × Bool
  save_default_config calls files filename = elim (marshal new_default_config) [
    | none ↦ (files, false)
    | some bytes ↦ if not calls.makes_directory then (files, false) else elim calls.write [
      | written ↦ (put Text-discrete filename (header ++ bytes) files, true)
      | not_opened ↦ (files, false)
      | cut_off n ↦ (put Text-discrete filename (take n (header ++ bytes)) files, false)
    ]
  ]

  -- os.ReadFile.
  unfoldable pub read_file : Calls → Files → Text → FileRead
  read_file calls files filename = elim (lookup Text-discrete filename files) [
    | none ↦ not_exist
    | some bytes ↦ if calls.reads then contents bytes else failed
  ]

  -- LoadConfig with its files.
  unfoldable pub load_file : Calls → Files → Text → Files × Loaded
  load_file calls files filename =
      let loaded = load_config split_host_port parse_url decode (read_file calls files filename) in
      (if loaded.saves_default then (save_default_config calls files filename).0 else files, loaded)
