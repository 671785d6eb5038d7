-- ===== src/Config/Tests.antt =====
-- The theorems on the configuration, at an input.
use xray_web_maneger.Common.{◌≡◌, ◌↔◌, Text, codes, Option, none, some, [], ◌∷◌}
use xray_web_maneger.Common.Strings.{split_byte}
use xray_web_maneger.Common.Int.{pos}
use xray_web_maneger.Config.{Config, Url, new_default_config, validate_config}
use xray_web_maneger.Config.Validity.{IsValid, validate_config_iff}

-- A host and a port around one colon, as net.SplitHostPort finds them.
abbrev at_colon : Text → Option (Text × Text)
at_colon s = elim (split_byte b':' s).1 [
  | [] ↦ none
  | port ∷ rest ↦ elim rest [ [] ↦ some ((split_byte b':' s).0, port) | _ ↦ none ]
]

abbrev no_url : Text → Option Url
no_url s = none

abbrev with_file : Config
with_file = record new_default_config {
  log = record {
    log_type = codes "file";
    file_path = codes "/var/log/x";
    journal = [];
    max_bytes = pos 7;
  };
}

validate_config_example :
    (validate_config at_colon no_url with_file ≡ none) ↔ IsValid at_colon no_url with_file
validate_config_example = validate_config_iff at_colon no_url with_file
