-- ===== src/Config.antt =====
-- config/config.go: the configuration with its defaults, its validation, and loading it.
-- net.SplitHostPort, url.Parse and the YAML decoder are parameters. A string is its bytes.
pub mod Validity
pub mod Loading
pub mod Files
mod Tests
use xray_web_maneger.Common.{
  ℕ, Text, codes, text_eq, is_empty, Bool, true, false, not, ◌&&◌, ◌||◌, Option, none, some, List,
  [], ◌∷◌, ltb, leb, ◌==◌, any, if◌then◌else◌,
}
use xray_web_maneger.Common.Int.{ℤ, pos, negsuc, is_positive}
use xray_web_maneger.Common.Strings.{atoi}

pub record ServerConfig : Type 0 where
  pub host : Text
  pub port : Text
  pub allowed_origins : List Text
  pub trust_proxy_headers : Bool

pub record XrayConfig : Type 0 where
  pub api_addr : Text
  pub balancer_tag : Text

pub record AuthConfig : Type 0 where
  pub username : Text
  pub password : Text

pub record LogConfig : Type 0 where
  pub log_type : Text
  pub file_path : Text
  pub journal : Text
  pub max_bytes : ℤ

pub record Config : Type 0 where
  pub server : ServerConfig
  pub xray : XrayConfig
  pub auth : AuthConfig
  pub log : LogConfig

abbrev pub new_default_config : Config
new_default_config = record {
  server = record {
    host = codes "0.0.0.0";
    port = codes "9098";
    allowed_origins = [];
    trust_proxy_headers = false;
  };
  xray = record { api_addr = codes "localhost:10085"; balancer_tag = codes "balancer" };
  auth = record { username = []; password = [] };
  log = record {
    log_type = codes "none";
    file_path = [];
    journal = [];
    max_bytes = pos 10_485_760;
  };
}

pub data ConfigError : Type 0 where
  invalid_port port_out_of_range empty_api_addr empty_balancer_tag invalid_api_addr : ConfigError
  empty_api_host empty_api_port invalid_api_port : ConfigError
  invalid_origin : Text → ConfigError
  invalid_max_bytes missing_file_path missing_journal invalid_journal invalid_log_type : ConfigError

-- What url.Parse gives of an address.
pub record Url : Type 0 where
  pub scheme : Text
  pub host : Text

-- The first of two errors.
abbrev pub or_error : Option ConfigError → Option ConfigError → Option ConfigError
or_error none later = later
or_error (some e) later = some e

-- The error, if the test holds.
abbrev pub refuse_if : Bool → ConfigError → Option ConfigError
refuse_if test e = if test then some e else none

abbrev pub is_between : ℕ → ℕ → ℤ → Bool
is_between low high (pos n) = leb low n && leb n high
is_between low high (negsuc n) = false

-- The port's checks: text that is no number, and a number out of range.
abbrev pub check_port : ConfigError → ConfigError → Option ℤ → Option ConfigError
check_port invalid out_of_range none = some invalid
check_port invalid out_of_range (some p) = refuse_if (not (is_between 1 65535 p)) out_of_range

-- The checks of the host and the port that net.SplitHostPort found.
abbrev pub check_api : Option (Text × Text) → Option ConfigError
check_api none = some invalid_api_addr
check_api (some (host, port)) = or_error (refuse_if (is_empty host) empty_api_host) (
    or_error (refuse_if (is_empty port) empty_api_port)
      (check_port invalid_api_port invalid_api_port (atoi port)))

abbrev pub is_origin : Option Url → Bool
is_origin none = false
is_origin (some u) =
    not (is_empty u.host) && (text_eq u.scheme (codes "http") || text_eq u.scheme (codes "https"))

-- The loop over allowed_origins.
abbrev pub check_origins : (Text → Option Url) → List Text → Option ConfigError
check_origins parse_url [] = none
check_origins parse_url (origin ∷ rest) =
    or_error (refuse_if (not (is_origin (parse_url origin))) (invalid_origin origin))
      (check_origins parse_url rest)

-- The characters of a unit's name. A character that is not ASCII has only bytes that are not among
-- them, so the test by bytes is the one by characters.
abbrev pub is_unit_char : ℕ → Bool
is_unit_char c =
    (leb b'a' c && leb c b'z')
    || (leb b'A' c && leb c b'Z')
    || (leb b'0' c && leb c b'9')
    || c == b'-'
    || c == b'_'
    || c == b'.'

-- The switch over log.type.
abbrev pub check_log_type : LogConfig → Option ConfigError
check_log_type log =
    if text_eq log.log_type (codes "none") || is_empty log.log_type
    then none
    else if text_eq log.log_type (codes "file")
    then refuse_if (is_empty log.file_path) missing_file_path
    else if text_eq log.log_type (codes "journal")
    then or_error (refuse_if (is_empty log.journal) missing_journal)
        (refuse_if (any (λ c. not (is_unit_char c)) log.journal) invalid_journal)
    else some invalid_log_type

-- applyDefault.
pub apply_default : Text → Text → Text
apply_default field default_val = if is_empty field then default_val else field

-- The calls of applyDefault in LoadConfig.
pub apply_defaults : Config → Config
apply_defaults c =
    let d = new_default_config in
    record c {
      server = record (c.server) {
        host = apply_default c.server.host d.server.host;
        port = apply_default c.server.port d.server.port;
      };
      xray = record {
        api_addr = apply_default c.xray.api_addr d.xray.api_addr;
        balancer_tag = apply_default c.xray.balancer_tag d.xray.balancer_tag;
      };
      log = record (c.log) { log_type = apply_default c.log.log_type d.log.log_type };
    }

pub data LoadError : Type 0 where
  read_failed parse_failed : LoadError
  invalid_config : ConfigError → LoadError

-- What os.ReadFile answers.
pub data FileRead : Type 0 where
  not_exist failed : FileRead
  contents : Text → FileRead

-- LoadConfig's results, and whether it tries to write the default file.
pub record Loaded : Type 0 where
  pub config : Config
  pub error : Option LoadError
  pub saves_default : Bool

module _ (split_host_port : Text → Option (Text × Text)) (parse_url : Text → Option Url) where
  pub validate_config : Config → Option ConfigError
  validate_config c = or_error (check_port invalid_port port_out_of_range (atoi c.server.port)) (
      or_error (refuse_if (is_empty c.xray.api_addr) empty_api_addr) (
        or_error (refuse_if (is_empty c.xray.balancer_tag) empty_balancer_tag) (
          or_error (check_api (split_host_port c.xray.api_addr)) (
            or_error (check_origins parse_url c.server.allowed_origins) (
              or_error (refuse_if (not (is_positive c.log.max_bytes)) invalid_max_bytes)
                (check_log_type c.log))))))

  -- Validation of a decoded configuration.
  pub accept : Config → Loaded
  accept c = elim (validate_config c) [
    | none ↦ record { config = c; error = none; saves_default = false }
    | some e ↦ record {
      config = new_default_config;
      error = some (invalid_config e);
      saves_default = false;
    }
  ]

  -- LoadConfig; the decoder fills the configuration that it is given.
  unfoldable pub load_config : (Config → Text → Option Config) → FileRead → Loaded
  load_config decode not_exist = record {
    config = new_default_config;
    error = none;
    saves_default = true;
  }
  load_config decode failed = record {
    config = new_default_config;
    error = some read_failed;
    saves_default = false;
  }
  load_config decode (contents bytes) = elim (decode new_default_config bytes) [
    | none ↦ record {
      config = new_default_config;
      error = some parse_failed;
      saves_default = false;
    }
    | some c ↦ accept (apply_defaults c)
  ]
