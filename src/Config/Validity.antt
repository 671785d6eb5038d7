-- ===== src/Config/Validity.antt =====
-- ValidateConfig: the configurations that pass, described without the order of the checks.
use xray_web_maneger.Common.{
  ℕ, ◌≤◌, ◌≡◌, ◌↔◌, ◌⊎◌, refl, Text, codes, text_eq_iff, is_empty, true, false, not, Option, none,
  some, List, [], ◌∷◌, arith, All, any,
}
use xray_web_maneger.Common.Int.{ℤ, pos, negsuc, is_positive}
use xray_web_maneger.Common.Strings.{atoi, magnitude}
use xray_web_maneger.Config.{
  Config, LogConfig, Url, ConfigError, invalid_port, port_out_of_range, empty_api_addr,
  empty_balancer_tag, invalid_max_bytes, empty_api_host, empty_api_port, invalid_api_port,
  invalid_origin, or_error, refuse_if, check_port, check_api, is_origin, check_origins,
  is_unit_char, check_log_type, validate_config,
}

-- A text that is a number from 1 to 65535.
abbrev pub IsPort : Text → Type 0
IsPort t = (p : ℕ) × (atoi t ≡ some (pos p)) × (1 ≤ p) × (p ≤ 65535)

-- A host and a port.
abbrev pub IsApiAddr : Option (Text × Text) → Type 0
IsApiAddr o =
    (host : Text) × (port : Text) × (o ≡ some (host, port)) × (is_empty host ≡ false) × IsPort port

-- The three kinds of log, each with the fields that it needs.
abbrev pub HasSource : LogConfig → Type 0
HasSource log =
    (log.log_type ≡ codes "none")
    ⊎ (log.log_type ≡ [])
    ⊎ ((log.log_type ≡ codes "file") × (is_empty log.file_path ≡ false))
    ⊎ ((log.log_type ≡ codes "journal")
        × (is_empty log.journal ≡ false)
        × (any (λ c. not (is_unit_char c)) log.journal ≡ false))

module _ (split_host_port : Text → Option (Text × Text)) (parse_url : Text → Option Url) where
  pub record IsValid (c : Config) : Type 0 where
    pub port : IsPort c.server.port
    pub api_addr : IsApiAddr (split_host_port c.xray.api_addr)
    pub api_given : is_empty c.xray.api_addr ≡ false
    pub balancer_tag : is_empty c.xray.balancer_tag ≡ false
    pub origins : All (λ o. is_origin (parse_url o) ≡ true) c.server.allowed_origins
    pub max_bytes : is_positive c.log.max_bytes ≡ true
    pub source : HasSource c.log

or_error-none : (a b : Option ConfigError) → or_error a b ≡ none → (a ≡ none) × (b ≡ none)
or_error-none a b h = ground arith

IsPort-of_check : (e f : ConfigError) (t : Text) → check_port e f (atoi t) ≡ none → IsPort t
IsPort-of_check e f t h = go (atoi t) refl h
  where
    go : (o : Option ℤ) → atoi t ≡ o → check_port e f o ≡ none → IsPort t
    go none same k = absurd (ground arith)
    go (some (pos p)) same k = (p, same, ground arith, ground arith)
    go (some (negsuc p)) same k = absurd (ground arith)

check_of_port : (e f : ConfigError) (t : Text) → IsPort t → check_port e f (atoi t) ≡ none
check_of_port e f t (p, same, low, high) = rw same (ground arith)

IsApiAddr-of_check : (o : Option (Text × Text)) → check_api o ≡ none → IsApiAddr o
IsApiAddr-of_check none h = absurd (ground arith)
IsApiAddr-of_check (some (host, port)) h =
    let (a, bc) = or_error-none (refuse_if (is_empty host) empty_api_host) _ h in
    let (b, c) = or_error-none (refuse_if (is_empty port) empty_api_port) _ bc in
    (host, port, refl, ground arith, IsPort-of_check invalid_api_port invalid_api_port port c)

atoi_empty : atoi [] ≡ none
unfolding atoi magnitude
atoi_empty = refl

IsPort-given : (port : Text) → IsPort port → is_empty port ≡ false
IsPort-given [] (p, e, low, high) = absurd (ground (arith, atoi_empty))
IsPort-given (c ∷ s) h = refl

check_of_api : (o : Option (Text × Text)) → IsApiAddr o → check_api o ≡ none
check_of_api o (host, port, same, given, h) =
    rw (same, given, IsPort-given port h) (check_of_port invalid_api_port invalid_api_port port h)

module _ (parse_url : Text → Option Url) where
  origins_of_check :
      (origins : List Text)
      → check_origins parse_url origins ≡ none
      → All (λ o. is_origin (parse_url o) ≡ true) origins
  origins_of_check [] h = tt
  origins_of_check (o ∷ rest) h =
      let (a, b) =
        or_error-none (refuse_if (not (is_origin (parse_url o))) (invalid_origin o)) _ h in
      (ground arith, origins_of_check rest b)

  check_of_origins :
      (origins : List Text)
      → All (λ o. is_origin (parse_url o) ≡ true) origins
      → check_origins parse_url origins ≡ none
  check_of_origins [] h = refl
  check_of_origins (o ∷ rest) (a, h) = rw (a, check_of_origins rest h) refl

HasSource-of_check : (log : LogConfig) → check_log_type log ≡ none → HasSource log
HasSource-of_check log h = ground (
  arith,
  text_eq_iff log.log_type (codes "none"),
  text_eq_iff log.log_type (codes "file"),
  text_eq_iff log.log_type (codes "journal"),
)

check_of_source : (log : LogConfig) → HasSource log → check_log_type log ≡ none
check_of_source log h = ground (
  arith,
  text_eq_iff log.log_type (codes "none"),
  text_eq_iff log.log_type (codes "file"),
  text_eq_iff log.log_type (codes "journal"),
)

module _ (split_host_port : Text → Option (Text × Text)) (parse_url : Text → Option Url) where
  -- ValidateConfig accepts exactly the configurations whose ports are numbers from 1 to 65535, with
  -- an API address of a host and a port, a balancer's tag, origins with a host and the scheme http or
  -- https, a positive bound on the bytes, and the field that the type of the log needs.
  pub validate_config_iff :
      (c : Config)
      → (validate_config split_host_port parse_url c ≡ none) ↔ IsValid split_host_port parse_url c
  unfolding validate_config
  validate_config_iff c = (sound, complete)
    where
      sound :
          validate_config split_host_port parse_url c ≡ none → IsValid split_host_port parse_url c
      sound h =
          let (a, h1) = or_error-none _ _ h in
          let (b, h2) = or_error-none (refuse_if (is_empty c.xray.api_addr) empty_api_addr) _ h1 in
          let (d, h3) =
            or_error-none (refuse_if (is_empty c.xray.balancer_tag) empty_balancer_tag) _ h2 in
          let (e, h4) = or_error-none _ _ h3 in
          let (f, h5) = or_error-none _ _ h4 in
          let (g, k) =
            or_error-none (refuse_if (not (is_positive c.log.max_bytes)) invalid_max_bytes) _ h5 in
          record {
            port = IsPort-of_check invalid_port port_out_of_range c.server.port a;
            api_addr = IsApiAddr-of_check (split_host_port c.xray.api_addr) e;
            api_given = ground (arith, b);
            balancer_tag = ground (arith, d);
            origins = origins_of_check parse_url c.server.allowed_origins f;
            max_bytes = ground (arith, g);
            source = HasSource-of_check c.log k;
          }

      complete :
          IsValid split_host_port parse_url c → validate_config split_host_port parse_url c ≡ none
      complete v =
          rw
            (
              check_of_port invalid_port port_out_of_range c.server.port v.port,
              v.api_given,
              v.balancer_tag,
              check_of_api (split_host_port c.xray.api_addr) v.api_addr,
              check_of_origins parse_url c.server.allowed_origins v.origins,
              v.max_bytes,
            )
            (check_of_source c.log v.source)
