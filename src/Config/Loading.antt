-- ===== src/Config/Loading.antt =====
-- LoadConfig: what the program runs with.
use xray_web_maneger.Common.{
  ◌≡◌, ◌⊎◌, inl, inr, refl, Text, codes, is_empty, true, Option, none, some, arith, Option-cases,
}
use xray_web_maneger.Common.Strings.{atoi, magnitude, digits_value}
use xray_web_maneger.Config.{
  Config, Url, FileRead, not_exist, failed, contents, new_default_config, validate_config, accept,
  apply_default, apply_defaults, load_config,
}

module _ (split_host_port : Text → Option (Text × Text)) (parse_url : Text → Option Url) where
  pub new_default_config-valid :
      split_host_port (codes "localhost:10085") ≡ some (codes "localhost", codes "10085")
      → validate_config split_host_port parse_url new_default_config ≡ none
  unfolding validate_config atoi magnitude digits_value
  new_default_config-valid h = rw h refl

  accept-valid :
      (c : Config)
      → split_host_port (codes "localhost:10085") ≡ some (codes "localhost", codes "10085")
      → validate_config split_host_port parse_url (accept split_host_port parse_url c).config ≡ none
  unfolding accept
  accept-valid c h = elim (Option-cases (validate_config split_host_port parse_url c)) [
    | inl e ↦ ground arith
    | inr (err, e) ↦ ground (arith, new_default_config-valid h)
  ]

  -- Whatever the file holds, the configuration that LoadConfig returns passes ValidateConfig, on
  -- every branch, if net.SplitHostPort splits the default address at its colon.
  pub load_config-valid :
      (decode : Config → Text → Option Config) (file : FileRead)
      → split_host_port (codes "localhost:10085") ≡ some (codes "localhost", codes "10085")
      → validate_config split_host_port parse_url
          (load_config split_host_port parse_url decode file).config
        ≡ none
  unfolding load_config
  load_config-valid decode not_exist h = new_default_config-valid h
  load_config-valid decode failed h = new_default_config-valid h
  load_config-valid decode (contents bytes) h =
      elim (Option-cases (decode new_default_config bytes)) [
        | inl e ↦ rw (e, load_config) (new_default_config-valid h)
        | inr (c, e) ↦ rw (e, load_config) (accept-valid (apply_defaults c) h)
      ]

  -- A file that decodes to a configuration which, with its defaults, is valid is used as it is: no
  -- error, and no field changed but the empty ones that have a default.
  pub load_config-kept :
      (decode : Config → Text → Option Config) (bytes : Text) (c : Config)
      → decode new_default_config bytes ≡ some c
      → validate_config split_host_port parse_url (apply_defaults c) ≡ none
      → let r = load_config split_host_port parse_url decode (contents bytes) in
        (r.error ≡ none)
        × (r.config.server.allowed_origins ≡ c.server.allowed_origins)
        × (r.config.auth ≡ c.auth)
        × ((is_empty c.server.port ≡ true) ⊎ (r.config.server.port ≡ c.server.port))
        × ((is_empty c.log.log_type ≡ true) ⊎ (r.config.log.log_type ≡ c.log.log_type))
  unfolding load_config accept apply_defaults apply_default
  load_config-kept decode bytes c d v = ground arith

  -- Where a configuration that is loaded without an error comes from: there is no file and it is the
  -- default, or it is what the file holds, with the defaults for what that leaves empty.
  abbrev pub IsFrom : (Config → Text → Option Config) → FileRead → Config → Type 0
  IsFrom decode file config =
      ((file ≡ not_exist) × (config ≡ new_default_config))
      ⊎ ((bytes : Text) × (c : Config) × (file ≡ contents bytes)
          × (decode new_default_config bytes ≡ some c)
          × (config ≡ apply_defaults c))

  accepted_lem :
      (c : Config)
      → (accept split_host_port parse_url c).error ≡ none
      → (accept split_host_port parse_url c).config ≡ c
  unfolding accept
  accepted_lem c fine = elim (Option-cases (validate_config split_host_port parse_url c)) [
    | inl e ↦ ground (arith, e)
    | inr (err, e) ↦ absurd (ground (arith, fine, e))
  ]

  pub loaded-IsFrom :
      (decode : Config → Text → Option Config) (file : FileRead)
      → (load_config split_host_port parse_url decode file).error ≡ none
      → IsFrom decode file (load_config split_host_port parse_url decode file).config
  unfolding load_config
  loaded-IsFrom decode not_exist fine = inl (refl, refl)
  loaded-IsFrom decode failed fine = absurd (ground (arith, fine))
  loaded-IsFrom decode (contents bytes) fine =
      elim (Option-cases (decode new_default_config bytes)) [
        | inl e ↦ absurd (ground (arith, fine, e))
        | inr (c, e) ↦ inr (
          bytes,
          c,
          refl,
          e,
          rw (e, load_config) (accepted_lem (apply_defaults c) (rw (e, load_config) at fine)),
        )
      ]
