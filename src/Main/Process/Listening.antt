-- ===== src/Main/Process/Listening.antt =====
-- main.go: what holds when the server begins to listen.
use xray_web_maneger.Common.{
  ◌≡◌, refl, inl, inr, Text, codes, Bool, true, Option, none, some, List, [], ◌∷◌, arith,
  Option-cases, Bool-cases,
}
use xray_web_maneger.Config.{Config, Url, FileRead, validate_config}
use xray_web_maneger.Config.Loading.{IsFrom, loaded-IsFrom}
use xray_web_maneger.Config.Files.{
  PathResult, path_found, no_absolute_path, wrong_extension, no_executable, load_file, read_file,
  get_config_path,
}
use xray_web_maneger.Config.Files.Reload.{load_file-valid}
use xray_web_maneger.Main.Connection.Startup.{start_up-is_ready}
use xray_web_maneger.Server.Connectivity.{is_ready, get_state, History}
use xray_web_maneger.Main.Connection.{start_up}
use xray_web_maneger.Main.Process.{
  Ending, listen_fails, signalled, Environment, Effect, connects, inits_rate_limiter,
  starts_monitor, builds_handler, listens, shuts_server_down, shuts_http_down, closes_http,
  stops_cleanup, closes_connection, Run, before, listen_and_serve, run_connected, run_configured,
  run_at, run_main,
}

-- The address at which the server listens, if it does.
abbrev pub listened : List Effect → Option Text
listened [] = none
listened (listens addr ∷ effects) = some addr
listened (_ ∷ effects) = listened effects

-- No effect before the rest of the run is to listen.
before_listened :
    (effects : List Effect) (r : Run)
    → listened effects ≡ none
    → listened (before effects r).0 ≡ listened r.0
before_listened [] r h = refl
before_listened (connects ∷ es) r h = before_listened es r h
before_listened (inits_rate_limiter ∷ es) r h = before_listened es r h
before_listened (starts_monitor ∷ es) r h = before_listened es r h
before_listened (builds_handler ∷ es) r h = before_listened es r h
before_listened (listens addr ∷ es) r h = cc
before_listened (shuts_server_down ∷ es) r h = before_listened es r h
before_listened (shuts_http_down ∷ es) r h = before_listened es r h
before_listened (closes_http ∷ es) r h = before_listened es r h
before_listened (stops_cleanup ∷ es) r h = before_listened es r h
before_listened (closes_connection ∷ es) r h = before_listened es r h

serve_listens : (e : Ending) (addr : Text) → listened (listen_and_serve e addr).0 ≡ some addr
unfolding listen_and_serve
serve_listens listen_fails addr = refl
serve_listens (signalled in_time) addr = refl

module _ (join_host_port : Text → Text → Text) where
  abbrev address : Config → Text
  address c = join_host_port c.server.host c.server.port

  connected_listens :
      (env : Environment) (c : Config) (addr : Text)
      → listened (run_connected join_host_port env c).0 ≡ some addr
      → addr ≡ address c
  unfolding run_connected
  connected_listens env c addr h = ground (arith, h, serve_listens env.ending (address c))

  configured_listens :
      (env : Environment) (c : Config) (addr : Text)
      → listened (run_configured join_host_port env c).0 ≡ some addr
      → (addr ≡ address c)
        × ((left : History) × ((start_up (env.history c.xray.api_addr)).1 ≡ some left))
  unfolding run_configured
  configured_listens env c addr h = elim (Option-cases (start_up (env.history c.xray.api_addr)).1) [
    | inl gives_up ↦ absurd (ground (arith, h, gives_up))
    | inr (left, goes_on) ↦ (
      connected_listens env c addr (elim (Bool-cases (env.new_client c.xray.api_addr)) [
        | inl made ↦ ground (arith, h, made, goes_on)
        | inr failed ↦ absurd (ground (arith, h, failed))
      ]),
      (left, goes_on),
    )
  ]

  module _ (clean : Text → Text) (is_abs : Text → Bool) (abs : Text → Option Text)
      (join_dir : Text → Text → Text) (marshal : Config → Option Text)
      (decode : Config → Text → Option Config) (split_host_port : Text → Option (Text × Text))
      (parse_url : Text → Option Url) where
    abbrev pub read : Environment → Text → FileRead
    read env path = read_file marshal decode split_host_port parse_url env.calls env.files path

    abbrev pub loaded_from : Environment → Text → Config
    loaded_from env path =
        (load_file marshal decode split_host_port parse_url env.calls env.files path).1.config

    -- What the start of the server says of the configuration and the connection.
    abbrev pub IsServing : Environment → Text → Type 0
    IsServing env addr =
        (path : Text) × (left : History) × (get_config_path clean is_abs abs join_dir env.executable
            env.config_path
          ≡ path_found path)
        × IsFrom split_host_port parse_url decode (read env path) (loaded_from env path)
        × (validate_config split_host_port parse_url (loaded_from env path) ≡ none)
        × (addr ≡ address (loaded_from env path))
        × ((start_up (env.history (loaded_from env path).xray.api_addr)).1 ≡ some left)
        × (is_ready (get_state left) ≡ true)

    listens_at :
        (env : Environment) (addr : Text) (p : PathResult)
        → get_config_path clean is_abs abs join_dir env.executable env.config_path ≡ p
        → split_host_port (codes "localhost:10085") ≡ some (codes "localhost", codes "10085")
        → listened
            (run_at join_host_port clean is_abs abs join_dir marshal decode split_host_port
              parse_url env p).0
          ≡ some addr
        → IsServing env addr
    unfolding run_at load_file
    listens_at env addr no_absolute_path at split h = cc
    listens_at env addr (wrong_extension e) at split h = cc
    listens_at env addr no_executable at split h = cc
    listens_at env addr (path_found path) at split h =
        let (_, loaded) =
          load_file marshal decode split_host_port parse_url env.calls env.files path in
        elim (Option-cases loaded.error) [
          | inr (err, refused) ↦ absurd (ground (arith, h, refused))
          | inl fine ↦
              let (same, (left, goes_on)) =
                configured_listens env loaded.config addr (ground (arith, h, fine)) in
              (
                path,
                left,
                at,
                loaded-IsFrom split_host_port parse_url decode (read env path) fine,
                load_file-valid marshal decode split_host_port parse_url env.calls env.files path
                    split,
                same,
                goes_on,
                start_up-is_ready (env.history loaded.config.xray.api_addr) left goes_on,
              )
        ]

    -- When main begins to listen, the file at the path of GetConfigPath was not there and the
    -- configuration is the default, or the file was read and decoded and the configuration is what
    -- it holds, completed; that configuration passes the validation, the address is made of its host and port, and the connection to the
    -- configured address was ready at the end of the attempts to connect; this takes
    -- net.SplitHostPort to split the default address at its colon.
    pub listens_ready :
        (env : Environment) (addr : Text)
        → split_host_port (codes "localhost:10085") ≡ some (codes "localhost", codes "10085")
        → listened
            (run_main join_host_port clean is_abs abs join_dir marshal decode split_host_port
              parse_url env).0
          ≡ some addr
        → IsServing env addr
    unfolding run_main
    listens_ready env addr split h = listens_at env addr _ refl split h
