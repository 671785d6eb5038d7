-- ===== src/Main/Process.antt =====
-- main.go: the function main, from its flags to its exit; server/frontend.go: the choice of the
-- frontend's files. What the libraries answer is an environment; of what main does, the log lines are
-- left out. log.Fatalf ends the process, and no deferred call runs.
pub mod Listening
mod Tests
use xray_web_maneger.Common.{
  ℕ, Text, Bool, true, false, not, ◌||◌, Option, none, some, List, [], ◌∷◌, ◌++◌, if◌then◌else◌,
}
use xray_web_maneger.Config.{Config, Url, LoadError}
use xray_web_maneger.Config.Files.{PathResult, path_found, Files, Calls, get_config_path, load_file}
use xray_web_maneger.Server.Connectivity.{History}
use xray_web_maneger.Main.Connection.{start_up}

-- How the select at the end of main goes on: ListenAndServe fails, or a signal comes, after which
-- the HTTP server's Shutdown is in time or not.
pub data Ending : Type 0 where
  listen_fails : Ending
  signalled : Bool → Ending

pub record Environment : Type 0 where
  -- The flags.
  pub config_path : Text
  pub dev_mode : Bool
  pub executable : Option Text
  pub files : Files
  pub calls : Calls
  -- Whether grpc.NewClient takes the address, and the states of its connection.
  pub new_client : Text → Bool
  pub history : Text → History
  -- Whether fs.Sub finds the embedded files.
  pub sub_fs : Bool
  pub ending : Ending

pub data Effect : Type 0 where
  connects inits_rate_limiter starts_monitor builds_handler : Effect
  listens : Text → Effect
  shuts_server_down shuts_http_down closes_http stops_cleanup closes_connection : Effect

pub data Exit : Type 0 where
  no_config_path : Exit
  config_not_loaded : LoadError → Exit
  no_client not_connected no_frontend listen_failed finished : Exit

abbrev pub Run : Type 0
Run = List Effect × Exit

-- The effects before those of the rest of the run.
abbrev pub before : List Effect → Run → Run
before effects (later, exit) = (effects ++ later, exit)

-- From the goroutine of ListenAndServe on; conn.Close is deferred to the end.
pub listen_and_serve : Ending → Text → Run
listen_and_serve listen_fails addr = (listens addr ∷ [], listen_failed)
listen_and_serve (signalled in_time) addr = (
  listens addr
      ∷ shuts_server_down
      ∷ shuts_http_down
      ∷ ((if in_time then [] else closes_http ∷ []) ++ stops_cleanup ∷ closes_connection ∷ []),
  finished,
)

-- RegisterFrontend: the files are those of the folder, or the embedded ones.
abbrev pub has_frontend : Bool → Bool → Bool
has_frontend dev_mode sub_fs = if dev_mode then true else sub_fs

module _ (join_host_port : Text → Text → Text) where
  -- With a connection: the limiter, the monitor and the handler. RegisterFrontend ends the process
  -- if the embedded files are not found.
  pub run_connected : Environment → Config → Run
  run_connected env c = before (inits_rate_limiter ∷ starts_monitor ∷ []) (
      if not (has_frontend env.dev_mode env.sub_fs)
      then ([], no_frontend)
      else before (builds_handler ∷ [])
          (listen_and_serve env.ending (join_host_port c.server.host c.server.port)))

  -- With a configuration.
  pub run_configured : Environment → Config → Run
  run_configured env c =
      if not (env.new_client c.xray.api_addr)
      then ([], no_client)
      else before (connects ∷ []) (elim (start_up (env.history c.xray.api_addr)).1 [
        | none ↦ ([], not_connected)
        | some left ↦ run_connected env c
      ])

  module _ (clean : Text → Text) (is_abs : Text → Bool) (abs : Text → Option Text)
      (join_dir : Text → Text → Text) (marshal : Config → Option Text)
      (decode : Config → Text → Option Config) (split_host_port : Text → Option (Text × Text))
      (parse_url : Text → Option Url) where
    pub run_at : Environment → PathResult → Run
    run_at env (path_found path) =
        let (_, loaded) =
          load_file marshal decode split_host_port parse_url env.calls env.files path in
        elim loaded.error [
          | some e ↦ ([], config_not_loaded e)
          | none ↦ run_configured env loaded.config
        ]
    run_at env _ = ([], no_config_path)

    -- main.
    pub run_main : Environment → Run
    run_main env =
        run_at env (get_config_path clean is_abs abs join_dir env.executable env.config_path)
