-- ===== src/Main/Process/Tests.antt =====
-- A start without a configuration file, a connection that is ready, and a signal.
use xray_web_maneger.Common.{
  ◌≡◌, refl, Text, codes, Bool, true, false, Option, none, some, [], ◌∷◌, ◌++◌,
}
use xray_web_maneger.Common.Strings.{split_byte}
use xray_web_maneger.Config.{Config, Url, new_default_config, load_config}
use xray_web_maneger.Config.Files.{written, get_config_path, read_file, load_file}
use xray_web_maneger.Server.Connectivity.{ready, stays}
use xray_web_maneger.Main.Connection.{wait_for_ready, connect, start_up}
use xray_web_maneger.Main.Process.{
  signalled, Environment, connects, inits_rate_limiter, starts_monitor, builds_handler, listens,
  shuts_server_down, shuts_http_down, closes_http, stops_cleanup, closes_connection, finished, Run,
  listen_and_serve, run_connected, run_configured, run_at, run_main,
}
use xray_web_maneger.Main.Process.Listening.{IsServing, listens_ready}

abbrev join_host_port : Text → Text → Text
join_host_port host port = host ++ codes ":" ++ port

abbrev same_path : Text → Text
same_path path = path

abbrev is_abs : Text → Bool
is_abs path = true

abbrev some_abs : Text → Option Text
some_abs path = some path

abbrev join_dir : Text → Text → Text
join_dir exe name = name

abbrev marshal : Config → Option Text
marshal c = some (codes "server:")

abbrev decode : Config → Text → Option Config
decode c bytes = some new_default_config

abbrev at_colon : Text → Option (Text × Text)
at_colon s = elim (split_byte b':' s).1 [
  | [] ↦ none
  | port ∷ rest ↦ some ((split_byte b':' s).0, port)
]

abbrev no_url : Text → Option Url
no_url s = none

abbrev first_day : Environment
first_day = record {
  config_path = [];
  dev_mode = false;
  executable = some (codes "/opt/xray/manager");
  files = [];
  calls = record { reads = true; makes_directory = true; write = written };
  new_client = λ addr. true;
  history = λ addr. stays ready;
  sub_fs = true;
  ending = signalled false;
}

abbrev main_of : Environment → Run
main_of = run_main join_host_port same_path is_abs some_abs join_dir marshal decode at_colon no_url

main_tests : main_of first_day ≡ (
  connects
      ∷ inits_rate_limiter
      ∷ starts_monitor
      ∷ builds_handler
      ∷ listens (codes "0.0.0.0:9098")
      ∷ shuts_server_down
      ∷ shuts_http_down
      ∷ closes_http
      ∷ stops_cleanup
      ∷ closes_connection
      ∷ [],
  finished,
)
unfolding run_main run_at run_configured run_connected listen_and_serve get_config_path load_file
    read_file load_config start_up connect wait_for_ready
main_tests = refl

listens_ready_example :
    IsServing join_host_port same_path is_abs some_abs join_dir marshal decode at_colon no_url
      first_day
      (codes "0.0.0.0:9098")
unfolding run_main run_at run_configured run_connected listen_and_serve get_config_path load_file
    read_file load_config start_up connect wait_for_ready split_byte
listens_ready_example =
    listens_ready join_host_port same_path is_abs some_abs join_dir marshal decode at_colon no_url
      first_day (codes "0.0.0.0:9098") refl refl
