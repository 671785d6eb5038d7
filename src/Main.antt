-- ===== src/Main.antt =====
-- main.go: the handler of a request, from Recovery to the routes. The clock is read once by
-- BasicAuth and once by RateLimit. net.SplitHostPort, url.Parse and the path cleaning of
-- http.ServeMux are parameters.
pub mod Admission
pub mod Quota
pub mod Connection
pub mod Process
mod Tests
use xray_web_maneger.Common.{
  ℕ, String, Text, codes, text_eq, Bool, true, false, not, Option, none, some, List, [], ◌∷◌, ◌++◌,
  if◌then◌else◌,
}
use xray_web_maneger.Common.Strings.{has_prefix}
use xray_web_maneger.Config.{Config, Url}
use xray_web_maneger.Middleware.Http.{Request, Outcome, reply, forward}
use xray_web_maneger.Middleware.Auth.{basic_auth}
use xray_web_maneger.Middleware.Client.{client_ip, client_ip_from_context, rate_limit}
use xray_web_maneger.Middleware.Origin.{check_origin}
use xray_web_maneger.Middleware.Wrappers.{security_headers}
use xray_web_maneger.Middleware.Cleanup.{Package}
use xray_web_maneger.Server.Routes.{
  Answer, answered, file_served, redirected, register_handlers, serve_mux, frontend_headers,
}

-- The headers that are set before the answer, and the answer.
abbrev pub Served : Type 0
Served = List (String × Text) × Answer

module _ (split_host_port : Text → Option (Text × Text)) (parse_url : Text → Option Url)
    (clean_path : Text → Text) where
  -- What is registered for "/api/": CheckOrigin around the API's ServeMux.
  pub api_handler : List Text → Request → Served
  api_handler allowed_origins r = elim (check_origin parse_url allowed_origins r) [
    | reply response ↦ ([], answered response)
    | forward headers ↦ (headers, serve_mux register_handlers r.method r.path)
  ]

  -- The path that ServeMux matches; it is not cleaned for CONNECT.
  pub matched_path : Request → Text
  matched_path r = if text_eq r.method (codes "CONNECT") then r.path else clean_path r.path

  -- mainMux, for a path without escapes; "/api" and a path that is not clean are redirected.
  pub main_mux : Config → Bool → Request → Served
  main_mux cfg dev_mode r =
      if text_eq (matched_path r) (codes "/api")
      then ([], redirected (codes "/api/"))
      else if not (text_eq (matched_path r) r.path)
      then ([], redirected (matched_path r))
      else if has_prefix r.path (codes "/api/")
      then api_handler cfg.server.allowed_origins r
      else (frontend_headers dev_mode r.path, file_served)

  -- RateLimit around mainMux.
  pub limited : Config → Bool → Package → Request → ℕ → Package × Served
  limited cfg dev_mode p r now =
      let (rate, outcome) =
        rate_limit split_host_port cfg.server.trust_proxy_headers p.rate r now in
      (
        record p { rate = rate },
        elim outcome [
          | reply response ↦ ([], answered response)
          | forward headers ↦ (headers ++ (main_mux cfg dev_mode r).0, (main_mux cfg dev_mode r).1)
        ],
      )

  -- BasicAuth around that; `ip` is what Logger has put into the context.
  pub protected : Config → Bool → Package → Request → Option Text → Text → ℕ → ℕ → Package × Served
  protected cfg dev_mode p r ip victim now later =
      let (auth, outcome) =
        basic_auth cfg.auth.username cfg.auth.password p.auth
          (client_ip_from_context split_host_port ip r) victim now r.basic_auth in
      let p' = record p { auth = auth } in
      elim outcome [
        | reply response ↦ (p', ([], answered response))
        | forward headers ↦
            let (q, served) = limited cfg dev_mode p' r later in
            (q, (headers ++ served.0, served.1))
      ]

  -- finalHandler, for a handler that does not panic.
  pub final_handler : Config → Bool → Package → Request → Text → ℕ → ℕ → Package × Served
  final_handler cfg dev_mode p r victim now later =
      let ip = client_ip split_host_port r cfg.server.trust_proxy_headers in
      let (q, served) = protected cfg dev_mode p r (some ip) victim now later in
      (q, (security_headers ++ served.0, served.1))
