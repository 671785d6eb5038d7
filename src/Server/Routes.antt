-- ===== src/Server/Routes.antt =====
-- server/server.go: RegisterHandlers; server/frontend.go: RegisterFrontend. What http.ServeMux does
-- with patterns of a method and a path is written out.
pub mod Table
use xray_web_maneger.Common.{
  String, Text, codes, text_eq, Bool, true, false, not, ◌&&◌, ◌||◌, Option, none, some, List, [],
  ◌∷◌, keep_if, map, if◌then◌else◌,
}
use xray_web_maneger.Middleware.Http.{Response}

pub data Handler : Type 0 where
  handle_health_check handle_get_config handle_get_outbounds handle_get_outbounds_status : Handler
  handle_get_current_outbound handle_stats_sse handle_switch_outbound handle_get_logs : Handler

-- What becomes of a request: a wrapper's own response, a handler, a file of the frontend, or an
-- answer of ServeMux.
pub data Answer : Type 0 where
  answered : Response → Answer
  handled : Handler → Answer
  file_served : Answer
  redirected : Text → Answer
  method_not_allowed not_found : Answer

pub record Pattern : Type 0 where
  pub method : Text
  pub path : Text
  pub handler : Handler

abbrev get : String → Handler → Pattern
get path handler = record { method = codes "GET"; path = codes path; handler = handler }

pub register_handlers : List Pattern
register_handlers =
    get "/api/health" handle_health_check
    ∷ record { method = codes "HEAD"; path = codes "/api/health"; handler = handle_health_check }
    ∷ get "/api/config" handle_get_config
    ∷ get "/api/outbounds" handle_get_outbounds
    ∷ get "/api/outbounds-status" handle_get_outbounds_status
    ∷ get "/api/current-outbound" handle_get_current_outbound
    ∷ get "/api/stats-sse" handle_stats_sse
    ∷ record {
      method = codes "POST";
      path = codes "/api/switch-outbound";
      handler = handle_switch_outbound;
    }
    ∷ get "/api/logs" handle_get_logs
    ∷ []

-- The first pattern with the method.
abbrev with_method : Text → List Pattern → Option Handler
with_method m [] = none
with_method m (p ∷ ps) = if text_eq m p.method then some p.handler else with_method m ps

-- The choice among the patterns with the request's path: one for GET serves HEAD too, unless there
-- is one for HEAD.
choose : Text → List Pattern → Answer
choose m [] = not_found
choose m (p ∷ ps) = elim (with_method m (p ∷ ps)) [
  | some h ↦ handled h
  | none ↦
      if text_eq m (codes "HEAD")
      then elim (with_method (codes "GET") (p ∷ ps)) [
        | some h ↦ handled h
        | none ↦ method_not_allowed
      ]
      else method_not_allowed
]

pub serve_mux : List Pattern → Text → Text → Answer
serve_mux patterns m path = choose m (keep_if (λ p. text_eq path p.path) patterns)

-- The handler of the frontend: the header that it sets before the file server's.
pub frontend_headers : Bool → Text → List (String × Text)
frontend_headers dev_mode path =
    if not dev_mode && not (text_eq path (codes "/")) && not (text_eq path (codes "/index.html"))
    then ("Cache-Control", codes "public, max-age=3600") ∷ []
    else []
