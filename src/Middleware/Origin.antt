-- ===== src/Middleware/Origin.antt =====
-- middleware/cors.go: the check of a request's origin. url.Parse is a parameter.
pub mod Guard
mod Tests
use xray_web_maneger.Common.{
  ℕ, String, Text, codes, text_eq, is_empty, Bool, true, false, not, ◌||◌, Option, none, some, List,
  [], ◌∷◌, ◌++◌, any, if◌then◌else◌,
}
use xray_web_maneger.Common.Strings.{trim_right}
use xray_web_maneger.Config.{Url}
use xray_web_maneger.Middleware.Http.{
  Request, Response, Outcome, reply, forward, Body, empty_body, text_body,
}

abbrev pub is_in : Text → List Text → Bool
is_in t set = any (λ x. text_eq x t) set

abbrev pub is_nil {ℓ} : {A : Type ℓ} → List A → Bool
is_nil [] = true
is_nil (_ ∷ _) = false

abbrev pub is_safe_method : Text → Bool
is_safe_method m =
    text_eq m (codes "GET") || text_eq m (codes "HEAD") || text_eq m (codes "OPTIONS")

abbrev pub forbidden : String → Response
forbidden message = record {
  status = 403;
  headers = ("Content-Type", codes "application/json") ∷ [];
  body = text_body message;
}

abbrev pub missing_origin : Response
missing_origin = forbidden "{\"error\":\"缺少 Origin 头 (Missing Origin header)\"}"

abbrev pub invalid_origin : Response
invalid_origin = forbidden "{\"error\":\"非法请求来源 (Invalid Origin)\"}"

abbrev pub cors_headers : Text → List (String × Text)
cors_headers origin =
    ("Access-Control-Allow-Origin", origin)
    ∷ ("Access-Control-Allow-Methods", codes "GET, POST, HEAD, OPTIONS")
    ∷ ("Access-Control-Allow-Headers", codes "Content-Type, Authorization")
    ∷ ("Access-Control-Max-Age", codes "86400")
    ∷ ("Vary", codes "Origin")
    ∷ []

abbrev pub vary : List (String × Text)
vary = ("Vary", codes "Origin") ∷ []

module _ (parse_url : Text → Option Url) where
  -- The origin, or that of the referer; "null" is none.
  abbrev stated_origin : Request → Text
  stated_origin r =
      if not (is_empty r.origin)
      then r.origin
      else if is_empty r.referer
      then []
      else elim (parse_url r.referer) [ none ↦ [] | some u ↦ u.scheme ++ codes "://" ++ u.host ]

  pub request_origin : Request → Text
  request_origin r = if text_eq (stated_origin r) (codes "null") then [] else stated_origin r

  -- The part of the handler for a request with an origin.
  pub with_origin : List Text → Request → Text → Outcome
  with_origin allowed r origin =
      if not (is_in origin allowed)
      then reply invalid_origin
      else if text_eq r.method (codes "OPTIONS")
      then reply (record { status = 204; headers = cors_headers origin; body = empty_body })
      else forward (cors_headers origin)

  -- The handler that CheckOrigin returns, for one request.
  pub check_origin : List Text → Request → Outcome
  check_origin allowed r =
      if is_nil allowed
      then forward []
      else if is_empty (request_origin r)
      then (if is_safe_method r.method then forward vary else reply missing_origin)
      else with_origin allowed r (trim_right (request_origin r) b'/')
