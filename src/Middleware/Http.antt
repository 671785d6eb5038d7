-- ===== src/Middleware/Http.antt =====
-- What the middleware sees of net/http: a request's fields, and a response as it is written.
-- middleware.go: ErrorResponse and WriteJSONError.
use xray_web_maneger.Common.{ℕ, String, Text, Option, List, Bool, true, false}

-- ErrorResponse; json.Marshal of two strings does not fail, so the fallback body is never written.
pub record ErrorResponse : Type 0 where
  pub error : String
  pub error_type : String

pub data Body : Type 0 where
  empty_body : Body
  error_body : ErrorResponse → Body
  -- A fixed JSON text that the handler writes itself.
  text_body : String → Body

pub record Response : Type 0 where
  pub status : ℕ
  -- In the order in which they were set.
  pub headers : List (String × Text)
  pub body : Body

-- A wrapped handler answers by itself, or calls the next one after setting some headers.
pub data Outcome : Type 0 where
  reply : Response → Outcome
  forward : List (String × Text) → Outcome

abbrev pub is_forward : Outcome → Bool
is_forward (reply r) = false
is_forward (forward headers) = true

pub record Request : Type 0 where
  pub method : Text
  pub path : Text
  pub remote_addr : Text
  -- Header.Get: the empty text where the header is missing.
  pub origin : Text
  pub referer : Text
  pub x_real_ip : Text
  pub x_forwarded_for : Text
  -- Request.BasicAuth.
  pub basic_auth : Option (Text × Text)

-- WriteJSONError, after the given headers.
abbrev pub json_error : List (String × Text) → String → ℕ → String → Response
json_error headers message status_code error_type = record {
  status = status_code;
  headers = headers;
  body = error_body (record { error = message; error_type = error_type });
}
