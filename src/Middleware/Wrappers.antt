-- ===== src/Middleware/Wrappers.antt =====
-- middleware/security.go, middleware/recovery.go and middleware/logger.go: the wrappers that call the
-- next handler whatever the request. Of net/http's ResponseWriter only the status is
-- kept; no handler sends one below 200.
pub mod Logged
mod Tests
use xray_web_maneger.Common.{
  ℕ, String, Text, codes, Bool, true, false, Option, none, some, List, [], ◌∷◌, if◌then◌else◌,
}

-- SecurityHeaders.
pub security_headers : List (String × Text)
security_headers =
    ("X-Content-Type-Options", codes "nosniff")
    ∷ ("X-Frame-Options", codes "DENY")
    ∷ (
      "Content-Security-Policy",
      codes
          "default-src 'self'; style-src 'self' 'unsafe-inline'; img-src 'self' data:; script-src 'self'",
    )
    ∷ ("Referrer-Policy", codes "strict-origin-when-cross-origin")
    ∷ []

-- The status that net/http has sent. The first one counts; a write without one sends 200.
abbrev pub Sent : Type 0
Sent = Option ℕ

abbrev pub write_header : Sent → ℕ → Sent
write_header none code = some code
write_header (some sent) code = some sent

abbrev pub write_body : Sent → Sent
write_body sent = write_header sent 200

-- A flush sends the header, if nothing has.
abbrev pub flush : Sent → Sent
flush sent = write_header sent 200

-- What net/http answers when the handlers have returned.
abbrev pub final_status : Sent → ℕ
final_status none = 200
final_status (some code) = code

-- What a handler does to its writer, up to its return or its panic.
pub data Call : Type 0 where
  writes_header : ℕ → Call
  writes_body flushes panics : Call

pub record LoggingResponseWriter : Type 0 where
  pub response_writer : Sent
  pub status_code : ℕ

pub logging_write_header : LoggingResponseWriter → ℕ → LoggingResponseWriter
logging_write_header lrw code = record {
  response_writer = write_header lrw.response_writer code;
  status_code = code;
}

-- Flush, for an inner writer that is an http.Flusher or not.
pub logging_flush : Bool → LoggingResponseWriter → LoggingResponseWriter
logging_flush true lrw = record lrw { response_writer = flush lrw.response_writer }
logging_flush false lrw = lrw

-- The handler under Logger: its writer at the end, and whether it panics.
pub call_all : Bool → LoggingResponseWriter → List Call → LoggingResponseWriter × Bool
call_all flusher lrw [] = (lrw, false)
call_all flusher lrw (writes_header code ∷ calls) =
    call_all flusher (logging_write_header lrw code) calls
call_all flusher lrw (writes_body ∷ calls) =
    call_all flusher (record lrw { response_writer = write_body lrw.response_writer }) calls
call_all flusher lrw (flushes ∷ calls) = call_all flusher (logging_flush flusher lrw) calls
call_all flusher lrw (panics ∷ calls) = (lrw, true)

-- Logger: the status that it logs, the inner writer, and whether a panic goes on through it.
pub logger : Bool → Sent → List Call → ℕ × Sent × Bool
logger flusher sent calls =
    let (lrw, panicked) =
      call_all flusher (record { response_writer = sent; status_code = 200 }) calls in
    (lrw.status_code, lrw.response_writer, panicked)

-- Recovery around Logger: the status that is logged, and what is sent. WriteJSONError writes a
-- status and a body.
pub recovery : Bool → List Call → ℕ × Sent
recovery flusher calls =
    let (logged, sent, panicked) = logger flusher none calls in
    (logged, if panicked then write_body (write_header sent 500) else sent)
