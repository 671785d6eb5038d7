-- ===== src/Middleware/Wrappers/Logged.antt =====
-- Whether the status that Logger logs is the one that the client gets.
use xray_web_maneger.Common.{ℕ, Bool, true, false, ◌≡◌, refl, some, List, [], ◌∷◌, arith}
use xray_web_maneger.Middleware.Wrappers.{
  Sent, write_header, write_body, flush, final_status, Call, writes_header, writes_body, flushes,
  panics, LoggingResponseWriter, logging_write_header, logging_flush, call_all, logger, recovery,
}

abbrev writer : Sent → ℕ → LoggingResponseWriter
writer sent code = record { response_writer = sent; status_code = code }

-- The last status that the handler asks for, if it asks.
abbrev last_header : ℕ → List Call → ℕ
last_header code [] = code
last_header code (writes_header c ∷ calls) = last_header c calls
last_header code (writes_body ∷ calls) = last_header code calls
last_header code (flushes ∷ calls) = last_header code calls
last_header code (panics ∷ calls) = code

-- The first one, or what a write of the body, a flush that reaches the client, or the end of the
-- handler sends.
abbrev first_status : Bool → List Call → ℕ
first_status flusher [] = 200
first_status flusher (writes_header c ∷ calls) = c
first_status flusher (writes_body ∷ calls) = 200
first_status true (flushes ∷ calls) = 200
first_status false (flushes ∷ calls) = first_status false calls
first_status flusher (panics ∷ calls) = 500

call_all-logged :
    (flusher : Bool) (sent : Sent) (code : ℕ) (calls : List Call)
    → (call_all flusher (writer sent code) calls).0.status_code ≡ last_header code calls
unfolding call_all logging_write_header logging_flush
call_all-logged flusher sent code [] = refl
call_all-logged flusher sent code (writes_header c ∷ calls) =
    call_all-logged flusher (write_header sent c) c calls
call_all-logged flusher sent code (writes_body ∷ calls) =
    call_all-logged flusher (write_body sent) code calls
call_all-logged true sent code (flushes ∷ calls) = call_all-logged true (flush sent) code calls
call_all-logged false sent code (flushes ∷ calls) = call_all-logged false sent code calls
call_all-logged flusher sent code (panics ∷ calls) = refl

call_all-sent :
    (flusher : Bool) (code c : ℕ) (calls : List Call)
    → (call_all flusher (writer (some c) code) calls).0.response_writer ≡ some c
unfolding call_all logging_write_header logging_flush
call_all-sent flusher code c [] = refl
call_all-sent flusher code c (writes_header d ∷ calls) = call_all-sent flusher d c calls
call_all-sent flusher code c (writes_body ∷ calls) = call_all-sent flusher code c calls
call_all-sent true code c (flushes ∷ calls) = call_all-sent true code c calls
call_all-sent false code c (flushes ∷ calls) = call_all-sent false code c calls
call_all-sent flusher code c (panics ∷ calls) = refl

-- The client gets the first status that the handler asks for, 200 if it writes a body, returns, or
-- flushes a writer that can be flushed before it has asked for one, and 500 if it panics before; the
-- status that is logged is the last one that the handler asks for, and 200 if it asks for none.
pub recovery_lem :
    (flusher : Bool) (calls : List Call)
    → ((recovery flusher calls).0 ≡ last_header 200 calls)
      × (final_status (recovery flusher calls).1 ≡ first_status flusher calls)
unfolding recovery logger call_all logging_write_header logging_flush
recovery_lem flusher [] = (refl, refl)
recovery_lem flusher (writes_header c ∷ calls) =
    (call_all-logged flusher (some c) c calls, ground (arith, call_all-sent flusher c c calls))
recovery_lem flusher (writes_body ∷ calls) = (
  call_all-logged flusher (some 200) 200 calls,
  ground (arith, call_all-sent flusher 200 200 calls),
)
recovery_lem true (flushes ∷ calls) =
    (call_all-logged true (some 200) 200 calls, ground (arith, call_all-sent true 200 200 calls))
recovery_lem false (flushes ∷ calls) = recovery_lem false calls
recovery_lem flusher (panics ∷ calls) = (refl, refl)
