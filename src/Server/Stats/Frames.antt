-- ===== src/Server/Stats/Frames.antt =====
-- server/handlerstats.go: sseWriteEvent and the heartbeat, as bytes. The writer of net/http and
-- json.Marshal are parameters. EventSource is what a browser makes of a stream without carriage
-- returns, from the HTML standard.
pub mod RoundTrip
mod Tests
use xray_web_maneger.Common.{
  ℕ, Text, codes, text_eq, is_empty, Bool, true, false, not, ◌==◌, List, [], ◌∷◌, ◌++◌,
  if◌then◌else◌,
}
use xray_web_maneger.Server.Stats.{StatsData, Frame, heartbeat, update, error_response}

abbrev pub heartbeat_bytes : Text
heartbeat_bytes = codes ": heartbeat" ++ 10 ∷ 10 ∷ []

abbrev pub sse_event_prefix : Text
sse_event_prefix = codes "event: update" ++ 10 ∷ codes "data: "

abbrev pub sse_event_suffix : Text
sse_event_suffix = 10 ∷ 10 ∷ []

-- What follows a write, if that succeeds.
abbrev pub and_then : {W : Type 0} → W × Bool → (W → W × Bool) → W × Bool
and_then (w, true) next = next w
and_then (w, false) next = (w, false)

module _ {W : Type 0} (write : W → Text → W × Bool) (flush : W → W)
    (json_marshal : StatsData → Text) where
  pub sse_write_event : W → Text → W × Bool
  sse_write_event w json_data = and_then (write w sse_event_prefix) (λ w1.
      and_then (write w1 json_data)
        (λ w2. and_then (write w2 sse_event_suffix) (λ w3. (flush w3, true))))

  -- The cases of handleStatsSSE that write to a stream.
  pub write_frame : W → Frame → W × Bool
  write_frame w heartbeat = and_then (write w heartbeat_bytes) (λ w'. (flush w', true))
  write_frame w (update stats) = sse_write_event w (json_marshal stats)
  write_frame w (error_response _) = (w, false)

  pub write_frames : W → List Frame → W × Bool
  write_frames w [] = (w, true)
  write_frames w (f ∷ fs) = and_then (write_frame w f) (λ w'. write_frames w' fs)

-- The lines of an event so far, and the events that were dispatched.
pub record EventSource : Type 0 where
  pub line : Text
  pub event_type : Text
  pub lines : List Text
  pub received : List (Text × Text)

abbrev pub event_source : EventSource
event_source = record { line = []; event_type = []; lines = []; received = [] }

-- The name of a field, and what follows the colon.
pub split_colon : Text → Text × Text
split_colon [] = ([], [])
split_colon (b ∷ bs) =
    let (name, value) = split_colon bs in if b == b':' then ([], bs) else (b ∷ name, value)

abbrev strip_space : Text → Text
strip_space [] = []
strip_space (b ∷ bs) = if b == 32 then bs else b ∷ bs

abbrev join_lines : List Text → Text
join_lines [] = []
join_lines (l ∷ []) = l
join_lines (l ∷ m ∷ ls) = l ++ 10 ∷ join_lines (m ∷ ls)

abbrev is_nil : List Text → Bool
is_nil [] = true
is_nil (_ ∷ _) = false

dispatch : EventSource → EventSource
dispatch p = if is_nil p.lines then record p { event_type = [] } else record p {
  event_type = [];
  lines = [];
  received =
      p.received
      ++ (if is_empty p.event_type then codes "message" else p.event_type, join_lines p.lines) ∷ [];
}

process_field : EventSource → Text × Text → EventSource
process_field p (name, value) =
    if text_eq name (codes "event")
    then record p { event_type = strip_space value }
    else if text_eq name (codes "data")
    then record p { lines = p.lines ++ strip_space value ∷ [] }
    else p

-- What a line feed does.
pub end_line : EventSource → Text → EventSource
end_line p [] = dispatch p
end_line p (b ∷ bs) = if b == b':' then p else process_field p (split_colon (b ∷ bs))

pub next_byte : EventSource → ℕ → EventSource
next_byte p b =
    if b == 10
    then end_line (record p { line = [] }) p.line
    else record p { line = p.line ++ b ∷ [] }

pub receive : EventSource → Text → EventSource
receive p [] = p
receive p (b ∷ bs) = receive (next_byte p b) bs
