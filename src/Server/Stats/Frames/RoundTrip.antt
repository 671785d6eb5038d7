-- ===== src/Server/Stats/Frames/RoundTrip.antt =====
-- What a browser receives of the frames that are written.
use xray_web_maneger.Common.{
  ℕ, Text, codes, Bool, true, false, ◌==◌, List, [], ◌∷◌, ◌++◌, any, ◌≡◌, refl, ◌∙◌, sym, ap, arith,
  if_keeps,
}
use mathlib.Core.List.{append_assoc, append-nil}
use xray_web_maneger.Server.Stats.{StatsData, Frame, heartbeat, update, error_response}
use xray_web_maneger.Server.Stats.Frames.{
  heartbeat_bytes, sse_event_prefix, sse_event_suffix, sse_write_event, and_then, write_frame,
  write_frames, EventSource, event_source, split_colon, dispatch, process_field, end_line,
  next_byte, receive,
}

-- A text without a line feed.
abbrev pub IsLine : Text → Type 0
IsLine t = any (λ b. b == 10) t ≡ false

next_byte-other :
    (p : EventSource) (b : ℕ)
    → (b == 10) ≡ false
    → next_byte p b ≡ record p { line = p.line ++ b ∷ [] }
unfolding next_byte
next_byte-other p b e = rw e refl

receive-line :
    (p : EventSource) (t rest : Text)
    → IsLine t
    → receive p (t ++ 10 ∷ rest) ≡ receive (end_line (record p { line = [] }) (p.line ++ t)) rest
unfolding receive next_byte
receive-line p [] rest h = rw (append-nil p.line) refl
receive-line p (b ∷ t) rest h =
    let (other, line) = line_lem b h in
    ap (λ q. receive q (t ++ 10 ∷ rest)) (next_byte-other p b other)
    ∙ receive-line (record p { line = p.line ++ b ∷ [] }) t rest line
    ∙ ap (λ l. receive (end_line (record p { line = [] }) l) rest) (append_assoc p.line (b ∷ []) t)
  where
    line_lem : (b : ℕ) → IsLine (b ∷ t) → ((b == 10) ≡ false) × IsLine t
    line_lem b h = ground (arith, h)

-- An event source between two events.
abbrev idle : List (Text × Text) → EventSource
idle received = record event_source { received = received }

receive-update :
    (received : List (Text × Text)) (json rest : Text)
    → IsLine json
    → receive (idle received) ((sse_event_prefix ++ (json ++ sse_event_suffix)) ++ rest)
      ≡ receive (idle (received ++ (codes "update", json) ∷ [])) rest
unfolding end_line split_colon process_field dispatch receive next_byte
receive-update received json rest h =
    rw (append_assoc json sse_event_suffix rest) (receive-line _ json (10 ∷ rest) h)

receive-heartbeat :
    (received : List (Text × Text)) (rest : Text)
    → receive (idle received) (heartbeat_bytes ++ rest) ≡ receive (idle received) rest
unfolding end_line split_colon process_field dispatch receive next_byte
receive-heartbeat received rest = refl

-- Events that are dispatched stay.
abbrev pub Extends : List (Text × Text) → List (Text × Text) → Type 0
Extends xs ys = (zs : List (Text × Text)) × (ys ≡ xs ++ zs)

Extends-refl : (xs : List (Text × Text)) → Extends xs xs
Extends-refl xs = ([], sym (append-nil xs))

dispatch-Extends : (p : EventSource) → Extends p.received (dispatch p).received
unfolding dispatch
dispatch-Extends p =
    if_keeps (λ (q : EventSource). Extends p.received q.received) _ (Extends-refl p.received)
      (_, refl)

process_field-received :
    (p : EventSource) (f : Text × Text) → (process_field p f).received ≡ p.received
unfolding process_field
process_field-received p (name, value) = ground arith

end_line-Extends : (p : EventSource) (l : Text) → Extends p.received (end_line p l).received
unfolding end_line
end_line-Extends p [] = dispatch-Extends p
end_line-Extends p (b ∷ bs) =
    if_keeps (λ (q : EventSource). Extends p.received q.received) _ (Extends-refl p.received)
      ([], process_field-received p _ ∙ sym (append-nil p.received))

next_byte-Extends : (p : EventSource) (b : ℕ) → Extends p.received (next_byte p b).received
unfolding next_byte
next_byte-Extends p b =
    if_keeps (λ (q : EventSource). Extends p.received q.received) _
      (end_line-Extends (record p { line = [] }) p.line) (Extends-refl p.received)

receive-Extends : (p : EventSource) (t : Text) → Extends p.received (receive p t).received
unfolding receive
receive-Extends p [] = Extends-refl p.received
receive-Extends p (b ∷ t) =
    let (xs, e) = next_byte-Extends p b in
    let (ys, f) = receive-Extends (next_byte p b) t in
    (xs ++ ys, f ∙ ap (λ l. l ++ ys) e ∙ append_assoc p.received xs ys)

receive-append : (p : EventSource) (s t : Text) → receive p (s ++ t) ≡ receive (receive p s) t
unfolding receive
receive-append p [] t = refl
receive-append p (b ∷ s) t = receive-append (next_byte p b) s t

module _ {W : Type 0} (write : W → Text → W × Bool) (flush : W → W)
    (json_marshal : StatsData → Text) (sent : W → Text)
    -- A write that reports no error has sent the whole text, and one that reports an error a
    -- beginning of it.
    (write_sent : (w : W) (t : Text) → (write w t).1 ≡ true → sent (write w t).0 ≡ sent w ++ t)
    (write_short : (w : W) (t : Text) → (u : Text) × (sent w ++ t ≡ sent (write w t).0 ++ u))
    (flush_sent : (w : W) → sent (flush w) ≡ sent w)
    (json_line : (stats : StatsData) → IsLine (json_marshal stats)) where
  -- The events of the frames.
  abbrev pub payloads : List Frame → List (Text × Text)
  payloads [] = []
  payloads (heartbeat ∷ fs) = payloads fs
  payloads (update stats ∷ fs) = (codes "update", json_marshal stats) ∷ payloads fs
  payloads (error_response _ ∷ fs) = payloads fs

  abbrev frame_bytes : Frame → Text
  frame_bytes heartbeat = heartbeat_bytes
  frame_bytes (update stats) = sse_event_prefix ++ (json_marshal stats ++ sse_event_suffix)
  frame_bytes (error_response _) = []

  abbrev bytes : List Frame → Text
  bytes [] = []
  bytes (f ∷ fs) = frame_bytes f ++ bytes fs

  receive-bytes :
      (received : List (Text × Text)) (fs : List Frame)
      → receive (idle received) (bytes fs) ≡ idle (received ++ payloads fs)
  unfolding receive
  receive-bytes received [] = rw (append-nil received) refl
  receive-bytes received (heartbeat ∷ fs) =
      receive-heartbeat received (bytes fs) ∙ receive-bytes received fs
  receive-bytes received (update stats ∷ fs) =
      receive-update received (json_marshal stats) (bytes fs) (json_line stats)
      ∙ receive-bytes (received ++ (codes "update", json_marshal stats) ∷ []) fs
      ∙ ap idle (append_assoc received ((codes "update", json_marshal stats) ∷ []) (payloads fs))
  receive-bytes received (error_response _ ∷ fs) = receive-bytes received fs

  -- What is sent begins what is to be sent, and is all of it if every write succeeds.
  abbrev Sends : W → Text → W × Bool → Type 0
  Sends w t r = ((u : Text) × (sent w ++ t ≡ sent r.0 ++ u)) × (r.1 ≡ true → sent r.0 ≡ sent w ++ t)

  and_then-Sends :
      (w : W) (t u : Text) (r : W × Bool) (next : W → W × Bool)
      → Sends w t r
      → ((w' : W) → Sends w' u (next w'))
      → Sends w (t ++ u) (and_then r next)
  and_then-Sends w t u (w', true) next (short, e) h =
      let ((v, f), g) = h w' in
      let joined : sent w ++ (t ++ u) ≡ sent w' ++ u =
        sym (append_assoc (sent w) t u) ∙ ap (λ l. l ++ u) (sym (e refl)) in
      ((v, joined ∙ f), λ ok. g ok ∙ sym joined)
  and_then-Sends w t u (w', false) next ((v, f), e) h = (
    (v ++ u, sym (append_assoc (sent w) t u) ∙ ap (λ l. l ++ u) f ∙ append_assoc (sent w') v u),
    λ ok. cc,
  )

  write-Sends : (w : W) (t : Text) → Sends w t (write w t)
  write-Sends w t = (write_short w t, write_sent w t)

  flushed-Sends : (w : W) → Sends w [] (flush w, true)
  flushed-Sends w =
      (([], ap (λ l. l ++ []) (sym (flush_sent w))), λ ok. flush_sent w ∙ sym (append-nil (sent w)))

  write_frame-Sends :
      (w : W) (f : Frame) → Sends w (frame_bytes f) (write_frame write flush json_marshal w f)
  unfolding write_frame sse_write_event
  write_frame-Sends w heartbeat =
      and_then-Sends w heartbeat_bytes [] _ _ (write-Sends w heartbeat_bytes) flushed-Sends
  write_frame-Sends w (update stats) =
      and_then-Sends w sse_event_prefix _ _ _ (write-Sends w sse_event_prefix) (λ w1.
        and_then-Sends w1 (json_marshal stats) sse_event_suffix _ _
          (write-Sends w1 (json_marshal stats))
          (λ w2.
            and_then-Sends w2 sse_event_suffix [] _ _ (write-Sends w2 sse_event_suffix)
              flushed-Sends))
  write_frame-Sends w (error_response _) = (([], refl), λ ok. cc)

  write_frames-Sends :
      (w : W) (fs : List Frame) → Sends w (bytes fs) (write_frames write flush json_marshal w fs)
  unfolding write_frames
  write_frames-Sends w [] = (([], refl), λ ok. sym (append-nil (sent w)))
  write_frames-Sends w (f ∷ fs) =
      and_then-Sends w (frame_bytes f) (bytes fs) _ _ (write_frame-Sends w f)
        (λ w'. write_frames-Sends w' fs)

  -- On a new writer that keeps the contract of io.Writer, with JSON that has no line feed: if every
  -- write succeeds, a browser receives the statistics of all frames, in order, each as one event with
  -- the name update, and no other event.
  pub all_received :
      (w : W) (fs : List Frame)
      → sent w ≡ []
      → (write_frames write flush json_marshal w fs).1 ≡ true
      → (receive event_source (sent (write_frames write flush json_marshal w fs).0)).received
        ≡ payloads fs
  all_received w fs new ok =
      rw ((write_frames-Sends w fs).1 ok, new) (ap EventSource.received (receive-bytes [] fs))

  -- On such a writer, whatever write fails, a browser receives the statistics of the first frames, in
  -- order, each as one event with the name update, and no other event.
  pub first_received :
      (w : W) (fs : List Frame)
      → sent w ≡ []
      → Extends
          (receive event_source (sent (write_frames write flush json_marshal w fs).0)).received
          (payloads fs)
  first_received w fs new =
      let w' = (write_frames write flush json_marshal w fs).0 in
      let (u, e) = (write_frames-Sends w fs).0 in
      let (zs, f) = receive-Extends (receive event_source (sent w')) u in
      let same : bytes fs ≡ sent w' ++ u = ap (λ l. l ++ bytes fs) (sym new) ∙ e in
      (
        zs,
        ap EventSource.received (
              sym (receive-bytes [] fs)
              ∙ ap (receive event_source) same
              ∙ receive-append event_source (sent w') u)
            ∙ f,
      )
