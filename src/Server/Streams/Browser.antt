-- ===== src/Server/Streams/Browser.antt =====
-- server/server.go: the broadcaster of NewServer, with the statistics as payloads, and what a browser
-- reads of a stream that it feeds.
mod Tests
use mathlib.Core.List.{Sublistᴰ, append_assoc, append-nil}
use mathlib.Core.List.Sublistᴰ
use xray_web_maneger.Common.{
  ℕ, ◌≡◌, refl, sym, ap, ◌∙◌, Text, codes, Bool, true, false, Option, none, some, List, [], ◌∷◌,
  ◌++◌, map, arith, Option-cases, inl, inr, ◌⊎◌,
}
use xray_web_maneger.Sse.Manager.{Manager, add}
use xray_web_maneger.Sse.Broadcaster.Delivery
use xray_web_maneger.Sse.Broadcaster.Delivery.{System}
use xray_web_maneger.Sse.Broadcaster.Delivery.Pending.{nil-Sublistᴰ, left-Sublistᴰ}
use xray_web_maneger.Sse.Broadcaster.Delivery.Order.{received_in_order}
use xray_web_maneger.Server.Stats.{
  StatsData, StatsResult, StreamEvent, context_done, lifetime_over, channel_closed, heartbeat_due,
  payload, Frame, heartbeat, update, error_response, empty_stats, degraded_stats_data, compute_bps,
  initial_stats, stream, handle_stats_sse,
}
use xray_web_maneger.Server.Stats.Frames.{receive, event_source, write_frames}
use xray_web_maneger.Server.Stats.Frames.RoundTrip.{IsLine, Extends, payloads, first_received}

-- The payloads that a handler takes from its channel.
abbrev pub taken : List StreamEvent → List StatsData
taken [] = []
taken (payload stats ok ∷ events) = stats ∷ taken events
taken (_ ∷ events) = taken events

-- The broadcaster of NewServer, whose payloads are enriched by computeBPS.
abbrev pub StatsFeed : (StatsData → Text) → System StatsData → Type 0
StatsFeed json_marshal =
    Delivery.Reach (λ stats. some (json_marshal stats)) (some compute_bps)
      (some degraded_stats_data) empty_stats

Extends-trans : (xs ys zs : List (Text × Text)) → Extends xs ys → Extends ys zs → Extends xs zs
Extends-trans xs ys zs (us, e) (vs, f) = (us ++ vs, f ∙ ap (λ l. l ++ vs) e ∙ append_assoc xs us vs)

module _ {W : Type 0} (write : W → Text → W × Bool) (flush : W → W)
    (json_marshal : StatsData → Text) (sent : W → Text)
    (write_sent : (w : W) (t : Text) → (write w t).1 ≡ true → sent (write w t).0 ≡ sent w ++ t)
    (write_short : (w : W) (t : Text) → (u : Text) × (sent w ++ t ≡ sent (write w t).0 ++ u))
    (flush_sent : (w : W) → sent (flush w) ≡ sent w)
    (json_line : (stats : StatsData) → IsLine (json_marshal stats)) where
  abbrev pub event : StatsData → Text × Text
  event stats = (codes "update", json_marshal stats)

  abbrev events_of : List Frame → List (Text × Text)
  events_of = payloads write flush json_marshal sent write_sent write_short flush_sent json_line

  -- The loop of the handler writes payloads that it took, in their order, until it returns.
  stream_events :
      (events : List StreamEvent)
      → (xs : List StatsData) × Sublistᴰ xs (taken events)
        × (events_of (stream events) ≡ map event xs)
  unfolding stream
  stream_events [] = ([], nil-Sublistᴰ [], refl)
  stream_events (context_done ∷ es) = ([], nil-Sublistᴰ _, refl)
  stream_events (lifetime_over ∷ es) = ([], nil-Sublistᴰ _, refl)
  stream_events (channel_closed ∷ es) = ([], nil-Sublistᴰ _, refl)
  stream_events (heartbeat_due true ∷ es) = stream_events es
  stream_events (heartbeat_due false ∷ es) = ([], nil-Sublistᴰ _, refl)
  stream_events (payload stats true ∷ es) =
      let (xs, below, same) = stream_events es in
      (stats ∷ xs, Sublistᴰ.cons-cons refl below, ap (λ l. event stats ∷ l) same)
  stream_events (payload stats false ∷ es) = ([], nil-Sublistᴰ _, refl)

  -- What a handler writes: no statistics, or the first ones and those of its loop.
  frames_cases :
      (m : Manager) (cached : Option StatsData) (result : StatsResult) (ok : Bool)
      (events : List StreamEvent)
      → let frames = (handle_stats_sse true m cached result ok events).1 in
        (events_of frames ≡ []) ⊎ (frames ≡ update (initial_stats cached result) ∷ stream events)
  unfolding handle_stats_sse
  frames_cases m cached result true events = elim (Option-cases (add m).1) [
    | inl refused ↦ inl (rw refused refl)
    | inr (conn, added) ↦ inr (rw added refl)
  ]
  frames_cases m cached result false events = elim (Option-cases (add m).1) [
    | inl refused ↦ inl (rw refused refl)
    | inr (conn, added) ↦ inl (rw added refl)
  ]

  -- The events of a stream are the first statistics and some that its handler took, or none.
  handler_events :
      (m : Manager) (cached : Option StatsData) (result : StatsResult) (ok : Bool)
      (events : List StreamEvent)
      → let frames = (handle_stats_sse true m cached result ok events).1 in
        (xs : List StatsData) × Sublistᴰ xs (taken events)
        × Extends (events_of frames) (event (initial_stats cached result) ∷ map event xs)
  handler_events m cached result ok events =
      let first = event (initial_stats cached result) in
      elim (frames_cases m cached result ok events) [
        | inl nothing ↦ ([], nil-Sublistᴰ (taken events), rw nothing (first ∷ [], refl))
        | inr frames ↦
            let (xs, below, same) = stream_events events in
            (xs, below, rw (frames, same) ([], sym (append-nil (first ∷ map event xs))))
      ]

  -- A browser that reads a stream, over a writer that keeps the contract of io.Writer, gets the first
  -- statistics of its handler, then statistics that the broadcaster of the server published, each
  -- as one event, in the order of publication and each at most once; or a beginning of this. The
  -- handler's payloads are those that it has received on its channel.
  pub browser_reads :
      {s : System StatsData} (ch : ℕ) (m : Manager) (cached : Option StatsData)
      (result : StatsResult) (ok : Bool) (events : List StreamEvent) (w : W)
      → StatsFeed json_marshal s
      → taken events ≡ s.received ch
      → sent w ≡ []
      → let frames = (handle_stats_sse true m cached result ok events).1 in
        (xs : List StatsData) × Sublistᴰ xs s.published
        × Extends
            (receive event_source
              (sent (write_frames write flush json_marshal w frames).0)).received
            (event (initial_stats cached result) ∷ map event xs)
  browser_reads {s} ch m cached result ok events w r same new =
      let frames = (handle_stats_sse true m cached result ok events).1 in
      let (xs, below, extends) = handler_events m cached result ok events in
      let (published, _) = received_in_order _ _ _ _ ch r in
      (
        xs,
        Sublistᴰ.trans (rw same at below)
            (Sublistᴰ.trans (left-Sublistᴰ (s.received ch) (s.queues ch)) published),
        Extends-trans _ _ _
            (first_received write flush json_marshal sent write_sent write_short flush_sent
              json_line w frames new)
            extends,
      )
