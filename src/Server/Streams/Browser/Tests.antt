-- ===== src/Server/Streams/Browser/Tests.antt =====
-- One statistics payload, from the broadcaster to a browser.
use mathlib.Core.List.{Sublistᴰ, append-nil}
use xray_web_maneger.Common.{
  ◌≡◌, refl, sym, subst, Text, codes, Bool, true, false, Option, none, some, List, [], ◌∷◌, ◌++◌,
  map, arith, Option-cases, inl, inr,
}
use xray_web_maneger.Common.Int.{pos}
use xray_web_maneger.Sse.Manager.{new_manager}
use xray_web_maneger.Sse.Broadcaster
use xray_web_maneger.Sse.Broadcaster.{subscribes, subscribe, join, new_broadcaster}
use xray_web_maneger.Sse.Broadcaster.Polling.{next_tick, fetched_tick, is_repeated}
use xray_web_maneger.Sse.Broadcaster.Delivery.{
  System, Action, controls, ticks, copies_subscribers, sends, receives, copy_step, send_step,
  receive_step, step, new_system, start, next_step,
}
use xray_web_maneger.Server.Stats.{
  StatsData, StreamEvent, payload, context_done, combined, empty_stats, degraded_stats_data,
  compute_bps, initial_stats, handle_stats_sse,
}
use xray_web_maneger.Server.Stats.Frames.{receive, event_source, write_frames}
use xray_web_maneger.Server.Stats.Frames.RoundTrip.{Extends}
use xray_web_maneger.Server.Streams.Browser.{StatsFeed, browser_reads}

abbrev json : StatsData → Text
json stats = codes "{}"

abbrev marshal : StatsData → Option Text
marshal stats = some (json stats)

abbrev step_of : System StatsData → Action StatsData → Option (System StatsData)
step_of = step marshal (some compute_bps) (some degraded_stats_data) empty_stats

abbrev run : System StatsData → List (Action StatsData) → Option (System StatsData)
run s [] = some s
run s (a ∷ actions) = elim (step_of s a) [ none ↦ none | some t ↦ run t actions ]

some_eq : {u v : System StatsData} → ◌≡◌ {A = Option (System StatsData)} (some u) (some v) → u ≡ v
some_eq e = cc

run-StatsFeed :
    {s t : System StatsData} (actions : List (Action StatsData))
    → StatsFeed json s
    → run s actions ≡ some t
    → StatsFeed json t
run-StatsFeed [] r e = subst (StatsFeed json) (some_eq e) r
run-StatsFeed {s} (a ∷ actions) r e = elim (Option-cases (step_of s a)) [
  | inl f ↦ absurd (ground arith)
  | inr (u, f) ↦ run-StatsFeed actions (next_step a r f) (ground arith)
]

abbrev begun : System StatsData
begun = new_system marshal (some compute_bps) (some degraded_stats_data) empty_stats

abbrev outcome : Option (System StatsData) → System StatsData
outcome none = begun
outcome (some s) = s

abbrev one_payload : List (Action StatsData)
one_payload =
    controls (subscribes false)
    ∷ ticks 1 (some (record empty_stats { uplink = pos 7 })) 5
    ∷ copies_subscribers 1
    ∷ sends 1 0
    ∷ receives 0
    ∷ []

abbrev fed : System StatsData
unfolding step next_tick fetched_tick is_repeated copy_step send_step receive_step compute_bps
    subscribe join Broadcaster.step new_broadcaster
fed = outcome (run begun one_payload)

fed-StatsFeed : StatsFeed json fed
unfolding step next_tick fetched_tick is_repeated copy_step send_step receive_step compute_bps
    subscribe join Broadcaster.step new_broadcaster
fed-StatsFeed = run-StatsFeed one_payload start refl

-- A writer that keeps all.
abbrev write : Text → Text → Text × Bool
write s t = (s ++ t, true)

abbrev flush : Text → Text
flush s = s

abbrev sent : Text → Text
sent s = s

write_short : (s t : Text) → (u : Text) × (sent s ++ t ≡ sent (write s t).0 ++ u)
write_short s t = ([], sym (append-nil (s ++ t)))

abbrev events : List StreamEvent
events = payload (record empty_stats { uplink = pos 7 }) true ∷ context_done ∷ []

browser_reads_example :
    let frames = (handle_stats_sse true new_manager none (combined empty_stats) true events).1 in
    (xs : List StatsData) × Sublistᴰ xs fed.published
    × Extends (receive event_source (write_frames write flush json [] frames).0).received (
        (codes "update", json (initial_stats none (combined empty_stats)))
        ∷ map (λ stats. (codes "update", json stats)) xs)
unfolding step next_tick fetched_tick is_repeated copy_step send_step receive_step compute_bps
    subscribe join Broadcaster.step new_broadcaster
browser_reads_example =
    browser_reads write flush json sent (λ s t ok. refl) write_short (λ s. refl) (λ stats. refl) 0
      new_manager none (combined empty_stats) true events [] fed-StatsFeed refl refl
