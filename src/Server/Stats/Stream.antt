-- ===== src/Server/Stats/Stream.antt =====
-- handleStatsSSE: what a stream leaves behind.
use xray_web_maneger.Common.{
  ℕ, ◌<◌, ◌≡◌, refl, Bool, not, ◌==◌, Option, List, [], ◌∷◌, keep_if, All, arith,
}
use xray_web_maneger.Sse.Manager.{Manager, add, remove, close}
use xray_web_maneger.Sse.Manager.Invariant.{IsValid}
use xray_web_maneger.Server.Stats.{StatsData, StatsResult, StreamEvent, handle_stats_sse}

keep_if-fresh : (n : ℕ) (cs : List ℕ) → All (λ c. c < n) cs → keep_if (λ c. not (c == n)) cs ≡ cs
keep_if-fresh n [] h = refl
keep_if-fresh n (c ∷ cs) (a, h) = ground (arith, keep_if-fresh n cs h)

-- However a stream ends, the connections are those from before it.
pub handle_stats_sse-released :
    (flushes : Bool) (m : Manager) (cached : Option StatsData) (result : StatsResult) (ok : Bool)
    (events : List StreamEvent)
    → IsValid m
    → (handle_stats_sse flushes m cached result ok events).0.connections ≡ m.connections
unfolding handle_stats_sse add remove close
handle_stats_sse-released flushes m cached result ok events v =
    ground (arith, keep_if-fresh m.next m.connections v.fresh)
