-- ===== src/Server/Stats/Sources.antt =====
-- getCombinedStats: when it fails, and when its result is marked as degraded.
use xray_web_maneger.Common.{
  ◌≡◌, ◌↔◌, refl, ◌∙◌, Text, codes, Bool, true, false, ◌||◌, List, [], ◌∷◌, arith, if_keeps,
}
use xray_web_maneger.Common.Int.{ℤ}
use xray_web_maneger.Common.Strings.{has_suffix}
use xray_web_maneger.Server.Outbounds.{OutboundStatusData}
use xray_web_maneger.Server.Stats.{
  StatsData, empty_stats, QueryAnswer, query_canceled, query_failed, query_empty, counters,
  SysAnswer, sys_failed, both_failed, combined, add_counter, add_counters, with_sys,
  get_combined_stats,
}

abbrev pub query_has_failed : QueryAnswer → Bool
query_has_failed query_failed = true
query_has_failed _ = false

abbrev pub sys_has_failed : SysAnswer → Bool
sys_has_failed sys_failed = true
sys_has_failed _ = false

add_counter-degraded :
    (c : Text × ℤ) (stats : StatsData) → (add_counter c stats).degraded ≡ stats.degraded
unfolding add_counter
add_counter-degraded (name, value) stats =
    if_keeps (λ (t : StatsData). t.degraded ≡ stats.degraded)
      (has_suffix name (codes ">>>traffic>>>uplink")) refl
      (if_keeps (λ (t : StatsData). t.degraded ≡ stats.degraded)
        (has_suffix name (codes ">>>traffic>>>downlink")) refl refl)

add_counters-degraded :
    (cs : List (Text × ℤ)) (stats : StatsData) → (add_counters cs stats).degraded ≡ stats.degraded
unfolding add_counters
add_counters-degraded [] stats = refl
add_counters-degraded (c ∷ cs) stats =
    add_counters-degraded cs (add_counter c stats) ∙ add_counter-degraded c stats

-- The combined statistics fail for lack of data exactly if both sources fail.
pub both_failed_iff :
    (q : QueryAnswer) (sys : SysAnswer) (outbounds : List OutboundStatusData)
    → (get_combined_stats q sys outbounds ≡ both_failed) ↔ ((q ≡ query_failed) × (sys ≡ sys_failed))
unfolding get_combined_stats with_sys
both_failed_iff q sys outbounds = ground arith

-- Statistics that are combined carry the outbounds, and are marked as degraded exactly if one of the
-- two sources has failed.
pub combined-degraded :
    (q : QueryAnswer) (sys : SysAnswer) (outbounds : List OutboundStatusData) (stats : StatsData)
    → get_combined_stats q sys outbounds ≡ combined stats
    → (stats.outbounds ≡ outbounds) × (stats.degraded ≡ query_has_failed q || sys_has_failed sys)
unfolding get_combined_stats with_sys
combined-degraded query_canceled sys outbounds stats h = absurd (ground arith)
combined-degraded query_failed sys outbounds stats h = ground arith
combined-degraded query_empty sys outbounds stats h = ground arith
combined-degraded (counters cs) sys outbounds stats h =
    ground (arith, add_counters-degraded cs empty_stats)
