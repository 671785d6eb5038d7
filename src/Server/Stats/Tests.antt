-- ===== src/Server/Stats/Tests.antt =====
-- The statistics and a stream, at an input.
use xray_web_maneger.Common.{◌≡◌, refl, some}
use xray_web_maneger.Common.Int.{pos}
use xray_web_maneger.Server.Stats.{zero_rate, StatsData, empty_stats, compute_bps, wrap_int64}

abbrev first : StatsData
first = record empty_stats { uplink = pos 100; downlink = pos 900 }

abbrev second : StatsData
second = record empty_stats { uplink = pos 150; downlink = pos 20 }

compute_bps_tests :
    ((compute_bps second first 9 (some 4)).uplink_bps ≡ record { bytes = pos 50; nanos = 5 })
    × ((compute_bps second first 9 (some 4)).downlink_bps ≡ zero_rate)
    × ((compute_bps second first 4 (some 4)).uplink_bps ≡ zero_rate)
unfolding compute_bps wrap_int64
compute_bps_tests = (refl, refl, refl)
