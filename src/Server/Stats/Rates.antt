-- ===== src/Server/Stats/Rates.antt =====
-- The rates that computeBPS reports, and the spacing of its warnings.
use xray_web_maneger.Common.{
  ℕ, ◌+◌, ◌-◌, ◌^◌, ◌≤◌, ◌<◌, ◌≡◌, ◌⊎◌, inl, inr, refl, false, Option, none, some, List, [], ◌∷◌,
  leb, arith, if◌then◌else◌, Bool-cases,
}
use xray_web_maneger.Common.Int.{pos}
use xray_web_maneger.Server.Stats.{
  bps_warn_interval_sec, wrap_int64, Rate, zero_rate, is_negative, StatsData, warn_bps_once, clamp,
  rate, compute_bps,
}

clamp-nonneg : (r : Rate) → is_negative (clamp r).bytes ≡ false
clamp-nonneg r = elim (Bool-cases (is_negative r.bytes)) [ inl e ↦ rw e refl | inr e ↦ rw e e ]

-- Neither rate that computeBPS reports is negative, if the ones that it is given are not.
pub compute_bps-nonneg :
    (stats prev : StatsData) (tick_at : ℕ) (prev_at : Option ℕ)
    → is_negative stats.uplink_bps.bytes ≡ false
    → is_negative stats.downlink_bps.bytes ≡ false
    → let r = compute_bps stats prev tick_at prev_at in
      (is_negative r.uplink_bps.bytes ≡ false) × (is_negative r.downlink_bps.bytes ≡ false)
unfolding compute_bps
compute_bps-nonneg stats prev tick_at none u d = (u, d)
compute_bps-nonneg stats prev tick_at (some prev_at) u d = elim (Bool-cases (leb tick_at prev_at)) [
  | inl e ↦ rw e (u, d)
  | inr e ↦ rw e (
    clamp-nonneg (rate stats.uplink prev.uplink (tick_at - prev_at)),
    clamp-nonneg (rate stats.downlink prev.downlink (tick_at - prev_at)),
  )
]

rate-counters :
    (now before elapsed : ℕ)
    → now < 2 ^ 63
    → before < 2 ^ 63
    → ((before ≤ now)
        × (clamp (rate (pos now) (pos before) elapsed)
            ≡ record { bytes = pos (now - before); nanos = elapsed }))
      ⊎ ((now < before) × (clamp (rate (pos now) (pos before) elapsed) ≡ zero_rate))
unfolding wrap_int64
rate-counters now before elapsed h k = ground arith

-- For counters that are 64-bit numbers and not negative, and a tick after the previous one, each rate
-- is the increase over the time between the ticks, and zero if the counter has been reset.
pub compute_bps-increase :
    (stats prev : StatsData) (up up' down down' tick_at prev_at : ℕ)
    → stats.uplink ≡ pos up
    → prev.uplink ≡ pos up'
    → stats.downlink ≡ pos down
    → prev.downlink ≡ pos down'
    → up < 2 ^ 63
    → up' < 2 ^ 63
    → down < 2 ^ 63
    → down' < 2 ^ 63
    → prev_at < tick_at
    → let r = compute_bps stats prev tick_at (some prev_at) in
      (((up' ≤ up) × (r.uplink_bps ≡ record { bytes = pos (up - up'); nanos = tick_at - prev_at }))
        ⊎ ((up < up') × (r.uplink_bps ≡ zero_rate)))
      × (((down' ≤ down)
            × (r.downlink_bps ≡ record { bytes = pos (down - down'); nanos = tick_at - prev_at }))
          ⊎ ((down < down') × (r.downlink_bps ≡ zero_rate)))
unfolding compute_bps
compute_bps-increase stats prev up up' down down' tick_at prev_at a b c d hu hu' hd hd' later =
    let go : leb tick_at prev_at ≡ false = ground arith in
    rw (go, a, b, c, d)
      (
        rate-counters up up' (tick_at - prev_at) hu hu',
        rate-counters down down' (tick_at - prev_at) hd hd',
      )

-- The times of the warnings that are logged by calls in the order of their compare-and-swap; each
-- call has the value that it loaded, and its time.
abbrev pub warnings : ℕ → List (ℕ × ℕ) → List ℕ
warnings last [] = []
warnings last ((prev, now) ∷ calls) =
    let (last', logs) = warn_bps_once prev last now in
    let rest = warnings last' calls in if logs then now ∷ rest else rest

abbrev pub AreSpaced : ℕ → List ℕ → Type 0
AreSpaced last [] = Unit
AreSpaced last (t ∷ ts) = (last + bps_warn_interval_sec ≤ t) × AreSpaced t ts

-- Warnings are at least the interval apart, and the first one is from the last time before.
pub warnings-AreSpaced : (last : ℕ) (calls : List (ℕ × ℕ)) → AreSpaced last (warnings last calls)
unfolding warn_bps_once
warnings-AreSpaced last [] = tt
warnings-AreSpaced last ((prev, now) ∷ calls) =
    ground (arith, warnings-AreSpaced now calls, warnings-AreSpaced last calls)
