-- ===== src/Server/Stats.antt =====
-- server/handlerstats.go: the combined statistics, the rates, and one stream of server-sent events.
-- A rate is a number of bytes over a number of nanoseconds, for the quotient of two float64 numbers.
-- json.Marshal of a StatsData does not fail. The gRPC answers are arguments.
pub mod Rates
pub mod Sources
pub mod Stream
pub mod Frames
mod Tests
use xray_web_maneger.Common.{
  ℕ, ◌+◌, ◌-◌, ◌%◌, ◌^◌, String, Text, codes, Bool, true, false, not, ◌==◌, ◌&&◌, Option, none,
  some, List, [], ◌∷◌, ltb, leb, if◌then◌else◌,
}
use xray_web_maneger.Common.Int.{ℤ, pos, negsuc, ◌+ℤ◌, ◌-ℤ◌}
use xray_web_maneger.Common.Strings.{has_suffix}
use xray_web_maneger.Middleware.Http.{Response, json_error}
use xray_web_maneger.Server.Outbounds.{OutboundStatusData}
use xray_web_maneger.Sse.Manager.{Manager, add, remove, close}

abbrev pub bps_warn_interval_sec : ℕ
bps_warn_interval_sec = 300

-- The low 64 bits of a number, as a signed integer.
abbrev signed_64 : ℕ → ℤ
signed_64 m = if ltb m (2 ^ 63) then pos m else negsuc (2 ^ 64 - 1 - m)

pub wrap_int64 : ℤ → ℤ
wrap_int64 (pos n) = signed_64 (n % 2 ^ 64)
wrap_int64 (negsuc n) = signed_64 (2 ^ 64 - 1 - n % 2 ^ 64)

-- Bytes over nanoseconds; the zero value is 0 over 1.
pub record Rate : Type 0 where
  pub bytes : ℤ
  pub nanos : ℕ

abbrev pub zero_rate : Rate
zero_rate = record { bytes = pos 0; nanos = 1 }

abbrev pub is_negative : ℤ → Bool
is_negative (pos n) = false
is_negative (negsuc n) = true

pub record StatsData : Type 0 where
  pub uplink : ℤ
  pub downlink : ℤ
  pub uplink_bps : Rate
  pub downlink_bps : Rate
  pub uptime : ℕ
  pub sys_mem : ℕ
  pub goroutines : ℕ
  pub outbounds : List OutboundStatusData
  pub degraded : Bool

abbrev pub empty_stats : StatsData
empty_stats = record {
  uplink = pos 0;
  downlink = pos 0;
  uplink_bps = zero_rate;
  downlink_bps = zero_rate;
  uptime = 0;
  sys_mem = 0;
  goroutines = 0;
  outbounds = [];
  degraded = false;
}

pub degraded_stats_data : StatsData
degraded_stats_data = record empty_stats { degraded = true }

-- warnBPSOnce: the time that it loads, the one that the compare-and-swap meets, and now, in seconds.
-- The result is what the variable holds and whether this call logs.
pub warn_bps_once : ℕ → ℕ → ℕ → ℕ × Bool
warn_bps_once prev last now =
    if leb (prev + bps_warn_interval_sec) now && last == prev then (now, true) else (last, false)

-- A rate that is negative, for a counter was reset, is reported as zero.
abbrev pub clamp : Rate → Rate
clamp r = if is_negative r.bytes then zero_rate else r

abbrev pub rate : ℤ → ℤ → ℕ → Rate
rate current previous elapsed = record { bytes = wrap_int64 (current -ℤ previous); nanos = elapsed }

-- computeBPS; the warnings that it may log are left out.
unfoldable pub compute_bps : StatsData → StatsData → ℕ → Option ℕ → StatsData
compute_bps stats prev tick_at none = stats
compute_bps stats prev tick_at (some prev_at) =
    if leb tick_at prev_at then stats else record stats {
      uplink_bps = clamp (rate stats.uplink prev.uplink (tick_at - prev_at));
      downlink_bps = clamp (rate stats.downlink prev.downlink (tick_at - prev_at));
    }

-- What QueryStats answers: the names of the counters with their values.
pub data QueryAnswer : Type 0 where
  query_canceled query_failed query_empty : QueryAnswer
  counters : List (Text × ℤ) → QueryAnswer

-- What GetSysStats answers: uptime, memory and goroutines.
pub data SysAnswer : Type 0 where
  sys_canceled sys_failed sys_empty : SysAnswer
  sys_stats : ℕ → ℕ → ℕ → SysAnswer

pub data StatsResult : Type 0 where
  stats_canceled both_failed : StatsResult
  combined : StatsData → StatsResult

-- One round of the loop over the counters.
pub add_counter : Text × ℤ → StatsData → StatsData
add_counter (name, value) stats =
    if has_suffix name (codes ">>>traffic>>>uplink")
    then record stats { uplink = wrap_int64 (stats.uplink +ℤ value) }
    else if has_suffix name (codes ">>>traffic>>>downlink")
    then record stats { downlink = wrap_int64 (stats.downlink +ℤ value) }
    else stats

pub add_counters : List (Text × ℤ) → StatsData → StatsData
add_counters [] stats = stats
add_counters (c ∷ cs) stats = add_counters cs (add_counter c stats)

-- The part of getCombinedStats from GetSysStats on; the test says whether QueryStats failed.
pub with_sys : Bool → StatsData → SysAnswer → List OutboundStatusData → StatsResult
with_sys failed stats sys_canceled outbounds = stats_canceled
with_sys failed stats sys_failed outbounds =
    if failed
    then both_failed
    else combined (record stats { degraded = true; outbounds = outbounds })
with_sys failed stats sys_empty outbounds = combined (record stats { outbounds = outbounds })
with_sys failed stats (sys_stats uptime sys_mem goroutines) outbounds = combined (record stats {
  uptime = uptime;
  sys_mem = sys_mem;
  goroutines = goroutines;
  outbounds = outbounds;
})

pub get_combined_stats : QueryAnswer → SysAnswer → List OutboundStatusData → StatsResult
get_combined_stats query_canceled sys outbounds = stats_canceled
get_combined_stats query_failed sys outbounds =
    with_sys true (record empty_stats { degraded = true }) sys outbounds
get_combined_stats query_empty sys outbounds = with_sys false empty_stats sys outbounds
get_combined_stats (counters cs) sys outbounds =
    with_sys false (add_counters cs empty_stats) sys outbounds

-- What happens to a stream; the test says whether the write succeeds.
pub data StreamEvent : Type 0 where
  context_done lifetime_over channel_closed : StreamEvent
  heartbeat_due : Bool → StreamEvent
  payload : StatsData → Bool → StreamEvent

pub data Frame : Type 0 where
  heartbeat : Frame
  update : StatsData → Frame
  error_response : Response → Frame

-- The first payload: the last broadcast, or the statistics of now.
unfoldable pub initial_stats : Option StatsData → StatsResult → StatsData
initial_stats (some cached) result = cached
initial_stats none (combined stats) = stats
initial_stats none stats_canceled = empty_stats
initial_stats none both_failed = empty_stats

-- The loop of handleStatsSSE: the frames that are written until it returns.
unfoldable pub stream : List StreamEvent → List Frame
stream [] = []
stream (context_done ∷ rest) = []
stream (lifetime_over ∷ rest) = []
stream (channel_closed ∷ rest) = []
stream (heartbeat_due ok ∷ rest) = let more = stream rest in if ok then heartbeat ∷ more else []
stream (payload stats ok ∷ rest) = let more = stream rest in if ok then update stats ∷ more else []

-- The headers of a stream that stay when an error is answered, which has a Content-Type of its own.
abbrev pub kept_headers : List (String × Text)
kept_headers =
    ("Cache-Control", codes "no-cache")
    ∷ ("Connection", codes "keep-alive")
    ∷ ("X-Accel-Buffering", codes "no")
    ∷ []

-- handleStatsSSE on its own, with its subscription, which is two steps of the broadcaster, left
-- out: the connections at its end and the frames. `flushes` says whether the
-- writer can flush, `ok` whether the first write succeeds.
unfoldable pub handle_stats_sse :
    Bool → Manager → Option StatsData → StatsResult → Bool → List StreamEvent → Manager × List Frame
handle_stats_sse flushes m cached result ok events =
    if not flushes
    then (
      m,
      error_response (json_error kept_headers "SSE 不受支持 (http.Flusher 不可用)" 500 "server") ∷ [],
    )
    else elim (add m).1 [
      | none ↦ (
        (add m).0,
        error_response (json_error kept_headers "服务器正在关闭" 503 "service_unavailable") ∷ [],
      )
      | some conn ↦ (
        close (remove (add m).0 (some conn)) conn,
        if ok then update (initial_stats cached result) ∷ stream events else [],
      )
    ]
