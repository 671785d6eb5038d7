-- ===== src/Server/Health.antt =====
-- server/handlerhealth.go: the health endpoint with its cache.
-- The probe of Xray runs under singleflight: the caches that the handler and the coalesced function
-- read are two arguments, for other requests may write between the two reads.
pub mod Freshness
use xray_web_maneger.Server.Reply.{Reply, ok_json}
use xray_web_maneger.Common.{
  ℕ, ◌+◌, Text, codes, text_eq, Bool, true, false, not, ◌&&◌, ◌||◌, String, ltb, leb, if◌then◌else◌,
}

-- A duration in nanoseconds.
abbrev pub second : ℕ
second = 1_000_000_000

abbrev pub health_cache_ttl : ℕ
health_cache_ttl = 10_000_000_000

abbrev pub health_cache_fail_ttl : ℕ
health_cache_fail_ttl = 3_000_000_000

pub record CachedHealth : Type 0 where
  pub status : Text
  pub timestamp : ℕ
  pub stale : Bool
  pub ttl : ℕ

pub record HealthStatus : Type 0 where
  pub status : Text
  pub xray_api_status : Text
  pub sse_connections : ℕ
  pub uptime : ℕ
  pub balancer_tag : Text
  pub timestamp : ℕ

-- time.Since(timestamp) > ttl.
abbrev pub is_expired : CachedHealth → ℕ → Bool
is_expired c now = ltb (c.timestamp + c.ttl) now

-- The coalesced function: the status, and whether there is an error.
pub probe : CachedHealth → ℕ → Bool → Text × Bool
probe fresh now reachable =
    if not fresh.stale && not (is_expired fresh now)
    then (fresh.status, false)
    else if reachable
    then (codes "connected", false)
    else (codes "disconnected", true)

-- The cache that the handler writes after the coalesced call.
pub written : Text × Bool → ℕ → CachedHealth
written (status, failed) now = record {
  status = status;
  timestamp = now;
  stale = false;
  ttl = if failed then health_cache_fail_ttl else health_cache_ttl;
}

-- The refresh of the handler: the status to report and the cache that is left.
pub refresh : CachedHealth → CachedHealth → ℕ → ℕ → ℕ → Bool → Text × CachedHealth
refresh cached fresh now probe_time write_time reachable =
    let result = probe fresh probe_time reachable in
    if cached.stale || is_expired cached now
    then (result.0, written result write_time)
    else (cached.status, fresh)

-- The body of the answer.
pub health_of : Text → ℕ → ℕ → Text → ℕ → HealthStatus
health_of xray_status connections uptime balancer_tag timestamp = record {
  status =
      if not (text_eq xray_status (codes "connected")) then codes "degraded" else codes "healthy";
  xray_api_status = xray_status;
  sse_connections = connections;
  uptime = uptime;
  balancer_tag = balancer_tag;
  timestamp = timestamp;
}

-- handleHealthCheck: the answer and the cache that is left.
pub handle_health_check :
    CachedHealth
    → CachedHealth
    → ℕ
    → ℕ
    → ℕ
    → Bool
    → ℕ
    → ℕ
    → Text
    → ℕ
    → Reply HealthStatus × CachedHealth
handle_health_check cached fresh now probe_time write_time reachable connections uptime balancer_tag
      timestamp =
    let (xray_status, left) = refresh cached fresh now probe_time write_time reachable in
    (ok_json (health_of xray_status connections uptime balancer_tag timestamp), left)
