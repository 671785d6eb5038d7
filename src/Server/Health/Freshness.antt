-- ===== src/Server/Health/Freshness.antt =====
-- What the health cache says, and for how long.
use xray_web_maneger.Common.{ℕ, ◌+◌, ◌≤◌, ◌≡◌, ◌⊎◌, codes, true, false, Bool, arith}
use xray_web_maneger.Server.Health.{
  CachedHealth, health_cache_ttl, health_cache_fail_ttl, is_expired, probe, written, refresh,
}

-- A handler whose cache is out of date, and no other request writes the cache in between: the
-- answer is what the probe finds now, and it is kept for ten seconds if Xray answers, for three if
-- it does not.
pub refresh-probed :
    (c : CachedHealth) (now later write_time : ℕ) (reachable : Bool)
    → (c.stale ≡ true) ⊎ (is_expired c now ≡ true)
    → now ≤ later
    → let r = refresh c c now later write_time reachable in
      ((reachable ≡ true)
        × (r.0 ≡ codes "connected")
        × (r.1.ttl ≡ health_cache_ttl)
        × (r.1.timestamp ≡ write_time))
      ⊎ ((reachable ≡ false)
          × (r.0 ≡ codes "disconnected")
          × (r.1.ttl ≡ health_cache_fail_ttl)
          × (r.1.timestamp ≡ write_time))
unfolding refresh probe written
refresh-probed c now later write_time reachable h k = ground arith

-- Two requests read a cache that is out of date. The first finds that Xray does not answer; before
-- that failure's three seconds are over, the coalesced function runs for the second. Then, whatever
-- Xray answers in the meantime, every request up to ten seconds after the second's write reports
-- the failure without a probe and leaves the cache as it is.
pub failure_kept_as_success :
    (cached : CachedHealth) (now later first_write now' later' second_write at at' write : ℕ)
    (reachable reachable' : Bool)
    → is_expired cached now ≡ true
    → is_expired cached now' ≡ true
    → now ≤ later
    → later' ≤ first_write + health_cache_fail_ttl
    → at ≤ second_write + health_cache_ttl
    → let failed = (refresh cached cached now later first_write false).1 in
      let kept = (refresh cached failed now' later' second_write reachable).1 in
      refresh kept kept at at' write reachable' ≡ (codes "disconnected", kept)
unfolding refresh probe written
failure_kept_as_success cached now later first_write now' later' second_write at at' write reachable
      reachable' a b c d e =
    ground arith
