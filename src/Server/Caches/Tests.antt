-- ===== src/Server/Caches/Tests.antt =====
-- The caches and the health endpoint, at an input.
use xray_web_maneger.Common.{◌≡◌, refl, codes, true, false, none, some, [], arith}
use xray_web_maneger.Server.Health.{health_cache_ttl, refresh}
use xray_web_maneger.Server.Health.Freshness.{failure_kept_as_success}
use xray_web_maneger.Server.Caches.{Caches}

abbrev caches : Caches
caches = record {
  obs_cache = record { content = []; timestamp = some 5 };
  excluded_tags = record { content = []; timestamp = none };
  health = record {
    status = codes "connected";
    timestamp = 1;
    stale = false;
    ttl = health_cache_ttl;
  };
}

-- The cache of `caches` at 19 and at 20 seconds, and a request 9 seconds after the second write.
failure_kept_example :
    let failed =
      (refresh caches.health caches.health 19_000_000_000 19_000_000_001 20_000_000_000 false).1 in
    let kept = (refresh caches.health failed 19_000_000_000 20_000_000_001 20_000_000_002 true).1 in
    refresh kept kept 29_000_000_000 29_000_000_001 29_000_000_002 true
    ≡ (codes "disconnected", kept)
failure_kept_example =
    failure_kept_as_success caches.health 19_000_000_000 19_000_000_001 20_000_000_000
      19_000_000_000 20_000_000_001 20_000_000_002 29_000_000_000 29_000_000_001 29_000_000_002 true
      true refl refl (omega arith) (omega arith) (omega arith)
