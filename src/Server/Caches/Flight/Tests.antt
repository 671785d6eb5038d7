-- ===== src/Server/Caches/Flight/Tests.antt =====
-- The caches with overlapping calls, at an input.
use xray_web_maneger.Common.{◌≡◌, refl, codes, true, false, none, some, List, [], ◌∷◌, arith}
use xray_web_maneger.Common.Int.{pos}
use xray_web_maneger.Server.Health.{health_cache_ttl}
use xray_web_maneger.Server.Outbounds.{validate_outbound_tag}
use xray_web_maneger.Server.Caches.{
  Caches, Times, ObservatoryAnswer, statuses, status_failed, answered, get_all_outbound_statuses,
  handle_switch_outbound, update_obs_cache,
}
use xray_web_maneger.Server.Caches.Flight.{
  idle, Caching, Action, begins, lands, answers, writes, switches, step, run,
}
use xray_web_maneger.Server.Caches.Flight.Switches.{
  IsGiven, switch_refreshes_statuses, late_write_undoes_switch,
}

abbrev caches : Caches
caches = record {
  obs_cache = record { content = []; timestamp = some 5 };
  excluded_tags = record { content = []; timestamp = none };
  health = record {
    status = codes "connected";
    timestamp = 1;
    stale = false;
    ttl = health_cache_ttl;
  };
}

abbrev times : Times
times = record { look = 10; write = 20; reread = 30 }

abbrev one_node : ObservatoryAnswer
one_node = statuses (record { tag = codes "out"; alive = true; delay = pos 20 } ∷ [])

abbrev quiet : Caching
quiet = record { caches = caches; flight = idle }

abbrev refetched : Caching
refetched = record {
  caches = record caches {
    health = record { status = []; timestamp = 0; stale = true; ttl = 0 };
    obs_cache = record { content = answered one_node; timestamp = some 20 };
  };
  flight = idle;
}

abbrev refetch : List Action
refetch = begins ∷ answers one_node ∷ writes 20 ∷ lands ∷ []

switch_refreshes_example :
    (a : ObservatoryAnswer) × IsGiven a refetch × (answered one_node ≡ answered a)
unfolding run step handle_switch_outbound validate_outbound_tag update_obs_cache
switch_refreshes_example =
    switch_refreshes_statuses quiet refetched (codes "out") refetch 30 (answered one_node) refl
      (λ a e. ground (arith, e)) refl refl

abbrev late : Times
late = record { look = 1_000_000_000; write = 1_000_000_001; reread = 1_000_000_002 }

late_write_example :
    (t : Caching) × (run quiet
        (begins ∷ answers one_node ∷ switches (some (codes "out")) true ∷ writes 20 ∷ lands ∷ [])
      ≡ some t)
    × (get_all_outbound_statuses true t.caches late status_failed ≡ (t.caches, answered one_node))
unfolding validate_outbound_tag
late_write_example =
    late_write_undoes_switch quiet (codes "out") one_node status_failed 20 late refl refl
      (omega arith)
