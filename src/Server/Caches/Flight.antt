-- ===== src/Server/Caches/Flight.antt =====
-- server/handleroutbound.go: getAllOutboundStatuses of many requests at once, and switches meanwhile.
-- A step is what a goroutine does under a lock, or the answer of Xray. A request takes what it
-- reports from the cache, at its look or when it reads back after the coalesced call, its own or one
-- that it has joined; so every report is a `snapshot` of some state, or nothing.
pub mod Switches
mod Tests
use xray_web_maneger.Common.{ℕ, Text, Bool, true, Option, none, some, List, [], ◌∷◌}
use xray_web_maneger.Server.Caches.{
  Caches, ObservatoryAnswer, answered, update_obs_cache, handle_switch_outbound,
}

-- obsGroup: no call; a call that waits for Xray, one that Xray has answered, and one that has
-- written the cache and is still to be taken out of the group.
pub data Flight : Type 0 where
  idle asking landed : Flight
  holding : ObservatoryAnswer → Flight

pub record Caching : Type 0 where
  pub caches : Caches
  pub flight : Flight

pub data Action : Type 0 where
  -- A request that has found the cache out of date begins the call.
  begins lands : Action
  answers : ObservatoryAnswer → Action
  -- updateObsCache, at a time.
  writes : ℕ → Action
  -- handleSwitchOutbound: the tag, and whether Xray accepts it.
  switches : Option Text → Bool → Action

pub step : Caching → Action → Option Caching
step s begins = elim s.flight [ idle ↦ some (record s { flight = asking }) | _ ↦ none ]
step s lands = elim s.flight [ landed ↦ some (record s { flight = idle }) | _ ↦ none ]
step s (answers a) = elim s.flight [ asking ↦ some (record s { flight = holding a }) | _ ↦ none ]
step s (writes now) = elim s.flight [
  | holding a ↦
      some (record { caches = update_obs_cache s.caches (answered a) now; flight = landed })
  | _ ↦ none
]
step s (switches tag accepted) =
    some (record s { caches = (handle_switch_outbound s.caches tag accepted).0 })

pub run : Caching → List Action → Option Caching
run s [] = some s
run s (a ∷ acts) = elim (step s a) [ none ↦ none | some t ↦ run t acts ]
