-- ===== src/Server/Shutdown.antt =====
-- server/server.go: Server.Shutdown, while the broadcaster, the streams and the reconnect monitor run.
-- A step is a statement of Shutdown, or what one of the others does meanwhile. Shutdown is called
-- once.
pub mod Order
pub mod Liveness
mod Tests
use xray_web_maneger.Common.{
  ℕ, ◌≡◌, Bool, true, false, not, ◌&&◌, Option, none, some, if◌then◌else◌,
}
use xray_web_maneger.Sse.Manager.{
  Manager, new_manager, close_all, adds, removes, closes, closes_all,
}
use xray_web_maneger.Sse.Manager
use xray_web_maneger.Sse.Broadcaster
use xray_web_maneger.Sse.Broadcaster.{new_broadcaster, stop_begins, stop_finishes}
use xray_web_maneger.Sse.Broadcaster.Phases.{is_stop}

-- How far Shutdown is: the context is cancelled, Stop waits, Stop has returned, CloseAll has, and
-- the wait for the background goroutines has.
pub data Stage : Type 0 where
  serving cancelled stopping stopped closed returned : Stage

abbrev pub is_at : Stage → Stage → Bool
is_at serving serving = true
is_at cancelled cancelled = true
is_at stopping stopping = true
is_at stopped stopped = true
is_at closed closed = true
is_at returned returned = true
is_at _ _ = false

pub record Running : Type 0 where
  pub stage : Stage
  -- Whether the reconnect monitor has not returned.
  pub monitor : Bool
  pub broadcaster : Broadcaster.State
  pub manager : Manager

pub data Action : Type 0 where
  -- The statements of Shutdown.
  cancels finishes_stop shuts_streams returns : Action
  begins_stop : Bool → Action
  -- The reconnect monitor sees that the context is cancelled. The connection, whose end it would see
  -- too, is closed by main after Shutdown has returned.
  monitor_ends : Action
  -- A step of the broadcaster that is not one of Stop's.
  broadcasts : Broadcaster.Action → Action
  -- A handler's call of the connection manager.
  streams : Manager.Call → Action

abbrev is_close_all : Manager.Call → Bool
is_close_all closes_all = true
is_close_all _ = false

-- What a step of the broadcaster does to the whole, at a stage after it.
abbrev lifted : Running → Stage → Option Broadcaster.State → Option Running
lifted r stage o = elim o [
  | none ↦ none
  | some b ↦ some (record r { stage = stage; broadcaster = b })
]

unfoldable pub step : Running → Action → Option Running
step r cancels = if is_at serving r.stage then some (record r { stage = cancelled }) else none
step r (begins_stop late) =
    if is_at cancelled r.stage
    then lifted r stopping (Broadcaster.step r.broadcaster (stop_begins late))
    else none
step r finishes_stop =
    if is_at stopping r.stage
    then lifted r stopped (Broadcaster.step r.broadcaster stop_finishes)
    else none
step r shuts_streams =
    if is_at stopped r.stage
    then some (record r { stage = closed; manager = close_all r.manager })
    else none
step r returns =
    if is_at closed r.stage && not r.monitor then some (record r { stage = returned }) else none
step r monitor_ends =
    if r.monitor && not (is_at serving r.stage) then some (record r { monitor = false }) else none
step r (broadcasts a) =
    if not (is_stop a) then lifted r r.stage (Broadcaster.step r.broadcaster a) else none
step r (streams c) =
    if not (is_close_all c) then some (record r { manager = Manager.step r.manager c }) else none

abbrev pub started : Running
started = record {
  stage = serving;
  monitor = true;
  broadcaster = new_broadcaster;
  manager = new_manager;
}

pub data Reach : Running → Type 0 where
  start : Reach started
  next_step : {r t : Running} (a : Action) → Reach r → step r a ≡ some t → Reach t
