-- ===== src/Server/Streams.antt =====
-- server/handlerstats.go: the handlers of handleStatsSSE beside Server.Shutdown, the idle timer and
-- the polling loops. A handler is named by its connection's number. Its steps are the calls of the
-- connection manager and of the broadcaster, the deferred ones included, which a panic leads to as
-- well; its stream may end at any time.
pub mod Registered
pub mod Calls
pub mod Connections
pub mod Quiet
pub mod Owners
pub mod Waiters
pub mod Ending
pub mod Browser
pub mod Shrinks
mod Tests
use xray_web_maneger.Common.{
  ℕ, ◌≡◌, Bool, true, false, not, ◌==◌, ◌&&◌, Option, none, some, is_some, update, if◌then◌else◌,
}
use xray_web_maneger.Sse.Manager
use xray_web_maneger.Sse.Manager.{add}
use xray_web_maneger.Sse.Broadcaster
use xray_web_maneger.Sse.Broadcaster.{mem, Waiter, find_waiter, subscribe}
use xray_web_maneger.Server.Shutdown
use xray_web_maneger.Server.Shutdown.{Running, broadcasts, streams, started}

-- How far the handler of a connection is.
pub data Place : Type 0 where
  -- No handler has had the number.
  absent : Place
  -- After Add; in Subscribe, waiting for a loop; in the loop over the events.
  added : Place
  joining streaming : ℕ → Place
  -- After Unsubscribe, after Remove, and after conn.Close.
  leaving removed ended : Place

pub record Serving : Type 0 where
  pub running : Running
  pub handlers : ℕ → Place

pub data Action : Type 0 where
  arrives : Action
  subscribes : ℕ → Bool → Action
  resumes leaves removes closes : ℕ → Action
  -- A step of Shutdown, the monitor, the idle timer or a polling loop.
  others : Shutdown.Action → Action

-- Whether only a handler takes the step.
abbrev pub is_handlers : Shutdown.Action → Bool
is_handlers (streams c) = true
is_handlers (broadcasts (Broadcaster.subscribes late)) = true
is_handlers (broadcasts (Broadcaster.resumes ch)) = true
is_handlers (broadcasts (Broadcaster.unsubscribes ch)) = true
is_handlers _ = false

-- A handler's step, and where it is afterwards.
abbrev pub moved : Serving → Shutdown.Action → ℕ → Place → Option Serving
moved v a c p = elim (Shutdown.step v.running a) [
  | none ↦ none
  | some r ↦ some (record { running = r; handlers = update v.handlers c p })
]

-- Add, after which the handler of a connection that is refused returns.
pub arrive : Serving → Option ℕ → Option Serving
arrive v none = some v
arrive v (some c) = moved v (streams Manager.adds) c added

-- Where Subscribe leaves the handler: it has a channel, or it waits for a loop.
abbrev pub after_subscribe : Bool → Broadcaster.State → Place
after_subscribe late b =
    if is_some (find_waiter b.next (subscribe late b).waiting)
    then joining b.next
    else streaming b.next

pub subscribe_at : Serving → ℕ → Bool → Place → Option Serving
subscribe_at v c late added =
    moved v (broadcasts (Broadcaster.subscribes late)) c
      (after_subscribe late v.running.broadcaster)
subscribe_at v c late _ = none

-- Whether a Subscribe that goes on closes a channel that is closed. Its panic skips Unsubscribe,
-- which is deferred later.
abbrev pub closes_twice : ℕ → Broadcaster.State → Bool
closes_twice ch b = elim (find_waiter ch b.waiting) [
  | none ↦ false
  | some w ↦ not (w.gen == b.loop_gen) && b.stopped && mem w.ch b.closed
]

pub resume_at : Serving → ℕ → Place → Option Serving
resume_at v c (joining ch) =
    moved v (broadcasts (Broadcaster.resumes ch)) c
      (if closes_twice ch v.running.broadcaster then leaving else streaming ch)
resume_at v c _ = none

pub leave_at : Serving → ℕ → Place → Option Serving
leave_at v c (streaming ch) = moved v (broadcasts (Broadcaster.unsubscribes ch)) c leaving
leave_at v c _ = none

pub remove_at : Serving → ℕ → Place → Option Serving
remove_at v c leaving = moved v (streams (Manager.removes (some c))) c removed
remove_at v c _ = none

pub close_at : Serving → ℕ → Place → Option Serving
close_at v c removed = moved v (streams (Manager.closes c)) c ended
close_at v c _ = none

pub step : Serving → Action → Option Serving
step v arrives = arrive v (add v.running.manager).1
step v (subscribes c late) = subscribe_at v c late (v.handlers c)
step v (resumes c) = resume_at v c (v.handlers c)
step v (leaves c) = leave_at v c (v.handlers c)
step v (removes c) = remove_at v c (v.handlers c)
step v (closes c) = close_at v c (v.handlers c)
step v (others a) =
    if not (is_handlers a)
    then elim (Shutdown.step v.running a) [ none ↦ none | some r ↦ some (record v { running = r }) ]
    else none

abbrev pub begun : Serving
begun = record { running = started; handlers = λ c. absent }

pub data Reach : Serving → Type 0 where
  start : Reach begun
  next_step : {v t : Serving} (a : Action) → Reach v → step v a ≡ some t → Reach t
