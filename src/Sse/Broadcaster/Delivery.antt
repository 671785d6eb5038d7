-- ===== src/Sse/Broadcaster/Delivery.antt =====
-- sse/broadcaster.go: the goroutine of the polling loop beside the steps of the broadcaster. The end
-- of a fetch, the copy of the set of subscribers, each send and the end of a tick are steps, so that
-- Subscribe, Unsubscribe and Stop may come between them. Go's order of a map is free: each send goes
-- to any channel of the copy that is left.
pub mod Open
pub mod Pending
pub mod Order
pub mod Ending
mod Tests
use xray_web_maneger.Common.{
  ℕ, ◌+◌, ◌≡◌, Text, Bool, true, false, not, ◌==◌, ◌&&◌, Option, none, some, List, [], ◌∷◌, ◌++◌,
  ltb, length, is_some, update, if◌then◌else◌,
}
use xray_web_maneger.Sse.Broadcaster
use xray_web_maneger.Sse.Broadcaster.{
  mem, without, is_nil, new_broadcaster, loop_returns, loop_panics,
}
use xray_web_maneger.Sse.Broadcaster.Polling.{LoopState, channel_capacity, next_tick}

-- Where the goroutine is: at its select; with a payload, before the copy of the subscribers; and at
-- the loop over the copy, with the channels that are left. The test says whether the payload is a
-- broadcast, not a degraded event.
pub data Position (T : Type 0) : Type 0 where
  selecting : Position T
  prepared : Bool → T → Position T
  fanning_out : Bool → T → List ℕ → Position T

pub record Poller (T : Type 0) : Type 0 where
  pub variables : LoopState T
  pub position : Position T

pub record System (T : Type 0) : Type 0 where
  pub control : Broadcaster.State
  -- The polling goroutine of each number; the numbers of those that run are in control.loops.
  pub pollers : ℕ → Poller T
  -- What the channels hold.
  pub queues : ℕ → List T
  pub last_broadcast : Option T
  pub dropped_msgs : ℕ
  -- What was given to a fan-out and what receivers have taken, oldest first, and whether a send has
  -- met a closed channel, which is a panic.
  pub published : List T
  pub received : ℕ → List T
  pub sent_on_closed : Bool

pub data Action (T : Type 0) : Type 0 where
  -- A step of the broadcaster.
  controls : Broadcaster.Action → Action T
  -- A fetch ends: which loop, its payload or an error, and the tick's time.
  ticks : ℕ → Option T → ℕ → Action T
  copies_subscribers : ℕ → Action T
  sends : ℕ → ℕ → Action T
  ends_tick : ℕ → Action T
  -- A subscriber takes a payload from its channel.
  receives : ℕ → Action T

module _ {T : Type 0} where
  abbrev pub at_select : Position T → Bool
  at_select selecting = true
  at_select _ = false

  -- A loop only returns from its select; all else goes on beside the loop.
  abbrev pub may_step : System T → Broadcaster.Action → Bool
  may_step s (loop_returns d) = at_select (s.pollers d).position
  may_step s _ = true

  abbrev pub go_to : System T → ℕ → Position T → System T
  go_to s d p = record s { pollers = update s.pollers d (record (s.pollers d) { position = p }) }

  -- The end of a fetch, from what next_tick gives.
  abbrev pub ticked : System T → ℕ → Bool → LoopState T × Option T → System T
  ticked s d regular (variables, none) = record s {
    pollers = update s.pollers d (record { variables = variables; position = selecting });
  }
  ticked s d regular (variables, some x) = record s {
    pollers = update s.pollers d (record { variables = variables; position = prepared regular x });
    last_broadcast = if regular then some x else s.last_broadcast;
    published = s.published ++ x ∷ [];
  }

  abbrev pub has_room : System T → ℕ → Bool
  has_room s ch = ltb (length (s.queues ch)) channel_capacity

  -- A send on a channel that is open; it gives up when the channel is full, and counts that for a
  -- broadcast.
  abbrev pub sent_open : System T → Bool → T → ℕ → System T
  sent_open s regular x ch = record s {
    queues = if has_room s ch then update s.queues ch (s.queues ch ++ x ∷ []) else s.queues;
    dropped_msgs = if not (has_room s ch) && regular then s.dropped_msgs + 1 else s.dropped_msgs;
  }

  -- One round of the loop over the copy. A send on a closed channel ends the goroutine by a panic.
  abbrev pub send_to : System T → ℕ → Bool → T → List ℕ → ℕ → System T
  send_to s d regular x left ch =
      if mem ch s.control.closed
      then record s {
        control = record (s.control) { loops = without d s.control.loops };
        sent_on_closed = true;
      }
      else go_to (sent_open s regular x ch) d (fanning_out regular x (without ch left))

  -- A tick's step, by the position of its goroutine.
  unfoldable pub copy_step : System T → ℕ → Position T → Option (System T)
  copy_step s d (prepared regular x) =
      some (go_to s d (fanning_out regular x s.control.subscribers))
  copy_step s d _ = none

  unfoldable pub send_step : System T → ℕ → ℕ → Position T → Option (System T)
  send_step s d ch (fanning_out regular x left) =
      if mem ch left then some (send_to s d regular x left ch) else none
  send_step s d ch _ = none

  -- After a broadcast the count of dropped messages is swapped with zero.
  unfoldable pub end_step : System T → ℕ → Position T → Option (System T)
  end_step s d (fanning_out regular x left) =
      if is_nil left
      then some
          (record (go_to s d selecting) { dropped_msgs = if regular then 0 else s.dropped_msgs })
      else none
  end_step s d _ = none

  unfoldable pub receive_step : System T → ℕ → List T → Option (System T)
  receive_step s ch [] = none
  receive_step s ch (x ∷ queue) = some (record s {
    queues = update s.queues ch queue;
    received = update s.received ch (s.received ch ++ x ∷ []);
  })

  abbrev pub control_step : System T → Option Broadcaster.State → Option (System T)
  control_step s o = elim o [ none ↦ none | some b ↦ some (record s { control = b }) ]

  module _ (marshal : T → Option Text) (enrich : Option (T → T → ℕ → Option ℕ → T))
      (degraded : Option T) (zero_value : T) where
    unfoldable pub step : System T → Action T → Option (System T)
    step s (controls a) =
        if may_step s a then control_step s (Broadcaster.step s.control a) else none
    step s (ticks d fetched tick_at) =
        if mem d s.control.loops && at_select (s.pollers d).position
        then some (
            ticked s d (is_some fetched)
              (next_tick marshal enrich degraded (s.pollers d).variables fetched tick_at))
        else none
    step s (copies_subscribers d) =
        if mem d s.control.loops then copy_step s d (s.pollers d).position else none
    step s (sends d ch) =
        if mem d s.control.loops then send_step s d ch (s.pollers d).position else none
    step s (ends_tick d) =
        if mem d s.control.loops then end_step s d (s.pollers d).position else none
    step s (receives ch) = receive_step s ch (s.queues ch)

    -- A goroutine that has not begun.
    abbrev pub new_poller : Poller T
    new_poller = record {
      variables = record {
        last_snapshot = zero_value;
        last_at = none;
        prev_json = none;
        consecutive_errors = 0;
      };
      position = selecting;
    }

    abbrev pub new_system : System T
    new_system = record {
      control = new_broadcaster;
      pollers = λ d. new_poller;
      queues = λ ch. [];
      last_broadcast = none;
      dropped_msgs = 0;
      published = [];
      received = λ ch. [];
      sent_on_closed = false;
    }

    pub data Reach : System T → Type 0 where
      start : Reach new_system
      next_step : {s t : System T} (a : Action T) → Reach s → step s a ≡ some t → Reach t
