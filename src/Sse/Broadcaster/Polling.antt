-- ===== src/Sse/Broadcaster/Polling.antt =====
-- sse/broadcaster.go: one tick of the polling loop, with what it sends to the subscribers.
-- The payload's type, json.Marshal and the functions given to NewBroadcaster are parameters. A panic
-- of fetchFn or of degradedFn, which the loop recovers from, is `none`.
pub mod Sends
mod Tests
use xray_web_maneger.Common.{
  ℕ, ◌+◌, Text, text_eq, Bool, true, false, ◌==◌, Option, none, some, List, [], ◌∷◌, ◌++◌, ltb,
  length, if◌then◌else◌,
}

abbrev pub max_consecutive_errors : ℕ
max_consecutive_errors = 3

-- The capacity of a subscriber's channel.
abbrev pub channel_capacity : ℕ
channel_capacity = 5

-- The variables of the loop; prev_json is nil at first and after a payload that does not marshal.
pub record LoopState (T : Type 0) : Type 0 where
  pub last_snapshot : T
  pub last_at : Option ℕ
  pub prev_json : Option Text
  pub consecutive_errors : ℕ

-- What the ticks change outside of the loop: lastBroadcast and hasLast, and the channels' contents.
pub record Shared (T : Type 0) : Type 0 where
  pub last_broadcast : T
  pub has_last : Bool
  pub channels : List (List T)

module _ {T : Type 0} where
  -- A send that gives up when the channel is full.
  pub send : T → List T → List T
  send x channel = if ltb (length channel) channel_capacity then channel ++ x ∷ [] else channel

  pub fan_out : T → List (List T) → List (List T)
  fan_out x [] = []
  fan_out x (channel ∷ rest) = send x channel ∷ fan_out x rest

  -- LastBroadcast.
  pub last_broadcast_of : Shared T → Option T
  last_broadcast_of s = if s.has_last then some s.last_broadcast else none

  module _ (marshal : T → Option Text) (enrich : Option (T → T → ℕ → Option ℕ → T))
      (degraded : Option T) where
    -- broadcast := data, enriched if there is a function for it.
    abbrev enriched : T → LoopState T → ℕ → T
    enriched payload l tick_at = elim enrich [
      | none ↦ payload
      | some f ↦ f payload l.last_snapshot tick_at l.last_at
    ]

    -- Whether the payload is dropped, for it marshals to the previous bytes.
    unfoldable pub is_repeated : Option Text → Option Text → Bool
    is_repeated none prev = false
    is_repeated (some curr) none = false
    is_repeated (some curr) (some prev) = text_eq curr prev

    -- A tick whose fetch fails: what is sent.
    unfoldable pub failed_tick : LoopState T → LoopState T × Option T
    failed_tick l = (
      record l { consecutive_errors = l.consecutive_errors + 1 },
      if l.consecutive_errors + 1 == max_consecutive_errors then degraded else none,
    )

    -- A tick whose fetch gives a payload.
    unfoldable pub fetched_tick : LoopState T → T → ℕ → LoopState T × Option T
    fetched_tick l payload tick_at =
        if is_repeated (marshal payload) l.prev_json
        then (record l { consecutive_errors = 0 }, none)
        else (
          record {
            last_snapshot = payload;
            last_at = some tick_at;
            prev_json = marshal payload;
            consecutive_errors = 0;
          },
          some (enriched payload l tick_at),
        )

    unfoldable pub next_tick : LoopState T → Option T → ℕ → LoopState T × Option T
    next_tick l none tick_at = failed_tick l
    next_tick l (some payload) tick_at = fetched_tick l payload tick_at

    -- The whole tick: a degraded event is sent, but is no last broadcast.
    pub tick : LoopState T → Shared T → Option T → ℕ → LoopState T × Shared T
    tick l s none tick_at =
        let (l', sent) = failed_tick l in
        elim sent [
          | none ↦ (l', s)
          | some event ↦ (l', record s { channels = fan_out event s.channels })
        ]
    tick l s (some payload) tick_at =
        let (l', sent) = fetched_tick l payload tick_at in
        elim sent [
          | none ↦ (l', s)
          | some broadcast ↦ (
            l',
            record {
              last_broadcast = broadcast;
              has_last = true;
              channels = fan_out broadcast s.channels;
            },
          )
        ]

    -- What the ticks of a list of fetches send.
    abbrev pub sends : LoopState T → List (Option T × ℕ) → List (Option T)
    sends l [] = []
    sends l ((fetched, tick_at) ∷ rest) =
        let (l', sent) = next_tick l fetched tick_at in sent ∷ sends l' rest
