-- ===== src/Sse/Broadcaster/Delivery/Tests.antt =====
-- Runs of a polling goroutine beside the broadcaster, with numbers as payloads.
use mathlib.Core.List.{Sublistᴰ}
use xray_web_maneger.Common.{
  ℕ, ◌≤◌, ◌≡◌, refl, Text, Option, none, some, List, [], ◌∷◌, ◌++◌, false, true, length, arith,
  subst, Option-cases, inl, inr,
}
use xray_web_maneger.Sse.Broadcaster
use xray_web_maneger.Sse.Broadcaster.{
  mem, subscribes, loop_returns, stop_begins, stop_finishes, subscribe, join, stop_begin,
  stop_finish, new_broadcaster,
}
use xray_web_maneger.Sse.Broadcaster.Polling.{
  channel_capacity, next_tick, fetched_tick, is_repeated,
}
use xray_web_maneger.Sse.Broadcaster.Delivery.{
  System, Action, controls, ticks, copies_subscribers, sends, ends_tick, receives, copy_step,
  send_step, end_step, receive_step, step, new_system, Reach, start, next_step,
}
use xray_web_maneger.Sse.Broadcaster.Delivery.Open.{never_sent_on_closed}
use xray_web_maneger.Sse.Broadcaster.Delivery.Order.{received_in_order}
use xray_web_maneger.Sse.Broadcaster.Delivery.Ending.{Alone, Finished, tick_delivers}

abbrev digits : ℕ → Option Text
digits n = some (n ∷ [])

abbrev Reached : System ℕ → Type 0
Reached = Reach digits none (some 0) 0

abbrev step_of : System ℕ → Action ℕ → Option (System ℕ)
step_of = step digits none (some 0) 0

abbrev run : System ℕ → List (Action ℕ) → Option (System ℕ)
run s [] = some s
run s (a ∷ actions) = elim (step_of s a) [ none ↦ none | some t ↦ run t actions ]

run-Reach :
    {s t : System ℕ} (actions : List (Action ℕ)) → Reached s → run s actions ≡ some t → Reached t
run-Reach {s} [] r e = subst Reached (some_eq e) r
  where
    some_eq : {u v : System ℕ} → ◌≡◌ {A = Option (System ℕ)} (some u) (some v) → u ≡ v
    some_eq f = cc
run-Reach {s} (a ∷ actions) r e = elim (Option-cases (step_of s a)) [
  | inl f ↦ absurd (ground arith)
  | inr (u, f) ↦ run-Reach actions (next_step a r f) (ground arith)
]

abbrev outcome : Option (System ℕ) → System ℕ
outcome none = new_system digits none (some 0) 0
outcome (some s) = s

-- Two subscribers, with the channels 0 and 2, and a payload that is to be sent to them.
abbrev begun : List (Action ℕ)
begun = controls (subscribes false) ∷ ticks 1 (some 7) 5 ∷ controls (subscribes false) ∷ []

abbrev fetched : System ℕ
unfolding step next_tick fetched_tick is_repeated subscribe join Broadcaster.step new_broadcaster
fetched = outcome (run (new_system digits none (some 0) 0) begun)

fetched-Reached : Reached fetched
unfolding step next_tick fetched_tick is_repeated subscribe join Broadcaster.step new_broadcaster
fetched-Reached = run-Reach begun start refl

tick_delivers_example :
    (t : System ℕ) × Alone digits none (some 0) 0 1 fetched t
    × Finished digits none (some 0) 0 fetched 1 7 fetched.control.subscribers t
unfolding step next_tick fetched_tick is_repeated subscribe join Broadcaster.step new_broadcaster
tick_delivers_example = tick_delivers digits none (some 0) 0 1 true 7 fetched-Reached refl refl

-- The first subscriber gets and takes its payload; the second is not served when Stop is called.
abbrev stopped_within : List (Action ℕ)
stopped_within =
    copies_subscribers 1
    ∷ sends 1 0
    ∷ receives 0
    ∷ controls (stop_begins false)
    ∷ sends 1 2
    ∷ ends_tick 1
    ∷ controls (loop_returns 1)
    ∷ controls stop_finishes
    ∷ []

abbrev over : System ℕ
unfolding step next_tick fetched_tick is_repeated subscribe join stop_begin stop_finish copy_step
    send_step end_step receive_step Broadcaster.step new_broadcaster
over = outcome (run fetched stopped_within)

over-Reached : Reached over
unfolding step next_tick fetched_tick is_repeated subscribe join stop_begin stop_finish copy_step
    send_step end_step receive_step Broadcaster.step new_broadcaster
over-Reached = run-Reach stopped_within fetched-Reached refl

never_sent_on_closed_example : over.sent_on_closed ≡ false
never_sent_on_closed_example = never_sent_on_closed digits none (some 0) 0 over-Reached

received_in_order_example :
    Sublistᴰ (over.received 2 ++ over.queues 2) over.published
    × (length (over.queues 2) ≤ channel_capacity)
received_in_order_example = received_in_order digits none (some 0) 0 2 over-Reached

-- Both subscribers were sent the payload, and both channels are closed.
over_lem :
    (over.received 0 ≡ 7 ∷ [])
    × (over.queues 2 ≡ 7 ∷ [])
    × (over.control.closed ≡ 2 ∷ 0 ∷ [])
    × (over.last_broadcast ≡ some 7)
unfolding step next_tick fetched_tick is_repeated subscribe join stop_begin stop_finish copy_step
    send_step end_step receive_step Broadcaster.step new_broadcaster
over_lem = (refl, refl, refl, refl)
