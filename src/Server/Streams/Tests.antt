-- ===== src/Server/Streams/Tests.antt =====
-- A stream that comes and goes, and one that a shutdown meets.
use xray_web_maneger.Common.{
  ◌≡◌, refl, Option, none, some, List, [], ◌∷◌, true, false, arith, subst, Option-cases, inl, inr,
  mem,
}
use xray_web_maneger.Sse.Manager
use xray_web_maneger.Sse.Manager.{add, remove, close, close_all}
use xray_web_maneger.Sse.Broadcaster
use xray_web_maneger.Sse.Broadcaster.{
  new_broadcaster, subscribe, join, unsubscribe, stop_begin, stop_finish, loop_returns, timer_runs,
  idle_callback,
}
use xray_web_maneger.Sse.Broadcaster.Idle.{EndsIdly}
use xray_web_maneger.Server.Shutdown
use xray_web_maneger.Server.Shutdown.{
  broadcasts, cancels, begins_stop, finishes_stop, shuts_streams, monitor_ends, returns,
}
use xray_web_maneger.Server.Streams.{
  joining, Serving, Action, arrives, subscribes, leaves, removes, closes, others, arrive,
  subscribe_at, leave_at, remove_at, close_at, step, begun, Reach, start, next_step,
}
use xray_web_maneger.Server.Streams.Ending.{CanEnd, handler-CanEnd}
use xray_web_maneger.Server.Streams.Quiet.{nothing_leaks, shutdown_tells_all}

abbrev run : Serving → List Action → Option Serving
run v [] = some v
run v (a ∷ actions) = elim (step v a) [ none ↦ none | some t ↦ run t actions ]

some_eq : {u v : Serving} → ◌≡◌ {A = Option Serving} (some u) (some v) → u ≡ v
some_eq e = cc

run-Reach : {v t : Serving} (actions : List Action) → Reach v → run v actions ≡ some t → Reach t
run-Reach [] r e = subst Reach (some_eq e) r
run-Reach {v} (a ∷ actions) r e = elim (Option-cases (step v a)) [
  | inl f ↦ absurd (ground arith)
  | inr (u, f) ↦ run-Reach actions (next_step a r f) (ground arith)
]

abbrev outcome : Option Serving → Serving
outcome none = begun
outcome (some v) = v

abbrev one_stream : List Action
one_stream = arrives ∷ subscribes 0 false ∷ leaves 0 ∷ removes 0 ∷ closes 0 ∷ []

abbrev quiet : Serving
unfolding step arrive subscribe_at leave_at remove_at close_at Shutdown.step Manager.step add remove
    close Broadcaster.step new_broadcaster subscribe join unsubscribe
quiet = outcome (run begun one_stream)

quiet-Reach : Reach quiet
unfolding step arrive subscribe_at leave_at remove_at close_at Shutdown.step Manager.step add remove
    close Broadcaster.step new_broadcaster subscribe join unsubscribe
quiet-Reach = run-Reach one_stream start refl

nothing_leaks_example :
    (quiet.running.manager.connections ≡ [])
    × (quiet.running.broadcaster.subscribers ≡ [])
    × ((t : Broadcaster.State) × (t.loops ≡ []) × EndsIdly quiet.running.broadcaster t)
unfolding step arrive subscribe_at leave_at remove_at close_at Shutdown.step Manager.step add remove
    close Broadcaster.step new_broadcaster subscribe join unsubscribe
nothing_leaks_example = nothing_leaks quiet-Reach (λ c. ground arith)

-- The handler is still streaming when Shutdown returns.
abbrev shutdown_meets : List Action
shutdown_meets =
    arrives
    ∷ subscribes 0 false
    ∷ others cancels
    ∷ others (begins_stop false)
    ∷ others (broadcasts (loop_returns 1))
    ∷ others finishes_stop
    ∷ others shuts_streams
    ∷ others monitor_ends
    ∷ others returns
    ∷ []

abbrev met : Serving
unfolding step arrive subscribe_at Shutdown.step Manager.step add close_all Broadcaster.step
    new_broadcaster subscribe join stop_begin stop_finish
met = outcome (run begun shutdown_meets)

met-Reach : Reach met
unfolding step arrive subscribe_at Shutdown.step Manager.step add close_all Broadcaster.step
    new_broadcaster subscribe join stop_begin stop_finish
met-Reach = run-Reach shutdown_meets start refl

shutdown_tells_all_example : mem 0 met.running.manager.closed ≡ true
unfolding step arrive subscribe_at Shutdown.step Manager.step add close_all Broadcaster.step
    new_broadcaster subscribe join stop_begin stop_finish
shutdown_tells_all_example = shutdown_tells_all 0 met-Reach refl refl

-- The second handler waits in Subscribe for the loop of the first, which was told to stop.
abbrev second_waits : List Action
second_waits =
    arrives
    ∷ subscribes 0 false
    ∷ leaves 0
    ∷ others (broadcasts timer_runs)
    ∷ arrives
    ∷ subscribes 1 false
    ∷ []

abbrev waiting : Serving
unfolding step arrive subscribe_at leave_at Shutdown.step Manager.step add Broadcaster.step
    new_broadcaster subscribe join unsubscribe idle_callback
waiting = outcome (run begun second_waits)

waiting-Reach : Reach waiting
unfolding step arrive subscribe_at leave_at Shutdown.step Manager.step add Broadcaster.step
    new_broadcaster subscribe join unsubscribe idle_callback
waiting-Reach = run-Reach second_waits start refl

waiting_lem : waiting.handlers 1 ≡ joining 2
unfolding step arrive subscribe_at leave_at Shutdown.step Manager.step add Broadcaster.step
    new_broadcaster subscribe join unsubscribe idle_callback
waiting_lem = refl

handler-CanEnd_example : CanEnd 1 waiting
unfolding step arrive subscribe_at leave_at Shutdown.step Manager.step add Broadcaster.step
    new_broadcaster subscribe join unsubscribe idle_callback
handler-CanEnd_example = handler-CanEnd 1 waiting-Reach refl
