-- ===== src/Server/Shutdown/Tests.antt =====
-- Shutdown with a stream and a polling loop.
use xray_web_maneger.Common.{
  ◌≡◌, refl, Option, none, some, List, [], ◌∷◌, true, false, subst, Option-cases, arith, inl, inr,
}
use xray_web_maneger.Sse.Manager.{new_manager, Manager, add, close_all, adds}
use xray_web_maneger.Sse.Manager
use xray_web_maneger.Sse.Broadcaster
use xray_web_maneger.Sse.Broadcaster.{
  new_broadcaster, subscribes, loop_returns, waits, finished, subscribe, join, stop_begin,
  stop_finish,
}
use xray_web_maneger.Server.Shutdown.{
  stopping, returned, Running, Action, cancels, finishes_stop, shuts_streams, returns, begins_stop,
  monitor_ends, broadcasts, streams, step, Reach, start, next_step,
}
use xray_web_maneger.Server.Shutdown.Order.{returned_lem}
use xray_web_maneger.Server.Shutdown.Liveness.{CanReturn, can_return}

abbrev run : Running → List Action → Option Running
run r [] = some r
run r (a ∷ actions) = elim (step r a) [ none ↦ none | some t ↦ run t actions ]

run-Reach : {r t : Running} (actions : List Action) → Reach r → run r actions ≡ some t → Reach t
run-Reach [] h e = subst Reach (ground arith) h
run-Reach {r} (a ∷ actions) h e = elim (Option-cases (step r a)) [
  | inl f ↦ absurd (ground arith)
  | inr (u, f) ↦ run-Reach actions (next_step a h f) (ground arith)
]

-- Stop waits for the loop of the stream's subscription.
abbrev waiting : Running
waiting = record {
  stage = stopping;
  monitor = true;
  broadcaster = record {
    subscribers = 0 ∷ [];
    stopped = true;
    loop_gen = 1;
    stop_ch = none;
    loop_done = some 1;
    idle_timer = false;
    callbacks = 0;
    loops = 1 ∷ [];
    signalled = 1 ∷ [];
    waiting = [];
    phase = waits (some 1);
    closed = [];
    panicked = false;
    next = 2;
  };
  manager = (add new_manager).0;
}

waiting-Reach : Reach waiting
unfolding step new_broadcaster subscribe join stop_begin Broadcaster.step Manager.step
waiting-Reach =
    run-Reach (streams adds ∷ broadcasts (subscribes false) ∷ cancels ∷ begins_stop false ∷ [])
      start refl

can_return_example : CanReturn waiting
can_return_example = can_return waiting-Reach (λ e. ground (arith, e))

abbrev over : Running
over = record {
  stage = returned;
  monitor = false;
  broadcaster = record (waiting.broadcaster) {
    subscribers = [];
    loops = [];
    phase = finished;
    closed = 0 ∷ [];
  };
  manager = close_all (waiting.manager);
}

over-Reach : Reach over
unfolding step stop_finish close_all Broadcaster.step
over-Reach =
    run-Reach
      (broadcasts (loop_returns 1) ∷ finishes_stop ∷ shuts_streams ∷ monitor_ends ∷ returns ∷ [])
      waiting-Reach refl

returned_example :
    (over.broadcaster.loops ≡ [])
    × (over.broadcaster.subscribers ≡ [])
    × (over.manager.connections ≡ [])
    × (over.monitor ≡ false)
    × ((add over.manager).1 ≡ none)
returned_example = returned_lem over-Reach refl
