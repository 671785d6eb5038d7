-- ===== src/Sse/Broadcaster/Phases.antt =====
-- sse/broadcaster.go: which steps move Stop on.
use xray_web_maneger.Common.{◌≡◌, refl, Bool, true, false, Option, some, arith}
use xray_web_maneger.Sse.Broadcaster.{
  not_called, waits, finished, State, new_broadcaster, join, subscribe, after_wait, resume,
  unsubscribe, idle_callback, stop_begin, stop_finish, Action, subscribes, resumes, unsubscribes,
  timer_runs, loop_returns, loop_panics, stop_begins, stop_finishes, step,
}
use xray_web_maneger.Common.{ℕ}

abbrev pub is_stop : Action → Bool
is_stop (stop_begins late) = true
is_stop stop_finishes = true
is_stop _ = false

pub phase_kept :
    (a : Action) (s t : State) → is_stop a ≡ false → step s a ≡ some t → t.phase ≡ s.phase
unfolding step subscribe resume after_wait unsubscribe idle_callback join
phase_kept (subscribes late) s t k e = ground arith
phase_kept (resumes ch) s t k e = ground arith
phase_kept (unsubscribes ch) s t k e = ground arith
phase_kept timer_runs s t k e = ground arith
phase_kept (loop_returns d) s t k e = ground arith
phase_kept (loop_panics d) s t k e = ground arith
phase_kept (stop_begins late) s t k e = cc
phase_kept stop_finishes s t k e = cc

pub begun_phase :
    (late : Bool) (s t : State)
    → step s (stop_begins late) ≡ some t
    → (o : Option ℕ) × (t.phase ≡ waits o)
unfolding step stop_begin
begun_phase late s t e = (s.loop_done, ground arith)

pub stop_begins_step :
    (s : State) → s.phase ≡ not_called → (t : State) × (step s (stop_begins false) ≡ some t)
unfolding step
stop_begins_step s e = (stop_begin false s, ground arith)

pub finished_phase : (s t : State) → step s stop_finishes ≡ some t → t.phase ≡ finished
unfolding step stop_finish
finished_phase s t e = ground arith

pub new_broadcaster_phase : new_broadcaster.phase ≡ not_called
unfolding new_broadcaster
new_broadcaster_phase = refl
