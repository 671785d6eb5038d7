-- ===== src/Sse/Broadcaster/Tests.antt =====
-- Runs of the broadcaster.
use xray_web_maneger.Common.{
  ◌≡◌, ◌≤◌, ◌⊎◌, refl, some, none, Option, List, [], ◌∷◌, ◌||◌, false, true, any, length, All, inl,
  inr, arith, subst, Option-cases,
}
use xray_web_maneger.Sse.Broadcaster.{
  State, new_broadcaster, mem, Waiter, Action, step, Reach, start, next_step, waits, subscribes,
  resumes, unsubscribes, timer_runs, loop_returns, stop_begins, stop_finishes, subscribe, join,
  unsubscribe, idle_callback, stop_begin,
}
use xray_web_maneger.Sse.Broadcaster.Safety.{one_loop_at_most}
use xray_web_maneger.Sse.Broadcaster.Shutdown.{stop_before_resume_panics}

abbrev run : State → List Action → Option State
run s [] = some s
run s (a ∷ actions) = elim (step s a) [ none ↦ none | some t ↦ run t actions ]

run-Reach : {s t : State} (actions : List Action) → Reach s → run s actions ≡ some t → Reach t
run-Reach [] r e = subst Reach (ground arith) r
run-Reach {s} (a ∷ actions) r e = elim (Option-cases (step s a)) [
  | inl f ↦ absurd (ground arith)
  | inr (u, f) ↦ run-Reach actions (next_step a r f) (ground arith)
]

-- A subscriber leaves, the idle timer ends its loop, a second Subscribe waits for that loop, and
-- Stop is called before the loop returns.
abbrev second_waits : List Action
second_waits =
    subscribes false
    ∷ unsubscribes 0
    ∷ timer_runs
    ∷ subscribes false
    ∷ stop_begins false
    ∷ loop_returns 1
    ∷ []

abbrev waiter : Waiter
waiter = record { ch = 2; done = 1; gen = 0 }

abbrev before_finish : State
before_finish = record {
  subscribers = 2 ∷ [];
  stopped = true;
  loop_gen = 1;
  stop_ch = none;
  loop_done = some 1;
  idle_timer = false;
  callbacks = 0;
  loops = [];
  signalled = 1 ∷ [];
  waiting = waiter ∷ [];
  phase = waits (some 1);
  closed = [];
  panicked = false;
  next = 3;
}

before_finish-Reach : Reach before_finish
unfolding step subscribe join unsubscribe idle_callback stop_begin new_broadcaster
before_finish-Reach = run-Reach second_waits start refl

stop_before_resume_example :
    (t : State) × (u : State) × (step before_finish stop_finishes ≡ some t)
    × (step t (resumes waiter.ch) ≡ some u)
    × (t.panicked
        ≡ before_finish.panicked
          || any (λ ch. mem ch before_finish.closed) before_finish.subscribers)
    × (u.panicked ≡ true)
stop_before_resume_example =
    stop_before_resume_panics waiter (some 1) before_finish-Reach refl refl refl refl

one_loop_example :
    (length before_finish.loops ≤ 1)
    × All (λ d. before_finish.loop_done ≡ some d) before_finish.loops
    × ((before_finish.stopped ≡ false) ⊎ (before_finish.stop_ch ≡ none))
one_loop_example = one_loop_at_most before_finish-Reach
