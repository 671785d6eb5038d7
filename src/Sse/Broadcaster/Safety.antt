-- ===== src/Sse/Broadcaster/Safety.antt =====
-- sse/broadcaster.go: the steps of the broadcaster and the polling loops that run.
use xray_web_maneger.Common.{
  ℕ, ◌≤◌, ◌≡◌, ◌⊎◌, inl, inr, refl, ap, ◌∙◌, subst, Bool, true, false, ◌==◌, ◌&&◌, ◌||◌, Option,
  none, some, List, [], ◌∷◌, if◌then◌else◌, arith, All, Option-cases, length, Bool-cases,
}
use xray_web_maneger.Sse.Broadcaster.{
  mem, without, Waiter, StopPhase, not_called, waits, finished, State, start_loop, find_waiter,
  drop_waiter, after_wait, resume, stop_begin, stop_finish, has_returned, Action, subscribes,
  resumes, unsubscribes, timer_runs, loop_returns, loop_panics, stop_begins, stop_finishes, step,
  Reach, start, next_step,
}
use xray_web_maneger.Sse.Broadcaster.Control.{
  Control, WaitsWell, new_broadcaster-Control, start_loop-Control, subscribe-Control,
}
use xray_web_maneger.Sse.Broadcaster.Endings.{
  idle_callback-Control, loop_ends-Control, unsubscribe-Control, stop_begin-Control,
  stop_finish-Control,
}

abbrev no_waiter : State → State
no_waiter s = record s { waiting = [] }

pub no_loop_of_returned :
    (w : Waiter) (s : State) → Control s → WaitsWell s w → mem w.done s.loops ≡ false → s.loops ≡ []
no_loop_of_returned w s c v e = elim c.one_loop [
  | inl f ↦ f
  | inr (d, f, g) ↦ ground (arith, v.latest)
]

after_wait_cases :
    (w : Waiter) (s : State)
    → WaitsWell s w
    → ((s.stopped ≡ false) × (start_loop (no_waiter s) ≡ after_wait w (no_waiter s)))
      ⊎ ((s.stopped ≡ true)
          × (record (no_waiter s) {
            subscribers = without w.ch s.subscribers;
            panicked = s.panicked || mem w.ch s.closed;
            closed = w.ch ∷ s.closed;
          }
              ≡ after_wait w (no_waiter s)))
unfolding after_wait
after_wait_cases w s v = elim v.gen [
  | inl (h, e, _) ↦ inl (h, ground arith)
  | inr (h, e) ↦ inr (h, ground arith)
]

after_wait-Control :
    (w : Waiter) (s : State)
    → Control s
    → WaitsWell s w
    → mem w.done s.loops ≡ false
    → Control (after_wait w (no_waiter s))
after_wait-Control w s c v e = elim (after_wait_cases w s v) [
  | inl (h, f) ↦ subst Control f (
      start_loop-Control (no_waiter s) (record {
        loops = no_loop_of_returned w s c v e;
        waiting = refl;
        stopped = h;
        phase = ground (arith, c.stopping);
      }))
  | inr (h, f) ↦ subst Control f (record {
    one_loop = c.one_loop;
    current = c.current;
    one_waiter = inl refl;
    stopping = c.stopping;
  })
]

pub resume_cases :
    (ch : ℕ) (s t : State)
    → resume ch s ≡ some t
    → (w : Waiter) × (find_waiter ch s.waiting ≡ some w)
      × (mem w.done s.loops ≡ false)
      × (after_wait w (record s { waiting = drop_waiter ch s.waiting }) ≡ t)
unfolding resume
resume_cases ch s t h = elim (Option-cases (find_waiter ch s.waiting)) [
  | inl e ↦ absurd (ground arith)
  | inr (w, e) ↦ (w, e, ground arith, ground arith)
]

resume-Control : (ch : ℕ) (s t : State) → Control s → resume ch s ≡ some t → Control t
resume-Control ch s t c h =
    let (w, found, returned, e) = resume_cases ch s t h in
    elim c.one_waiter [
      | inl f ↦ absurd (ground arith)
      | inr (v, well) ↦
          let same : v ≡ w = ground (arith, well.alone) in
          let dropped : [] ≡ drop_waiter ch s.waiting = ground (arith, well.alone) in
          subst Control (ap (λ ws. after_wait w (record s { waiting = ws })) dropped ∙ e)
            (after_wait-Control w s c (subst (WaitsWell s) same well) returned)
    ]

pub taken : (c : Bool) (t u : State) → (if c then some t else none) ≡ some u → (c ≡ true) × (t ≡ u)
taken true t u h = (refl, ground arith)
taken false t u h = absurd (ground arith)

pub begin_taken :
    (p : StopPhase) (t u : State)
    → elim p [ not_called ↦ some t | _ ↦ none ] ≡ some u
    → (p ≡ not_called) × (t ≡ u)
begin_taken not_called t u h = (refl, ground arith)
begin_taken (waits o) t u h = absurd (ground arith)
begin_taken finished t u h = absurd (ground arith)

pub finish_taken :
    (p : StopPhase) (loops : List ℕ) (t u : State)
    → elim p [ waits o ↦ if has_returned o loops then some t else none | _ ↦ none ] ≡ some u
    → (o : Option ℕ) × (p ≡ waits o) × (has_returned o loops ≡ true) × (t ≡ u)
finish_taken not_called loops t u h = absurd (ground arith)
finish_taken (waits o) loops t u h =
    let (e, f) = taken (has_returned o loops) t u h in (o, refl, e, f)
finish_taken finished loops t u h = absurd (ground arith)

step-Control : (a : Action) (s t : State) → Control s → step s a ≡ some t → Control t
unfolding step
step-Control (subscribes late) s t c h = subst Control (ground arith) (subscribe-Control late s c)
step-Control (resumes ch) s t c h = resume-Control ch s t c h
step-Control (unsubscribes ch) s t c h = elim (Option-cases (find_waiter ch s.waiting)) [
  | inl e ↦ subst Control (ground arith) (unsubscribe-Control ch s c e)
  | inr (w, e) ↦ absurd (ground arith)
]
step-Control timer_runs s t c h = elim (Bool-cases (s.callbacks == 0)) [
  | inl e ↦ absurd (ground arith)
  | inr e ↦ subst Control (ground arith) (idle_callback-Control s c)
]
step-Control (loop_returns d) s t c h =
    subst Control
      (taken (mem d s.loops && mem d s.signalled) (record s { loops = without d s.loops }) t h).1
      (loop_ends-Control d s c)
step-Control (loop_panics d) s t c h =
    subst Control (taken (mem d s.loops) (record s { loops = without d s.loops }) t h).1
      (loop_ends-Control d s c)
step-Control (stop_begins late) s t c h =
    let (e, f) = begin_taken s.phase (stop_begin late s) t h in
    subst Control f (stop_begin-Control late s c e)
step-Control stop_finishes s t c h =
    let (o, e, _, f) = finish_taken s.phase s.loops (stop_finish s) t h in
    subst Control f (stop_finish-Control s o c e)

pub Reach-Control : {s : State} → Reach s → Control s
Reach-Control start = new_broadcaster-Control
Reach-Control (next_step {s} {t} a r e) = step-Control a s t (Reach-Control r) e

-- In every state that steps lead to, at most one polling loop runs, it is the one that the
-- broadcaster's loopDone belongs to, and a stop channel is only held before Stop is called.
pub one_loop_at_most :
    {s : State}
    → Reach s
    → (length s.loops ≤ 1)
      × All (λ d. s.loop_done ≡ some d) s.loops
      × ((s.stopped ≡ false) ⊎ (s.stop_ch ≡ none))
one_loop_at_most {s} r =
    let c = Reach-Control r in (few c.one_loop, latest c.one_loop, ground (arith, c.stopping))
  where
    few :
        (s.loops ≡ []) ⊎ ((d : ℕ) × (s.loops ≡ d ∷ []) × (s.loop_done ≡ some d))
        → length s.loops ≤ 1
    few (inl e) = rw e (omega arith)
    few (inr (d, e, _)) = rw e (omega arith)

    latest :
        (s.loops ≡ []) ⊎ ((d : ℕ) × (s.loops ≡ d ∷ []) × (s.loop_done ≡ some d))
        → All (λ d. s.loop_done ≡ some d) s.loops
    latest (inl e) = rw e tt
    latest (inr (d, e, f)) = rw e (f, tt)
