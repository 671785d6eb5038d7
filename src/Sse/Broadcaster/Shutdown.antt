-- ===== src/Sse/Broadcaster/Shutdown.antt =====
-- sse/broadcaster.go: what Stop leaves behind, and the channel that Stop and a waiting Subscribe
-- both close.
use xray_web_maneger.Common.{
  ℕ, ◌<◌, ◌≡◌, ◌≢◌, ◌⊎◌, inl, inr, refl, sym, ap, ◌∙◌, subst, Bool, true, ◌||◌, Option, some, List,
  [], ◌∷◌, ◌++◌, any, arith,
}
use xray_web_maneger.Sse.Broadcaster.{
  mem, Waiter, StopPhase, not_called, waits, finished, State, new_broadcaster, join, subscribe,
  find_waiter, drop_waiter, after_wait, resume, unsubscribe, idle_callback, stop_begin, stop_finish,
  has_returned, Action, subscribes, resumes, unsubscribes, timer_runs, loop_returns, loop_panics,
  stop_begins, stop_finishes, step, Reach, start, next_step,
}
use xray_web_maneger.Sse.Broadcaster.Control.{Control, WaitsWell}
use xray_web_maneger.Sse.Broadcaster.Safety.{Reach-Control, resume_cases, finish_taken}

any_of_mem : (f : ℕ → Bool) (a : ℕ) (xs : List ℕ) → mem a xs ≡ true → f a ≡ true → any f xs ≡ true
any_of_mem f a [] h e = h
any_of_mem f a (x ∷ xs) h e = ground (arith, any_of_mem f a xs)

mem-append : (a : ℕ) (xs ys : List ℕ) → mem a xs ≡ true → mem a (xs ++ ys) ≡ true
mem-append a [] ys h = absurd (ground arith)
mem-append a (x ∷ xs) ys h = ground (arith, mem-append a xs ys)

pub waiter_of_found :
    (ch : ℕ) (w : Waiter) (s : State)
    → Control s
    → find_waiter ch s.waiting ≡ some w
    → WaitsWell s w
waiter_of_found ch w s c found = elim c.one_waiter [
  | inl e ↦ absurd (ground arith)
  | inr (v, well) ↦ let same : v ≡ w = ground (arith, well.alone) in subst (WaitsWell s) same well
]

pub no_loop_of_return :
    (s : State) (o : Option ℕ)
    → Control s
    → s.phase ≡ waits o
    → has_returned o s.loops ≡ true
    → s.loops ≡ []
no_loop_of_return s o c e returned = elim c.one_loop [
  | inl f ↦ f
  | inr (d, f, g) ↦ ground (arith, c.stopping)
]

-- When Stop has been called, the loop that it waits for has returned, and a Subscribe still waits
-- for the mutex while its channel is registered, then Stop may go on first, and the Subscribe after it
-- closes the channel that Stop has closed, which panics.
pub stop_before_resume_panics :
    {s : State} (w : Waiter) (o : Option ℕ)
    → Reach s
    → find_waiter w.ch s.waiting ≡ some w
    → mem w.ch s.subscribers ≡ true
    → s.phase ≡ waits o
    → has_returned o s.loops ≡ true
    → (t : State) × (u : State) × (step s stop_finishes ≡ some t)
      × (step t (resumes w.ch) ≡ some u)
      × (t.panicked ≡ s.panicked || any (λ ch. mem ch s.closed) s.subscribers)
      × (u.panicked ≡ true)
unfolding step resume after_wait stop_finish
stop_before_resume_panics {s} w o r found joined e returned =
    let c = Reach-Control r in
    let well = waiter_of_found w.ch w s c found in
    let ended = no_loop_of_return s o c e returned in
    let old : w.gen < s.loop_gen = ground (arith, well.gen, c.stopping) in
    let halted : s.stopped ≡ true = ground (arith, c.stopping) in
    (
      stop_finish s,
      after_wait w (record (stop_finish s) { waiting = drop_waiter w.ch s.waiting }),
      ground (arith, e, returned),
      ground (arith, found, ended),
      refl,
      ground (arith, old, halted, mem-append w.ch s.subscribers s.closed joined),
    )

-- Stop has returned, and nothing is left.
Gone : State → Type 0
Gone s = (s.phase ≡ finished) × (s.stopped ≡ true) × (s.loops ≡ []) × (s.subscribers ≡ [])

phase_cases : (p : StopPhase) → (p ≡ finished) ⊎ (p ≢ finished)
phase_cases not_called = inr (λ e. absurd (ground arith))
phase_cases (waits o) = inr (λ e. absurd (ground arith))
phase_cases finished = inl refl

step-Gone : (a : Action) (s t : State) → Control s → Gone s → step s a ≡ some t → Gone t
unfolding step Gone subscribe resume after_wait unsubscribe idle_callback
step-Gone (subscribes late) s t c g h = ground (arith, g)
step-Gone (resumes ch) s t c g h =
    let (w, found, returned, e) = resume_cases ch s t h in
    let well = waiter_of_found ch w s c found in
    let old : w.gen < s.loop_gen = ground (arith, well.gen, g) in subst Gone e (ground (arith, g))
step-Gone (unsubscribes ch) s t c g h = ground (arith, g)
step-Gone timer_runs s t c g h = ground (arith, g)
step-Gone (loop_returns x) s t c g h = ground (arith, g)
step-Gone (loop_panics x) s t c g h = ground (arith, g)
step-Gone (stop_begins late) s t c g h = ground (arith, g)
step-Gone stop_finishes s t c g h = ground (arith, g)

step_phase :
    (a : Action) (s t : State)
    → (s.phase ≢ finished)
    → step s a ≡ some t
    → t.phase ≡ finished
    → a ≡ stop_finishes
unfolding step subscribe resume after_wait unsubscribe idle_callback join stop_begin
step_phase (subscribes late) s t n h e = ground arith
step_phase (resumes ch) s t n h e = ground arith
step_phase (unsubscribes ch) s t n h e = ground arith
step_phase timer_runs s t n h e = ground arith
step_phase (loop_returns x) s t n h e = ground arith
step_phase (loop_panics x) s t n h e = ground arith
step_phase (stop_begins late) s t n h e = ground arith
step_phase stop_finishes s t n h e = refl

stop_finish-Gone : (s t : State) → Control s → step s stop_finishes ≡ some t → Gone t
unfolding step Gone stop_finish
stop_finish-Gone s t c h =
    let (o, e, returned, f) = finish_taken s.phase s.loops (stop_finish s) t h in
    let ended = no_loop_of_return s o c e returned in subst Gone f (ground (arith, c.stopping))

step-finished :
    (a : Action) (s t : State)
    → Control s
    → (s.phase ≡ finished → Gone s)
    → step s a ≡ some t
    → t.phase ≡ finished
    → Gone t
step-finished a s t c k h e = elim (phase_cases s.phase) [
  | inl f ↦ step-Gone a s t c (k f) h
  | inr n ↦ stop_finish-Gone s t c (ap (step s) (sym (step_phase a s t n h e)) ∙ h)
]

-- In every state that steps lead to after Stop has returned, the broadcaster is stopped, no polling
-- loop runs and no subscriber is registered, even when Subscribe is called again.
pub stop_ends_everything :
    {s : State}
    → Reach s
    → s.phase ≡ finished
    → (s.stopped ≡ true) × (s.loops ≡ []) × (s.subscribers ≡ [])
unfolding Gone new_broadcaster
stop_ends_everything r e = let (_, stopped, ended, left) = go r e in (stopped, ended, left)
  where
    go : {s : State} → Reach s → s.phase ≡ finished → Gone s
    go start e = absurd (ground arith)
    go (next_step {s} {t} a r h) e = step-finished a s t (Reach-Control r) (go r) h e
