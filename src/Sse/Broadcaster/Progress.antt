-- ===== src/Sse/Broadcaster/Progress.antt =====
-- sse/broadcaster.go: Stop and a Subscribe that waits for a loop can always go on, and when channels
-- are closed.
use xray_web_maneger.Common.{
  ℕ, ◌≡◌, ◌⊎◌, inl, inr, refl, ap, ◌∙◌, subst, true, Option, none, some, [], ◌∷◌, arith,
}
use xray_web_maneger.Sse.Broadcaster.{
  mem, without, Waiter, waits, finished, State, new_broadcaster, signal, join, subscribe,
  find_waiter, drop_waiter, after_wait, resume, unsubscribe, idle_callback, stop_begin, stop_finish,
  Action, subscribes, resumes, unsubscribes, timer_runs, loop_returns, loop_panics, stop_begins,
  stop_finishes, step, Reach, start, next_step,
}
use xray_web_maneger.Sse.Broadcaster.Control.{Control}
use xray_web_maneger.Sse.Broadcaster.Safety.{
  Reach-Control, resume_cases, finish_taken, no_loop_of_returned,
}
use xray_web_maneger.Sse.Broadcaster.Shutdown.{waiter_of_found, no_loop_of_return}

-- A loop that runs is the current one, or its stop channel is closed.
abbrev pub IsTold : State → ℕ → Type 0
IsTold s d = (s.stop_ch ≡ some d) ⊎ (mem d s.signalled ≡ true)

abbrev pub Told : State → Type 0
Told s = (s.loops ≡ []) ⊎ ((d : ℕ) × (s.loops ≡ d ∷ []) × IsTold s d)

signal-Told : (s : State) → Told s → Told (signal s)
signal-Told s h = ground arith

step-Told : (a : Action) (s t : State) → Control s → Told s → step s a ≡ some t → Told t
unfolding step subscribe join unsubscribe idle_callback stop_begin stop_finish resume after_wait
step-Told (subscribes late) s t c h e = ground (arith, h, c.one_loop)
step-Told (resumes ch) s t c h e =
    let (w, found, returned, f) = resume_cases ch s t e in
    let well = waiter_of_found ch w s c found in
    let ended = no_loop_of_returned w s c well returned in subst Told f (ground (arith, ended))
step-Told (unsubscribes ch) s t c h e = ground (arith, h)
step-Told timer_runs s t c h e = ground (arith, h)
step-Told (loop_returns d) s t c h e = ground (arith, h)
step-Told (loop_panics d) s t c h e = ground (arith, h)
step-Told (stop_begins late) s t c h e = ground (arith, h)
step-Told stop_finishes s t c h e = ground (arith, h)

pub Reach-Told : {s : State} → Reach s → Told s
unfolding new_broadcaster
Reach-Told start = inl refl
Reach-Told (next_step {s} {t} a r e) = step-Told a s t (Reach-Control r) (Reach-Told r) e

finish_enabled :
    (s : State) (o : Option ℕ)
    → s.phase ≡ waits o
    → s.loops ≡ []
    → step s stop_finishes ≡ some (stop_finish s)
unfolding step
finish_enabled s none e ended = ground arith
finish_enabled s (some d) e ended = ground arith

abbrev ended_loop : ℕ → State → State
ended_loop d s = record s { loops = without d s.loops }

return_enabled :
    (d : ℕ) (s : State)
    → s.loops ≡ d ∷ []
    → s.stop_ch ≡ none
    → IsTold s d
    → (step s (loop_returns d) ≡ some (ended_loop d s)) × ((ended_loop d s).loops ≡ [])
unfolding step
return_enabled d s running none_open told = ground arith

resume_enabled :
    (ch : ℕ) (w : Waiter) (s : State)
    → find_waiter ch s.waiting ≡ some w
    → s.loops ≡ []
    → step s (resumes ch) ≡ some (after_wait w (record s { waiting = drop_waiter ch s.waiting }))
unfolding step resume
resume_enabled ch w s found ended = ground arith

-- When Stop waits for a loop, it can take its last step, at once or after the loop has returned,
-- which the loop can do, for its stop channel is closed.
pub stop_never_hangs :
    {s : State} (o : Option ℕ)
    → Reach s
    → s.phase ≡ waits o
    → (t : State) × (t.phase ≡ finished)
      × ((step s stop_finishes ≡ some t)
          ⊎ ((d : ℕ) × (u : State) × (step s (loop_returns d) ≡ some u)
              × (step u stop_finishes ≡ some t)))
unfolding stop_finish
stop_never_hangs {s} o r e = elim (Reach-Told r) [
  | inl ended ↦ (stop_finish s, refl, inl (finish_enabled s o e ended))
  | inr (d, running, told) ↦
      let none_open : s.stop_ch ≡ none = ground (arith, (Reach-Control r).stopping) in
      let (returns, ended) = return_enabled d s running none_open told in
      let u = ended_loop d s in
      (stop_finish u, refl, inr (d, u, returns, finish_enabled u o e ended))
]

-- When a Subscribe waits for a loop, it can go on, at once or after the loop has returned, which the
-- loop can do.
pub subscribe_never_hangs :
    {s : State} (ch : ℕ) (w : Waiter)
    → Reach s
    → find_waiter ch s.waiting ≡ some w
    → (t : State) × ((step s (resumes ch) ≡ some t)
        ⊎ ((u : State) × (step s (loop_returns w.done) ≡ some u) × (step u (resumes ch) ≡ some t)))
subscribe_never_hangs {s} ch w r found =
    let c = Reach-Control r in
    let well = waiter_of_found ch w s c found in
    let after = λ (u : State). after_wait w (record u { waiting = drop_waiter ch u.waiting }) in
    elim (Reach-Told r) [
      | inl ended ↦ (after s, inl (resume_enabled ch w s found ended))
      | inr (d, running, told) ↦
          let same : d ≡ w.done = ground (arith, c.one_loop, well.latest) in
          let told' = subst (IsTold s) same told in
          let (returns, ended) =
            return_enabled w.done s (running ∙ ap (λ x. x ∷ []) same) well.no_loop told' in
          let u = ended_loop w.done s in
          (after u, inr (u, returns, resume_enabled ch w u found ended))
    ]

-- A step closes channels only while no loop runs that could send on them, or closes only the new
-- channel that a Subscribe after Stop returns.
pub closes_while_idle :
    {s : State} (a : Action) (t : State)
    → Reach s
    → step s a ≡ some t
    → (t.closed ≡ s.closed) ⊎ (s.loops ≡ []) ⊎ ((s.stopped ≡ true) × (t.closed ≡ s.next ∷ s.closed))
unfolding step subscribe join unsubscribe idle_callback stop_begin stop_finish after_wait
closes_while_idle (subscribes late) t r e = ground arith
closes_while_idle {s} (resumes ch) t r e =
    let (w, found, returned, f) = resume_cases ch s t e in
    let c = Reach-Control r in
    let well = waiter_of_found ch w s c found in inr (inl (no_loop_of_returned w s c well returned))
closes_while_idle (unsubscribes ch) t r e = ground arith
closes_while_idle timer_runs t r e = ground arith
closes_while_idle (loop_returns d) t r e = ground arith
closes_while_idle (loop_panics d) t r e = ground arith
closes_while_idle (stop_begins late) t r e = ground arith
closes_while_idle {s} stop_finishes t r e =
    let (o, waiting, returned, f) = finish_taken s.phase s.loops (stop_finish s) t e in
    inr (inl (no_loop_of_return s o (Reach-Control r) waiting returned))
