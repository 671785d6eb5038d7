-- ===== src/Sse/Broadcaster/Idle.antt =====
-- sse/broadcaster.go: a polling loop without subscribers is on its way to its end.
use xray_web_maneger.Common.{
  ℕ, ◌<◌, ◌≡◌, ◌⊎◌, inl, inr, refl, subst, true, false, none, some, List, [], ◌∷◌, arith, mem,
  without,
}
use xray_web_maneger.Sse.Broadcaster.{
  is_nil, State, new_broadcaster, join, subscribe, after_wait, resume, unsubscribe, idle_callback,
  stop_begin, stop_finish, Action, subscribes, resumes, unsubscribes, timer_runs, loop_returns,
  loop_panics, stop_begins, stop_finishes, step, Reach, start, next_step,
}
use xray_web_maneger.Sse.Broadcaster.Control.{Control}
use xray_web_maneger.Sse.Broadcaster.Safety.{Reach-Control, resume_cases}
use xray_web_maneger.Sse.Broadcaster.Shutdown.{waiter_of_found}
use xray_web_maneger.Sse.Broadcaster.Progress.{Reach-Told}

-- Someone listens, or no loop is wanted, or the idle timer is set; and a timer that is set will run.
pub record IsWatched (s : State) : Type 0 where
  pub listened : (is_nil s.subscribers ≡ false) ⊎ (s.stop_ch ≡ none) ⊎ (s.idle_timer ≡ true)
  pub timer : s.idle_timer ≡ true → 0 < s.callbacks

is_nil_of_mem : (a : ℕ) (xs : List ℕ) → mem a xs ≡ true → is_nil xs ≡ false
is_nil_of_mem a [] h = cc
is_nil_of_mem a (x ∷ xs) h = refl

step-IsWatched :
    (a : Action) (s t : State) → Control s → IsWatched s → step s a ≡ some t → IsWatched t
unfolding step subscribe join unsubscribe idle_callback stop_begin stop_finish resume after_wait
step-IsWatched (subscribes late) s t c v e = record {
  listened = ground (arith, v.listened);
  timer = λ h. ground (arith, v.timer);
}
step-IsWatched (resumes ch) s t c v e =
    let (w, found, returned, f) = resume_cases ch s t e in
    let well = waiter_of_found ch w s c found in
    subst IsWatched f (record {
      listened = ground (arith, v.listened, well.gen, is_nil_of_mem w.ch s.subscribers);
      timer = λ h. ground (arith, v.timer);
    })
step-IsWatched (unsubscribes ch) s t c v e = record {
  listened = ground (arith, v.listened);
  timer = λ h. ground (arith, v.timer);
}
step-IsWatched timer_runs s t c v e = record {
  listened = ground (arith, v.listened);
  timer = λ h. ground (arith, v.timer);
}
step-IsWatched (loop_returns d) s t c v e = record {
  listened = ground (arith, v.listened);
  timer = λ h. ground (arith, v.timer);
}
step-IsWatched (loop_panics d) s t c v e = record {
  listened = ground (arith, v.listened);
  timer = λ h. ground (arith, v.timer);
}
step-IsWatched (stop_begins late) s t c v e = record {
  listened = ground (arith, v.listened);
  timer = λ h. ground (arith, v.timer);
}
step-IsWatched stop_finishes s t c v e = record {
  listened = ground (arith, v.listened, c.stopping);
  timer = λ h. ground (arith, v.timer);
}

pub Reach-IsWatched : {s : State} → Reach s → IsWatched s
unfolding new_broadcaster
Reach-IsWatched start = record { listened = inr (inl refl); timer = λ h. cc }
Reach-IsWatched (next_step {s} {t} a r e) =
    step-IsWatched a s t (Reach-Control r) (Reach-IsWatched r) e

abbrev ended_loop : ℕ → State → State
ended_loop d s = record s { loops = without d s.loops }

return_enabled :
    (d : ℕ) (s : State)
    → s.loops ≡ d ∷ []
    → mem d s.signalled ≡ true
    → (step s (loop_returns d) ≡ some (ended_loop d s)) × ((ended_loop d s).loops ≡ [])
unfolding step
return_enabled d s running told = ground arith

-- The callback of the timer tells the loop to stop.
callback_tells :
    (d : ℕ) (s : State)
    → s.subscribers ≡ []
    → s.stopped ≡ false
    → s.stop_ch ≡ some d
    → s.loops ≡ d ∷ []
    → 0 < s.callbacks
    → (step s timer_runs ≡ some (idle_callback s))
      × ((idle_callback s).loops ≡ d ∷ [])
      × (mem d (idle_callback s).signalled ≡ true)
unfolding step idle_callback
callback_tells d s nobody running open_ loop timer = (ground arith, ground arith, ground arith)

-- How a polling loop that nobody listens to may end: it has, or it returns, or the function of the
-- idle timer runs and then it returns.
abbrev pub EndsIdly : State → State → Type 0
EndsIdly s t =
    (t ≡ s)
    ⊎ ((d : ℕ) × (step s (loop_returns d) ≡ some t))
    ⊎ ((d : ℕ) × (u : State) × (step s timer_runs ≡ some u) × (step u (loop_returns d) ≡ some t))

-- From a state without subscribers, the idle timer and the loop's return lead to a state without a
-- polling loop.
pub loop-EndsIdly :
    {s : State} → Reach s → s.subscribers ≡ [] → (t : State) × (t.loops ≡ []) × EndsIdly s t
loop-EndsIdly {s} r nobody = elim (Reach-Told r) [
  | inl ended ↦ (s, ended, inl refl)
  | inr (d, running, inr told) ↦
      let (returns, ended) = return_enabled d s running told in
      (ended_loop d s, ended, inr (inl (d, returns)))
  | inr (d, running, inl current) ↦
      let v = Reach-IsWatched r in
      let timer : s.idle_timer ≡ true = ground (arith, v.listened) in
      let going : s.stopped ≡ false = ground (arith, (Reach-Control r).stopping) in
      let (runs, same, told) = callback_tells d s nobody going current running (v.timer timer) in
      let (returns, ended) = return_enabled d (idle_callback s) same told in
      (ended_loop d (idle_callback s), ended, inr (inr (d, idle_callback s, runs, returns)))
]
