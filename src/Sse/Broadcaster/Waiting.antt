-- ===== src/Sse/Broadcaster/Waiting.antt =====
-- sse/broadcaster.go: which steps change who waits in Subscribe.
use xray_web_maneger.Common.{
  ℕ, ◌<◌, ◌≡◌, ◌⊎◌, inl, inr, refl, subst, Bool, true, false, some, [], ◌∷◌, arith, guard_lem,
}
use xray_web_maneger.Sse.Broadcaster.{
  Waiter, State, cancel_timer, join, subscribe, after_wait, unsubscribe, idle_callback, stop_begin,
  stop_finish, Action, subscribes, resumes, unsubscribes, timer_runs, loop_returns, loop_panics,
  stop_begins, stop_finishes, step, Reach,
}
use xray_web_maneger.Sse.Broadcaster.Control.{join_cases, subscribe_cases}
use xray_web_maneger.Sse.Broadcaster.Safety.{Reach-Control, resume_cases}
use xray_web_maneger.Sse.Broadcaster.Shutdown.{waiter_of_found}
use xray_web_maneger.Sse.Broadcaster.Channels.{find_waiter-ch}

-- Subscribe, before and after its wait.
abbrev pub is_entry : Action → Bool
is_entry (subscribes late) = true
is_entry (resumes ch) = true
is_entry _ = false

pub waiting_kept :
    (a : Action) (s t : State) → is_entry a ≡ false → step s a ≡ some t → t.waiting ≡ s.waiting
unfolding step unsubscribe idle_callback stop_begin stop_finish
waiting_kept (subscribes late) s t k e = cc
waiting_kept (resumes ch) s t k e = cc
waiting_kept (unsubscribes ch) s t k e = ground arith
waiting_kept timer_runs s t k e = ground arith
waiting_kept (loop_returns d) s t k e = ground arith
waiting_kept (loop_panics d) s t k e = ground arith
waiting_kept (stop_begins late) s t k e = ground arith
waiting_kept stop_finishes s t k e = ground arith

-- What Subscribe adds to those that wait.
abbrev pub WaitsAlso : State → State → Type 0
WaitsAlso s t =
    (s.next < t.next)
    × ((t.waiting ≡ s.waiting) ⊎ ((w : Waiter) × (t.waiting ≡ w ∷ s.waiting) × (w.ch ≡ s.next)))

join-WaitsAlso : (s : State) → WaitsAlso s (join s)
join-WaitsAlso s = elim (join_cases s) [
  | inl e ↦ rw e (omega arith, inl refl)
  | inr (inl (_, _, _, e)) ↦ rw e (omega arith, inl refl)
  | inr (inr (d, _, _, _, e)) ↦ rw e (omega arith, inr (_, refl, refl))
]

subscribe-WaitsAlso : (late : Bool) (s : State) → WaitsAlso s (subscribe late s)
subscribe-WaitsAlso late s = elim (subscribe_cases late s) [
  | inl (_, e) ↦ subst (WaitsAlso s) e (omega arith, inl refl)
  | inr (_, e) ↦ subst (WaitsAlso s) e (join-WaitsAlso (cancel_timer late s))
]

-- Subscribe gives out its channel's number, and waits with that channel at most.
pub subscribed_waiting :
    (late : Bool) (s t : State)
    → step s (subscribes late) ≡ some t
    → (subscribe late s ≡ t) × WaitsAlso s t
unfolding step
subscribed_waiting late s t e =
    let same = (guard_lem true e).1 in (same, subst (WaitsAlso s) same (subscribe-WaitsAlso late s))

-- Nobody waits after a Subscribe has gone on.
pub resumed_waiting :
    {s : State} (ch : ℕ) (t : State)
    → Reach s
    → step s (resumes ch) ≡ some t
    → (w : Waiter) × (s.waiting ≡ w ∷ []) × (w.ch ≡ ch) × (t.waiting ≡ [])
unfolding step after_wait
resumed_waiting {s} ch t r e =
    let (w, found, _, f) = resume_cases ch s t e in
    let well = waiter_of_found ch w s (Reach-Control r) found in
    (w, well.alone, find_waiter-ch ch s.waiting w found, ground (arith, f, well.alone, found))
