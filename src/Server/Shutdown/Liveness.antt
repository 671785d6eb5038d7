-- ===== src/Server/Shutdown/Liveness.antt =====
-- Server.Shutdown can always return.
use xray_web_maneger.Common.{
  ℕ, ◌≡◌, ◌≢◌, inl, inr, refl, subst, Bool, true, false, some, arith, Bool-cases,
}
use xray_web_maneger.Sse.Manager.{close_all}
use xray_web_maneger.Sse.Broadcaster
use xray_web_maneger.Sse.Broadcaster.{waits, loop_returns, stop_begins, stop_finishes}
use xray_web_maneger.Sse.Broadcaster.Progress.{stop_never_hangs}
use xray_web_maneger.Sse.Broadcaster.Phases.{stop_begins_step}
use xray_web_maneger.Server.Shutdown.{
  Stage, serving, cancelled, stopping, stopped, closed, returned, Running, Action, finishes_stop,
  shuts_streams, returns, begins_stop, monitor_ends, broadcasts, streams, step, Reach,
}
use xray_web_maneger.Server.Shutdown.Order.{Matches, IsOrdered, step-IsOrdered, Reach-IsOrdered}

-- A statement of Shutdown, the return of a polling loop that sees its stop channel closed, or that
-- of the reconnect monitor that sees the context cancelled.
abbrev pub is_ours : Action → Bool
is_ours (broadcasts (loop_returns d)) = true
is_ours (broadcasts _) = false
is_ours (streams _) = false
is_ours _ = true

-- Such steps lead from one state to another.
pub data Leads (u : Running) : Running → Type 0 where
  arrived : Leads u u
  then : {r t : Running} (a : Action) → is_ours a ≡ true → step r a ≡ some t → Leads u t → Leads u r

abbrev pub CanReturn : Running → Type 0
CanReturn r = (u : Running) × Leads u r × (u.stage ≡ returned)

-- A step is taken first.
onward :
    {r t : Running} (a : Action) → is_ours a ≡ true → step r a ≡ some t → CanReturn t → CanReturn r
onward a ours e (u, path, end) = (u, then a ours e path, end)

returns_step :
    (r : Running)
    → r.stage ≡ closed
    → r.monitor ≡ false
    → step r returns ≡ some (record r { stage = returned })
unfolding step
returns_step r e m = ground arith

monitor_ends_step :
    (r : Running)
    → r.stage ≡ closed
    → r.monitor ≡ true
    → step r monitor_ends ≡ some (record r { monitor = false })
unfolding step
monitor_ends_step r e m = ground arith

from_closed : (r : Running) → r.stage ≡ closed → CanReturn r
from_closed r e = elim (Bool-cases r.monitor) [
  | inl m ↦
      onward monitor_ends refl (monitor_ends_step r e m) (
        onward returns refl (returns_step (record r { monitor = false }) e refl) (_, arrived, refl))
  | inr m ↦ onward returns refl (returns_step r e m) (_, arrived, refl)
]

shuts_streams_step :
    (r : Running)
    → r.stage ≡ stopped
    → step r shuts_streams ≡ some (record r { stage = closed; manager = close_all r.manager })
unfolding step
shuts_streams_step r e = ground arith

from_stopped : (r : Running) → r.stage ≡ stopped → CanReturn r
from_stopped r e = onward shuts_streams refl (shuts_streams_step r e) (from_closed _ refl)

finishes_stop_step :
    (r : Running) (b : Broadcaster.State)
    → r.stage ≡ stopping
    → Broadcaster.step r.broadcaster stop_finishes ≡ some b
    → step r finishes_stop ≡ some (record r { stage = stopped; broadcaster = b })
unfolding step
finishes_stop_step r b e f = ground arith

loop_returns_step :
    (r : Running) (b : Broadcaster.State) (d : ℕ)
    → Broadcaster.step r.broadcaster (loop_returns d) ≡ some b
    → step r (broadcasts (loop_returns d)) ≡ some (record r { broadcaster = b })
unfolding step
loop_returns_step r b d f = ground arith

from_stopping : (r : Running) → IsOrdered r → r.stage ≡ stopping → CanReturn r
from_stopping r v e =
    let (o, waiting) = subst (λ s. Matches s r.broadcaster.phase) e v.phase in
    let (b, _, way) = stop_never_hangs o v.reach waiting in
    elim way [
      | inl f ↦ onward finishes_stop refl (finishes_stop_step r b e f) (from_stopped _ refl)
      | inr (d, c, f, g) ↦ onward (broadcasts (loop_returns d)) refl (loop_returns_step r c d f) (
          onward finishes_stop refl (finishes_stop_step (record r { broadcaster = c }) b e g)
            (from_stopped _ refl))
    ]

begins_stop_step :
    (r : Running) (b : Broadcaster.State)
    → r.stage ≡ cancelled
    → Broadcaster.step r.broadcaster (stop_begins false) ≡ some b
    → step r (begins_stop false) ≡ some (record r { stage = stopping; broadcaster = b })
unfolding step
begins_stop_step r b e f = ground arith

from_cancelled : (r : Running) → IsOrdered r → r.stage ≡ cancelled → CanReturn r
from_cancelled r v e =
    let (b, f) =
      stop_begins_step r.broadcaster (subst (λ s. Matches s r.broadcaster.phase) e v.phase) in
    let g = begins_stop_step r b e f in
    onward (begins_stop false) refl g
      (from_stopping _ (step-IsOrdered r _ (begins_stop false) v g) refl)

-- From every state that is reached after Shutdown has been called, whatever the other goroutines
-- have done, Shutdown can come to its return by its own statements, the return of a
-- polling loop whose stop channel is closed, and that of the reconnect monitor after the context is
-- cancelled.
pub can_return : {r : Running} → Reach r → r.stage ≢ serving → CanReturn r
can_return {r} h called = by_stage r.stage refl
  where
    by_stage : (s : Stage) → r.stage ≡ s → CanReturn r
    by_stage serving e = absurd (called e)
    by_stage cancelled e = from_cancelled r (Reach-IsOrdered h) e
    by_stage stopping e = from_stopping r (Reach-IsOrdered h) e
    by_stage stopped e = from_stopped r e
    by_stage closed e = from_closed r e
    by_stage returned e = (r, arrived, e)
