-- ===== src/Server/Reconnect/Monitor.antt =====
-- The reconnect monitor: what it misses, and what it logs.
use xray_web_maneger.Common.{ℕ, ◌-◌, ◌≤◌, ◌<◌, ◌≡◌, Bool, true, false, suc, List, [], ◌∷◌, arith}
use xray_web_maneger.Server.Connectivity.{
  Connectivity, idle, connecting, ready, transient_failure, closed, is_ready, History, stays,
  changes, get_state,
}
use xray_web_maneger.Server.Connectivity.Time.{
  state_at, state_at_early, state_at_late, state_at_stays,
}
use xray_web_maneger.Server.Reconnect.{
  others, wait_for_reconnect, Tick, done, sees, Log, lost, restored, reconnected, timed_out,
  monitor,
}

-- waitForReconnect returns within its timeout.
pub wait_for_reconnect-le :
    (timeout : ℕ) (slips : List Bool) (h : History)
    → (wait_for_reconnect timeout slips h).elapsed ≤ timeout
unfolding wait_for_reconnect
wait_for_reconnect-le timeout slips (stays s) = ground arith
wait_for_reconnect-le timeout slips (changes s n (stays t)) = ground arith
wait_for_reconnect-le timeout slips (changes s n (changes t m h)) = ground (
  arith,
  wait_for_reconnect-le (timeout - suc n - suc m) (others slips) h,
  wait_for_reconnect-le (timeout - suc n) (others slips) (changes t m h),
)

-- The first state holds for longer than some nanoseconds.
abbrev pub Outlasts : ℕ → History → Type 0
Outlasts d (stays s) = Unit
Outlasts d (changes s n h) = d ≤ n

state_at-Outlasts : (d : ℕ) (h : History) → Outlasts d h → state_at h d ≡ get_state h
state_at-Outlasts d (stays s) o = state_at_stays s d
state_at-Outlasts d (changes s n h) o = state_at_early s n h d o

-- If a connection that is not ready gets ready between the two calls of GetState, before the
-- deadline, and is ready until after it, waitForReconnect returns false, at the deadline, though the
-- connection is ready then.
pub ready_missed :
    (timeout : ℕ) (slips : List Bool) (s : Connectivity) (n : ℕ) (h : History)
    → is_ready s ≡ false
    → n < timeout
    → get_state h ≡ ready
    → Outlasts (timeout - suc n) h
    → let w = wait_for_reconnect timeout (true ∷ slips) (changes s n h) in
      (w.result ≡ false) × (w.elapsed ≡ timeout) × (get_state w.left ≡ ready)
unfolding wait_for_reconnect
ready_missed timeout slips s n (stays t) other early at_ready lasts =
    ground
      (arith, other, state_at_late s n (stays t) timeout early, state_at_stays t (timeout - suc n))
ready_missed timeout slips s n (changes t m h) other early at_ready lasts = ground (
  arith,
  other,
  state_at_late s n (changes t m h) timeout early,
  state_at_early t m h (timeout - suc n) lasts,
)

-- The end and the beginning of an outage by turns; the test says whether the next one is a loss.
abbrev pub ByTurns : Bool → List Log → Type 0
ByTurns connected [] = Unit
ByTurns true (lost ∷ logs) = ByTurns false logs
ByTurns false (lost ∷ logs) = ⊥
ByTurns true (restored ∷ logs) = ⊥
ByTurns false (restored ∷ logs) = ByTurns true logs
ByTurns true (reconnected ∷ logs) = ⊥
ByTurns false (reconnected ∷ logs) = ByTurns true logs
ByTurns true (timed_out ∷ logs) = ⊥
ByTurns false (timed_out ∷ logs) = ByTurns false logs

-- The monitor logs each outage once at its beginning, an attempt that timed out only within an
-- outage, and each end of an outage once, as a reconnection or as a recovery.
pub monitor-ByTurns :
    (connected : Bool) (ticks : List Tick) → ByTurns connected (monitor connected ticks)
unfolding monitor
monitor-ByTurns connected [] = tt
monitor-ByTurns connected (done ∷ ticks) = tt
monitor-ByTurns true (sees ready b ∷ ticks) = monitor-ByTurns true ticks
monitor-ByTurns false (sees ready b ∷ ticks) = monitor-ByTurns true ticks
monitor-ByTurns true (sees transient_failure true ∷ ticks) = monitor-ByTurns true ticks
monitor-ByTurns false (sees transient_failure true ∷ ticks) = monitor-ByTurns true ticks
monitor-ByTurns true (sees transient_failure false ∷ ticks) = monitor-ByTurns false ticks
monitor-ByTurns false (sees transient_failure false ∷ ticks) = monitor-ByTurns false ticks
monitor-ByTurns connected (sees idle b ∷ ticks) = monitor-ByTurns connected ticks
monitor-ByTurns connected (sees connecting b ∷ ticks) = monitor-ByTurns connected ticks
monitor-ByTurns connected (sees closed b ∷ ticks) = tt
