-- ===== src/Server/Reconnect.antt =====
-- server/server.go: waitForReconnect and the goroutine of StartReconnectMonitor.
pub mod Monitor
mod Tests
use xray_web_maneger.Common.{
  ℕ, ◌+◌, ◌-◌, ◌*◌, suc, Bool, true, false, not, List, [], ◌∷◌, ltb, if◌then◌else◌, ◌&&◌, ◌++◌,
}
use xray_web_maneger.Server.Connectivity.{
  Connectivity, idle, connecting, ready, transient_failure, closed, is_ready, History, stays,
  changes, advance, Waited,
}

abbrev pub reconnect_recovery_timeout : ℕ
reconnect_recovery_timeout = 10 * 1_000_000_000

abbrev at_deadline : ℕ → History → Waited
at_deadline timeout h = record { result = false; elapsed = timeout; left = advance timeout h }

abbrev next : List Bool → Bool
next [] = false
next (slips ∷ _) = slips

abbrev others : List Bool → List Bool
others [] = []
others (_ ∷ slips) = slips

-- waitForReconnect with the time until its deadline. It calls GetState twice in a round; where
-- `slips` says so, the state changes between the two calls, so that WaitForStateChange waits for the
-- end of the second state.
pub wait_for_reconnect : ℕ → List Bool → History → Waited
wait_for_reconnect timeout slips (stays s) =
    if is_ready s
    then record { result = true; elapsed = 0; left = stays s }
    else at_deadline timeout (stays s)
wait_for_reconnect timeout slips (changes s n (stays t)) =
    let w = wait_for_reconnect (timeout - suc n) (others slips) (stays t) in
    if is_ready s
    then record { result = true; elapsed = 0; left = changes s n (stays t) }
    else if not (next slips) && ltb (suc n) timeout
    then record w { elapsed = suc n + w.elapsed }
    else at_deadline timeout (changes s n (stays t))
wait_for_reconnect timeout slips (changes s n (changes t m h)) =
    let w = wait_for_reconnect (timeout - suc n) (others slips) (changes t m h) in
    let v = wait_for_reconnect (timeout - suc n - suc m) (others slips) h in
    if is_ready s
    then record { result = true; elapsed = 0; left = changes s n (changes t m h) }
    else if next slips
    then if ltb (suc n + suc m) timeout
      then record v { elapsed = suc n + suc m + v.elapsed }
      else at_deadline timeout (changes s n (changes t m h))
    else if ltb (suc n) timeout
    then record w { elapsed = suc n + w.elapsed }
    else at_deadline timeout (changes s n (changes t m h))

-- One round of the goroutine: the context is done, or the ticker fires and GetState gives a state;
-- in failure, what waitForReconnect returns.
pub data Tick : Type 0 where
  done : Tick
  sees : Connectivity → Bool → Tick

pub data Log : Type 0 where
  lost restored reconnected timed_out : Log

-- The branch for a connection in failure, from its second statement on.
abbrev after_connect : Bool → List Log
after_connect true = reconnected ∷ []
after_connect false = timed_out ∷ []

-- What the goroutine logs before it returns, from a value of wasConnected on.
pub monitor : Bool → List Tick → List Log
monitor was_connected [] = []
monitor was_connected (done ∷ ticks) = []
monitor was_connected (sees ready _ ∷ ticks) =
    if was_connected then monitor true ticks else restored ∷ monitor true ticks
monitor was_connected (sees transient_failure reconnects ∷ ticks) =
    let rest = monitor reconnects ticks in
    (if was_connected then lost ∷ [] else []) ++ (after_connect reconnects ++ rest)
monitor was_connected (sees idle _ ∷ ticks) = monitor was_connected ticks
monitor was_connected (sees connecting _ ∷ ticks) = monitor was_connected ticks
monitor was_connected (sees closed _ ∷ ticks) = []
