-- ===== src/Main/Connection.antt =====
-- main.go: waitForReady and the attempts to connect.
pub mod Waiting
pub mod Startup
mod Tests
use xray_web_maneger.Common.{
  ℕ, ◌+◌, ◌-◌, ◌*◌, ◌^◌, Bool, true, false, Option, none, some, ltb, if◌then◌else◌, suc, zero,
}
use xray_web_maneger.Server.Connectivity.{
  is_ready, is_transient_failure, History, stays, changes, get_state, advance, Waited,
}

-- waitForReady with the time until its deadline.
unfoldable pub wait_for_ready : ℕ → History → Waited
wait_for_ready timeout (stays s) =
    if is_ready s
    then record { result = true; elapsed = 0; left = stays s }
    else if is_transient_failure s
    then record { result = false; elapsed = 0; left = stays s }
    else record { result = false; elapsed = timeout; left = stays s }
wait_for_ready timeout (changes s n h) =
    let w = wait_for_ready (timeout - suc n) h in
    if is_ready s
    then record { result = true; elapsed = 0; left = changes s n h }
    else if is_transient_failure s
    then record { result = false; elapsed = 0; left = changes s n h }
    else if ltb (suc n) timeout
    then record w { elapsed = suc n + w.elapsed }
    else record { result = false; elapsed = timeout; left = advance timeout (changes s n h) }

abbrev pub second : ℕ
second = 1_000_000_000

abbrev pub max_retries : ℕ
max_retries = 3

abbrev pub connect_timeout : ℕ
connect_timeout = 5 * second

-- The attempts from number i on, of which `attempts` are left: how long they take, and the history
-- after them.
unfoldable pub connect : ℕ → ℕ → History → ℕ × History
connect zero i h = (0, h)
connect (suc attempts) i h =
    let w = wait_for_ready connect_timeout h in
    let backoff = if ltb i (max_retries - 1) then 2 ^ i * second else 0 in
    let later = connect attempts (i + 1) (advance backoff w.left) in
    if w.result then (w.elapsed, w.left) else (w.elapsed + backoff + later.0, later.1)

-- The start of the program: the connection with which it goes on, if it does, and after how long.
unfoldable pub start_up : History → ℕ × Option History
start_up h =
    let (elapsed, left) = connect max_retries 0 h in
    (elapsed, if is_ready (get_state left) then some left else none)
