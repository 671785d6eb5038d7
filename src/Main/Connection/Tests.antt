-- ===== src/Main/Connection/Tests.antt =====
-- A connection that fails once and is ready after a second.
use xray_web_maneger.Common.{◌≤◌, ◌*◌, ℕ, ◌≡◌, ◌↔◌, ◌∙◌, true, is_some, arith}
use xray_web_maneger.Server.Connectivity.{
  connecting, ready, transient_failure, History, stays, changes,
}
use xray_web_maneger.Server.Connectivity.Time.{state_at_late, state_at_stays}
use xray_web_maneger.Main.Connection.{second, wait_for_ready, start_up}
use xray_web_maneger.Main.Connection.Waiting.{GetsReady, wait_for_ready_iff}
use xray_web_maneger.Main.Connection.Startup.{start_up-le, start_up_of_settled}

abbrev late : History
late = changes connecting 10 (changes transient_failure 999_999_999 (stays ready))

wait_for_ready_example : ((wait_for_ready 40 late).result ≡ true) ↔ ((k : ℕ) × GetsReady 40 late k)
wait_for_ready_example = wait_for_ready_iff 40 late (omega arith)

settled_example : is_some (start_up late).1 ≡ true
settled_example = start_up_of_settled late (λ t e.
    state_at_late connecting 10 _ t (omega (arith, e))
    ∙ state_at_late transient_failure 999_999_999 (stays ready) _ (omega (arith, e))
    ∙ state_at_stays ready _)

start_up-le_example : (start_up late).0 ≤ 18 * second
start_up-le_example = start_up-le late
