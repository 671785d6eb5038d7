-- ===== src/Server/Reconnect/Tests.antt =====
-- A connection that gets ready between the two calls, and a run of the monitor.
use xray_web_maneger.Common.{◌≡◌, refl, true, false, List, [], ◌∷◌, arith}
use xray_web_maneger.Server.Connectivity.{
  connecting, ready, transient_failure, stays, changes, get_state,
}
use xray_web_maneger.Server.Reconnect.{
  wait_for_reconnect, Tick, done, sees, lost, timed_out, restored, monitor,
  reconnect_recovery_timeout,
}
use xray_web_maneger.Server.Reconnect.Monitor.{ready_missed}

ready_missed_example :
    let w =
      wait_for_reconnect reconnect_recovery_timeout
        (true ∷ [])
        (changes connecting 7 (stays ready)) in
    (w.result ≡ false) × (w.elapsed ≡ reconnect_recovery_timeout) × (get_state w.left ≡ ready)
ready_missed_example =
    ready_missed reconnect_recovery_timeout [] connecting 7 (stays ready) refl (omega arith) refl tt

abbrev outage : List Tick
outage =
    sees transient_failure false
    ∷ sees connecting false
    ∷ sees transient_failure false
    ∷ sees ready false
    ∷ done
    ∷ []

outage_test : monitor true outage ≡ lost ∷ timed_out ∷ timed_out ∷ restored ∷ []
unfolding monitor
outage_test = refl
