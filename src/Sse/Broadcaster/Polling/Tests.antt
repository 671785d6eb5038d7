-- ===== src/Sse/Broadcaster/Polling/Tests.antt =====
-- Runs of the polling loop, with numbers as payloads.
use xray_web_maneger.Common.{
  ℕ, ◌-◌, ◌≡◌, refl, Text, Option, none, some, true, [], ◌∷◌, ◌++◌, take, replicate,
}
use xray_web_maneger.Sse.Broadcaster.Polling.{LoopState, Shared, sends}
use xray_web_maneger.Sse.Broadcaster.Polling.Sends.{
  failures, failures_send_once, recovery_suppressed,
}

abbrev digits : ℕ → Option Text
digits n = some (n ∷ [])

abbrev begun : LoopState ℕ
begun = record {
  last_snapshot = 7;
  last_at = some 1;
  prev_json = some (7 ∷ []);
  consecutive_errors = 0;
}

abbrev shared : Shared ℕ
shared = record {
  last_broadcast = 7;
  has_last = true;
  channels = (1 ∷ 2 ∷ 3 ∷ 4 ∷ 5 ∷ []) ∷ [] ∷ [];
}

failures_send_once_example :
    sends digits none (some 0) begun (failures 5)
    ≡ take 5 (none ∷ none ∷ some 0 ∷ []) ++ replicate (5 - 3) none
failures_send_once_example = failures_send_once digits none (some 0) 5 begun refl

recovery_suppressed_example :
    sends digits none (some 0) begun (failures 3 ++ (some 7, 9) ∷ [])
    ≡ none ∷ none ∷ some 0 ∷ none ∷ []
recovery_suppressed_example =
    recovery_suppressed digits none (some 0) begun 7 (7 ∷ []) 9 refl refl refl
