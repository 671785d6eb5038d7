-- ===== src/Sse/Manager/Tests.antt =====
-- Runs of the connection manager.
use xray_web_maneger.Common.{some, [], ◌∷◌}
use xray_web_maneger.Sse.Manager.{new_manager, run, adds, removes, closes}
use xray_web_maneger.Sse.Manager.Invariant.{IsValid, run-new_manager-IsValid}

run_example : IsValid (run new_manager (adds ∷ adds ∷ removes (some 0) ∷ closes 0 ∷ []))
run_example = run-new_manager-IsValid (adds ∷ adds ∷ removes (some 0) ∷ closes 0 ∷ [])
