-- ===== src/Middleware/Wrappers/Tests.antt =====
-- A panic, and a handler that asks for two statuses, under Recovery and Logger.
use xray_web_maneger.Common.{true, ◌≡◌, refl, some, [], ◌∷◌}
use xray_web_maneger.Middleware.Wrappers.{
  writes_header, writes_body, flushes, panics, final_status, call_all, logger, recovery,
}
use xray_web_maneger.Middleware.Wrappers.Logged.{recovery_lem}

panic_test : recovery true (panics ∷ []) ≡ (200, some 500)
unfolding recovery logger call_all
panic_test = refl

recovery_example :
    ((recovery true (writes_header 404 ∷ flushes ∷ writes_body ∷ writes_header 500 ∷ [])).0 ≡ 500)
    × (final_status
          (recovery true (writes_header 404 ∷ flushes ∷ writes_body ∷ writes_header 500 ∷ [])).1
        ≡ 404)
recovery_example =
    recovery_lem true (writes_header 404 ∷ flushes ∷ writes_body ∷ writes_header 500 ∷ [])
