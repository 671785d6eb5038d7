-- ===== src/Middleware/RateLimit/Tests.antt =====
-- Runs of the limiter at fixed times.
use xray_web_maneger.Common.{◌≡◌, arith, refl, Text-discrete, codes, [], ◌∷◌, true, false}
use xray_web_maneger.Middleware.RateLimit.Invariant.{IsValid}
use xray_web_maneger.Middleware.RateLimit.{
  RateLimiter, check_and_record, evict_oldest, scan_oldest, slide, current, rotate, check_limit,
  effective, record_request,
}

abbrev small : RateLimiter
small = record {
  requests =
      (codes "a", record { prev_count = 2; curr_count = 1; window_start = 100 })
      ∷ (codes "b", record { prev_count = 0; curr_count = 0; window_start = 50 })
      ∷ [];
  limit = 2;
  window = 10;
}

slide_tests :
    (slide 2 10 105 (record { prev_count = 2; curr_count = 1; window_start = 100 })
      ≡ (record { prev_count = 2; curr_count = 1; window_start = 100 }, false))
    × (slide 2 10 112 (record { prev_count = 2; curr_count = 2; window_start = 100 })
        ≡ (record { prev_count = 2; curr_count = 1; window_start = 110 }, true))
    × (slide 2 10 121 (record { prev_count = 2; curr_count = 2; window_start = 100 })
        ≡ (record { prev_count = 0; curr_count = 1; window_start = 121 }, true))
unfolding slide current rotate check_limit effective record_request
slide_tests = (refl, refl, refl)

evict_test :
    (evict_oldest small).requests
    ≡ (codes "a", record { prev_count = 2; curr_count = 1; window_start = 100 }) ∷ []
unfolding evict_oldest scan_oldest Text-discrete
evict_test = refl

check_tests :
    ((check_and_record small (codes "b") 60).1 ≡ true)
    × ((check_and_record small (codes "b") 60).0.requests
        ≡ (codes "a", record { prev_count = 2; curr_count = 1; window_start = 100 })
          ∷ (codes "b", record { prev_count = 0; curr_count = 1; window_start = 50 })
          ∷ [])
unfolding check_and_record slide current check_limit effective record_request Text-discrete
check_tests = (refl, refl)

small-IsValid : IsValid small
small-IsValid = record {
  positive = omega arith;
  counts = ground arith;
  size = omega arith;
  addresses = (refl, (refl, tt));
}
