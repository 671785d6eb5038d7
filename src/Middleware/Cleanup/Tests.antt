-- ===== src/Middleware/Cleanup/Tests.antt =====
-- A run of both cleanup loops, and the theorems at its state.
use xray_web_maneger.Common.{◌≡◌, refl, codes, All, [], ◌∷◌, is_some, true}
use xray_web_maneger.Middleware.Cleanup.{
  Package, new_package, inits, stops_rate, stops_auth, protects, rate_returns, auth_returns, step,
  Reach, start, next_step, init_rate_limiter, stop_cleanup, protect, start_cleanup_loop,
  stop_cleanup_loop,
}
use xray_web_maneger.Middleware.Cleanup.Named.{all_named}
use xray_web_maneger.Middleware.Cleanup.Goroutines.{IsValid, reach-IsValid, stop_cleanup-ends}

-- Started, stopped and started again before the first goroutine has returned.
abbrev restarted : Package
restarted =
    init_rate_limiter
      (stop_cleanup (protect (codes "u") (codes "p") (init_rate_limiter new_package)))

restarted-Reach : Reach restarted
unfolding step stop_cleanup
restarted-Reach =
    next_step inits
      (next_step stops_auth
        (next_step stops_rate
          (next_step (protects (codes "u") (codes "p")) (next_step inits start refl) refl) refl)
        refl)
      refl

-- Two goroutines run, of which the first is told to stop.
restarted_lem : restarted.rate_loop.running ≡ 1 ∷ 0 ∷ []
unfolding new_package init_rate_limiter stop_cleanup protect start_cleanup_loop stop_cleanup_loop
restarted_lem = refl

reach_example : IsValid (all_named restarted-Reach) restarted
reach_example = reach-IsValid restarted restarted-Reach

stop_cleanup_example :
    All
      (λ d. is_some (step (stop_cleanup restarted) (rate_returns d)) ≡ true)
      (stop_cleanup restarted).rate_loop.running
    × All
        (λ d. is_some (step (stop_cleanup restarted) (auth_returns d)) ≡ true)
        (stop_cleanup restarted).auth_loop.running
stop_cleanup_example = stop_cleanup-ends restarted restarted-Reach
