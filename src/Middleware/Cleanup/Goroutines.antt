-- ===== src/Middleware/Cleanup/Goroutines.antt =====
-- The goroutines of the two cleanup loops, and the limiters that they share with the requests.
use xray_web_maneger.Common.{
  ℕ, ◌≡◌, subst, Bool, true, not, ◌&&◌, some, List, [], ◌∷◌, is_some, arith, All, if_keeps,
  guard_lem, map_some_lem, is_empty, is_some,
}
use xray_web_maneger.Middleware.Auth.{Limiters}
use xray_web_maneger.Middleware.Auth.Invariant.{
  is_auth_blocked-IsValid, record_auth_failure-IsValid,
}
use xray_web_maneger.Middleware.Auth.Access.{AreValid, cleanup-AreValid}
use xray_web_maneger.Middleware.Cleanup.Loop.{
  IsTold, IsSingle, never_started-IsSingle, start_cleanup_loop-IsSingle, stop_cleanup_loop-IsSingle,
  stop_cleanup_loop-IsTold, end_loop-IsSingle,
}
use xray_web_maneger.Middleware.Cleanup.Named.{
  is_named, all_named, RateIsValid, may_evict-IsVictim, limits-RateIsValid, cleanup-RateIsValid,
}
use xray_web_maneger.Middleware.Cleanup.{
  mem, CleanupLoop, stop_cleanup_loop, end_loop, Package, new_package, init_rate_limiter, protect,
  stop_cleanup, may_evict, Action, inits, stops_rate, stops_auth, protects, rate_ticks, auth_ticks,
  rate_returns, auth_returns, limits, checks_auth, checks_no_cred, fails_auth, fails_no_cred, step,
  Reach, start, next_step,
}

-- Both limiters and both loops.
pub record IsValid (named : Bool) (p : Package) : Type 0 where
  pub rate_loop : IsSingle p.rate_loop
  pub auth_loop : IsSingle p.auth_loop
  pub rate : RateIsValid named p.rate
  pub auth : AreValid p.auth

new_package-IsValid : IsValid true new_package
unfolding new_package
new_package-IsValid = record {
  rate_loop = never_started-IsSingle;
  auth_loop = never_started-IsSingle;
  rate = record { positive = omega arith; counts = tt; size = omega arith; addresses = tt };
  auth = record {
    auth = record { positive = omega arith; size = omega arith; unique = tt; sound = tt };
    no_cred = record { positive = omega arith; size = omega arith; unique = tt; sound = tt };
  };
}

with_auth :
    (named : Bool) (p : Package)
    → IsValid named p
    → (l : Limiters) → AreValid l
    → IsValid named (record p { auth = l })
with_auth named p v l w = record {
  rate_loop = v.rate_loop;
  auth_loop = v.auth_loop;
  rate = v.rate;
  auth = w;
}

step-IsValid :
    (named : Bool) (p q : Package) (a : Action)
    → IsValid named p
    → step p a ≡ some q
    → IsValid (is_named a && named) q
unfolding step init_rate_limiter protect
step-IsValid named p q inits v e = subst (IsValid named) (guard_lem true e).1 (record {
  rate_loop = start_cleanup_loop-IsSingle p.rate_loop v.rate_loop;
  auth_loop = v.auth_loop;
  rate = v.rate;
  auth = v.auth;
})
step-IsValid named p q stops_rate v e = subst (IsValid named) (guard_lem true e).1 (record {
  rate_loop = stop_cleanup_loop-IsSingle p.rate_loop v.rate_loop;
  auth_loop = v.auth_loop;
  rate = v.rate;
  auth = v.auth;
})
step-IsValid named p q stops_auth v e = subst (IsValid named) (guard_lem true e).1 (record {
  rate_loop = v.rate_loop;
  auth_loop = stop_cleanup_loop-IsSingle p.auth_loop v.auth_loop;
  rate = v.rate;
  auth = v.auth;
})
step-IsValid named p q (protects username password) v e =
    subst (IsValid named) (guard_lem true e).1 (
      if_keeps (IsValid named) _ v (record {
        rate_loop = v.rate_loop;
        auth_loop = start_cleanup_loop-IsSingle p.auth_loop v.auth_loop;
        rate = v.rate;
        auth = v.auth;
      }))
step-IsValid named p q (rate_ticks d now) v e = subst (IsValid named) (guard_lem _ e).1 (record {
  rate_loop = v.rate_loop;
  auth_loop = v.auth_loop;
  rate = cleanup-RateIsValid named p.rate now v.rate;
  auth = v.auth;
})
step-IsValid named p q (auth_ticks d now) v e = subst (IsValid named) (guard_lem _ e).1 (record {
  rate_loop = v.rate_loop;
  auth_loop = v.auth_loop;
  rate = v.rate;
  auth = cleanup-AreValid p.auth now v.auth;
})
step-IsValid named p q (rate_returns d) v e =
    let (l, ended, same) = map_some_lem (end_loop d p.rate_loop) _ q e in
    subst (IsValid named) same (record {
      rate_loop = end_loop-IsSingle d p.rate_loop l v.rate_loop ended;
      auth_loop = v.auth_loop;
      rate = v.rate;
      auth = v.auth;
    })
step-IsValid named p q (auth_returns d) v e =
    let (l, ended, same) = map_some_lem (end_loop d p.auth_loop) _ q e in
    subst (IsValid named) same (record {
      rate_loop = v.rate_loop;
      auth_loop = end_loop-IsSingle d p.auth_loop l v.auth_loop ended;
      rate = v.rate;
      auth = v.auth;
    })
step-IsValid named p q (limits ip now) v e =
    subst (IsValid (not (is_empty ip) && named)) (guard_lem true e).1 (record {
      rate_loop = v.rate_loop;
      auth_loop = v.auth_loop;
      rate = limits-RateIsValid named p.rate ip now v.rate;
      auth = v.auth;
    })
step-IsValid named p q (checks_auth ip now) v e = subst (IsValid named) (guard_lem true e).1 (
    with_auth named p v _ (record {
      auth = is_auth_blocked-IsValid p.auth.auth ip now v.auth.auth;
      no_cred = v.auth.no_cred;
    }))
step-IsValid named p q (checks_no_cred ip now) v e = subst (IsValid named) (guard_lem true e).1 (
    with_auth named p v _ (record {
      auth = v.auth.auth;
      no_cred = is_auth_blocked-IsValid p.auth.no_cred ip now v.auth.no_cred;
    }))
step-IsValid named p q (fails_auth ip victim now) v e =
    let (room, same) = guard_lem (may_evict p.auth.auth victim) e in
    let held = may_evict-IsVictim p.auth.auth victim room in
    subst (IsValid named) same (
      with_auth named p v _ (record {
        auth = record_auth_failure-IsValid p.auth.auth ip victim now held v.auth.auth;
        no_cred = v.auth.no_cred;
      }))
step-IsValid named p q (fails_no_cred ip victim now) v e =
    let (room, same) = guard_lem (may_evict p.auth.no_cred victim) e in
    let held = may_evict-IsVictim p.auth.no_cred victim room in
    subst (IsValid named) same (
      with_auth named p v _ (record {
        auth = v.auth.auth;
        no_cred = record_auth_failure-IsValid p.auth.no_cred ip victim now held v.auth.no_cred;
      }))

-- In every state that the package reaches, the one goroutine of each cleanup loop that is not told
-- to stop is the one whose channel the package holds, and there is one exactly if the loop's flag is
-- set; both limiters of failures are in order; no count of the rate limiter is above its limit; and
-- if no request came with an empty address, the rate limiter tracks at most 10,000 addresses.
pub reach-IsValid : (p : Package) (r : Reach p) → IsValid (all_named r) p
reach-IsValid p start = new_package-IsValid
reach-IsValid p (next_step {p = p'} a r e) =
    step-IsValid (all_named r) p' p a (reach-IsValid p' r) e

mem_later : (d a : ℕ) (xs : List ℕ) → mem d xs ≡ true → mem d (a ∷ xs) ≡ true
mem_later d a xs e = ground arith

-- Each goroutine of a list that is among the running ones and told can return.
told_ends :
    (l : CleanupLoop) (ds : List ℕ)
    → All (λ d. mem d l.running ≡ true) ds
    → All (λ d. IsTold l.signalled d) ds
    → All (λ d. is_some (end_loop d l) ≡ true) ds
unfolding end_loop
told_ends l [] m h = tt
told_ends l (d ∷ ds) (e, m) (t, h) = (ground arith, told_ends l ds m h)

All-later :
    (a : ℕ) (xs ds : List ℕ) → All (λ d. mem d xs ≡ true) ds → All (λ d. mem d (a ∷ xs) ≡ true) ds
All-later a xs [] h = tt
All-later a xs (d ∷ ds) (e, h) = (mem_later d a xs e, All-later a xs ds h)

All-mem : (xs : List ℕ) → All (λ d. mem d xs ≡ true) xs
All-mem [] = tt
All-mem (a ∷ xs) = (ground arith, All-later a xs xs (All-mem xs))

ends :
    (l : CleanupLoop)
    → IsSingle l
    → All (λ d. is_some (end_loop d (stop_cleanup_loop l)) ≡ true) (stop_cleanup_loop l).running
ends l s = told_ends (stop_cleanup_loop l) _ (All-mem _) (stop_cleanup_loop-IsTold l s)

rate_returns-step :
    (p : Package) (ds : List ℕ)
    → All (λ d. is_some (end_loop d p.rate_loop) ≡ true) ds
    → All (λ d. is_some (step p (rate_returns d)) ≡ true) ds
unfolding step
rate_returns-step p [] h = tt
rate_returns-step p (d ∷ ds) (e, h) = (ground arith, rate_returns-step p ds h)

auth_returns-step :
    (p : Package) (ds : List ℕ)
    → All (λ d. is_some (end_loop d p.auth_loop) ≡ true) ds
    → All (λ d. is_some (step p (auth_returns d)) ≡ true) ds
unfolding step
auth_returns-step p [] h = tt
auth_returns-step p (d ∷ ds) (e, h) = (ground arith, auth_returns-step p ds h)

-- After StopCleanup, called in any state that the package reaches, every running goroutine of both
-- loops can take the step that ends it.
pub stop_cleanup-ends :
    (p : Package)
    → Reach p
    → All
        (λ d. is_some (step (stop_cleanup p) (rate_returns d)) ≡ true)
        (stop_cleanup p).rate_loop.running
      × All
          (λ d. is_some (step (stop_cleanup p) (auth_returns d)) ≡ true)
          (stop_cleanup p).auth_loop.running
unfolding stop_cleanup
stop_cleanup-ends p r = (
  rate_returns-step (stop_cleanup p) _ (ends p.rate_loop (reach-IsValid p r).rate_loop),
  auth_returns-step (stop_cleanup p) _ (ends p.auth_loop (reach-IsValid p r).auth_loop),
)
