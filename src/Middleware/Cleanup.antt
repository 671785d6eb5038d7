-- ===== src/Middleware/Cleanup.antt =====
-- middleware/middleware.go: startCleanupLoop; middleware/ratelimit.go: InitRateLimiter and
-- StopCleanup; middleware/auth.go: the loop that BasicAuth starts.
-- A step is what one goroutine does under a mutex, and the half of StopCleanup for one loop. A
-- request takes a limiter's mutex for each of its calls, so that each call is a step, which may come
-- at any time. A goroutine and its stop channel have one number.
pub mod Loop
pub mod Named
pub mod Goroutines
mod Tests
use xray_web_maneger.Common.{
  ℕ, ◌+◌, ◌≡◌, Text, Text-discrete, is_empty, Bool, true, false, not, ◌==◌, ◌&&◌, ◌||◌, Option,
  none, some, List, [], ◌∷◌, any, keep_if, is_some, ltb, length, if◌then◌else◌,
}
use xray_web_maneger.Common.Assoc.{lookup}
use xray_web_maneger.Middleware.RateLimit.{
  RateLimiter, limiter, max_tracked_ips, check_and_record, cleanup_stale_keys,
}
use xray_web_maneger.Middleware.Auth.{
  SimpleAuthRateLimit, Limiters, auth_limiter, no_cred_limiter, cleanup, is_auth_blocked,
  record_auth_failure,
}

abbrev pub mem : ℕ → List ℕ → Bool
mem a xs = any (λ b. b == a) xs

-- The variables of one loop: its flag and its stop channel, the goroutines that have not returned,
-- and the stop channels that are closed.
pub record CleanupLoop : Type 0 where
  pub started : Bool
  pub stop : Option ℕ
  pub running : List ℕ
  pub signalled : List ℕ
  pub next : ℕ

abbrev pub never_started : CleanupLoop
never_started = record { started = false; stop = none; running = []; signalled = []; next = 0 }

pub start_cleanup_loop : CleanupLoop → CleanupLoop
start_cleanup_loop l = if l.started then l else record l {
  started = true;
  stop = some l.next;
  running = l.next ∷ l.running;
  next = l.next + 1;
}

-- The half of StopCleanup for one loop.
pub stop_cleanup_loop : CleanupLoop → CleanupLoop
stop_cleanup_loop l = elim l.stop [
  | none ↦ record l { started = false }
  | some d ↦ record l { started = false; stop = none; signalled = d ∷ l.signalled }
]

-- The goroutine sees its stop channel closed.
pub end_loop : ℕ → CleanupLoop → Option CleanupLoop
end_loop d l =
    if mem d l.running && mem d l.signalled
    then some (record l { running = keep_if (λ b. not (b == d)) l.running })
    else none

-- The package's variables.
pub record Package : Type 0 where
  pub rate_loop : CleanupLoop
  pub auth_loop : CleanupLoop
  pub rate : RateLimiter
  pub auth : Limiters

unfoldable pub new_package : Package
new_package = record {
  rate_loop = never_started;
  auth_loop = never_started;
  rate = limiter;
  auth = record { auth = auth_limiter; no_cred = no_cred_limiter };
}

pub init_rate_limiter : Package → Package
init_rate_limiter p = record p { rate_loop = start_cleanup_loop p.rate_loop }

-- The call of BasicAuth that wraps a handler.
pub protect : Text → Text → Package → Package
protect username password p =
    if is_empty username || is_empty password
    then p
    else record p { auth_loop = start_cleanup_loop p.auth_loop }

-- Both halves, one after the other.
pub stop_cleanup : Package → Package
stop_cleanup p = record p {
  rate_loop = stop_cleanup_loop p.rate_loop;
  auth_loop = stop_cleanup_loop p.auth_loop;
}

-- Whether a range over the states of a full map may meet the victim first.
pub may_evict : SimpleAuthRateLimit → Text → Bool
may_evict a victim =
    ltb (length a.states) max_tracked_ips || is_some (lookup Text-discrete victim a.states)

pub data Action : Type 0 where
  inits stops_rate stops_auth : Action
  protects : Text → Text → Action
  -- A goroutine's ticker fires: select may take it though the stop channel is closed.
  rate_ticks auth_ticks : ℕ → ℕ → Action
  rate_returns auth_returns : ℕ → Action
  -- A request at the rate limiter: the address and the time.
  limits : Text → ℕ → Action
  -- A request's isAuthBlocked of a limiter of failures: the address and the time.
  checks_auth checks_no_cred : Text → ℕ → Action
  -- Its recordAuthFailure: the address, the victim and the time.
  fails_auth fails_no_cred : Text → Text → ℕ → Action

pub step : Package → Action → Option Package
step p inits = some (init_rate_limiter p)
step p stops_rate = some (record p { rate_loop = stop_cleanup_loop p.rate_loop })
step p stops_auth = some (record p { auth_loop = stop_cleanup_loop p.auth_loop })
step p (protects username password) = some (protect username password p)
step p (rate_ticks d now) =
    if mem d p.rate_loop.running
    then some (record p { rate = cleanup_stale_keys p.rate now })
    else none
step p (auth_ticks d now) =
    if mem d p.auth_loop.running then some (record p { auth = cleanup p.auth now }) else none
step p (rate_returns d) = elim (end_loop d p.rate_loop) [
  | none ↦ none
  | some l ↦ some (record p { rate_loop = l })
]
step p (auth_returns d) = elim (end_loop d p.auth_loop) [
  | none ↦ none
  | some l ↦ some (record p { auth_loop = l })
]
step p (limits ip now) = some (record p { rate = (check_and_record p.rate ip now).0 })
step p (checks_auth ip now) =
    some (record p { auth = record p.auth { auth = (is_auth_blocked p.auth.auth ip now).0 } })
step p (checks_no_cred ip now) =
    some (record p { auth = record p.auth { no_cred = (is_auth_blocked p.auth.no_cred ip now).0 } })
step p (fails_auth ip victim now) =
    if may_evict p.auth.auth victim
    then some
        (record p { auth = record p.auth { auth = record_auth_failure p.auth.auth ip victim now } })
    else none
step p (fails_no_cred ip victim now) =
    if may_evict p.auth.no_cred victim
    then some (record p {
      auth = record p.auth { no_cred = record_auth_failure p.auth.no_cred ip victim now };
    })
    else none

pub data Reach : Package → Type 0 where
  start : Reach new_package
  next_step : {p q : Package} (a : Action) → Reach p → step p a ≡ some q → Reach q
