-- ===== src/Middleware/RateLimit.antt =====
-- middleware/ratelimit.go: the sliding-window limiter by client address.
-- A time.Time is a count of nanoseconds, read once for each call. A weighted count of requests is
-- compared with its limit after both are multiplied by the window, so no division is left and
-- float64 rounding is not modelled.
pub mod Oldest
pub mod Invariant
pub mod Quota
mod Tests
use xray_web_maneger.Common.{
  ℕ, ◌+◌, ◌-◌, ◌*◌, ◌/◌, Text, Text-discrete, is_empty, Bool, true, false, ◌||◌, Option, none, some,
  List, [], ◌∷◌, ltb, leb, length, if◌then◌else◌,
}
use xray_web_maneger.Common.Assoc.{lookup, put, delete, retain}

pub record SlidingWindow : Type 0 where
  pub prev_count : ℕ
  pub curr_count : ℕ
  pub window_start : ℕ

pub record RateLimiter : Type 0 where
  pub requests : List (Text × SlidingWindow)
  pub limit : ℕ
  pub window : ℕ

-- middleware.go: the cap on tracked addresses.
abbrev pub max_tracked_ips : ℕ
max_tracked_ips = 10_000

abbrev pub minute : ℕ
minute = 60_000_000_000

-- The package variable `limiter`.
abbrev pub limiter : RateLimiter
limiter = record { requests = []; limit = 100; window = minute }

-- The loop of evictOldest: the address and the time found so far.
scan_oldest : Text → ℕ → List (Text × SlidingWindow) → Text
scan_oldest oldest_ip oldest_time [] = oldest_ip
scan_oldest oldest_ip oldest_time (e ∷ m) =
    let older = is_empty oldest_ip || ltb e.1.window_start oldest_time in
    scan_oldest (if older then e.0 else oldest_ip) (if older then e.1.window_start else oldest_time)
      m

pub evict_oldest : RateLimiter → RateLimiter
evict_oldest rl =
    let oldest_ip = scan_oldest [] 0 rl.requests in
    if is_empty oldest_ip
    then rl
    else record rl { requests = delete Text-discrete oldest_ip rl.requests }

-- The shift to the window that holds `now`.
rotate : ℕ → ℕ → SlidingWindow → SlidingWindow
rotate window now sw = record {
  prev_count = sw.curr_count;
  curr_count = 0;
  window_start = sw.window_start + window * ((now - sw.window_start) / window);
}

current : ℕ → ℕ → SlidingWindow → SlidingWindow
current window now sw = if ltb (sw.window_start + window) now then rotate window now sw else sw

-- `effective`, times the window.
effective : ℕ → ℕ → SlidingWindow → ℕ
effective window now sw = sw.prev_count * (sw.window_start + window - now) + sw.curr_count * window

record_request : SlidingWindow → SlidingWindow
record_request sw = record sw { curr_count = sw.curr_count + 1 }

-- The limit's check against a window that is up to date.
check_limit : ℕ → ℕ → ℕ → SlidingWindow → SlidingWindow × Bool
check_limit limit window now sw =
    if leb (limit * window) (effective window now sw)
    then (sw, false)
    else (record_request sw, true)

abbrev pub fresh_window : ℕ → SlidingWindow
fresh_window now = record { prev_count = 0; curr_count = 1; window_start = now }

-- checkAndRecord for an address that is tracked: the window left behind, and the answer.
pub slide : ℕ → ℕ → ℕ → SlidingWindow → SlidingWindow × Bool
slide limit window now sw =
    if ltb (sw.window_start + window * 2) now
    then (fresh_window now, true)
    else check_limit limit window now (current window now sw)

-- Room for an address that is not tracked.
make_room : RateLimiter → RateLimiter
make_room rl = if leb max_tracked_ips (length rl.requests) then evict_oldest rl else rl

pub check_and_record : RateLimiter → Text → ℕ → RateLimiter × Bool
check_and_record rl ip now = elim (lookup Text-discrete ip rl.requests) [
  | none ↦ (
    record rl { requests = put Text-discrete ip (fresh_window now) (make_room rl).requests },
    true,
  )
  | some sw ↦
      let (sw', allowed) = slide rl.limit rl.window now sw in
      (record rl { requests = put Text-discrete ip sw' rl.requests }, allowed)
]

pub cleanup_stale_keys : RateLimiter → ℕ → RateLimiter
cleanup_stale_keys rl now = record rl {
  requests = retain Text-discrete (λ ip sw. leb now (sw.window_start + rl.window * 2)) rl.requests;
}
