-- ===== src/Middleware/Cleanup/Named.antt =====
-- What one section of a request keeps of a limiter, whatever the request's address.
use xray_web_maneger.Common.{
  ℕ, ◌≡◌, ◌⊎◌, inl, inr, refl, Text, Bool, true, false, not, ◌&&◌, ◌||◌, is_some, ltb, ltb→lt,
  length, is_empty, is_some,
}
use xray_web_maneger.Middleware.RateLimit.Invariant.{
  check_and_record-IsValid, cleanup_stale_keys-IsValid, check_and_record-HasCounts,
  cleanup_stale_keys-HasCounts,
}
use xray_web_maneger.Middleware.RateLimit.Invariant
use xray_web_maneger.Middleware.Auth.{SimpleAuthRateLimit}
use xray_web_maneger.Middleware.RateLimit.{
  RateLimiter, max_tracked_ips, check_and_record, cleanup_stale_keys,
}
use xray_web_maneger.Middleware.Auth.Lockout.{found}
use xray_web_maneger.Middleware.Auth.Invariant.{IsVictim}
use xray_web_maneger.Middleware.Cleanup.{
  Package, may_evict, Action, limits, Reach, start, next_step,
}

-- A request's address is not the empty text, which clientIP makes of a trusted header of Unicode
-- white space, and which evictOldest takes for no address.
abbrev pub is_named : Action → Bool
is_named (limits ip now) = not (is_empty ip)
is_named _ = true

abbrev pub all_named : {p : Package} → Reach p → Bool
all_named start = true
all_named (next_step a r e) = is_named a && all_named r

-- The counts are within the limit; with named addresses only, the map is within its bound too.
abbrev pub RateIsValid : Bool → RateLimiter → Type 0
RateIsValid true rl = Invariant.IsValid rl
RateIsValid false rl = Invariant.HasCounts rl

pub may_evict-IsVictim :
    (a : SimpleAuthRateLimit) (victim : Text) → may_evict a victim ≡ true → IsVictim a victim
unfolding may_evict
may_evict-IsVictim a victim e =
    elim (or_lem (ltb (length a.states) max_tracked_ips) (is_some (found a victim)) e) [
      | inl h ↦ inl (ltb→lt (length a.states) max_tracked_ips h)
      | inr h ↦ inr h
    ]
  where
    or_lem : (a b : Bool) → (a || b) ≡ true → (a ≡ true) ⊎ (b ≡ true)
    or_lem true b e = inl refl
    or_lem false b e = inr e

counts_of : (named : Bool) (rl : RateLimiter) → RateIsValid named rl → Invariant.HasCounts rl
counts_of true rl v = record { positive = v.positive; counts = v.counts }
counts_of false rl v = v

pub limits-RateIsValid :
    (named : Bool) (rl : RateLimiter) (ip : Text) (now : ℕ)
    → RateIsValid named rl
    → RateIsValid (not (is_empty ip) && named) (check_and_record rl ip now).0
limits-RateIsValid named rl ip now v = by_name named (is_empty ip) refl v
  where
    by_name :
        (named empty : Bool)
        → is_empty ip ≡ empty
        → RateIsValid named rl
        → RateIsValid (not empty && named) (check_and_record rl ip now).0
    by_name named true e v = check_and_record-HasCounts rl ip now (counts_of named rl v)
    by_name true false e v = check_and_record-IsValid rl ip now e v
    by_name false false e v = check_and_record-HasCounts rl ip now v

pub cleanup-RateIsValid :
    (named : Bool) (rl : RateLimiter) (now : ℕ)
    → RateIsValid named rl
    → RateIsValid named (cleanup_stale_keys rl now)
cleanup-RateIsValid true rl now v = cleanup_stale_keys-IsValid rl now v
cleanup-RateIsValid false rl now v = cleanup_stale_keys-HasCounts rl now v
