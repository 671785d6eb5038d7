-- ===== src/Middleware/RateLimit/Invariant.antt =====
-- What holds of the limiter in every state: counts within the limit, and bounded memory.
use xray_web_maneger.Common.{
  ap, leb→le, ℕ, ◌+◌, ◌-◌, ◌*◌, ◌≤◌, ◌<◌, ◌≡◌, refl, ◌⊎◌, inl, inr, Text, Text-discrete, is_empty,
  false, List, [], ◌∷◌, leb, length, arith, All, Option-cases, Bool-cases,
}
use xray_web_maneger.Common.Assoc.{
  lookup, delete, All-put, All-retain, All-delete, All-lookup, length-put-le, length-put_of_some,
  length-retain-le,
}
use xray_web_maneger.Middleware.RateLimit.Oldest.{HasAddresses, evict_oldest_lem}
use xray_web_maneger.Middleware.RateLimit.{
  fresh_window, SlidingWindow, RateLimiter, max_tracked_ips, scan_oldest, evict_oldest, rotate,
  current, effective, record_request, check_limit, slide, make_room, check_and_record,
  cleanup_stale_keys,
}

abbrev pub IsWithin : ℕ → SlidingWindow → Type 0
IsWithin limit sw = (sw.prev_count ≤ limit) × (sw.curr_count ≤ limit)

-- A product below another with the same factor.
lt_of_mul-lt : (a b w x : ℕ) → x + a * w < b * w → a < b
lt_of_mul-lt a b w x h = grind arith

check_limit-IsWithin :
    (limit window now : ℕ) (sw : SlidingWindow)
    → IsWithin limit sw
    → IsWithin limit (check_limit limit window now sw).0
unfolding check_limit effective record_request
check_limit-IsWithin limit window now sw h = ground (
  arith,
  lt_of_mul-lt sw.curr_count limit window (sw.prev_count * (sw.window_start + window - now)),
)

current-IsWithin :
    (limit window now : ℕ) (sw : SlidingWindow)
    → IsWithin limit sw
    → IsWithin limit (current window now sw)
unfolding current rotate
current-IsWithin limit window now sw h = ground arith

pub slide-IsWithin :
    (limit window now : ℕ) (sw : SlidingWindow)
    → 1 ≤ limit
    → IsWithin limit sw
    → IsWithin limit (slide limit window now sw).0
unfolding slide
slide-IsWithin limit window now sw p h = ground (
  arith,
  check_limit-IsWithin limit window now (current window now sw),
  current-IsWithin limit window now sw h,
)

abbrev pub AllWithin : ℕ → List (Text × SlidingWindow) → Type 0
AllWithin limit m = All (λ e. IsWithin limit e.1) m

evict_oldest_cases :
    (rl : RateLimiter)
    → ((evict_oldest rl).requests ≡ rl.requests)
      ⊎ ((evict_oldest rl).requests
          ≡ delete Text-discrete (scan_oldest [] 0 rl.requests) rl.requests)
unfolding evict_oldest
evict_oldest_cases rl = elim (Bool-cases (is_empty (scan_oldest [] 0 rl.requests))) [
  | inl e ↦ inl (rw e)
  | inr e ↦ inr (rw e)
]

-- The map after room was made: the same, or less one address.
make_room_cases :
    (rl : RateLimiter)
    → ((make_room rl).requests ≡ rl.requests)
      ⊎ ((make_room rl).requests ≡ delete Text-discrete (scan_oldest [] 0 rl.requests) rl.requests)
unfolding make_room
make_room_cases rl = elim (Bool-cases (leb max_tracked_ips (length rl.requests))) [
  | inl e ↦ rw e (evict_oldest_cases rl)
  | inr e ↦ inl (rw e)
]

-- What deletion keeps, making room keeps.
make_room-All {ℓ} :
    (P : Text × SlidingWindow → Type ℓ) (rl : RateLimiter)
    → All P rl.requests
    → All P (make_room rl).requests
make_room-All P rl h = elim (make_room_cases rl) [
  | inl e ↦ rw e h
  | inr e ↦ rw e (All-delete Text-discrete P (scan_oldest [] 0 rl.requests) rl.requests h)
]

length-make_room-lt :
    (rl : RateLimiter)
    → HasAddresses rl.requests
    → length rl.requests ≤ max_tracked_ips
    → length (make_room rl).requests < max_tracked_ips
unfolding make_room
length-make_room-lt rl h fits = elim (Bool-cases (leb max_tracked_ips (length rl.requests))) [
  | inl full ↦ rw full (shrunk rl.requests refl (leb→le _ _ full))
  | inr room ↦ rw room (ground arith)
]
  where
    shrunk :
        (m : List (Text × SlidingWindow))
        → rl.requests ≡ m
        → max_tracked_ips ≤ length rl.requests
        → length (evict_oldest rl).requests < max_tracked_ips
    shrunk [] e full = absurd (omega (arith, ap length e))
    shrunk (x ∷ m) e full = omega (arith, (evict_oldest_lem rl x m e h).3)

-- The invariant of the limiter: counts within the limit, at most max_tracked_ips addresses, none of
-- them empty.
pub record IsValid (rl : RateLimiter) : Type 0 where
  pub positive : 1 ≤ rl.limit
  pub counts : AllWithin rl.limit rl.requests
  pub size : length rl.requests ≤ max_tracked_ips
  pub addresses : HasAddresses rl.requests

-- What holds of the counts alone.
pub record HasCounts (rl : RateLimiter) : Type 0 where
  pub positive : 1 ≤ rl.limit
  pub counts : AllWithin rl.limit rl.requests

pub check_and_record-HasCounts :
    (rl : RateLimiter) (ip : Text) (now : ℕ)
    → HasCounts rl
    → HasCounts (check_and_record rl ip now).0
unfolding check_and_record
check_and_record-HasCounts rl ip now v = elim (Option-cases (lookup Text-discrete ip rl.requests)) [
  | inl e ↦
      rw (e, check_and_record)
        (record {
          positive = v.positive;
          counts =
              All-put Text-discrete (λ x. IsWithin rl.limit x.1) ip (fresh_window now)
                (make_room rl).requests (make_room-All (λ x. IsWithin rl.limit x.1) rl v.counts)
                (omega (arith, v.positive));
        })
  | inr (sw, e) ↦
      let old =
        All-lookup Text-discrete (λ x. IsWithin rl.limit x.1) ip sw rl.requests v.counts e in
      rw (e, check_and_record)
        (record {
          positive = v.positive;
          counts =
              All-put Text-discrete (λ x. IsWithin rl.limit x.1) ip
                (slide rl.limit rl.window now sw).0 rl.requests v.counts
                (slide-IsWithin rl.limit rl.window now sw v.positive old);
        })
]

pub cleanup_stale_keys-HasCounts :
    (rl : RateLimiter) (now : ℕ) → HasCounts rl → HasCounts (cleanup_stale_keys rl now)
unfolding cleanup_stale_keys
cleanup_stale_keys-HasCounts rl now v = record {
  positive = v.positive;
  counts = All-retain Text-discrete (λ x. IsWithin rl.limit x.1) _ rl.requests v.counts;
}

-- A check by an address that is not empty keeps the invariant.
pub check_and_record-IsValid :
    (rl : RateLimiter) (ip : Text) (now : ℕ)
    → is_empty ip ≡ false
    → IsValid rl
    → IsValid (check_and_record rl ip now).0
unfolding check_and_record
check_and_record-IsValid rl ip now named v =
    elim (Option-cases (lookup Text-discrete ip rl.requests)) [
      | inl e ↦
          rw (e, check_and_record)
            (record {
              positive = v.positive;
              counts =
                  All-put Text-discrete (λ x. IsWithin rl.limit x.1) ip (fresh_window now)
                    (make_room rl).requests (make_room-All (λ x. IsWithin rl.limit x.1) rl v.counts)
                    (omega (arith, v.positive));
              size = omega (
                arith,
                length-put-le Text-discrete ip (fresh_window now) (make_room rl).requests,
                length-make_room-lt rl v.addresses v.size,
              );
              addresses =
                  All-put Text-discrete (λ x. is_empty x.0 ≡ false) ip (fresh_window now)
                    (make_room rl).requests
                    (make_room-All (λ x. is_empty x.0 ≡ false) rl v.addresses) named;
            })
      | inr (sw, e) ↦
          let sw' = (slide rl.limit rl.window now sw).0 in
          let old =
            All-lookup Text-discrete (λ x. IsWithin rl.limit x.1) ip sw rl.requests v.counts e in
          rw (e, check_and_record)
            (record {
              positive = v.positive;
              counts =
                  All-put Text-discrete (λ x. IsWithin rl.limit x.1) ip sw' rl.requests v.counts
                    (slide-IsWithin rl.limit rl.window now sw v.positive old);
              size =
                  omega (arith, v.size, length-put_of_some Text-discrete ip sw' sw rl.requests e);
              addresses =
                  All-put Text-discrete (λ x. is_empty x.0 ≡ false) ip sw' rl.requests v.addresses
                    named;
            })
    ]

-- So does the periodic cleanup.
pub cleanup_stale_keys-IsValid :
    (rl : RateLimiter) (now : ℕ) → IsValid rl → IsValid (cleanup_stale_keys rl now)
unfolding cleanup_stale_keys
cleanup_stale_keys-IsValid rl now v = record {
  positive = v.positive;
  counts = All-retain Text-discrete (λ x. IsWithin rl.limit x.1) _ rl.requests v.counts;
  size = omega (
    arith,
    v.size,
    length-retain-le Text-discrete (λ ip sw. leb now (sw.window_start + rl.window * 2)) rl.requests,
  );
  addresses = All-retain Text-discrete (λ x. is_empty x.0 ≡ false) _ rl.requests v.addresses;
}
