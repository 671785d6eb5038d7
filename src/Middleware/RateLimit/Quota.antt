-- ===== src/Middleware/RateLimit/Quota.antt =====
-- How many requests of one address pass within one window's length of time.
use xray_web_maneger.Common.{
  ℕ, ◌+◌, ◌-◌, ◌*◌, ◌/◌, ◌≤◌, ◌<◌, ◌≡◌, refl, inl, inr, Text, Text-discrete, Bool, true, to_nat,
  Option, none, some, List, [], ◌∷◌, leb, length, if◌then◌else◌, ite, arith, All, Option-cases, ap,
  ◌∙◌,
}
use native.Mathlib.Nat.{mul-div-le, lt-mul-div-succ}
use xray_web_maneger.Common.Assoc.{
  lookup, put, lookup-put_self, lookup-put_ne, length-put-le, All-lookup,
}
use xray_web_maneger.Middleware.RateLimit.{
  SlidingWindow, RateLimiter, max_tracked_ips, rotate, current, record_request, fresh_window,
  check_limit, slide, make_room, check_and_record,
}
use xray_web_maneger.Middleware.RateLimit.Invariant.{IsWithin, slide-IsWithin, AllWithin, IsValid}

-- The start of a rotated window: at most `now`, and less than one window before it.
rotate_bounds : (d w : ℕ) → 0 < w → w < d → (w ≤ w * (d / w)) × (d ≤ w * (d / w) + w)
rotate_bounds d w p h = (omega (arith, at_least), omega arith)
  where
    at_least : w ≤ w * (d / w)
    at_least = grind (arith, mul-div-le d w, lt-mul-div-succ d p)

module _ (limit window now : ℕ) (sw : SlidingWindow) where
  -- The window left behind holds the time of the request.
  slide-now : 0 < window → now ≤ (slide limit window now sw).0.window_start + window
  unfolding slide check_limit current rotate record_request
  slide-now p = ground (arith, rotate_bounds (now - sw.window_start) window p)

  -- A request that passes is counted.
  slide_counts : to_nat (slide limit window now sw).1 ≤ (slide limit window now sw).0.curr_count
  unfolding slide check_limit record_request
  slide_counts = ground arith

  slide_inside :
      now ≤ sw.window_start + window
      → ((slide limit window now sw).0.window_start ≡ sw.window_start)
        × ((slide limit window now sw).0.curr_count
            ≡ sw.curr_count + to_nat (slide limit window now sw).1)
  unfolding slide check_limit current record_request
  slide_inside h = ground arith

  slide_later :
      0 < window
      → sw.window_start + window < now
      → (sw.window_start + window ≤ (slide limit window now sw).0.window_start)
        × ((slide limit window now sw).0.curr_count ≡ to_nat (slide limit window now sw).1)
  unfolding slide check_limit current rotate record_request
  slide_later p h = ground (arith, rotate_bounds (now - sw.window_start) window p)

-- A bound on what an address may still pass until the time `last`.
abbrev spare : ℕ → ℕ → ℕ → Option SlidingWindow → ℕ
spare limit window last none = limit * 2
spare limit window last (some sw) =
    if leb last (sw.window_start + window)
    then limit - sw.curr_count
    else if leb last (sw.window_start + window * 2)
    then limit * 2 - sw.curr_count
    else limit * 2

spare-slide :
    (limit window now last : ℕ) (sw : SlidingWindow)
    → 0 < window
    → 1 ≤ limit
    → IsWithin limit sw
    → now ≤ last
    → last ≤ now + window
    → to_nat (slide limit window now sw).1
        + spare limit window last (some (slide limit window now sw).0)
      ≤ spare limit window last (some sw)
spare-slide limit window now last sw p q v h k = ground (
  arith,
  slide-IsWithin limit window now sw q v,
  slide-now limit window now sw p,
  slide_counts limit window now sw,
  slide_inside limit window now sw,
  slide_later limit window now sw p,
)

-- The answer for an address, by what the map holds for it.
abbrev visit : ℕ → ℕ → ℕ → Option SlidingWindow → SlidingWindow × Bool
visit limit window now none = (fresh_window now, true)
visit limit window now (some sw) = slide limit window now sw

abbrev found : RateLimiter → Text → Option SlidingWindow
found rl ip = lookup Text-discrete ip rl.requests

-- With room for one more address no other address is touched.
check_and_record_of_room :
    (rl : RateLimiter) (ip : Text) (now : ℕ)
    → length rl.requests < max_tracked_ips
    → let (sw, allowed) = visit rl.limit rl.window now (found rl ip) in
      check_and_record rl ip now
      ≡ (record rl { requests = put Text-discrete ip sw rl.requests }, allowed)
unfolding check_and_record make_room
check_and_record_of_room rl ip now room = elim (Option-cases (found rl ip)) [
  | inl e ↦ rw (e, check_and_record) (ground arith)
  | inr (sw, e) ↦ rw (e, check_and_record) refl
]

-- The requests of one address that pass, in a sequence of requests from any addresses.
abbrev pub passed : RateLimiter → Text → List (Text × ℕ) → ℕ
passed rl ip [] = 0
passed rl ip ((j, now) ∷ es) =
    let (rl', allowed) = check_and_record rl j now in
    let rest = passed rl' ip es in ite (Text-discrete j ip) (to_nat allowed + rest) rest

abbrev IsSound : ℕ → Option SlidingWindow → Type 0
IsSound limit none = Unit
IsSound limit (some sw) = IsWithin limit sw

spare-visit :
    (limit window now last : ℕ) (o : Option SlidingWindow)
    → 0 < window
    → 1 ≤ limit
    → IsSound limit o
    → now ≤ last
    → last ≤ now + window
    → to_nat (visit limit window now o).1
        + spare limit window last (some (visit limit window now o).0)
      ≤ spare limit window last o
spare-visit limit window now last none p q v h k = ground arith
spare-visit limit window now last (some sw) p q v h k =
    spare-slide limit window now last sw p q v h k

visit-IsWithin :
    (limit window now : ℕ) (o : Option SlidingWindow)
    → 1 ≤ limit
    → IsSound limit o
    → IsWithin limit (visit limit window now o).0
visit-IsWithin limit window now none q v = omega arith
visit-IsWithin limit window now (some sw) q v = slide-IsWithin limit window now sw q v

-- What `passed` counts stays within what the address may spare.
passed-le-spare :
    (rl : RateLimiter) (ip : Text) (o : Option SlidingWindow) (first last : ℕ)
    (es : List (Text × ℕ))
    → 0 < rl.window
    → 1 ≤ rl.limit
    → last ≤ first + rl.window
    → All (λ e. (first ≤ e.1) × (e.1 ≤ last)) es
    → length rl.requests + length es ≤ max_tracked_ips
    → found rl ip ≡ o
    → IsSound rl.limit o
    → passed rl ip es ≤ spare rl.limit rl.window last o
passed-le-spare rl ip o first last [] p q k times room same v = omega arith
passed-le-spare rl ip o first last ((j, now) ∷ es) p q k (t, times) room same v =
    let rest = λ (r : Option SlidingWindow) (same' : found after ip ≡ r) (v' : IsSound rl.limit r).
      passed-le-spare after ip r first last es p q k times
        (omega (
          arith,
          length-put-le Text-discrete j (visit rl.limit rl.window now (found rl j)).0 rl.requests,
        ))
        same' v' in
    rw (check_and_record_of_room rl j now (omega arith)) (elim (Text-discrete j ip) [
      | yes e ↦
          let now_some : found after ip ≡ some sw =
            lookup-put_self Text-discrete j ip _ rl.requests e
            ∙ ap (λ q. some (visit rl.limit rl.window now q).0) (mine e) in
          ground (
            arith,
            mine e,
            rest (some sw) now_some (visit-IsWithin rl.limit rl.window now o q v),
            spare-visit rl.limit rl.window now last o p q v t.1,
          )
      | no e ↦ ground (arith, rest o (lookup-put_ne Text-discrete j ip _ rl.requests e ∙ same) v)
    ])
  where
    sw : SlidingWindow
    sw = (visit rl.limit rl.window now o).0

    after : RateLimiter
    after = record rl {
      requests = put Text-discrete j (visit rl.limit rl.window now (found rl j)).0 rl.requests;
    }

    mine : j ≡ ip → found rl j ≡ o
    mine e = ap (found rl) e ∙ same

spare-le :
    (limit window last : ℕ) (o : Option SlidingWindow) → spare limit window last o ≤ limit * 2
spare-le limit window last none = omega arith
spare-le limit window last (some sw) = ground arith

found-IsSound :
    (rl : RateLimiter) (ip : Text) (o : Option SlidingWindow)
    → AllWithin rl.limit rl.requests
    → found rl ip ≡ o
    → IsSound rl.limit o
found-IsSound rl ip none v e = tt
found-IsSound rl ip (some sw) v e =
    All-lookup Text-discrete (λ x. IsWithin rl.limit x.1) ip sw rl.requests v e

-- From a state with counts within the limit, a sequence of requests whose times span at most one
-- window lets at most twice the limit of requests of one address pass, as long as the map has
-- room for every request of the sequence, so that nothing is evicted.
pub passed-le-limit :
    (rl : RateLimiter) (ip : Text) (first last : ℕ) (es : List (Text × ℕ))
    → IsValid rl
    → 0 < rl.window
    → last ≤ first + rl.window
    → All (λ e. (first ≤ e.1) × (e.1 ≤ last)) es
    → length rl.requests + length es ≤ max_tracked_ips
    → passed rl ip es ≤ rl.limit * 2
passed-le-limit rl ip first last es v p k times room = omega (
  arith,
  passed-le-spare rl ip (found rl ip) first last es p v.positive k times room refl
      (found-IsSound rl ip (found rl ip) v.counts refl),
  spare-le rl.limit rl.window last (found rl ip),
)
