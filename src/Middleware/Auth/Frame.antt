-- ===== src/Middleware/Auth/Frame.antt =====
-- What the limiter's operations leave for one address, and that they leave the others alone.
use xray_web_maneger.Common.{
  ◌⊎◌, inl, inr, ℕ, ◌+◌, ◌≤◌, ◌<◌, ◌≡◌, refl, ◌≢◌, ◌∙◌, Text, Text-discrete, true, false, Option,
  none, some, length, arith,
}
use xray_web_maneger.Common.Assoc.{
  put, delete, HasUniqueKeys, lookup-put_self, lookup-put_ne, lookup-delete, length-put-le,
  length-delete-le, put-HasUniqueKeys, delete-HasUniqueKeys,
}
use xray_web_maneger.Middleware.RateLimit.{max_tracked_ips}
use xray_web_maneger.Middleware.Auth.{
  AuthState, SimpleAuthRateLimit, check_block, is_auth_blocked, fail_once, make_room,
  record_auth_failure,
}
use xray_web_maneger.Middleware.Auth.Lockout.{found, block, or_fresh}

-- A limiter that was changed at one address only, to hold `o` there.
pub record Changed (a b : SimpleAuthRateLimit) (ip : Text) (o : Option AuthState) : Type 0 where
  pub mine : found b ip ≡ o
  pub others : (j : Text) → ip ≢ j → found b j ≡ found a j
  pub unique : HasUniqueKeys Text-discrete b.states
  pub size : length b.states ≤ length a.states + 1
  pub limit : b.limit ≡ a.limit
  pub block_window : b.block_window ≡ a.block_window

module _ (a : SimpleAuthRateLimit) (ip : Text) (u : HasUniqueKeys Text-discrete a.states) where
  same-Changed : Changed a a ip (found a ip)
  same-Changed = record {
    mine = refl;
    others = λ j ne. refl;
    unique = u;
    size = omega arith;
    limit = refl;
    block_window = refl;
  }

  delete-Changed : Changed a (record a { states = delete Text-discrete ip a.states }) ip none
  delete-Changed = record {
    mine = ground (arith, lookup-delete Text-discrete ip ip a.states);
    others = λ j ne. ground (arith, lookup-delete Text-discrete ip j a.states);
    unique = delete-HasUniqueKeys Text-discrete ip a.states u;
    size = omega (arith, length-delete-le Text-discrete ip a.states);
    limit = refl;
    block_window = refl;
  }

  put-Changed :
      (st : AuthState)
      → Changed a (record a { states = put Text-discrete ip st a.states }) ip (some st)
  put-Changed st = record {
    mine = lookup-put_self Text-discrete ip ip st a.states refl;
    others = λ j ne. lookup-put_ne Text-discrete ip j st a.states ne;
    unique = put-HasUniqueKeys Text-discrete ip st a.states u;
    size = length-put-le Text-discrete ip st a.states;
    limit = refl;
    block_window = refl;
  }

  pub is_auth_blocked_cases :
      (now : ℕ)
      → let r = block a.block_window now (found a ip) in
        ((is_auth_blocked a ip now ≡ (a, true)) × (r ≡ (found a ip, true)))
        ⊎ ((is_auth_blocked a ip now ≡ (a, false)) × (r ≡ (found a ip, false)))
        ⊎ ((is_auth_blocked a ip now
              ≡ (record a { states = delete Text-discrete ip a.states }, false))
            × (r ≡ (none, false)))
  unfolding is_auth_blocked check_block
  is_auth_blocked_cases now = ground arith

  pub is_auth_blocked-Changed :
      (now : ℕ)
      → Changed a (is_auth_blocked a ip now).0 ip (block a.block_window now (found a ip)).0
        × ((is_auth_blocked a ip now).1 ≡ (block a.block_window now (found a ip)).1)
  is_auth_blocked-Changed now = elim (is_auth_blocked_cases now) [
    | inl (e, f) ↦ rw (e, f) (same-Changed, refl)
    | inr (inl (e, f)) ↦ rw (e, f) (same-Changed, refl)
    | inr (inr (e, f)) ↦ rw (e, f) (delete-Changed, refl)
  ]

  pub length-is_auth_blocked-le :
      (now : ℕ) → length (is_auth_blocked a ip now).0.states ≤ length a.states
  length-is_auth_blocked-le now =
      ground (arith, is_auth_blocked_cases now, length-delete-le Text-discrete ip a.states)

  record_auth_failure-eq :
      (victim : Text) (now : ℕ)
      → length a.states < max_tracked_ips
      → record_auth_failure a ip victim now ≡ record a {
        states = put Text-discrete ip (fail_once a.limit now (or_fresh (found a ip))) a.states;
      }
  unfolding record_auth_failure make_room
  record_auth_failure-eq victim now r = ground arith

  pub record_auth_failure-Changed :
      (victim : Text) (now : ℕ)
      → length a.states < max_tracked_ips
      → Changed a
          (record_auth_failure a ip victim now)
          ip
          (some (fail_once a.limit now (or_fresh (found a ip))))
  record_auth_failure-Changed victim now r =
      rw (record_auth_failure-eq victim now r) (put-Changed _)

pub Changed-trans :
    {a b c : SimpleAuthRateLimit} {ip : Text} {o : Option AuthState} (r : Option AuthState)
    → Changed a b ip o
    → Changed b c ip r
    → length c.states ≤ length a.states + 1
    → Changed a c ip r
Changed-trans r f g h = record {
  mine = g.mine;
  others = λ j ne. g.others j ne ∙ f.others j ne;
  unique = g.unique;
  size = h;
  limit = g.limit ∙ f.limit;
  block_window = g.block_window ∙ f.block_window;
}
