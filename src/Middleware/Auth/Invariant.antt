-- ===== src/Middleware/Auth/Invariant.antt =====
-- What holds of both limiters of failures in every state.
use xray_web_maneger.Common.{
  ℕ, ◌≤◌, ◌<◌, ◌≡◌, ◌⊎◌, inl, inr, Text, Text-discrete, true, Option, none, some, leb, length,
  arith, Option-cases, Bool-cases, All, is_some,
}
use xray_web_maneger.Common.Assoc.{
  put, delete, HasUniqueKeys, put-HasUniqueKeys, delete-HasUniqueKeys, All-put, All-delete,
  All-lookup, length-put-le, length-put_of_some, length-delete-lt, length-delete-le,
  length-retain-le, retain-HasUniqueKeys, All-retain,
}
use xray_web_maneger.Middleware.RateLimit.{max_tracked_ips}
use xray_web_maneger.Middleware.Auth.{
  AuthState, SimpleAuthRateLimit, is_auth_blocked, record_auth_failure, make_room, fail_once,
  fresh_state, cleanup_rate_limiter, keeps,
}
use xray_web_maneger.Middleware.Auth.Lockout.{found, IsSound}
use xray_web_maneger.Middleware.Auth.Frame.{is_auth_blocked_cases}

-- A limiter in order: each address once, and no address unblocked with as many failures as the
-- limit.
pub record IsValid (a : SimpleAuthRateLimit) : Type 0 where
  pub positive : 1 ≤ a.limit
  pub size : length a.states ≤ max_tracked_ips
  pub unique : HasUniqueKeys Text-discrete a.states
  pub sound : All (λ e. IsSound a.limit (some e.1)) a.states

pub found-IsSound :
    (a : SimpleAuthRateLimit) (ip : Text) (o : Option AuthState)
    → IsValid a
    → found a ip ≡ o
    → IsSound a.limit o
found-IsSound a ip none v e = tt
found-IsSound a ip (some st) v e =
    All-lookup Text-discrete (λ x. IsSound a.limit (some x.1)) ip st a.states v.sound e

-- The address that a full map gives up is one that it holds.
abbrev pub IsVictim : SimpleAuthRateLimit → Text → Type 0
IsVictim a victim = (length a.states < max_tracked_ips) ⊎ (is_some (found a victim) ≡ true)

delete-IsValid :
    (a : SimpleAuthRateLimit) (ip : Text)
    → IsValid a
    → IsValid (record a { states = delete Text-discrete ip a.states })
delete-IsValid a ip v = record {
  positive = v.positive;
  size = omega (arith, v.size, length-delete-le Text-discrete ip a.states);
  unique = delete-HasUniqueKeys Text-discrete ip a.states v.unique;
  sound = All-delete Text-discrete (λ e. IsSound a.limit (some e.1)) ip a.states v.sound;
}

fail_once-IsSound :
    (limit now : ℕ) (st : AuthState)
    → IsSound limit (some st)
    → IsSound limit (some (fail_once limit now st))
unfolding fail_once
fail_once-IsSound limit now st v = ground arith

fresh-IsSound : (limit now : ℕ) → IsSound limit (some (fail_once limit now fresh_state))
unfolding fail_once
fresh-IsSound limit now = ground arith

pub is_auth_blocked-IsValid :
    (a : SimpleAuthRateLimit) (ip : Text) (now : ℕ)
    → IsValid a
    → IsValid (is_auth_blocked a ip now).0
is_auth_blocked-IsValid a ip now v = elim (is_auth_blocked_cases a ip v.unique now) [
  | inl (e, _) ↦ rw e v
  | inr (inl (e, _)) ↦ rw e v
  | inr (inr (e, _)) ↦ rw e (delete-IsValid a ip v)
]

-- Room for one more, with the states that were there.
length-make_room-lt :
    (a : SimpleAuthRateLimit) (victim : Text)
    → length a.states ≤ max_tracked_ips
    → IsVictim a victim
    → length (make_room a victim) < max_tracked_ips
unfolding make_room
length-make_room-lt a victim h (inl room) = ground arith
length-make_room-lt a victim h (inr held) = elim (Option-cases (found a victim)) [
  | inl e ↦ cc
  | inr (st, e) ↦ ground (arith, length-delete-lt Text-discrete victim st a.states e)
]

make_room_cases :
    (a : SimpleAuthRateLimit) (victim : Text)
    → (make_room a victim ≡ a.states) ⊎ (make_room a victim ≡ delete Text-discrete victim a.states)
unfolding make_room
make_room_cases a victim = elim (Bool-cases (leb max_tracked_ips (length a.states))) [
  | inl e ↦ inr (rw e)
  | inr e ↦ inl (rw e)
]

make_room-IsValid :
    (a : SimpleAuthRateLimit) (victim : Text)
    → IsValid a
    → IsValid (record a { states = make_room a victim })
make_room-IsValid a victim v = elim (make_room_cases a victim) [
  | inl e ↦ rw e v
  | inr e ↦ rw e (delete-IsValid a victim v)
]

put-IsValid :
    (a : SimpleAuthRateLimit) (ip : Text) (st : AuthState)
    → IsValid a
    → IsSound a.limit (some st)
    → length (put Text-discrete ip st a.states) ≤ max_tracked_ips
    → IsValid (record a { states = put Text-discrete ip st a.states })
put-IsValid a ip st v s h = record {
  positive = v.positive;
  size = h;
  unique = put-HasUniqueKeys Text-discrete ip st a.states v.unique;
  sound = All-put Text-discrete (λ e. IsSound a.limit (some e.1)) ip st a.states v.sound s;
}

pub record_auth_failure-IsValid :
    (a : SimpleAuthRateLimit) (ip victim : Text) (now : ℕ)
    → IsVictim a victim
    → IsValid a
    → IsValid (record_auth_failure a ip victim now)
unfolding record_auth_failure
record_auth_failure-IsValid a ip victim now w v = elim (Option-cases (found a ip)) [
  | inl e ↦
      let b = record a { states = make_room a victim } in
      let st = fail_once a.limit now fresh_state in
      rw (e, record_auth_failure)
        (put-IsValid b ip st (make_room-IsValid a victim v) (fresh-IsSound a.limit now) (
          omega (
            arith,
            length-put-le Text-discrete ip st b.states,
            length-make_room-lt a victim v.size w,
          )))
  | inr (st, e) ↦
      let st' = fail_once a.limit now st in
      rw (e, record_auth_failure)
        (put-IsValid a ip st' v
          (fail_once-IsSound a.limit now st (found-IsSound a ip (some st) v e))
          (omega (arith, v.size, length-put_of_some Text-discrete ip st' st a.states e)))
]

pub cleanup_rate_limiter-IsValid :
    (a : SimpleAuthRateLimit) (now : ℕ) → IsValid a → IsValid (cleanup_rate_limiter a now)
unfolding cleanup_rate_limiter
cleanup_rate_limiter-IsValid a now v = record {
  positive = v.positive;
  size = omega (
    arith,
    v.size,
    length-retain-le Text-discrete (λ (ip : Text) (st : AuthState). keeps a.block_window now st)
        a.states,
  );
  unique = retain-HasUniqueKeys Text-discrete _ a.states v.unique;
  sound = All-retain Text-discrete (λ e. IsSound a.limit (some e.1)) _ a.states v.sound;
}
