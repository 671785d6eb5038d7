-- ===== src/Middleware/Auth/Access.antt =====
-- What one request with authentication may do: who passes, who is locked out, what is kept.
use xray_web_maneger.Common.{
  ℕ, ◌+◌, ◌≤◌, ◌<◌, ◌≡◌, ◌↔◌, refl, ◌∙◌, Text, Text-discrete, text_eq_iff, true, false, Option,
  none, some, List, [], ◌∷◌, ◌++◌, ltb, length, arith, is_empty, if◌then◌else◌, if_keeps,
}
use xray_web_maneger.Common.Assoc.{HasUniqueKeys}
use xray_web_maneger.Middleware.Http.{Outcome, reply, forward, is_forward}
use xray_web_maneger.Middleware.RateLimit.{max_tracked_ips}
use xray_web_maneger.Middleware.Auth.{
  AuthState, SimpleAuthRateLimit, Limiters, is_auth_blocked, record_auth_failure, fail_once,
  fresh_state, credentials_match, serve, basic_auth, without_credentials, with_credentials,
  too_many_failures, check_block, cleanup,
}
use xray_web_maneger.Middleware.Auth.Lockout.{found, or_fresh}
use xray_web_maneger.Middleware.Auth.Frame.{record_auth_failure-Changed}
use xray_web_maneger.Middleware.Auth.Invariant.{
  IsValid, IsVictim, is_auth_blocked-IsValid, record_auth_failure-IsValid,
  cleanup_rate_limiter-IsValid,
}

-- With authentication configured a request passes exactly when its address is not blocked and it
-- carries the configured user name and password.
pub forward_iff :
    (username password : Text) (l : Limiters) (ip victim : Text) (now : ℕ)
    (given : Option (Text × Text))
    → is_empty username ≡ false
    → is_empty password ≡ false
    → ((basic_auth username password l ip victim now given).1 ≡ forward [])
      ↔ (((is_auth_blocked l.auth ip now).1 ≡ false) × (given ≡ some (username, password)))
unfolding basic_auth serve without_credentials with_credentials credentials_match
forward_iff username password l ip victim now none named secret = ground arith
forward_iff username password l ip victim now (some (user, pass)) named secret =
    ground (arith, text_eq_iff user username, text_eq_iff pass password)

-- A request passes with no header set.
pub forward_only :
    (username password : Text) (l : Limiters) (ip victim : Text) (now : ℕ)
    (given : Option (Text × Text))
    → is_forward (basic_auth username password l ip victim now given).1 ≡ true
    → (basic_auth username password l ip victim now given).1 ≡ forward []
unfolding basic_auth serve without_credentials with_credentials
forward_only username password l ip victim now none h = ground (arith, h)
forward_only username password l ip victim now (some given) h = ground (arith, h)

pub record AreValid (l : Limiters) : Type 0 where
  pub auth : IsValid l.auth
  pub no_cred : IsValid l.no_cred

-- The limiter at which a failure of the request would be recorded.
abbrev pub at_risk : Limiters → Text → ℕ → Option (Text × Text) → SimpleAuthRateLimit
at_risk l ip now none = (is_auth_blocked l.no_cred ip now).0
at_risk l ip now (some _) = (is_auth_blocked l.auth ip now).0

-- A request keeps both limiters in order, if an address to evict is one that the map holds.
pub basic_auth-AreValid :
    (username password : Text) (l : Limiters) (ip victim : Text) (now : ℕ)
    (given : Option (Text × Text))
    → IsVictim (at_risk l ip now given) victim
    → AreValid l
    → AreValid (basic_auth username password l ip victim now given).0
unfolding basic_auth serve without_credentials with_credentials
basic_auth-AreValid username password l ip victim now given w v =
    if_keeps IsKept _ v
      (if_keeps IsKept _ (record { auth = auth; no_cred = v.no_cred }) (answer given w))
  where
    IsKept : Limiters × Outcome → Type 0
    IsKept r = AreValid r.0

    auth : IsValid (is_auth_blocked l.auth ip now).0
    auth = is_auth_blocked-IsValid l.auth ip now v.auth

    no_cred : IsValid (is_auth_blocked l.no_cred ip now).0
    no_cred = is_auth_blocked-IsValid l.no_cred ip now v.no_cred

    l' : Limiters
    l' = record l { auth = (is_auth_blocked l.auth ip now).0 }

    answer :
        (g : Option (Text × Text))
        → IsVictim (at_risk l ip now g) victim
        → IsKept (elim g [
          | none ↦ without_credentials l' ip victim now
          | some c ↦ with_credentials username password l' ip victim now c
        ])
    answer none b =
        if_keeps IsKept _ (record { auth = auth; no_cred = no_cred })
          (record { auth = auth; no_cred = record_auth_failure-IsValid _ ip victim now b no_cred })
    answer (some c) a =
        if_keeps IsKept _ (record { auth = auth; no_cred = v.no_cred })
          (record {
            auth = record_auth_failure-IsValid _ ip victim now a auth;
            no_cred = v.no_cred;
          })

pub cleanup-AreValid : (l : Limiters) (now : ℕ) → AreValid l → AreValid (cleanup l now)
unfolding cleanup
cleanup-AreValid l now v = record {
  auth = cleanup_rate_limiter-IsValid l.auth now v.auth;
  no_cred = cleanup_rate_limiter-IsValid l.no_cred now v.no_cred;
}

-- Failures of one address, one after the other.
abbrev pub fail_all : SimpleAuthRateLimit → Text → Text → List ℕ → SimpleAuthRateLimit
fail_all a ip victim [] = a
fail_all a ip victim (now ∷ ts) = fail_all (record_auth_failure a ip victim now) ip victim ts

-- The state after failures at the times of a list.
abbrev fail_states : ℕ → Option AuthState → List ℕ → Option AuthState
fail_states limit o [] = o
fail_states limit o (now ∷ ts) = fail_states limit (some (fail_once limit now (or_fresh o))) ts

found-fail_all :
    (a : SimpleAuthRateLimit) (ip victim : Text) (limit : ℕ) (o : Option AuthState) (ts : List ℕ)
    → HasUniqueKeys Text-discrete a.states
    → length a.states + length ts ≤ max_tracked_ips
    → a.limit ≡ limit
    → found a ip ≡ o
    → found (fail_all a ip victim ts) ip ≡ fail_states limit o ts
found-fail_all a ip victim limit o [] u r hl e = e
found-fail_all a ip victim limit o (now ∷ ts) u r hl e =
    let c = record_auth_failure-Changed a ip u victim now (omega arith) in
    found-fail_all (record_auth_failure a ip victim now) ip victim limit _ ts c.unique
      (omega (arith, c.size)) (c.limit ∙ hl) (c.mine ∙ rw (hl, e))

fail_once-blocked_at :
    (limit now : ℕ) (st : AuthState)
    → st.blocked_at ≡ none
    → (fail_once limit now st).blocked_at ≡ (if ltb (st.attempts + 1) limit then none else some now)
unfolding fail_once
fail_once-blocked_at limit now st e = ground arith

fail_states-blocked_at :
    (limit : ℕ) (st : AuthState) (ts : List ℕ) (now : ℕ)
    → st.blocked_at ≡ none
    → st.attempts + length ts + 1 ≡ limit
    → (st' : AuthState) × (fail_states limit (some st) (ts ++ now ∷ []) ≡ some st')
      × (st'.blocked_at ≡ some now)
unfolding fail_once
fail_states-blocked_at limit st [] now e h = (fail_once limit now st, refl, ground arith)
fail_states-blocked_at limit st (t ∷ ts) now e h =
    fail_states-blocked_at limit (fail_once limit t st) ts now (ground arith) (ground arith)

is_auth_blocked_of_found :
    (a : SimpleAuthRateLimit) (ip : Text) (st : AuthState) (at now : ℕ)
    → found a ip ≡ some st
    → st.blocked_at ≡ some at
    → now < at + a.block_window
    → is_auth_blocked a ip now ≡ (a, true)
unfolding is_auth_blocked check_block
is_auth_blocked_of_found a ip st at now e f h = ground arith

fail_states-fresh :
    (limit : ℕ) (ts : List ℕ) (now : ℕ)
    → length ts + 1 ≡ limit
    → (st : AuthState) × (fail_states limit none (ts ++ now ∷ []) ≡ some st)
      × (st.blocked_at ≡ some now)
unfolding fail_once
fail_states-fresh limit [] now h = (fail_once limit now fresh_state, refl, ground arith)
fail_states-fresh limit (t ∷ ts) now h =
    fail_states-blocked_at limit (fail_once limit t fresh_state) ts now (ground arith)
      (ground arith)

fail_all-window :
    (a : SimpleAuthRateLimit) (ip victim : Text) (ts : List ℕ)
    → HasUniqueKeys Text-discrete a.states
    → length a.states + length ts ≤ max_tracked_ips
    → (fail_all a ip victim ts).block_window ≡ a.block_window
fail_all-window a ip victim [] u r = refl
fail_all-window a ip victim (now ∷ ts) u r =
    let c = record_auth_failure-Changed a ip u victim now (omega arith) in
    fail_all-window (record_auth_failure a ip victim now) ip victim ts c.unique
      (omega (arith, c.size))
    ∙ c.block_window

-- After as many failures as the limit, the last of them at the time `at`, an address that was not
-- tracked is answered 429 until the block window has passed, whatever credentials it sends.
pub locked_out :
    (username password : Text) (l : Limiters) (ip victim : Text) (ts : List ℕ) (at now : ℕ)
    (given : Option (Text × Text))
    → is_empty username ≡ false
    → is_empty password ≡ false
    → HasUniqueKeys Text-discrete l.auth.states
    → length l.auth.states + length (ts ++ at ∷ []) ≤ max_tracked_ips
    → found l.auth ip ≡ none
    → length ts + 1 ≡ l.auth.limit
    → now < at + l.auth.block_window
    → let l' = record l { auth = fail_all l.auth ip victim (ts ++ at ∷ []) } in
      basic_auth username password l' ip victim now given ≡ (l', reply too_many_failures)
unfolding basic_auth serve
locked_out username password l ip victim ts at now given named secret u r e h w =
    let failed = found-fail_all l.auth ip victim l.auth.limit none (ts ++ at ∷ []) u r refl e in
    let (st, same, blocked) = fail_states-fresh l.auth.limit ts at h in
    let window = fail_all-window l.auth ip victim (ts ++ at ∷ []) u r in
    rw (
      named,
      secret,
      is_auth_blocked_of_found (fail_all l.auth ip victim (ts ++ at ∷ [])) ip st at now
          (failed ∙ same) blocked (omega (arith, window)),
    )
