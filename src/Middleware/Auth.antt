-- ===== src/Middleware/Auth.antt =====
-- middleware/auth.go: HTTP Basic authentication behind two limiters of failures by address.
-- The clock is read once for each request. A zero time.Time is `none`.
pub mod Lockout
pub mod Frame
pub mod Invariant
pub mod Guesses
pub mod Racing
pub mod Access
mod Tests
use xray_web_maneger.Common.{
  ℕ, ◌+◌, String, Text, Text-discrete, codes, text_eq, is_empty, Bool, true, false, not, ◌&&◌, ◌||◌,
  Option, none, some, List, [], ◌∷◌, ltb, leb, length, if◌then◌else◌, is_some,
}
use xray_web_maneger.Common.Assoc.{lookup, put, delete, retain}
use xray_web_maneger.Middleware.Http.{Outcome, reply, forward, Response, json_error}
use xray_web_maneger.Middleware.RateLimit.{max_tracked_ips, minute}

pub record AuthState : Type 0 where
  pub attempts : ℕ
  pub last_attempt : ℕ
  pub blocked_at : Option ℕ

pub record SimpleAuthRateLimit : Type 0 where
  pub states : List (Text × AuthState)
  pub limit : ℕ
  pub block_window : ℕ

-- The package variables authLimiter and noCredLimiter.
abbrev pub auth_limiter : SimpleAuthRateLimit
auth_limiter = record { states = []; limit = 5; block_window = 300_000_000_000 }

abbrev pub no_cred_limiter : SimpleAuthRateLimit
no_cred_limiter = record { states = []; limit = 30; block_window = minute }

-- The part of isAuthBlocked for an address that is tracked.
check_block : SimpleAuthRateLimit → Text → ℕ → Option ℕ → SimpleAuthRateLimit × Bool
check_block a ip now none = (a, false)
check_block a ip now (some blocked_at) =
    if ltb now (blocked_at + a.block_window)
    then (a, true)
    else (record a { states = delete Text-discrete ip a.states }, false)

-- isAuthBlocked; a block that has run out is forgotten.
pub is_auth_blocked : SimpleAuthRateLimit → Text → ℕ → SimpleAuthRateLimit × Bool
is_auth_blocked a ip now = elim (lookup Text-discrete ip a.states) [
  | none ↦ (a, false)
  | some st ↦ check_block a ip now st.blocked_at
]

-- One more failure; the limit's failure blocks, unless there is a block.
pub fail_once : ℕ → ℕ → AuthState → AuthState
fail_once limit now st = record {
  attempts = st.attempts + 1;
  last_attempt = now;
  blocked_at =
      if leb limit (st.attempts + 1) && not (is_some st.blocked_at)
      then some now
      else st.blocked_at;
}

abbrev pub fresh_state : AuthState
fresh_state = record { attempts = 0; last_attempt = 0; blocked_at = none }

-- The states with room for one more; `victim` is the address that a range over the map meets
-- first.
make_room : SimpleAuthRateLimit → Text → List (Text × AuthState)
make_room a victim =
    if leb max_tracked_ips (length a.states) then delete Text-discrete victim a.states else a.states

pub record_auth_failure : SimpleAuthRateLimit → Text → Text → ℕ → SimpleAuthRateLimit
record_auth_failure a ip victim now = elim (lookup Text-discrete ip a.states) [
  | none ↦ record a {
    states = put Text-discrete ip (fail_once a.limit now fresh_state) (make_room a victim);
  }
  | some st ↦ record a { states = put Text-discrete ip (fail_once a.limit now st) a.states }
]

-- Whether cleanupRateLimiter keeps a state.
pub keeps : ℕ → ℕ → AuthState → Bool
keeps block_window now st = elim st.blocked_at [
  | none ↦ ltb now (st.last_attempt + block_window)
  | some blocked_at ↦ ltb now (blocked_at + block_window)
]

pub cleanup_rate_limiter : SimpleAuthRateLimit → ℕ → SimpleAuthRateLimit
cleanup_rate_limiter a now = record a {
  states = retain Text-discrete (λ ip st. keeps a.block_window now st) a.states;
}

pub record Limiters : Type 0 where
  pub auth : SimpleAuthRateLimit
  pub no_cred : SimpleAuthRateLimit

-- One run of the cleanup loop that BasicAuth starts.
pub cleanup : Limiters → ℕ → Limiters
cleanup l now = record {
  auth = cleanup_rate_limiter l.auth now;
  no_cred = cleanup_rate_limiter l.no_cred now;
}

abbrev unauthorized : Response
unauthorized =
    json_error (("WWW-Authenticate", codes "Basic realm=\"Xray Manager\"") ∷ [])
      "未授权 (Unauthorized)" 401 "auth"

abbrev too_many_failures : Response
too_many_failures =
    json_error (("Retry-After", codes "300") ∷ []) "认证失败次数过多，请 5 分钟后再试" 429 "auth_rate_limit"

abbrev too_many_probes : Response
too_many_probes = json_error (("Retry-After", codes "60") ∷ []) "请求过于频繁，请稍后再试" 429 "rate_limit"

-- subtle.ConstantTimeCompare is 1 exactly on equal texts.
pub credentials_match : Text → Text → Text × Text → Bool
credentials_match username password (user, pass) = text_eq user username && text_eq pass password

-- The branch without an Authorization header.
without_credentials : Limiters → Text → Text → ℕ → Limiters × Outcome
without_credentials l ip victim now =
    let (no_cred, blocked) = is_auth_blocked l.no_cred ip now in
    if blocked
    then (record l { no_cred = no_cred }, reply too_many_probes)
    else (record l { no_cred = record_auth_failure no_cred ip victim now }, reply unauthorized)

-- The branch with credentials.
with_credentials : Text → Text → Limiters → Text → Text → ℕ → Text × Text → Limiters × Outcome
with_credentials username password l ip victim now given =
    if credentials_match username password given
    then (l, forward [])
    else (record l { auth = record_auth_failure l.auth ip victim now }, reply unauthorized)

-- The handler that BasicAuth returns, for one request that no other interrupts. The mutex is taken for
-- each call of isAuthBlocked and of recordAuthFailure; Auth/Racing and Middleware/Cleanup have these
-- sections apart.
pub serve : Text → Text → Limiters → Text → Text → ℕ → Option (Text × Text) → Limiters × Outcome
serve username password l ip victim now given =
    let (auth, blocked) = is_auth_blocked l.auth ip now in
    let l' = record l { auth = auth } in
    if blocked then (l', reply too_many_failures) else elim given [
      | none ↦ without_credentials l' ip victim now
      | some credentials ↦ with_credentials username password l' ip victim now credentials
    ]

-- BasicAuth; without a user name or a password it protects nothing.
pub basic_auth :
    Text → Text → Limiters → Text → Text → ℕ → Option (Text × Text) → Limiters × Outcome
basic_auth username password l ip victim now given =
    if is_empty username || is_empty password
    then (l, forward [])
    else serve username password l ip victim now given
