-- ===== src/Middleware/Auth/Guesses.antt =====
-- Sequences of requests and cleanups, and the wrong passwords of one address that are compared.
use xray_web_maneger.Common.{
  ℕ, ◌+◌, ◌≤◌, ◌<◌, ◌≡◌, refl, ap, ◌∙◌, sym, Text, Text-discrete, Bool, true, false, not, ◌&&◌,
  ◌==◌, to_nat, Option, none, some, List, [], ◌∷◌, length, if◌then◌else◌, inl, inr, ite, arith,
  Bool-cases, is_empty, is_some, All,
}
use xray_web_maneger.Common.Assoc.{
  filtered, HasUniqueKeys, lookup-retain, length-retain-le, retain-HasUniqueKeys,
}
use xray_web_maneger.Middleware.Http.{Outcome, reply, forward}
use xray_web_maneger.Middleware.RateLimit.{max_tracked_ips}
use xray_web_maneger.Middleware.Auth.{
  AuthState, SimpleAuthRateLimit, Limiters, is_auth_blocked, record_auth_failure, keeps,
  cleanup_rate_limiter, cleanup, credentials_match, without_credentials, with_credentials, serve,
  basic_auth,
}
use xray_web_maneger.Middleware.Auth.Lockout.{
  found, try, IsSound, spare, try-spare, try-IsSound, cleanup-spare, cleanup-IsSound,
}
use xray_web_maneger.Middleware.Auth.Invariant.{IsValid, found-IsSound}
use xray_web_maneger.Middleware.Auth.Frame.{
  Changed, is_auth_blocked-Changed, length-is_auth_blocked-le, record_auth_failure-Changed,
  Changed-trans,
}

-- Whether the request was answered by a comparison of credentials that failed: it carried some,
-- and the answer is 401.
abbrev pub is_wrong_guess : Option (Text × Text) → Outcome → Bool
is_wrong_guess given (reply r) = is_some given && r.status == 401
is_wrong_guess given (forward headers) = false

pub data Event : Type 0 where
  -- A request: its address, the address to evict, the time and the credentials.
  request : Text → Text → ℕ → Option (Text × Text) → Event
  cleaning : ℕ → Event

abbrev pub time : Event → ℕ
time (request ip victim now given) = now
time (cleaning now) = now

module _ (l : Limiters) (now : ℕ) (u : HasUniqueKeys Text-discrete l.auth.states) where
  cleanup-found :
      (ip : Text) {window : ℕ} {o : Option AuthState}
      → l.auth.block_window ≡ window
      → found l.auth ip ≡ o
      → found (cleanup l now).auth ip ≡ filtered Text-discrete (λ j st. keeps window now st) ip o
  unfolding cleanup cleanup_rate_limiter
  cleanup-found ip e f =
      lookup-retain Text-discrete (λ j st. keeps l.auth.block_window now st) ip l.auth.states u
      ∙ rw (e, f)

  cleanup-HasUniqueKeys : HasUniqueKeys Text-discrete (cleanup l now).auth.states
  unfolding cleanup cleanup_rate_limiter
  cleanup-HasUniqueKeys =
      retain-HasUniqueKeys Text-discrete (λ j st. keeps l.auth.block_window now st) l.auth.states u

  length-cleanup-le : length (cleanup l now).auth.states ≤ length l.auth.states
  unfolding cleanup cleanup_rate_limiter
  length-cleanup-le =
      length-retain-le Text-discrete (λ j st. keeps l.auth.block_window now st) l.auth.states

  cleanup-limits :
      ((cleanup l now).auth.limit ≡ l.auth.limit)
      × ((cleanup l now).auth.block_window ≡ l.auth.block_window)
  unfolding cleanup cleanup_rate_limiter
  cleanup-limits = (refl, refl)

ite_le_of {ℓ} : {P : Type ℓ} (d : Dec P) (x y b : ℕ) → (P → x ≤ b) → (¬ P → y ≤ b) → ite d x y ≤ b
ite_le_of (yes h) x y b f g = f h
ite_le_of (no h) x y b f g = g h

try_cong :
    (now : ℕ) (wrong : Bool) {limit limit' window window' : ℕ} {o o' : Option AuthState}
    → limit ≡ limit'
    → window ≡ window'
    → o ≡ o'
    → try limit window now wrong o ≡ try limit' window' now wrong o'
try_cong now wrong e f g = rw (e, f, g)

module _ (username password : Text) where
  -- The wrong guesses of one address in a sequence of events.
  abbrev pub wrong_guesses : Limiters → Text → List Event → ℕ
  wrong_guesses l ip [] = 0
  wrong_guesses l ip (request j victim now given ∷ es) =
      let (l', outcome) = basic_auth username password l j victim now given in
      let rest = wrong_guesses l' ip es in
      ite (Text-discrete j ip) (to_nat (is_wrong_guess given outcome) + rest) rest
  wrong_guesses l ip (cleaning now ∷ es) = wrong_guesses (cleanup l now) ip es

  -- The credentials are given and wrong.
  abbrev pub mismatch : Option (Text × Text) → Bool
  mismatch none = false
  mismatch (some c) = not (credentials_match username password c)

  module _ (l : Limiters) (ip victim : Text) (now : ℕ)
      (u : HasUniqueKeys Text-discrete l.auth.states)
      (r : length l.auth.states < max_tracked_ips) where
    gate : Bool → SimpleAuthRateLimit × Bool
    gate wrong =
        let (a, blocked) = is_auth_blocked l.auth ip now in
        if not blocked && wrong then (record_auth_failure a ip victim now, true) else (a, false)

    serve-gate :
        (given : Option (Text × Text))
        → let s = serve username password l ip victim now given in
          (s.0.auth ≡ (gate (mismatch given)).0)
          × (is_wrong_guess given s.1 ≡ (gate (mismatch given)).1)
    unfolding serve gate without_credentials with_credentials
    serve-gate none = ground arith
    serve-gate (some c) = ground arith

    gate-Changed :
        (wrong : Bool)
        → let t = try l.auth.limit l.auth.block_window now wrong (found l.auth ip) in
          Changed l.auth (gate wrong).0 ip t.0 × ((gate wrong).1 ≡ t.1)
    unfolding gate
    gate-Changed wrong =
        let a = (is_auth_blocked l.auth ip now).0 in
        let (c, same) = is_auth_blocked-Changed l.auth ip u now in
        let shrunk = length-is_auth_blocked-le l.auth ip u now in
        elim (Bool-cases (not (is_auth_blocked l.auth ip now).1 && wrong)) [
          | inl h ↦
              let failed =
                record_auth_failure-Changed a ip c.unique victim now (omega (arith, shrunk, r)) in
              rw (← same, h)
                (
                  Changed-trans _ c (rw (c.limit, c.mine) at failed)
                      (omega (arith, failed.size, shrunk)),
                  refl,
                )
          | inr h ↦ rw (← same, h) (c, refl)
        ]

    serve-Changed :
        (given : Option (Text × Text))
        → let s = serve username password l ip victim now given in
          let t = try l.auth.limit l.auth.block_window now (mismatch given) (found l.auth ip) in
          Changed l.auth s.0.auth ip t.0 × (is_wrong_guess given s.1 ≡ t.1)
    serve-Changed given =
        let (states, answer) = serve-gate given in
        let (changed, tried) = gate-Changed (mismatch given) in (rw states changed, answer ∙ tried)

  basic_auth-eq-serve :
      is_empty username ≡ false
      → is_empty password ≡ false
      → (l : Limiters) (ip victim : Text) (now : ℕ) (given : Option (Text × Text))
      → basic_auth username password l ip victim now given
        ≡ serve username password l ip victim now given
  unfolding basic_auth
  basic_auth-eq-serve named secret l ip victim now given = rw (named, secret)

  module _ (named : is_empty username ≡ false) (secret : is_empty password ≡ false)
      (limit window first last : ℕ) (p : 1 ≤ limit) (k : last < first + window) where
    wrong_guesses-le-spare :
        (l : Limiters) (ip : Text) (o : Option AuthState) (es : List Event)
        → All (λ e. (first ≤ time e) × (time e ≤ last)) es
        → HasUniqueKeys Text-discrete l.auth.states
        → length l.auth.states + length es ≤ max_tracked_ips
        → l.auth.limit ≡ limit
        → l.auth.block_window ≡ window
        → found l.auth ip ≡ o
        → IsSound limit o
        → wrong_guesses l ip es ≤ spare limit window first last o
    wrong_guesses-le-spare l ip o [] times u r hl hw same v = omega arith
    wrong_guesses-le-spare l ip o (request j victim now given ∷ es) (t, times) u r hl hw same v =
        let wrong = mismatch given in
        let after = (serve username password l j victim now given).0 in
        let (changed, answer) = serve-Changed l j victim now u (omega arith) given in
        let rest =
          λ (q : Option AuthState) (same' : found after.auth ip ≡ q) (v' : IsSound limit q).
            wrong_guesses-le-spare after ip q es times changed.unique (omega (arith, changed.size))
              (changed.limit ∙ hl) (changed.block_window ∙ hw) same' v' in
        rw (basic_auth-eq-serve named secret l j victim now given) (
          ite_le_of (Text-discrete j ip) _ (wrong_guesses after ip es) _
            (λ e.
              let tried = try_cong now wrong hl hw (ap (found l.auth) e ∙ same) in
              let held = ap (found after.auth) (sym e) ∙ changed.mine ∙ ap (λ q. q.0) tried in
              let sound = try-IsSound limit window first last now p t.0 t.1 k wrong o v in
              let guess = ap to_nat (answer ∙ ap (λ q. q.1) tried) in
              let bound = try-spare limit window first last now p t.0 t.1 k wrong o v in
              omega (arith, guess, rest _ held sound, bound))
            (λ e. rest o (changed.others ip e ∙ same) v))
    wrong_guesses-le-spare l ip o (cleaning now ∷ es) (t, times) u r hl hw same v =
        let kept = filtered Text-discrete (λ j st. keeps window now st) ip o in
        omega (
          arith,
          wrong_guesses-le-spare (cleanup l now) ip kept es times (cleanup-HasUniqueKeys l now u)
              (omega (arith, length-cleanup-le l now u)) ((cleanup-limits l now u).0 ∙ hl)
              ((cleanup-limits l now u).1 ∙ hw) (cleanup-found l now u ip hw same)
              (cleanup-IsSound limit window first last now p t.0 t.1 k ip o v),
          cleanup-spare limit window first last now p t.0 t.1 k ip o v,
        )

    spare-le : (o : Option AuthState) → spare limit window first last o ≤ limit
    spare-le none = omega arith
    spare-le (some st) = ground arith

-- With authentication configured, over requests from any addresses, one after the other, with any
-- credentials, and cleanups, all within less than one block window, an address has at most `limit`
-- wrong credentials compared, as long as the map has room for every event, so that nothing is
-- evicted.
pub wrong_guesses-le-limit :
    (username password : Text) (l : Limiters) (ip : Text) (first last : ℕ) (es : List Event)
    → is_empty username ≡ false
    → is_empty password ≡ false
    → IsValid l.auth
    → last < first + l.auth.block_window
    → All (λ e. (first ≤ time e) × (time e ≤ last)) es
    → length l.auth.states + length es ≤ max_tracked_ips
    → wrong_guesses username password l ip es ≤ l.auth.limit
wrong_guesses-le-limit username password l ip first last es named secret v k times room = omega (
  arith,
  wrong_guesses-le-spare username password named secret l.auth.limit l.auth.block_window first last
      v.positive k l ip (found l.auth ip) es times v.unique room refl refl refl
      (found-IsSound l.auth ip (found l.auth ip) v refl),
  spare-le username password named secret l.auth.limit l.auth.block_window first last v.positive k
      (found l.auth ip),
)
