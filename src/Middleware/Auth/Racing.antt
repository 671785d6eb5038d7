-- ===== src/Middleware/Auth/Racing.antt =====
-- middleware/auth.go: requests with credentials that overlap. The mutex is taken twice, for
-- isAuthBlocked and for recordAuthFailure, and the credentials are compared in between, so that other
-- requests may come in between too.
pub mod Address
pub mod Sections
pub mod Bound
mod Tests
use xray_web_maneger.Common.{
  ℕ, ◌+◌, ◌-◌, Text, Text-discrete, not, ◌&&◌, Option, none, some, List, [], ◌∷◌, ltb, ite,
  if◌then◌else◌,
}
use xray_web_maneger.Middleware.Auth.{
  SimpleAuthRateLimit, is_auth_blocked, record_auth_failure, cleanup_rate_limiter,
}
use xray_web_maneger.Middleware.Auth.Guesses.{mismatch}

-- What happens under the mutex of authLimiter.
pub data Section : Type 0 where
  -- isAuthBlocked for a request: its address, the time, and its credentials.
  checks : Text → ℕ → Option (Text × Text) → Section
  -- recordAuthFailure for a request: its address, the address to evict, and the time.
  fails : Text → Text → ℕ → Section
  cleans : ℕ → Section

-- The limiter, and of the requests of one address with wrong credentials those between the check and
-- the record of the failure, and all that have passed the check.
pub record Guessing : Type 0 where
  pub limiter : SimpleAuthRateLimit
  pub pending : ℕ
  pub guesses : ℕ

abbrev pub begun : SimpleAuthRateLimit → Guessing
begun a = record { limiter = a; pending = 0; guesses = 0 }

module _ (username password ip : Text) (most : ℕ) where
  -- One section, `none` if it cannot come: `most` requests of the address are between their check
  -- and their record already, or there is none whose failure could be recorded.
  pub advance : Guessing → Section → Option Guessing
  advance g (checks j now given) =
      let (a, blocked) = is_auth_blocked g.limiter j now in
      let g' = record g { limiter = a } in
      ite (Text-discrete j ip)
        (if not blocked && mismatch username password given
          then if ltb g.pending most
            then some (record g' { pending = g.pending + 1; guesses = g.guesses + 1 })
            else none
          else some g')
        (some g')
  advance g (fails j victim now) =
      let g' = record g { limiter = record_auth_failure g.limiter j victim now } in
      ite (Text-discrete j ip)
        (if ltb 0 g.pending then some (record g' { pending = g.pending - 1 }) else none) (some g')
  advance g (cleans now) = some (record g { limiter = cleanup_rate_limiter g.limiter now })

  pub advance_all : Guessing → List Section → Option Guessing
  advance_all g [] = some g
  advance_all g (s ∷ ss) = elim (advance g s) [ none ↦ none | some g' ↦ advance_all g' ss ]
