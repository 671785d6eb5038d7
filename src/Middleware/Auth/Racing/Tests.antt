-- ===== src/Middleware/Auth/Racing/Tests.antt =====
-- Requests with wrong credentials that overlap, at an input.
use xray_web_maneger.Common.{◌+◌, ◌≤◌, ◌≡◌, refl, codes, some, List, Text-discrete, [], ◌∷◌, arith}
use xray_web_maneger.Middleware.Auth.{
  SimpleAuthRateLimit, credentials_match, check_block, is_auth_blocked, record_auth_failure,
  fail_once, make_room,
}
use xray_web_maneger.Middleware.Auth.Racing.{
  Section, checks, fails, Guessing, begun, advance, advance_all,
}
use xray_web_maneger.Middleware.Auth.Racing.Bound.{guesses-le}

abbrev two_failures : SimpleAuthRateLimit
two_failures = record { states = []; limit = 2; block_window = 100 }

-- One guess, and then three at once.
abbrev attack : List Section
attack =
    checks (codes "ip") 1 (some (codes "admin", codes "a"))
    ∷ fails (codes "ip") [] 2
    ∷ checks (codes "ip") 3 (some (codes "admin", codes "b"))
    ∷ checks (codes "ip") 3 (some (codes "admin", codes "c"))
    ∷ checks (codes "ip") 3 (some (codes "admin", codes "d"))
    ∷ fails (codes "ip") [] 4
    ∷ fails (codes "ip") [] 5
    ∷ fails (codes "ip") [] 6
    ∷ checks (codes "ip") 7 (some (codes "admin", codes "e"))
    ∷ []

-- Four are compared: the bound is reached.
abbrev attacked : Guessing
attacked = record {
  limiter = record two_failures {
    states = (codes "ip", record { attempts = 4; last_attempt = 6; blocked_at = some 4 }) ∷ [];
  };
  pending = 0;
  guesses = 4;
}

attacked_lem :
    advance_all (codes "admin") (codes "pw") (codes "ip") 3 (begun two_failures) attack
    ≡ some attacked
unfolding advance_all advance is_auth_blocked record_auth_failure fail_once make_room Text-discrete
    credentials_match check_block
attacked_lem = refl

guesses-le_example : attacked.guesses + 1 ≤ two_failures.limit + 3
guesses-le_example =
    guesses-le (codes "admin") (codes "pw") (codes "ip") 3 1 7 two_failures attack attacked
      (omega arith) (record { positive = omega arith; size = omega arith; unique = tt; sound = tt })
      (omega arith) (ground arith) (omega arith) attacked_lem
