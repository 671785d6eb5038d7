-- ===== src/Middleware/Auth/Lockout.antt =====
-- How many wrong passwords an address may try within one block window.
use xray_web_maneger.Common.{
  ℕ, ◌+◌, ◌-◌, ◌≤◌, ◌<◌, Text, Text-discrete, Bool, true, false, not, ◌&&◌, to_nat, Option, none,
  some, ltb, if◌then◌else◌, arith,
}
use xray_web_maneger.Common.Assoc.{lookup, filtered}
use xray_web_maneger.Middleware.Auth.{AuthState, SimpleAuthRateLimit, fail_once, fresh_state, keeps}

abbrev pub found : SimpleAuthRateLimit → Text → Option AuthState
found a ip = lookup Text-discrete ip a.states

-- isAuthBlocked on what the map holds for the address.
abbrev pub block : ℕ → ℕ → Option AuthState → Option AuthState × Bool
block window now none = (none, false)
block window now (some st) = elim st.blocked_at [
  | none ↦ (some st, false)
  | some at ↦ if ltb now (at + window) then (some st, true) else (none, false)
]

abbrev pub or_fresh : Option AuthState → AuthState
or_fresh none = fresh_state
or_fresh (some st) = st

-- A request with credentials, of which `wrong` says whether they do not match: what the map then
-- holds, and whether the credentials were compared and found wrong.
abbrev pub try : ℕ → ℕ → ℕ → Bool → Option AuthState → Option AuthState × Bool
try limit window now wrong o =
    let (o', blocked) = block window now o in
    if not blocked && wrong then (some (fail_once limit now (or_fresh o')), true) else (o', false)

-- A state that is not blocked has failed less often than the limit.
abbrev pub IsSound : ℕ → Option AuthState → Type 0
IsSound limit none = Unit
IsSound limit (some st) = elim st.blocked_at [ none ↦ st.attempts < limit | some at ↦ Unit {0} ]

-- A bound on the wrong credentials that may still be tried from `first` until `last`.
abbrev pub spare : ℕ → ℕ → ℕ → ℕ → Option AuthState → ℕ
spare limit window first last none = limit
spare limit window first last (some st) = elim st.blocked_at [
  | none ↦ if ltb st.last_attempt first then limit else limit - st.attempts
  | some at ↦ if ltb last (at + window) then 0 else limit
]

module _ (limit window first last now : ℕ) (p : 1 ≤ limit) (a : first ≤ now) (b : now ≤ last)
    (c : last < first + window) where
  pub try-spare :
      (wrong : Bool) (o : Option AuthState)
      → IsSound limit o
      → to_nat (try limit window now wrong o).1
          + spare limit window first last (try limit window now wrong o).0
        ≤ spare limit window first last o
  unfolding fail_once
  try-spare wrong none v = ground arith
  try-spare wrong (some st) v = ground arith

  pub try-IsSound :
      (wrong : Bool) (o : Option AuthState)
      → IsSound limit o
      → IsSound limit (try limit window now wrong o).0
  unfolding fail_once
  try-IsSound wrong none v = ground arith
  try-IsSound wrong (some st) v = ground arith

  -- What the cleanup forgets was no longer counted.
  pub cleanup-spare :
      (k : Text) (o : Option AuthState)
      → IsSound limit o
      → spare limit window first last (filtered Text-discrete (λ ip st. keeps window now st) k o)
        ≤ spare limit window first last o
  unfolding keeps
  cleanup-spare k none v = omega arith
  cleanup-spare k (some st) v = ground arith

  pub cleanup-IsSound :
      (k : Text) (o : Option AuthState)
      → IsSound limit o
      → IsSound limit (filtered Text-discrete (λ ip st. keeps window now st) k o)
  unfolding keeps
  cleanup-IsSound k none v = tt
  cleanup-IsSound k (some st) v = ground arith
