-- ===== src/Middleware/Auth/Racing/Address.antt =====
-- What a check and a failure do for the address that they are about, by what the limiter holds for it.
use xray_web_maneger.Common.{
  ℕ, ◌+◌, ◌-◌, ◌≤◌, ◌<◌, ◌≡◌, ◌⊎◌, inl, inr, refl, Text, Text-discrete, Bool, true, false, not,
  ◌&&◌, ◌==◌, Option, none, some, ltb, if◌then◌else◌, arith, guard_lem, ltb→lt, Option-cases,
  Bool-cases,
}
use xray_web_maneger.Common.Assoc.{filtered}
use xray_web_maneger.Middleware.Auth.{AuthState, fail_once, keeps}
use xray_web_maneger.Middleware.Auth.Lockout.{block, or_fresh, IsSound, spare}

-- A block of the address, if there is one, lasts until `last`.
abbrev pub IsLive : ℕ → ℕ → Option AuthState → Type 0
IsLive window last none = Unit
IsLive window last (some st) = elim st.blocked_at [ none ↦ Unit {0} | some at ↦ last < at + window ]

-- The guesses that may still come, with `s` failures to spare and `p` requests that are pending.
abbrev pub to_come : ℕ → ℕ → ℕ → ℕ
to_come most s p = if s == 0 then 0 else s + most - (1 + p)

module _ (limit window first last now : ℕ) (p : 1 ≤ limit) (a : first ≤ now) (b : now ≤ last)
    (c : last < first + window) where
  -- A check refuses and leaves the address as it is, or lets the request pass.
  pub block_lem :
      (o : Option AuthState)
      → IsSound limit o
      → let r = block window now o in
        ((r.1 ≡ true) × (r.0 ≡ o))
        ⊎ ((r.1 ≡ false)
            × (spare limit window first last r.0 ≡ spare limit window first last o)
            × (1 ≤ spare limit window first last o)
            × IsLive window last r.0
            × IsSound limit r.0)
  block_lem none v = inr (refl, refl, p, tt, tt)
  block_lem (some st) v = elim (Option-cases st.blocked_at) [
    | inl e ↦ inr (ground arith)
    | inr (at, e) ↦ elim (Bool-cases (ltb now (at + window))) [
      | inl f ↦ inl (ground arith)
      | inr f ↦ inr (ground arith)
    ]
  ]

  -- A failure takes one to spare, unless none is left.
  pub fail_lem :
      (o : Option AuthState)
      → IsSound limit o
      → IsLive window last o
      → let r = some (fail_once limit now (or_fresh o)) in
        ((spare limit window first last r ≡ 0)
          ⊎ (spare limit window first last r + 1 ≤ spare limit window first last o))
        × IsLive window last r
        × IsSound limit r
  unfolding fail_once
  fail_lem none v live = ground arith
  fail_lem (some st) v live = ground arith

  pub clean-IsLive :
      (k : Text) (o : Option AuthState)
      → IsLive window last o
      → IsLive window last (filtered Text-discrete (λ ip st. keeps window now st) k o)
  unfolding keeps
  clean-IsLive k none live = tt
  clean-IsLive k (some st) live = ground arith

pub block_cong :
    (now : ℕ) {window window' : ℕ} {o o' : Option AuthState}
    → window ≡ window'
    → o ≡ o'
    → block window now o ≡ block window' now o'
block_cong now e f = rw (e, f)

pub fail_cong :
    (now : ℕ) {limit limit' : ℕ} {o o' : Option AuthState}
    → limit ≡ limit'
    → o ≡ o'
    → some (fail_once limit now (or_fresh o)) ≡ some (fail_once limit' now (or_fresh o'))
fail_cong now e f = rw (e, f)

pub spare_le :
    (limit window first last : ℕ) (o : Option AuthState) → spare limit window first last o ≤ limit
spare_le limit window first last none = omega arith
spare_le limit window first last (some st) = ground arith

-- What the answer of a check comes to.
pub check_cases :
    {A : Type 0} (blocked wrong : Bool) (pending most : ℕ) (x y t : A)
    → (if not blocked && wrong then if ltb pending most then some x else none else some y) ≡ some t
    → ((y ≡ t) × ((not blocked && wrong) ≡ false))
      ⊎ ((blocked ≡ false) × (pending < most) × (x ≡ t))
check_cases true wrong pending most x y t e = inl ((guard_lem true e).1, refl)
check_cases false false pending most x y t e = inl ((guard_lem true e).1, refl)
check_cases false true pending most x y t e =
    let (h, f) = guard_lem (ltb pending most) e in inr (refl, ltb→lt pending most h, f)
