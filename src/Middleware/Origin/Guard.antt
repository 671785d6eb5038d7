-- ===== src/Middleware/Origin/Guard.antt =====
-- CheckOrigin: which requests pass.
use xray_web_maneger.Common.{
  ℕ, ◌≡◌, ◌≢◌, ◌↔◌, ◌⊎◌, inl, inr, refl, sym, ap, ◌∙◌, String, Text, Bool-cases, text_eq_iff,
  is_empty, true, false, Option, List, [], ◌∷◌, ◌++◌, reverse, arith, All,
}
use mathlib.Core.List.{reverse-append, reverse-reverse}
use xray_web_maneger.Common.Strings.{trim_right, drop_while_eq}
use xray_web_maneger.Config.{Url}
use xray_web_maneger.Middleware.Http.{Outcome, Request, Response, reply, forward}
use xray_web_maneger.Middleware.Origin.{
  is_in, is_nil, is_safe_method, missing_origin, invalid_origin, cors_headers, request_origin,
  with_origin, check_origin,
}

drop_while_eq-head : (c : ℕ) (s t : Text) → drop_while_eq c s ≢ c ∷ t
unfolding drop_while_eq
drop_while_eq-head c [] t e = absurd (ground arith)
drop_while_eq-head c (d ∷ s) t e = ground (arith, drop_while_eq-head c s t)

trim_right-end : (s a : Text) (c : ℕ) → trim_right s c ≢ a ++ c ∷ []
unfolding trim_right
trim_right-end s a c e =
    drop_while_eq-head c (reverse s) (reverse a) (
      sym (reverse-reverse (drop_while_eq c (reverse s)))
      ∙ ap reverse e
      ∙ reverse-append a (c ∷ []))

-- The origin is written with a slash at its end.
abbrev pub EndsWithSlash : Text → Type 0
EndsWithSlash o = (a : Text) × (o ≡ a ++ b'/' ∷ [])

is_in-trimmed :
    (s : Text) (allowed : List Text)
    → All EndsWithSlash allowed
    → is_in (trim_right s b'/') allowed ≡ false
is_in-trimmed s [] h = refl
is_in-trimmed s (o ∷ allowed) ((a, e), h) =
    let other : o ≢ trim_right s b'/' = λ f. trim_right-end s a b'/' (sym f ∙ e) in
    ground (arith, text_eq_iff o (trim_right s b'/'), is_in-trimmed s allowed h)

-- The next handler is called, with some headers set.
abbrev pub Passes : Outcome → Type 0
Passes o = (headers : List (String × Text)) × (o ≡ forward headers)

-- The request is answered 403.
abbrev pub IsForbidden : Outcome → Type 0
IsForbidden o = (answer : Response) × (o ≡ reply answer) × (answer.status ≡ 403)

-- A request that is answered 403 does not pass.
refused {ℓ} : {P : Type ℓ} → {o : Outcome} → IsForbidden o → (P → ⊥) → Passes o ↔ P
refused (answer, e, _) fails =
    (λ (headers, f). absurd (ground (arith, e, f)), λ p. absurd (fails p))

module _ (parse_url : Text → Option Url) where
  -- With allowed origins configured, a request that may change state passes, with whatever headers,
  -- exactly if it states an origin which, without slashes at its end, is one of them; if it passes it
  -- is with the CORS headers of that origin, and if not it is answered 403.
  pub unsafe_forward_iff :
      (allowed : List Text) (r : Request) (origin : Text)
      → is_nil allowed ≡ false
      → is_safe_method r.method ≡ false
      → request_origin parse_url r ≡ origin
      → let o = check_origin parse_url allowed r in
        (Passes o ↔ ((is_empty origin ≡ false) × (is_in (trim_right origin b'/') allowed ≡ true)))
        × ((o ≡ forward (cors_headers (trim_right origin b'/'))) ⊎ IsForbidden o)
  unfolding check_origin with_origin
  unsafe_forward_iff allowed r origin some_allowed unsafe same =
      elim (Bool-cases (is_empty origin)) [
        | inl missing ↦ (
          refused (missing_origin, ground arith, refl) (λ (e, _). ground (arith, e)),
          inr (missing_origin, ground arith, refl),
        )
        | inr stated ↦ elim (Bool-cases (is_in (trim_right origin b'/') allowed)) [
          | inr other ↦ (
            refused (invalid_origin, ground arith, refl) (λ (_, e). ground (arith, e)),
            inr (invalid_origin, ground arith, refl),
          )
          | inl known ↦ (
            (λ _. (stated, known), λ _. (cors_headers (trim_right origin b'/'), ground arith)),
            inl (ground arith),
          )
        ]
      ]

  -- If every allowed origin is written with a slash at its end, every request that states an origin
  -- is refused with 403, also one from such an origin.
  pub trailing_slash_refused :
      (allowed : List Text) (r : Request)
      → is_nil allowed ≡ false
      → All EndsWithSlash allowed
      → is_empty (request_origin parse_url r) ≡ false
      → check_origin parse_url allowed r ≡ reply invalid_origin
  unfolding check_origin with_origin
  trailing_slash_refused allowed r some_allowed slashes stated =
      ground (arith, is_in-trimmed (request_origin parse_url r) allowed slashes)
