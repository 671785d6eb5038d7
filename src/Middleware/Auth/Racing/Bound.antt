-- ===== src/Middleware/Auth/Racing/Bound.antt =====
-- How many wrong credentials of an address are compared while requests overlap.
use xray_web_maneger.Common.{
  ℕ, ◌+◌, ◌≤◌, ◌<◌, ◌≡◌, inl, inr, refl, Text, true, Option, some, List, [], ◌∷◌, length, arith,
  All, guard_lem, Option-cases,
}
use xray_web_maneger.Middleware.RateLimit.{max_tracked_ips}
use xray_web_maneger.Middleware.Auth.{AuthState, SimpleAuthRateLimit}
use xray_web_maneger.Middleware.Auth.Lockout.{found}
use xray_web_maneger.Middleware.Auth.Invariant.{IsValid, found-IsSound}
use xray_web_maneger.Middleware.Auth.Racing.Address.{spare_le}
use xray_web_maneger.Middleware.Auth.Racing.{
  Section, checks, fails, cleans, Guessing, begun, advance, advance_all,
}
use xray_web_maneger.Middleware.Auth.Racing.Sections.{
  Fits, Goes, total, checks-Goes, fails-Goes, cleans-Goes,
}

abbrev pub time : Section → ℕ
time (checks ip now given) = now
time (fails ip victim now) = now
time (cleans now) = now

module _ (username password ip : Text) (most limit window first last : ℕ) (p : 1 ≤ limit)
    (c : last < first + window) where
  advance-Goes :
      (g t : Guessing) (o : Option AuthState) (s : Section)
      → Fits username password ip most limit window first last p c g o
      → (first ≤ time s) × (time s ≤ last)
      → length g.limiter.states < max_tracked_ips
      → advance username password ip most g s ≡ some t
      → Goes username password ip most limit window first last p c g o t
  advance-Goes g t o (checks j now given) f (a, b) r e =
      checks-Goes username password ip most limit window first last p c g o f now a b r t j given e
  advance-Goes g t o (fails j victim now) f (a, b) r e =
      fails-Goes username password ip most limit window first last p c g o f now a b r t j victim e
  advance-Goes g t o (cleans now) f (a, b) r e =
      cleans-Goes username password ip most limit window first last p c g o f now a b r t e

  advance_all-le :
      (g t : Guessing) (o : Option AuthState) (ss : List Section)
      → Fits username password ip most limit window first last p c g o
      → All (λ s. (first ≤ time s) × (time s ≤ last)) ss
      → length g.limiter.states + length ss ≤ max_tracked_ips
      → advance_all username password ip most g ss ≡ some t
      → t.guesses ≤ total username password ip most limit window first last p c g o
  unfolding advance_all
  advance_all-le g t o [] f times r e = ground (arith, (guard_lem true e).1)
  advance_all-le g t o (s ∷ ss) f (now, times) r e =
      elim (Option-cases (advance username password ip most g s)) [
        | inl n ↦ absurd (ground (arith, e, n))
        | inr (g', n) ↦
            let (q, f', size, less) = advance-Goes g g' o s f now (omega (arith, r)) n in
            omega (
              arith,
              less,
              advance_all-le g' t q ss f' times (omega (arith, r, size)) (rw (n, advance_all) at e),
            )
      ]

-- With requests of any addresses and cleanups in any order, a request's check and the record of its
-- failure apart, all within less than one block window: if at most `most` requests of an address
-- are between the two at a time, one or more, none is when this begins, and the map has room for
-- every section, so that nothing is evicted, then at most limit + most - 1 wrong credentials of the
-- address are let through to the comparison.
pub guesses-le :
    (username password ip : Text) (most first last : ℕ) (l : SimpleAuthRateLimit)
    (ss : List Section) (t : Guessing)
    → 1 ≤ most
    → IsValid l
    → last < first + l.block_window
    → All (λ s. (first ≤ time s) × (time s ≤ last)) ss
    → length l.states + length ss ≤ max_tracked_ips
    → advance_all username password ip most (begun l) ss ≡ some t
    → t.guesses + 1 ≤ l.limit + most
guesses-le username password ip most first last l ss t one v c times room e =
    let bound =
      advance_all-le username password ip most l.limit l.block_window first last v.positive c
        (begun l) t (found l ip) ss
        (record {
          unique = v.unique;
          limits = refl;
          windows = refl;
          mine = refl;
          sound = found-IsSound l ip (found l ip) v refl;
          live = inl refl;
          most_pending = omega arith;
        })
        times room e in
    ground (arith, bound, one, spare_le l.limit l.block_window first last (found l ip), v.positive)
