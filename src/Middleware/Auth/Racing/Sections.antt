-- ===== src/Middleware/Auth/Racing/Sections.antt =====
-- What one section under the mutex does to the guesses that are still to come.
use xray_web_maneger.Common.{
  ℕ, ◌+◌, ◌-◌, ◌≤◌, ◌<◌, ◌≡◌, ◌⊎◌, inl, inr, ap, subst, sym, ◌∙◌, Text, Text-discrete, true, not,
  ◌&&◌, Option, none, some, length, ltb, ite, if◌then◌else◌, arith, guard_lem, ltb→lt,
}
use xray_web_maneger.Common.Assoc.{
  filtered, HasUniqueKeys, lookup-retain, length-retain-le, retain-HasUniqueKeys,
}
use xray_web_maneger.Middleware.RateLimit.{max_tracked_ips}
use xray_web_maneger.Middleware.Auth.{
  AuthState, is_auth_blocked, record_auth_failure, fail_once, keeps, cleanup_rate_limiter,
}
use xray_web_maneger.Middleware.Auth.Lockout.{
  found, block, or_fresh, IsSound, spare, cleanup-spare, cleanup-IsSound,
}
use xray_web_maneger.Middleware.Auth.Frame.{
  Changed, is_auth_blocked-Changed, length-is_auth_blocked-le, record_auth_failure-Changed,
}
use xray_web_maneger.Middleware.Auth.Guesses.{mismatch}
use xray_web_maneger.Middleware.Auth.Racing.Address.{
  IsLive, to_come, block_lem, fail_lem, clean-IsLive, block_cong, fail_cong, check_cases,
}
use xray_web_maneger.Middleware.Auth.Racing.{checks, fails, cleans, Guessing, advance}

module _ (username password ip : Text) (most limit window first last : ℕ) (p : 1 ≤ limit)
    (c : last < first + window) where
  -- What holds while requests overlap, where the limiter holds `o` for the address.
  pub record Fits (g : Guessing) (o : Option AuthState) : Type 0 where
    pub unique : HasUniqueKeys Text-discrete g.limiter.states
    pub limits : g.limiter.limit ≡ limit
    pub windows : g.limiter.block_window ≡ window
    pub mine : found g.limiter ip ≡ o
    pub sound : IsSound limit o
    pub live : (g.pending ≡ 0) ⊎ IsLive window last o
    pub most_pending : g.pending ≤ most

  -- A bound on the guesses at the end.
  abbrev pub total : Guessing → Option AuthState → ℕ
  total g o = g.guesses + to_come most (spare limit window first last o) g.pending

  -- What a section leaves.
  abbrev pub Goes : Guessing → Option AuthState → Guessing → Type 0
  Goes g o t =
      (q : Option AuthState) × Fits t q
      × (length t.limiter.states ≤ length g.limiter.states + 1)
      × (total t q ≤ total g o)

  -- A limiter that has changed, and at the address only from `o` to `q`.
  Changed-Fits :
      (g t : Guessing) (o q : Option AuthState) (j : Text) (r : Option AuthState)
      → Fits g o
      → Changed g.limiter t.limiter j r
      → found t.limiter ip ≡ q
      → IsSound limit q
      → (t.pending ≡ 0) ⊎ IsLive window last q
      → t.pending ≤ most
      → Fits t q
  Changed-Fits g t o q j r f ch mine sound live fits = record {
    unique = ch.unique;
    limits = ch.limit ∙ f.limits;
    windows = ch.block_window ∙ f.windows;
    mine = mine;
    sound = sound;
    live = live;
    most_pending = fits;
  }

  module _ (g : Guessing) (o : Option AuthState) (f : Fits g o) (now : ℕ) (a : first ≤ now)
      (b : now ≤ last) (r : length g.limiter.states < max_tracked_ips) where
    pub cleans-Goes :
        (t : Guessing) → advance username password ip most g (cleans now) ≡ some t → Goes g o t
    unfolding advance cleanup_rate_limiter
    cleans-Goes t e =
        let kept = filtered Text-discrete (λ j st. keeps window now st) ip o in
        let keep = λ (j : Text) (st : AuthState). keeps g.limiter.block_window now st in
        subst (Goes g o) (guard_lem true e).1 (
          kept,
          record {
            unique = retain-HasUniqueKeys Text-discrete keep g.limiter.states f.unique;
            limits = f.limits;
            windows = f.windows;
            mine =
                lookup-retain Text-discrete keep ip g.limiter.states f.unique
                ∙ rw (f.windows, f.mine);
            sound = cleanup-IsSound limit window first last now p a b c ip o f.sound;
            live = elim f.live [
              | inl h ↦ inl h
              | inr h ↦ inr (clean-IsLive limit window first last now p a b c ip o h)
            ];
            most_pending = f.most_pending;
          },
          omega (arith, length-retain-le Text-discrete keep g.limiter.states),
          ground (arith, cleanup-spare limit window first last now p a b c ip o f.sound),
        )

    pub checks-Goes :
        (t : Guessing) (j : Text) (given : Option (Text × Text))
        → advance username password ip most g (checks j now given) ≡ some t
        → Goes g o t
    unfolding advance
    checks-Goes t j given e = by_address (Text-discrete j ip) e
      where
        after : Guessing
        after = record g { limiter = (is_auth_blocked g.limiter j now).0 }

        guessed : Guessing
        guessed = record after { pending = g.pending + 1; guesses = g.guesses + 1 }

        size : length after.limiter.states ≤ length g.limiter.states + 1
        size = omega (arith, length-is_auth_blocked-le g.limiter j f.unique now)

        changed :
            Changed g.limiter after.limiter j
              (block g.limiter.block_window now (found g.limiter j)).0
            × ((is_auth_blocked g.limiter j now).1
                ≡ (block g.limiter.block_window now (found g.limiter j)).1)
        changed = is_auth_blocked-Changed g.limiter j f.unique now

        mine :
            j ≡ ip
            → (is_auth_blocked g.limiter j now).1 ≡ (block window now o).1
            → found after.limiter ip ≡ (block window now o).0
            → (if not (is_auth_blocked g.limiter j now).1 && mismatch username password given
                then if ltb g.pending most then some guessed else none
                else some after)
              ≡ some t
            → Goes g o t
        mine same blocked held h =
            elim (check_cases _ (mismatch username password given) g.pending most guessed after t
              h) [
                | inl (stays, _) ↦ elim (block_lem limit window first last now p a b c o f.sound) [
                  | inl (_, kept) ↦ subst (Goes g o) stays (
                    o,
                    Changed-Fits g after o o j _ f changed.0 (held ∙ kept) f.sound f.live
                        f.most_pending,
                    size,
                    omega arith,
                  )
                  | inr (_, left, _, live, sound) ↦ subst (Goes g o) stays (
                    (block window now o).0,
                    Changed-Fits g after o _ j _ f changed.0 held sound (inr live) f.most_pending,
                    size,
                    ground (arith, left),
                  )
                ]
                | inr (passes, there, goes) ↦
                    elim (block_lem limit window first last now p a b c o f.sound) [
                      | inl (refuses, _) ↦ absurd (ground (arith, passes, refuses, blocked))
                      | inr (_, left, some_left, live, sound) ↦ subst (Goes g o) goes (
                        (block window now o).0,
                        Changed-Fits g guessed o _ j _ f changed.0 held sound (inr live)
                            (omega (arith, there)),
                        size,
                        ground (arith, left, some_left, there),
                      )
                    ]
              ]

        by_address :
            (d : Dec (j ≡ ip))
            → ite d
                (if not (is_auth_blocked g.limiter j now).1 && mismatch username password given
                  then if ltb g.pending most then some guessed else none
                  else some after)
                (some after)
              ≡ some t
            → Goes g o t
        by_address (no ne) h = subst (Goes g o) (guard_lem true h).1 (
          o,
          Changed-Fits g after o o j _ f changed.0 (changed.0.others ip ne ∙ f.mine) f.sound f.live
              f.most_pending,
          size,
          omega arith,
        )
        by_address (yes same) h =
            let blocks = block_cong now f.windows (ap (found g.limiter) same ∙ f.mine) in
            mine same (changed.1 ∙ ap (λ x. x.1) blocks)
              (ap (found after.limiter) (sym same) ∙ changed.0.mine ∙ ap (λ x. x.0) blocks) h

    pub fails-Goes :
        (t : Guessing) (j victim : Text)
        → advance username password ip most g (fails j victim now) ≡ some t
        → Goes g o t
    unfolding advance
    fails-Goes t j victim e = by_address (Text-discrete j ip) e
      where
        after : Guessing
        after = record g { limiter = record_auth_failure g.limiter j victim now }

        recorded : Guessing
        recorded = record after { pending = g.pending - 1 }

        changed :
            Changed g.limiter after.limiter j
              (some (fail_once g.limiter.limit now (or_fresh (found g.limiter j))))
        changed = record_auth_failure-Changed g.limiter j f.unique victim now r

        mine :
            1 ≤ g.pending
            → found after.limiter ip ≡ some (fail_once limit now (or_fresh o))
            → Goes g o recorded
        mine pending held = elim f.live [
          | inl nobody ↦ absurd (omega (arith, nobody))
          | inr live ↦
              let (fewer, live', sound) =
                fail_lem limit window first last now p a b c o f.sound live in
              (
                some (fail_once limit now (or_fresh o)),
                Changed-Fits g recorded o _ j _ f changed held sound (inr live')
                    (omega (arith, f.most_pending)),
                changed.size,
                ground (arith, fewer, pending),
              )
        ]

        by_address :
            (d : Dec (j ≡ ip))
            → ite d (if ltb 0 g.pending then some recorded else none) (some after) ≡ some t
            → Goes g o t
        by_address (no ne) h = subst (Goes g o) (guard_lem true h).1 (
          o,
          Changed-Fits g after o o j _ f changed (changed.others ip ne ∙ f.mine) f.sound f.live
              f.most_pending,
          changed.size,
          omega arith,
        )
        by_address (yes same) h =
            let (there, goes) = guard_lem (ltb 0 g.pending) h in
            subst (Goes g o) goes (
              mine (ltb→lt 0 g.pending there) (
                ap (found after.limiter) (sym same)
                ∙ changed.mine
                ∙ fail_cong now f.limits (ap (found g.limiter) same ∙ f.mine)))
