-- ===== src/Server/Caches/Flight/Switches.antt =====
-- What a switch of the outbound does to the statuses that requests report.
use xray_web_maneger.Common.{
  ℕ, ◌+◌, ◌<◌, ◌≡◌, ◌≢◌, ◌⊎◌, inl, inr, refl, subst, sym, Text, Bool, true, Option, none, some,
  List, [], ◌∷◌, arith, guard_lem, Option-cases, Bool-cases,
}
use xray_web_maneger.Server.Outbounds.{OutboundStatusData, validate_outbound_tag}
use xray_web_maneger.Server.Caches.{
  observatory_cache_ttl, Caches, ObservatoryAnswer, answered, snapshot, update_obs_cache,
  handle_switch_outbound, is_fresh, Times, get_all_outbound_statuses,
}
use xray_web_maneger.Server.Caches.Lifetimes.{handle_switch_outbound_lem}
use xray_web_maneger.Server.Caches.Flight.{
  Flight, idle, asking, landed, holding, Caching, Action, begins, lands, answers, writes, switches,
  step, run,
}

-- The observatory gives this answer among the actions.
abbrev pub IsGiven : ObservatoryAnswer → List Action → Type 0
IsGiven a [] = ⊥
IsGiven a (answers b ∷ acts) = (b ≡ a) ⊎ IsGiven a acts
IsGiven a (begins ∷ acts) = IsGiven a acts
IsGiven a (lands ∷ acts) = IsGiven a acts
IsGiven a (writes now ∷ acts) = IsGiven a acts
IsGiven a (switches tag accepted ∷ acts) = IsGiven a acts

module _ (P : List OutboundStatusData → Type 0) where
  abbrev IsHeld : Flight → Type 0
  IsHeld idle = Unit {0}
  IsHeld asking = Unit {0}
  IsHeld landed = Unit {0}
  IsHeld (holding a) = P (answered a)

  abbrev IsCached : Caches → Type 0
  IsCached c = (c.obs_cache.timestamp ≡ none) ⊎ P c.obs_cache.content

  -- P holds of what the cache has, if it has been written, and of the answer to be written.
  abbrev Holds : Caching → Type 0
  Holds s = IsCached s.caches × IsHeld s.flight

  switched-IsCached :
      (c : Caches) (tag : Option Text) (accepted : Bool)
      → IsCached c
      → IsCached (handle_switch_outbound c tag accepted).0
  switched-IsCached c tag accepted h = elim (handle_switch_outbound_lem c tag accepted) [
    | inl (_, same) ↦ subst IsCached (sym same) h
    | inr (_, _, _, _, inl (_, same)) ↦ subst IsCached (sym same) h
    | inr (_, _, _, _, inr (_, _, emptied, _)) ↦ inl emptied
  ]

  step-Holds :
      (s t : Caching) (a : Action)
      → ((b : ObservatoryAnswer) → IsGiven b (a ∷ []) → P (answered b))
      → Holds s
      → step s a ≡ some t
      → Holds t
  unfolding step update_obs_cache
  step-Holds s t a new (cached, held) e = by_flight a s.flight new held e
    where
      by_flight :
          (a : Action) (f : Flight)
          → ((b : ObservatoryAnswer) → IsGiven b (a ∷ []) → P (answered b))
          → IsHeld f
          → step (record { caches = s.caches; flight = f }) a ≡ some t
          → Holds t
      by_flight begins idle new held e = subst Holds (guard_lem true e).1 (cached, tt)
      by_flight begins asking new held e = cc
      by_flight begins landed new held e = cc
      by_flight begins (holding x) new held e = cc
      by_flight lands landed new held e = subst Holds (guard_lem true e).1 (cached, tt)
      by_flight lands idle new held e = cc
      by_flight lands asking new held e = cc
      by_flight lands (holding x) new held e = cc
      by_flight (answers b) asking new held e =
          subst Holds (guard_lem true e).1 (cached, new b (inl refl))
      by_flight (answers b) idle new held e = cc
      by_flight (answers b) landed new held e = cc
      by_flight (answers b) (holding x) new held e = cc
      by_flight (writes now) (holding x) new held e =
          subst Holds (guard_lem true e).1 (inr held, tt)
      by_flight (writes now) idle new held e = cc
      by_flight (writes now) asking new held e = cc
      by_flight (writes now) landed new held e = cc
      by_flight (switches tag accepted) f new held e =
          subst Holds (guard_lem true e).1 (switched-IsCached s.caches tag accepted cached, held)

  first-IsGiven :
      (a : Action) (acts : List Action) (b : ObservatoryAnswer)
      → IsGiven b (a ∷ [])
      → IsGiven b (a ∷ acts)
  first-IsGiven (answers x) acts b (inl e) = inl e
  first-IsGiven (answers x) acts b (inr h) = elim h [ ]
  first-IsGiven begins acts b h = elim h [ ]
  first-IsGiven lands acts b h = elim h [ ]
  first-IsGiven (writes now) acts b h = elim h [ ]
  first-IsGiven (switches tag accepted) acts b h = elim h [ ]

  later-IsGiven :
      (a : Action) (acts : List Action) (b : ObservatoryAnswer)
      → IsGiven b acts
      → IsGiven b (a ∷ acts)
  later-IsGiven begins acts b h = h
  later-IsGiven lands acts b h = h
  later-IsGiven (answers x) acts b h = inr h
  later-IsGiven (writes now) acts b h = h
  later-IsGiven (switches tag accepted) acts b h = h

  run-Holds :
      (s t : Caching) (acts : List Action)
      → ((b : ObservatoryAnswer) → IsGiven b acts → P (answered b))
      → Holds s
      → run s acts ≡ some t
      → Holds t
  unfolding run
  run-Holds s t [] new h e = subst Holds (guard_lem true e).1 h
  run-Holds s t (a ∷ acts) new h e = elim (Option-cases (step s a)) [
    | inl n ↦ absurd (ground (arith, e, n))
    | inr (u, n) ↦
        run-Holds u t acts (λ b g. new b (later-IsGiven a acts b g))
          (step-Holds s u a (λ b g. new b (first-IsGiven a acts b g)) h n) (rw (n, run) at e)
  ]

  snapshot_lem :
      (c : Caches) (now : ℕ) (xs : List OutboundStatusData)
      → IsCached c
      → snapshot c.obs_cache now ≡ some xs
      → P xs
  snapshot_lem c now xs (inl e) s = absurd (ground (arith, e, s))
  snapshot_lem c now xs (inr h) s = elim (Bool-cases (is_fresh c.obs_cache.timestamp now)) [
    | inl f ↦ subst P (ground (arith, f, s)) h
    | inr f ↦ absurd (ground (arith, f, s))
  ]

-- Xray accepts a switch while no answer of the observatory waits to be written; whatever calls and
-- switches follow, what a request then takes from the cache is an answer that the observatory has
-- given after that switch. A call that has asked but has no answer yet may be in flight.
pub switch_refreshes_statuses :
    (s t : Caching) (tag : Text) (acts : List Action) (now : ℕ) (xs : List OutboundStatusData)
    → validate_outbound_tag tag ≡ none
    → ((a : ObservatoryAnswer) → s.flight ≢ holding a)
    → run s (switches (some tag) true ∷ acts) ≡ some t
    → snapshot t.caches.obs_cache now ≡ some xs
    → (a : ObservatoryAnswer) × IsGiven a acts × (xs ≡ answered a)
unfolding step run handle_switch_outbound
switch_refreshes_statuses s t tag acts now xs valid none_waits e there =
    let P = λ (ys : List OutboundStatusData).
      (a : ObservatoryAnswer) × IsGiven a acts × (ys ≡ answered a) in
    let u = record s { caches = (handle_switch_outbound s.caches (some tag) true).0 } in
    let (emptied, waits) =
      run-Holds P u t acts (λ b g. (b, g, refl))
        (inl (ground (arith, valid)), by_flight P s.flight none_waits) e in
    snapshot_lem P t.caches now xs emptied there
  where
    by_flight :
        (P : List OutboundStatusData → Type 0) (f : Flight)
        → ((a : ObservatoryAnswer) → f ≢ holding a)
        → IsHeld P f
    by_flight P idle h = tt
    by_flight P asking h = tt
    by_flight P landed h = tt
    by_flight P (holding a) h = absurd (h a refl)

-- A call for the statuses begins when none is in flight. If the observatory answers it before a
-- switch that Xray accepts, and it writes that answer afterwards, it undoes what the switch has done
-- to the cache: every request that looks earlier than two seconds after the write reports the old
-- answer, and does not ask the observatory.
pub late_write_undoes_switch :
    (s : Caching) (tag : Text) (old later : ObservatoryAnswer) (write : ℕ) (at : Times)
    → validate_outbound_tag tag ≡ none
    → s.flight ≡ idle
    → at.look < write + observatory_cache_ttl
    → (t : Caching) × (run s
          (begins ∷ answers old ∷ switches (some tag) true ∷ writes write ∷ lands ∷ [])
        ≡ some t)
      × (get_all_outbound_statuses true t.caches at later ≡ (t.caches, answered old))
unfolding step run handle_switch_outbound update_obs_cache get_all_outbound_statuses
late_write_undoes_switch s tag old later write at valid nobody soon = (
  record {
    caches =
        update_obs_cache (handle_switch_outbound s.caches (some tag) true).0 (answered old) write;
    flight = idle;
  },
  ground (arith, valid, nobody),
  ground (arith, soon),
)
