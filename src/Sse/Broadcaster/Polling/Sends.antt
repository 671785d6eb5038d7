-- ===== src/Sse/Broadcaster/Polling/Sends.antt =====
-- What a run of failures sends, what a recovery sends, and the bound of the channels.
use xray_web_maneger.Common.{
  ℕ, zero, suc, ◌+◌, ◌-◌, ◌≤◌, ◌≡◌, ◌≢◌, ◌⊎◌, inl, inr, refl, Text, text_eq_refl, Option, none,
  some, List, [], ◌∷◌, ◌++◌, length, replicate, take, arith, All, Option-cases, length-snoc,
}
use xray_web_maneger.Sse.Broadcaster.Polling.{
  max_consecutive_errors, channel_capacity, LoopState, Shared, send, fan_out, is_repeated,
  failed_tick, fetched_tick, next_tick, tick, sends,
}

-- The channels hold at most their capacity.
abbrev pub AreBounded : {T : Type 0} → List (List T) → Type 0
AreBounded channels = All (λ c. length c ≤ channel_capacity) channels

-- Ticks that fail, one after the other.
abbrev pub failures : {T : Type 0} → ℕ → List (Option T × ℕ)
failures n = replicate n (none, 0)

module _ {T : Type 0} (marshal : T → Option Text) (enrich : Option (T → T → ℕ → Option ℕ → T))
    (degraded : Option T) where
  fan_out-AreBounded :
      (x : T) (channels : List (List T)) → AreBounded channels → AreBounded (fan_out x channels)
  unfolding fan_out send
  fan_out-AreBounded x [] h = tt
  fan_out-AreBounded x (c ∷ rest) (a, h) =
      (ground (arith, length-snoc c x), fan_out-AreBounded x rest h)

  -- A tick never fills a channel beyond its capacity, so that a send never blocks; a tick that fails
  -- leaves the last broadcast as it is.
  pub tick-AreBounded :
      (l : LoopState T) (s : Shared T) (fetched : Option T) (tick_at : ℕ)
      → AreBounded s.channels
      → let r = tick marshal enrich degraded l s fetched tick_at in
        AreBounded r.1.channels
        × ((fetched ≢ none)
            ⊎ ((r.1.last_broadcast ≡ s.last_broadcast) × (r.1.has_last ≡ s.has_last)))
  unfolding tick
  tick-AreBounded l s none tick_at h =
      elim (Option-cases (failed_tick marshal enrich degraded l).1) [
        | inl e ↦ rw (e, tick) (h, inr (refl, refl))
        | inr (event, e) ↦ rw (e, tick) (fan_out-AreBounded event s.channels h, inr (refl, refl))
      ]
  tick-AreBounded l s (some payload) tick_at h =
      elim (Option-cases (fetched_tick marshal enrich degraded l payload tick_at).1) [
        | inl e ↦ rw (e, tick) (h, inl (λ e. absurd (ground arith)))
        | inr (broadcast, e) ↦
            rw (e, tick)
              (fan_out-AreBounded broadcast s.channels h, inl (λ e. absurd (ground arith)))
      ]

  -- After the third failure nothing is sent any more.
  failures-silent :
      (n : ℕ) (l : LoopState T)
      → max_consecutive_errors ≤ l.consecutive_errors
      → sends marshal enrich degraded l (failures n) ≡ replicate n none
  unfolding next_tick failed_tick
  failures-silent zero l h = refl
  failures-silent (suc n) l h =
      ground (arith, failures-silent n (record l { consecutive_errors = l.consecutive_errors + 1 }))

  take_nil : (n : ℕ) → ◌≡◌ {A = List (Option T)} (take n []) []
  take_nil zero = refl
  take_nil (suc n) = refl

  -- In a run of failures that begins without one, the degraded event is sent at the third failure
  -- and at no other.
  pub failures_send_once :
      (n : ℕ) (l : LoopState T)
      → l.consecutive_errors ≡ 0
      → sends marshal enrich degraded l (failures n)
        ≡ take n (none ∷ none ∷ degraded ∷ []) ++ replicate (n - 3) none
  unfolding next_tick failed_tick
  failures_send_once zero l h = refl
  failures_send_once (suc zero) l h = ground arith
  failures_send_once (suc (suc zero)) l h = ground arith
  failures_send_once (suc (suc (suc n))) l h =
      let rest : suc (suc (suc n)) - 3 ≡ n = omega arith in
      rw
        (h, rest, failures-silent n (record l { consecutive_errors = 3 }) (omega arith), take_nil n)
        refl

  -- When the fetch recovers after a degraded event with a payload that marshals as the one before
  -- the failures, nothing is sent: the subscribers keep the degraded event.
  pub recovery_suppressed :
      (l : LoopState T) (payload : T) (json : Text) (tick_at : ℕ)
      → l.consecutive_errors ≡ 0
      → l.prev_json ≡ some json
      → marshal payload ≡ some json
      → sends marshal enrich degraded l (failures 3 ++ (some payload, tick_at) ∷ [])
        ≡ none ∷ none ∷ degraded ∷ none ∷ []
  unfolding next_tick failed_tick fetched_tick is_repeated
  recovery_suppressed l payload json tick_at h p m = ground (arith, text_eq_refl json)
