-- ===== src/Server/Streams/Registered.antt =====
-- server/handlerstats.go: what is registered belongs to a handler that has not let it go.
use xray_web_maneger.Common.{
  ℕ, ◌≤◌, ◌≡◌, ◌≢◌, ◌⊎◌, inl, inr, sym, ap, ◌∙◌, subst, Bool, true, false, not, Option, none, some,
  update, arith, guarded_lem, map_some_lem, mem,
}
use xray_web_maneger.Sse.Broadcaster
use xray_web_maneger.Sse.Broadcaster.{
  Waiter, new_broadcaster, find_waiter, drop_waiter, after_wait, subscribe,
}
use xray_web_maneger.Sse.Broadcaster.Phases.{is_stop}
use xray_web_maneger.Server.Shutdown
use xray_web_maneger.Server.Shutdown.{Running, broadcasts, streams}
use xray_web_maneger.Server.Streams.{
  Place, absent, added, joining, streaming, leaving, Serving, is_handlers, moved,
}
use xray_web_maneger.Server.Streams.Shrinks.{step-Shrinks}

-- Between Add and Remove.
abbrev pub is_registered : Place → Bool
is_registered added = true
is_registered (joining ch) = true
is_registered (streaming ch) = true
is_registered leaving = true
is_registered _ = false

-- The channel that the handler has, from Subscribe to Unsubscribe.
abbrev pub channel_of : Place → Option ℕ
channel_of (joining ch) = some ch
channel_of (streaming ch) = some ch
channel_of _ = none

pub record IsServed (r : Running) (handlers : ℕ → Place) : Type 0 where
  pub reach : Shutdown.Reach r
  pub fresh : (c : ℕ) → r.manager.next ≤ c → handlers c ≡ absent
  pub registered : (c : ℕ) → mem c r.manager.connections ≡ true → is_registered (handlers c) ≡ true
  pub known :
      (c : ℕ)
      → is_registered (handlers c) ≡ true
      → (mem c r.manager.connections ≡ true) ⊎ (mem c r.manager.closed ≡ true)
  pub owned :
      (ch : ℕ)
      → mem ch r.broadcaster.subscribers ≡ true
      → (c : ℕ) × (channel_of (handlers c) ≡ some ch)

abbrev pub Served : Serving → Type 0
Served v = IsServed v.running v.handlers

-- Another handler's place is not changed by a step.
elsewhere :
    (handlers : ℕ → Place) (c e : ℕ) (p : Place) → e ≢ c → update handlers c p e ≡ handlers e
elsewhere handlers c e p n = ground arith

pub updated : (handlers : ℕ → Place) (c : ℕ) (p : Place) → update handlers c p c ≡ p
updated handlers c p = ground arith

-- A handler that has no channel may move without one.
pub still_owned :
    (handlers : ℕ → Place) (c ch : ℕ) (p : Place)
    → channel_of (handlers c) ≢ some ch
    → (e : ℕ) × (channel_of (handlers e) ≡ some ch)
    → (e : ℕ) × (channel_of (update handlers c p e) ≡ some ch)
still_owned handlers c ch p n (e, h) =
    let other : e ≢ c = λ same. n (rw (sym same) h) in (e, rw (elsewhere handlers c e p other) h)

pub others-Served :
    (v : Serving) (a : Shutdown.Action) (r : Running)
    → Served v
    → is_handlers a ≡ false
    → Shutdown.step v.running a ≡ some r
    → IsServed r v.handlers
others-Served v a r s k e =
    let t = step-Shrinks a v.running r k e in
    record {
      reach = Shutdown.next_step a s.reach e;
      fresh = λ c h. s.fresh c (omega (arith, t.next));
      registered = λ c h. s.registered c (t.connections c h);
      known = λ c h. elim (s.known c h) [
        | inl open_ ↦ t.told c open_
        | inr told ↦ inr (t.closed c told)
      ];
      owned = λ ch h. s.owned ch (t.subscribers ch h);
    }

-- A handler's call of the broadcaster, at which it stays registered with the manager.
broadcasts-Served :
    (v : Serving) (c : ℕ) (p q : Place) (a : Broadcaster.Action) (b : Broadcaster.State)
    → Served v
    → v.handlers c ≡ p
    → is_registered p ≡ true
    → is_registered q ≡ true
    → Shutdown.step v.running (broadcasts a) ≡ some (record (v.running) { broadcaster = b })
    → ((ch : ℕ)
        → mem ch b.subscribers ≡ true
        → (e : ℕ) × (channel_of (update v.handlers c q e) ≡ some ch))
    → IsServed (record (v.running) { broadcaster = b }) (update v.handlers c q)
broadcasts-Served v c p q a b s at was is e owned = record {
  reach = Shutdown.next_step (broadcasts a) s.reach e;
  fresh = λ x h. ground (arith, s.fresh x, s.fresh c);
  registered = λ x h. ground (arith, s.registered x);
  known = λ x h. ground (arith, s.known x, s.known c);
  owned = owned;
}

-- A handler's call of the broadcaster is a step of the broadcaster.
pub call_taken :
    (v t : Serving) (c : ℕ) (q : Place) (a : Broadcaster.Action)
    → is_stop a ≡ false
    → moved v (broadcasts a) c q ≡ some t
    → (b : Broadcaster.State) × (Broadcaster.step v.running.broadcaster a ≡ some b)
      × (Shutdown.step v.running (broadcasts a) ≡ some (record (v.running) { broadcaster = b }))
      × (record {
        running = record (v.running) { broadcaster = b };
        handlers = update v.handlers c q;
      }
          ≡ t)
unfolding Shutdown.step
call_taken v t c q a other e =
    let (r, steps, same) = map_some_lem (Shutdown.step v.running (broadcasts a)) _ t e in
    let (_, lifts) = guarded_lem (not (is_stop a)) steps in
    let (b, inner, kept) = map_some_lem (Broadcaster.step v.running.broadcaster a) _ r lifts in
    (
      b,
      inner,
      steps ∙ ap some (sym kept),
      ap (λ (x : Running). record { running = x; handlers = update v.handlers c q }) kept ∙ same,
    )

pub call-Served :
    (v t : Serving) (c : ℕ) (p q : Place) (a : Broadcaster.Action)
    → Served v
    → v.handlers c ≡ p
    → is_registered p ≡ true
    → is_registered q ≡ true
    → is_stop a ≡ false
    → moved v (broadcasts a) c q ≡ some t
    → ((b : Broadcaster.State)
        → Broadcaster.step v.running.broadcaster a ≡ some b
        → (ch : ℕ) → mem ch b.subscribers ≡ true
        → (e : ℕ) × (channel_of (update v.handlers c q e) ≡ some ch))
    → Served t
call-Served v t c p q a s at was is other e owned =
    let (b, inner, steps, same) = call_taken v t c q a other e in
    subst Served same (broadcasts-Served v c p q a b s at was is steps (owned b inner))
