-- ===== src/Sse/Broadcaster/Delivery/Order.antt =====
-- sse/broadcaster.go: what a subscriber receives, in which order, and the bound of its channel.
use mathlib.Core.List.{Sublistᴰ, append_assoc}
use mathlib.Core.Path.{fun_ext}
use xray_web_maneger.Common.{
  ℕ, ◌≤◌, ◌≡◌, refl, sym, subst, Text, true, ◌==◌, ◌&&◌, Option, some, List, [], ◌∷◌, ◌++◌, length,
  is_some, update, arith, guard_lem, guarded_lem, map_some_lem, inl, inr, Bool-cases, ==_iff,
}
use xray_web_maneger.Sse.Broadcaster
use xray_web_maneger.Sse.Broadcaster.{mem, without, is_nil}
use xray_web_maneger.Sse.Broadcaster.Polling.{channel_capacity}
use xray_web_maneger.Sse.Broadcaster.Channels.{loop_before}
use xray_web_maneger.Sse.Broadcaster.Delivery.{
  Position, selecting, prepared, fanning_out, System, Action, controls, ticks, copies_subscribers,
  sends, ends_tick, receives, at_select, may_step, has_room, send_step, receive_step, step, Reach,
  start, next_step,
}
use xray_web_maneger.Sse.Broadcaster.Delivery.Open.{Sound, and_left, Reach-Sound}
use xray_web_maneger.Sse.Broadcaster.Delivery.Pending.{
  log, Pending, IsInOrder, InOrder, ticked-InOrder, copy-InOrder, end-InOrder, delivered,
  passed_over,
}

module _ {T : Type 0} where
  send-InOrder :
      (s t : System T) (d ch : ℕ) (p : Position T)
      → Sound s
      → InOrder s
      → (s.pollers d).position ≡ p
      → mem d s.control.loops ≡ true
      → send_step s d ch p ≡ some t
      → InOrder t
  unfolding send_step
  send-InOrder s t d ch selecting sound v at runs e = cc
  send-InOrder s t d ch (prepared regular x) sound v at runs e = cc
  send-InOrder s t d ch (fanning_out regular x left) sound v at runs e =
      let (member, same) = guard_lem (mem ch left) e in
      let (open_, _) = sound.left_open d ch runs (rw at member) in
      let (before, newest, held) = subst (Pending s.published (log s)) at (v.pending d runs) in
      subst InOrder (rw open_ at same) (elim (Bool-cases (has_room s ch)) [
        | inl room ↦
            rw room
              (delivered s d ch regular x before left sound v runs newest held member room _ refl)
        | inr full ↦ rw full (passed_over s d ch regular x before left v newest held _ refl)
      ])

  receive-InOrder :
      (s t : System T) (ch : ℕ) (queue : List T)
      → InOrder s
      → s.queues ch ≡ queue
      → receive_step s ch queue ≡ some t
      → InOrder t
  unfolding receive_step
  receive-InOrder s t ch [] v at e = cc
  receive-InOrder s t ch (x ∷ queue) v at e = subst InOrder (guard_lem true e).1 (record {
    below = λ c. subst (λ l. Sublistᴰ l s.published) (same_log c) (v.below c);
    pending = λ d r.
        subst (λ logs. Pending s.published logs (s.pollers d).position) (fun_ext same_log)
          (v.pending d r);
    bounded = λ c. ground (arith, v.bounded c);
  })
    where
      same_log :
          (c : ℕ)
          → s.received c ++ s.queues c
            ≡ update s.received ch (s.received ch ++ x ∷ []) c ++ update s.queues ch queue c
      same_log c = elim (Bool-cases (c == ch)) [
        | inl same ↦
            rw (same, (==_iff c ch).0 same, at) (sym (append_assoc (s.received ch) (x ∷ []) queue))
        | inr other ↦ rw other refl
      ]

  control-InOrder :
      (s : System T) (a : Broadcaster.Action) (b : Broadcaster.State)
      → Sound s
      → InOrder s
      → Broadcaster.step s.control a ≡ some b
      → IsInOrder b.loops s.pollers s.published s.received s.queues
  control-InOrder s a b sound v e = record {
    below = v.below;
    pending = λ d r. elim (loop_before a s.control b d e r) [
      | inl before ↦ v.pending d before
      | inr new ↦ rw (sound.fresh d new) tt
    ];
    bounded = v.bounded;
  }

  module _ (marshal : T → Option Text) (enrich : Option (T → T → ℕ → Option ℕ → T))
      (degraded : Option T) (zero_value : T) where
    step-InOrder :
        (a : Action T) (s t : System T)
        → Sound s
        → InOrder s
        → step marshal enrich degraded zero_value s a ≡ some t
        → InOrder t
    unfolding step
    step-InOrder (controls a) s t sound v e =
        let (_, lifts) = guarded_lem (may_step s a) e in
        let (b, steps, same) = map_some_lem (Broadcaster.step s.control a) _ t lifts in
        subst InOrder same (control-InOrder s a b sound v steps)
    step-InOrder (ticks d fetched tick_at) s t sound v e =
        let (both, same) =
          guard_lem (mem d s.control.loops && at_select (s.pollers d).position) e in
        subst InOrder same
          (ticked-InOrder s d (is_some fetched) _ sound v (and_left (mem d s.control.loops) _ both))
    step-InOrder (copies_subscribers d) s t sound v e =
        let (runs, copies) = guarded_lem (mem d s.control.loops) e in
        copy-InOrder s t d (s.pollers d).position v refl runs copies
    step-InOrder (sends d ch) s t sound v e =
        let (runs, sent) = guarded_lem (mem d s.control.loops) e in
        send-InOrder s t d ch (s.pollers d).position sound v refl runs sent
    step-InOrder (ends_tick d) s t sound v e =
        let (_, ends) = guarded_lem (mem d s.control.loops) e in
        end-InOrder s t d (s.pollers d).position v ends
    step-InOrder (receives ch) s t sound v e = receive-InOrder s t ch (s.queues ch) v refl e

    Reach-InOrder : {s : System T} → Reach marshal enrich degraded zero_value s → InOrder s
    unfolding Broadcaster.new_broadcaster
    Reach-InOrder start = record {
      below = λ ch. Sublistᴰ.slnil;
      pending = λ d r. cc;
      bounded = λ ch. omega arith;
    }
    Reach-InOrder (next_step {s} {t} a r e) =
        step-InOrder a s t (Reach-Sound marshal enrich degraded zero_value r) (Reach-InOrder r) e

    -- What a subscriber has received, followed by what its channel holds, is what was published, in
    -- that order and each payload once, with some left out; and no channel holds more than its
    -- capacity.
    pub received_in_order :
        {s : System T} (ch : ℕ)
        → Reach marshal enrich degraded zero_value s
        → Sublistᴰ (s.received ch ++ s.queues ch) s.published
          × (length (s.queues ch) ≤ channel_capacity)
    received_in_order ch r = let v = Reach-InOrder r in (v.below ch, v.bounded ch)
