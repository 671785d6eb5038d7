-- ===== src/Sse/Broadcaster/Delivery/Open.antt =====
-- sse/broadcaster.go: the channels that a polling goroutine sends on are open.
use xray_web_maneger.Common.{
  ℕ, ◌≤◌, ◌≡◌, inl, inr, refl, subst, Text, Bool, true, false, ◌==◌, ◌&&◌, Option, none, some, List,
  [], ◌∷◌, is_some, update, arith, guard_lem, guarded_lem, map_some_lem, Bool-cases, mem-without_eq,
}
use xray_web_maneger.Sse.Broadcaster
use xray_web_maneger.Sse.Broadcaster.{mem, without, is_nil, loop_returns}
use xray_web_maneger.Sse.Broadcaster.Polling.{LoopState}
use xray_web_maneger.Sse.Broadcaster.Channels.{
  Reach-Numbered, next-le, loop_before, IsOpen, step-IsOpen,
}
use xray_web_maneger.Sse.Broadcaster.Delivery.{
  Position, selecting, prepared, fanning_out, Poller, System, Action, controls, ticks,
  copies_subscribers, sends, ends_tick, receives, at_select, may_step, ticked, sent_open, copy_step,
  send_step, end_step, receive_step, step, Reach, start, next_step,
}

-- The channels that are still to be sent on.
abbrev pub left_of : {T : Type 0} → Position T → List ℕ
left_of selecting = []
left_of (prepared regular x) = []
left_of (fanning_out regular x left) = left

pub record IsSound {T : Type 0} (b : Broadcaster.State) (pollers : ℕ → Poller T) (panicked : Bool)
    : Type 0 where
  pub reach : Broadcaster.Reach b
  -- A number that no loop has had belongs to a goroutine that has not begun.
  pub fresh : (d : ℕ) → b.next ≤ d → (pollers d).position ≡ selecting
  pub left_open :
      (d ch : ℕ) → mem d b.loops ≡ true → mem ch (left_of (pollers d).position) ≡ true → IsOpen b ch
  pub sound : panicked ≡ false

abbrev pub Sound : {T : Type 0} → System T → Type 0
Sound s = IsSound s.control s.pollers s.sent_on_closed

pub and_left : (a b : Bool) → a && b ≡ true → a ≡ true
and_left a b e = ground arith

module _ {T : Type 0} where
  -- A running goroutine may go to any position whose channels are open.
  set_poller :
      (s : System T) (d : ℕ) (q : Poller T)
      → Sound s
      → mem d s.control.loops ≡ true
      → ((ch : ℕ) → mem ch (left_of q.position) ≡ true → IsOpen s.control ch)
      → IsSound s.control (update s.pollers d q) s.sent_on_closed
  set_poller s d q v runs opened = record {
    reach = v.reach;
    fresh = λ e h. ground (arith, v.fresh e, (Reach-Numbered v.reach).loops d);
    left_open = λ e ch r m. elim (Bool-cases (e == d)) [
      | inl same ↦ opened ch (rw same at m)
      | inr other ↦ v.left_open e ch r (rw other at m)
    ];
    sound = v.sound;
  }

  control-Sound :
      (s : System T) (a : Broadcaster.Action) (b : Broadcaster.State)
      → Sound s
      → Broadcaster.step s.control a ≡ some b
      → IsSound b s.pollers s.sent_on_closed
  control-Sound s a b v e = record {
    reach = Broadcaster.next_step a v.reach e;
    fresh = λ d h. v.fresh d (omega (arith, next-le a s.control b e));
    left_open = λ d ch r m. elim (loop_before a s.control b d e r) [
      | inl before ↦ step-IsOpen a b d ch v.reach e before (v.left_open d ch before m)
      | inr new ↦ let none_left = v.fresh d new in absurd (ground (arith, none_left))
    ];
    sound = v.sound;
  }

  copy-Sound :
      (s t : System T) (d : ℕ) (p : Position T)
      → Sound s
      → mem d s.control.loops ≡ true
      → copy_step s d p ≡ some t
      → Sound t
  unfolding copy_step
  copy-Sound s t d selecting v runs e = cc
  copy-Sound s t d (fanning_out regular x left) v runs e = cc
  copy-Sound s t d (prepared regular x) v runs e =
      subst Sound (guard_lem true e).1
        (set_poller s d _ v runs (λ ch m. (Reach-Numbered v.reach).subscribers ch m))

  send-Sound :
      (s t : System T) (d ch : ℕ) (p : Position T)
      → Sound s
      → (s.pollers d).position ≡ p
      → mem d s.control.loops ≡ true
      → send_step s d ch p ≡ some t
      → Sound t
  unfolding send_step
  send-Sound s t d ch selecting v at runs e = cc
  send-Sound s t d ch (prepared regular x) v at runs e = cc
  send-Sound s t d ch (fanning_out regular x left) v at runs e =
      let (member, same) = guard_lem (mem ch left) e in
      let (open_, _) = v.left_open d ch runs (rw at member) in
      subst Sound (rw open_ at same) (
        set_poller (sent_open s regular x ch) d _ v runs
          (λ c m. v.left_open d c runs (rw at (ground (arith, m, mem-without_eq c ch left)))))

  end-Sound :
      (s t : System T) (d : ℕ) (p : Position T)
      → Sound s
      → mem d s.control.loops ≡ true
      → end_step s d p ≡ some t
      → Sound t
  unfolding end_step
  end-Sound s t d selecting v runs e = cc
  end-Sound s t d (prepared regular x) v runs e = cc
  end-Sound s t d (fanning_out regular x left) v runs e =
      subst Sound (guard_lem (is_nil left) e).1 (set_poller s d _ v runs (λ ch m. cc))

  receive-Sound :
      (s t : System T) (ch : ℕ) (queue : List T)
      → Sound s
      → receive_step s ch queue ≡ some t
      → Sound t
  unfolding receive_step
  receive-Sound s t ch [] v e = cc
  receive-Sound s t ch (x ∷ queue) v e = subst Sound (guard_lem true e).1 v

  ticked-Sound :
      (s : System T) (d : ℕ) (regular : Bool) (next : LoopState T × Option T)
      → Sound s
      → mem d s.control.loops ≡ true
      → Sound (ticked s d regular next)
  ticked-Sound s d regular (variables, none) v runs = set_poller s d _ v runs (λ ch m. cc)
  ticked-Sound s d regular (variables, some x) v runs = set_poller s d _ v runs (λ ch m. cc)

  module _ (marshal : T → Option Text) (enrich : Option (T → T → ℕ → Option ℕ → T))
      (degraded : Option T) (zero_value : T) where
    pub step-Sound :
        (a : Action T) (s t : System T)
        → Sound s
        → step marshal enrich degraded zero_value s a ≡ some t
        → Sound t
    unfolding step
    step-Sound (controls a) s t v e =
        let (_, lifts) = guarded_lem (may_step s a) e in
        let (b, steps, same) = map_some_lem (Broadcaster.step s.control a) _ t lifts in
        subst Sound same (control-Sound s a b v steps)
    step-Sound (ticks d fetched tick_at) s t v e =
        let (both, same) =
          guard_lem (mem d s.control.loops && at_select (s.pollers d).position) e in
        subst Sound same
          (ticked-Sound s d (is_some fetched) _ v (and_left (mem d s.control.loops) _ both))
    step-Sound (copies_subscribers d) s t v e =
        let (runs, copies) = guarded_lem (mem d s.control.loops) e in
        copy-Sound s t d (s.pollers d).position v runs copies
    step-Sound (sends d ch) s t v e =
        let (runs, sent) = guarded_lem (mem d s.control.loops) e in
        send-Sound s t d ch (s.pollers d).position v refl runs sent
    step-Sound (ends_tick d) s t v e =
        let (runs, ends) = guarded_lem (mem d s.control.loops) e in
        end-Sound s t d (s.pollers d).position v runs ends
    step-Sound (receives ch) s t v e = receive-Sound s t ch (s.queues ch) v e

    pub Reach-Sound : {s : System T} → Reach marshal enrich degraded zero_value s → Sound s
    Reach-Sound start = record {
      reach = Broadcaster.start;
      fresh = λ d h. refl;
      left_open = λ d ch r m. cc;
      sound = refl;
    }
    Reach-Sound (next_step {s} {t} a r e) = step-Sound a s t (Reach-Sound r) e

    -- No send of a polling goroutine meets a closed channel, whatever Subscribe, Unsubscribe, the
    -- idle timer and Stop do between its sends.
    pub never_sent_on_closed :
        {s : System T} → Reach marshal enrich degraded zero_value s → s.sent_on_closed ≡ false
    never_sent_on_closed r = (Reach-Sound r).sound
