-- ===== src/Sse/Broadcaster/Delivery/Ending.antt =====
-- sse/broadcaster.go: a polling goroutine never waits for a subscriber.
use xray_web_maneger.Common.{
  ℕ, zero, suc, ◌≤◌, ◌≡◌, refl, ◌∙◌, Text, Bool, true, ◌==◌, ◌&&◌, not, Option, none, some, List,
  [], ◌∷◌, ◌++◌, length, length-keep_if-le, if◌then◌else◌, arith, mem-without_eq,
}
use xray_web_maneger.Sse.Broadcaster.{mem, without}
use xray_web_maneger.Sse.Broadcaster.Delivery.{
  selecting, prepared, fanning_out, System, Action, copies_subscribers, sends, ends_tick, go_to,
  has_room, sent_open, copy_step, send_step, end_step, step, Reach,
}
use xray_web_maneger.Sse.Broadcaster.Delivery.Open.{Sound, step-Sound, Reach-Sound}

-- The goroutine that takes a step of a tick.
abbrev actor : {T : Type 0} → Action T → Option ℕ
actor (copies_subscribers d) = some d
actor (sends d ch) = some d
actor (ends_tick d) = some d
actor _ = none

module _ {T : Type 0} (marshal : T → Option Text) (enrich : Option (T → T → ℕ → Option ℕ → T))
    (degraded : Option T) (zero_value : T) where
  -- Steps of one goroutine alone.
  pub data Alone (d : ℕ) : System T → System T → Type 0 where
    rests : {s : System T} → Alone d s s
    acts :
        {s t u : System T} (a : Action T)
        → actor a ≡ some d
        → step marshal enrich degraded zero_value s a ≡ some t
        → Alone d t u
        → Alone d s u

  -- What a channel holds once every one of the list was sent the payload.
  abbrev pub offered : System T → T → List ℕ → ℕ → List T
  offered s x chans ch =
      if mem ch chans && has_room s ch then s.queues ch ++ x ∷ [] else s.queues ch

  -- The tick is over, and nothing but the channels of the list has changed for the subscribers.
  abbrev pub Finished : System T → ℕ → T → List ℕ → System T → Type 0
  Finished s d x chans t =
      ((t.pollers d).position ≡ selecting)
      × (t.control ≡ s.control)
      × ((ch : ℕ) → t.queues ch ≡ offered s x chans ch)

  abbrev after_send : System T → ℕ → Bool → T → List ℕ → ℕ → System T
  after_send s d regular x left ch =
      go_to (sent_open s regular x ch) d (fanning_out regular x (without ch left))

  -- The first of the channels that are left can be sent on.
  send_first :
      (s : System T) (d ch : ℕ) (regular : Bool) (x : T) (left : List ℕ)
      → Sound s
      → mem d s.control.loops ≡ true
      → (s.pollers d).position ≡ fanning_out regular x (ch ∷ left)
      → step marshal enrich degraded zero_value s (sends d ch)
        ≡ some (after_send s d regular x (ch ∷ left) ch)
  unfolding step send_step
  send_first s d ch regular x left v runs at =
      let first : mem ch (ch ∷ left) ≡ true = ground arith in
      let (open_, _) = v.left_open d ch runs (rw at first) in rw (runs, at, first, open_) refl

  -- The last step of a tick.
  end_last :
      (s : System T) (d : ℕ) (regular : Bool) (x : T)
      → mem d s.control.loops ≡ true
      → (s.pollers d).position ≡ fanning_out regular x []
      → step marshal enrich degraded zero_value s (ends_tick d)
        ≡ some
            (record (go_to s d selecting) { dropped_msgs = if regular then 0 else s.dropped_msgs })
  unfolding step end_step
  end_last s d regular x runs at = rw (runs, at) refl

  copy_first :
      (s : System T) (d : ℕ) (regular : Bool) (x : T)
      → mem d s.control.loops ≡ true
      → (s.pollers d).position ≡ prepared regular x
      → step marshal enrich degraded zero_value s (copies_subscribers d)
        ≡ some (go_to s d (fanning_out regular x s.control.subscribers))
  unfolding step copy_step
  copy_first s d regular x runs at = rw (runs, at) refl

  -- To offer to one channel and then to the others is to offer to all.
  offered_eq :
      (s : System T) (d ch c : ℕ) (regular : Bool) (x : T) (left : List ℕ)
      → offered (after_send s d regular x (ch ∷ left) ch) x (without ch (ch ∷ left)) c
        ≡ offered s x (ch ∷ left) c
  offered_eq s d ch c regular x left = ground (arith, mem-without_eq c ch (ch ∷ left))

  -- A fan-out over any list ends, whatever the channels hold.
  fan_out_ends :
      (n : ℕ) (s : System T) (d : ℕ) (regular : Bool) (x : T) (left : List ℕ)
      → length left ≤ n
      → Sound s
      → mem d s.control.loops ≡ true
      → (s.pollers d).position ≡ fanning_out regular x left
      → (t : System T) × Alone d s t × Finished s d x left t
  fan_out_ends n s d regular x [] h v runs at =
      let t = record (go_to s d selecting) {
        dropped_msgs = if regular then 0 else s.dropped_msgs;
      } in
      (
        t,
        acts (ends_tick d) refl (end_last s d regular x runs at) rests,
        (ground arith, refl, λ ch. refl),
      )
  fan_out_ends zero s d regular x (ch ∷ left) h v runs at = absurd (omega arith)
  fan_out_ends (suc n) s d regular x (ch ∷ left) h v runs at =
      let t = after_send s d regular x (ch ∷ left) ch in
      let sent = send_first s d ch regular x left v runs at in
      let (u, more, (done, kept, queued)) =
        fan_out_ends n t d regular x (without ch (ch ∷ left))
          (ground (arith, length-keep_if-le (λ b. not (b == ch)) left))
          (step-Sound marshal enrich degraded zero_value (sends d ch) s t v sent) runs
          (ground arith) in
      (
        u,
        acts (sends d ch) refl sent more,
        (done, kept, λ c. queued c ∙ offered_eq s d ch c regular x left),
      )

  -- A polling goroutine that has a payload can finish its tick by steps of its own, without waiting
  -- for any subscriber; every channel that is registered when the goroutine copies the set, and has
  -- room, then holds the payload at its end, and no other channel has changed.
  pub tick_delivers :
      {s : System T} (d : ℕ) (regular : Bool) (x : T)
      → Reach marshal enrich degraded zero_value s
      → mem d s.control.loops ≡ true
      → (s.pollers d).position ≡ prepared regular x
      → (t : System T) × Alone d s t × Finished s d x s.control.subscribers t
  tick_delivers {s} d regular x r runs at =
      let copied = go_to s d (fanning_out regular x s.control.subscribers) in
      let copies = copy_first s d regular x runs at in
      let v =
        step-Sound marshal enrich degraded zero_value (copies_subscribers d) s copied
          (Reach-Sound marshal enrich degraded zero_value r) copies in
      let chans = s.control.subscribers in
      let (t, more, (done, kept, queued)) =
        fan_out_ends (length chans) copied d regular x chans (omega arith) v runs (ground arith) in
      (t, acts (copies_subscribers d) refl copies more, (done, kept, queued))
