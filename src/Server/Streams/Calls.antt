-- ===== src/Server/Streams/Calls.antt =====
-- server/handlerstats.go: the calls of the broadcaster by handlers.
use xray_web_maneger.Common.{
  ℕ, ◌≡◌, ◌≢◌, inl, inr, refl, Bool, true, false, ◌==◌, some, if◌then◌else◌, arith, Bool-cases, mem,
  mem-without_eq,
}
use xray_web_maneger.Sse.Broadcaster
use xray_web_maneger.Sse.Broadcaster.{
  Waiter, new_broadcaster, find_waiter, drop_waiter, after_wait, subscribe,
}
use xray_web_maneger.Sse.Broadcaster.Safety.{resume_cases}
use xray_web_maneger.Sse.Broadcaster.Channels.{
  registered_before, subscribed_before, unsubscribed, find_waiter-ch,
}
use xray_web_maneger.Server.Streams.{
  Place, absent, added, joining, streaming, leaving, removed, ended, Serving, after_subscribe,
  subscribe_at, closes_twice, resume_at, leave_at,
}
use xray_web_maneger.Server.Streams.Registered.{
  is_registered, channel_of, Served, updated, still_owned, call-Served,
}

pub subscribe-Served :
    (v t : Serving) (c : ℕ) (late : Bool) (p : Place)
    → Served v
    → v.handlers c ≡ p
    → subscribe_at v c late p ≡ some t
    → Served t
unfolding subscribe_at
subscribe-Served v t c late added s at e =
    call-Served v t c added (after_subscribe late v.running.broadcaster)
      (Broadcaster.subscribes late) s at refl (place_registered _) refl e
      (λ b steps ch h. elim (subscribed_before late v.running.broadcaster b ch steps h) [
        | inl old ↦ still_owned v.handlers c ch _ (rw at (λ f. cc)) (s.owned ch old)
        | inr new ↦ (
          c,
          rw (updated v.handlers c (after_subscribe late v.running.broadcaster))
              (place_channel _ ch new),
        )
      ])
  where
    place_registered :
        (x : Bool)
        → is_registered
            (if x then joining v.running.broadcaster.next else streaming v.running.broadcaster.next)
          ≡ true
    place_registered x = ground arith

    place_channel :
        (x : Bool) (ch : ℕ)
        → ch ≡ v.running.broadcaster.next
        → channel_of
            (if x then joining v.running.broadcaster.next else streaming v.running.broadcaster.next)
          ≡ some ch
    place_channel x ch same = ground arith
subscribe-Served v t c late absent s at e = cc
subscribe-Served v t c late (joining ch) s at e = cc
subscribe-Served v t c late (streaming ch) s at e = cc
subscribe-Served v t c late leaving s at e = cc
subscribe-Served v t c late removed s at e = cc
subscribe-Served v t c late ended s at e = cc

pub leave-Served :
    (v t : Serving) (c : ℕ) (p : Place)
    → Served v
    → v.handlers c ≡ p
    → leave_at v c p ≡ some t
    → Served t
unfolding leave_at
leave-Served v t c (streaming ch) s at e =
    call-Served v t c (streaming ch) leaving (Broadcaster.unsubscribes ch) s at refl refl refl e
      (λ b steps x h.
        let old =
          registered_before (Broadcaster.unsubscribes ch) v.running.broadcaster b x refl steps h in
        let other = unsubscribed ch v.running.broadcaster b x steps h in
        still_owned v.handlers c x leaving (rw at (λ f. other (ground (arith, f)))) (s.owned x old))
leave-Served v t c absent s at e = cc
leave-Served v t c added s at e = cc
leave-Served v t c (joining ch) s at e = cc
leave-Served v t c leaving s at e = cc
leave-Served v t c removed s at e = cc
leave-Served v t c ended s at e = cc

-- A Subscribe that panics has taken its channel off.
closes_twice_lem :
    (ch : ℕ) (s t : Broadcaster.State)
    → closes_twice ch s ≡ true
    → Broadcaster.step s (Broadcaster.resumes ch) ≡ some t
    → mem ch t.subscribers ≡ false
unfolding Broadcaster.step after_wait
closes_twice_lem ch s t twice e =
    let (w, found, _, f) = resume_cases ch s t e in
    let same = find_waiter-ch ch s.waiting w found in
    ground (arith, found, f, same, mem-without_eq ch ch s.subscribers)

pub resume-Served :
    (v t : Serving) (c : ℕ) (p : Place)
    → Served v
    → v.handlers c ≡ p
    → resume_at v c p ≡ some t
    → Served t
unfolding resume_at
resume-Served v t c (joining ch) s at e =
    elim (Bool-cases (closes_twice ch v.running.broadcaster)) [
      | inl twice ↦
          call-Served v t c (joining ch) leaving (Broadcaster.resumes ch) s at refl refl refl
            (rw twice at e)
            (λ b steps x h.
              let other : x ≢ ch =
                λ same. ground (arith, closes_twice_lem ch v.running.broadcaster b twice steps) in
              still_owned v.handlers c x leaving (rw at (λ f. other (ground (arith, f))))
                (s.owned x (kept b steps x h)))
      | inr once ↦
          call-Served v t c (joining ch) (streaming ch) (Broadcaster.resumes ch) s at refl refl refl
            (rw once at e)
            (λ b steps x h. elim (Bool-cases (x == ch)) [
              | inl same ↦ (c, rw (updated v.handlers c (streaming ch)) (ground (arith, same)))
              | inr other ↦
                  still_owned v.handlers c x (streaming ch) (rw at (λ f. ground (arith, f, other)))
                    (s.owned x (kept b steps x h))
            ])
    ]
  where
    kept :
        (b : Broadcaster.State)
        → Broadcaster.step v.running.broadcaster (Broadcaster.resumes ch) ≡ some b
        → (x : ℕ) → mem x b.subscribers ≡ true
        → mem x v.running.broadcaster.subscribers ≡ true
    kept b steps x h =
        registered_before (Broadcaster.resumes ch) v.running.broadcaster b x refl steps h
resume-Served v t c absent s at e = cc
resume-Served v t c added s at e = cc
resume-Served v t c (streaming ch) s at e = cc
resume-Served v t c leaving s at e = cc
resume-Served v t c removed s at e = cc
resume-Served v t c ended s at e = cc
