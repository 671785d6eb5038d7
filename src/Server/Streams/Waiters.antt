-- ===== src/Server/Streams/Waiters.antt =====
-- server/handlerstats.go: each step keeps one handler for each channel.
use xray_web_maneger.Common.{
  ℕ, ◌<◌, ◌≡◌, ◌⊎◌, inl, inr, refl, subst, Bool, true, false, not, Option, none, some, ◌∷◌, is_some,
  if◌then◌else◌, arith, guard_lem, guarded_lem, map_some_lem, Bool-cases,
}
use xray_web_maneger.Sse.Manager.{add}
use xray_web_maneger.Sse.Broadcaster
use xray_web_maneger.Sse.Broadcaster.{Waiter, new_broadcaster, find_waiter, subscribe}
use xray_web_maneger.Sse.Broadcaster.Channels.{next-le}
use xray_web_maneger.Sse.Broadcaster.Waiting.{waiting_kept, subscribed_waiting, resumed_waiting}
use xray_web_maneger.Server.Shutdown
use xray_web_maneger.Server.Shutdown.{broadcasts, streams}
use xray_web_maneger.Server.Shutdown.Order.{Reach-IsOrdered}
use xray_web_maneger.Server.Streams.{
  Place, absent, added, joining, streaming, leaving, removed, ended, Serving, Action, arrives,
  subscribes, resumes, leaves, removes, closes, others, is_handlers, arrive, after_subscribe,
  subscribe_at, closes_twice, resume_at, leave_at, remove_at, close_at, step, Reach, start,
  next_step,
}
use xray_web_maneger.Server.Streams.Registered.{call_taken}
use xray_web_maneger.Server.Streams.Connections.{add_lem, Reach-Served}
use xray_web_maneger.Server.Streams.Shrinks.{step-Shrinks}
use xray_web_maneger.Server.Streams.Owners.{
  IsOwned, Owned, kept-IsOwned, released-IsOwned, given-IsOwned, resumed-IsOwned,
}

place_cases :
    (twice : Bool) (ch : ℕ)
    → ((if twice then leaving else streaming ch) ≡ leaving)
      ⊎ ((if twice then leaving else streaming ch) ≡ streaming ch)
place_cases true ch = inl refl
place_cases false ch = inr refl

resume-Owned :
    (v t : Serving) (c : ℕ) (p : Place)
    → Broadcaster.Reach v.running.broadcaster
    → Owned v
    → v.handlers c ≡ p
    → resume_at v c p ≡ some t
    → Owned t
unfolding resume_at
resume-Owned v t c (joining ch) r o at e =
    let (b, steps, _, same) = call_taken v t c _ (Broadcaster.resumes ch) refl e in
    let (w, alone, named, empty) = resumed_waiting ch b r steps in
    subst Owned same (
      resumed-IsOwned v.running.broadcaster b v.handlers c ch _ w o at
        (next-le (Broadcaster.resumes ch) v.running.broadcaster b steps) alone named empty
        (place_cases (closes_twice ch v.running.broadcaster) ch))
resume-Owned v t c absent r o at e = cc
resume-Owned v t c added r o at e = cc
resume-Owned v t c (streaming ch) r o at e = cc
resume-Owned v t c leaving r o at e = cc
resume-Owned v t c removed r o at e = cc
resume-Owned v t c ended r o at e = cc

-- Where Subscribe leaves a handler is what the broadcaster's list of those that wait says.
subscribe_cases :
    (late : Bool) (s t : Broadcaster.State) (handlers : ℕ → Place)
    → IsOwned s handlers
    → Broadcaster.step s (Broadcaster.subscribes late) ≡ some t
    → (s.next < t.next)
      × (((t.waiting ≡ s.waiting) × (after_subscribe late s ≡ streaming s.next))
          ⊎ ((w : Waiter) × (t.waiting ≡ w ∷ s.waiting)
              × (w.ch ≡ s.next)
              × (after_subscribe late s ≡ joining s.next)))
subscribe_cases late s t handlers o e =
    let (same, (more, also)) = subscribed_waiting late s t e in
    let nobody : is_some (find_waiter s.next s.waiting) ≡ false = nobody_waits in
    (
      more,
      elim also [
        | inl kept ↦ inl (kept, rw (same, kept, nobody) refl)
        | inr (w, one, new) ↦ inr (w, one, new, rw (same, one, found w new) refl)
      ],
    )
  where
    nobody_waits : is_some (find_waiter s.next s.waiting) ≡ false
    nobody_waits = elim (Bool-cases (is_some (find_waiter s.next s.waiting))) [
      | inr free ↦ free
      | inl waits ↦
          let (c, at) = o.waits s.next waits in
          absurd (omega (arith, o.numbered c s.next (rw at refl)))
    ]

    found : (w : Waiter) → w.ch ≡ s.next → is_some (find_waiter s.next (w ∷ s.waiting)) ≡ true
    found w new = ground (arith, new)

subscribe-Owned :
    (v t : Serving) (c : ℕ) (late : Bool) (p : Place)
    → Owned v
    → v.handlers c ≡ p
    → subscribe_at v c late p ≡ some t
    → Owned t
unfolding subscribe_at
subscribe-Owned v t c late added o at e =
    let (b, steps, _, same) = call_taken v t c _ (Broadcaster.subscribes late) refl e in
    let (more, place) = subscribe_cases late v.running.broadcaster b v.handlers o steps in
    subst Owned same (given-IsOwned v.running.broadcaster b v.handlers c _ o at more place)
subscribe-Owned v t c late absent o at e = cc
subscribe-Owned v t c late (joining ch) o at e = cc
subscribe-Owned v t c late (streaming ch) o at e = cc
subscribe-Owned v t c late leaving o at e = cc
subscribe-Owned v t c late removed o at e = cc
subscribe-Owned v t c late ended o at e = cc

leave-Owned :
    (v t : Serving) (c : ℕ) (p : Place)
    → Owned v
    → v.handlers c ≡ p
    → leave_at v c p ≡ some t
    → Owned t
unfolding leave_at
leave-Owned v t c (streaming ch) o at e =
    let a = Broadcaster.unsubscribes ch in
    let (b, steps, _, same) = call_taken v t c _ a refl e in
    subst Owned same (
      kept-IsOwned v.running.broadcaster b _
        (released-IsOwned v.running.broadcaster v.handlers c leaving o
          (λ x h. ground (arith, at, h)) refl)
        (waiting_kept a v.running.broadcaster b refl steps)
        (next-le a v.running.broadcaster b steps))
leave-Owned v t c absent o at e = cc
leave-Owned v t c added o at e = cc
leave-Owned v t c (joining ch) o at e = cc
leave-Owned v t c leaving o at e = cc
leave-Owned v t c removed o at e = cc
leave-Owned v t c ended o at e = cc

arrive-Owned :
    (v t : Serving) (o : Option ℕ)
    → Reach v
    → Owned v
    → (add v.running.manager).1 ≡ o
    → arrive v o ≡ some t
    → Owned t
unfolding arrive Shutdown.step
arrive-Owned v t none r k refused e = subst Owned (guard_lem true e).1 k
arrive-Owned v t (some c) r k joins e =
    let (new, _) = add_lem v.running.manager c joins in
    let at = (Reach-Served r).fresh c (omega arith) in
    subst Owned (guard_lem true e).1 (
      released-IsOwned v.running.broadcaster v.handlers c added k (λ ch h. ground (arith, at, h))
        refl)

remove-Owned :
    (v t : Serving) (c : ℕ) (p : Place)
    → Owned v
    → v.handlers c ≡ p
    → remove_at v c p ≡ some t
    → Owned t
unfolding remove_at Shutdown.step
remove-Owned v t c leaving o at e = subst Owned (guard_lem true e).1 (
    released-IsOwned v.running.broadcaster v.handlers c removed o (λ ch h. ground (arith, at, h))
      refl)
remove-Owned v t c absent o at e = cc
remove-Owned v t c added o at e = cc
remove-Owned v t c (joining ch) o at e = cc
remove-Owned v t c (streaming ch) o at e = cc
remove-Owned v t c removed o at e = cc
remove-Owned v t c ended o at e = cc

close-Owned :
    (v t : Serving) (c : ℕ) (p : Place)
    → Owned v
    → v.handlers c ≡ p
    → close_at v c p ≡ some t
    → Owned t
unfolding close_at Shutdown.step
close-Owned v t c removed o at e = subst Owned (guard_lem true e).1 (
    released-IsOwned v.running.broadcaster v.handlers c ended o (λ ch h. ground (arith, at, h))
      refl)
close-Owned v t c absent o at e = cc
close-Owned v t c added o at e = cc
close-Owned v t c (joining ch) o at e = cc
close-Owned v t c (streaming ch) o at e = cc
close-Owned v t c leaving o at e = cc
close-Owned v t c ended o at e = cc

step-Owned : (a : Action) (v t : Serving) → Reach v → Owned v → step v a ≡ some t → Owned t
unfolding step
step-Owned arrives v t r o e = arrive-Owned v t (add v.running.manager).1 r o refl e
step-Owned (subscribes c late) v t r o e = subscribe-Owned v t c late (v.handlers c) o refl e
step-Owned (resumes c) v t r o e =
    resume-Owned v t c (v.handlers c) (Reach-IsOrdered (Reach-Served r).reach).reach o refl e
step-Owned (leaves c) v t r o e = leave-Owned v t c (v.handlers c) o refl e
step-Owned (removes c) v t r o e = remove-Owned v t c (v.handlers c) o refl e
step-Owned (closes c) v t r o e = close-Owned v t c (v.handlers c) o refl e
step-Owned (others a) v t r o e =
    let (alone, steps) = guarded_lem (not (is_handlers a)) e in
    let (u, inner, same) = map_some_lem (Shutdown.step v.running a) _ t steps in
    let s = step-Shrinks a v.running u (ground (arith, alone)) inner in
    subst Owned same
      (kept-IsOwned v.running.broadcaster u.broadcaster v.handlers o s.waiting s.number)

pub Reach-Owned : {v : Serving} → Reach v → IsOwned v.running.broadcaster v.handlers
unfolding new_broadcaster
Reach-Owned start = record {
  numbered = λ c ch h. cc;
  distinct = λ c e ch h k. cc;
  waits = λ ch h. cc;
  joins = λ c ch h. cc;
}
Reach-Owned (next_step {v} {t} a r e) = step-Owned a v t r (Reach-Owned r) e
