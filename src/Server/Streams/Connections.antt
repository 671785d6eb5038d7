-- ===== src/Server/Streams/Connections.antt =====
-- server/handlerstats.go: the calls of the connection manager by handlers, and any sequence of steps.
use xray_web_maneger.Common.{
  ℕ, ◌+◌, ◌≤◌, ◌≡◌, ◌⊎◌, refl, subst, true, not, Option, none, some, ◌∷◌, update, arith, guard_lem,
  guarded_lem, map_some_lem, mem, mem-without_eq,
}
use xray_web_maneger.Sse.Manager
use xray_web_maneger.Sse.Manager.{add, remove, close}
use xray_web_maneger.Sse.Broadcaster.{new_broadcaster}
use xray_web_maneger.Server.Shutdown
use xray_web_maneger.Server.Shutdown.{Running, broadcasts, streams}
use xray_web_maneger.Server.Streams.{
  Place, absent, added, joining, streaming, leaving, removed, ended, Serving, Action, arrives,
  subscribes, resumes, leaves, removes, closes, others, is_handlers, arrive, remove_at, close_at,
  step, Reach, start, next_step,
}
use xray_web_maneger.Server.Streams.Registered.{
  is_registered, channel_of, IsServed, Served, still_owned, others-Served,
}
use xray_web_maneger.Server.Streams.Calls.{subscribe-Served, leave-Served, resume-Served}

abbrev after_call : Serving → Manager.Call → Running
after_call v a = record (v.running) { manager = Manager.step v.running.manager a }

-- A handler's call of the connection manager, with what it does to the connections.
manages-Served :
    (v : Serving) (c : ℕ) (p q : Place) (a : Manager.Call)
    → Served v
    → Shutdown.step v.running (streams a) ≡ some (after_call v a)
    → v.handlers c ≡ p
    → channel_of p ≡ none
    → let m = Manager.step v.running.manager a in
      ((e : ℕ) → m.next ≤ e → update v.handlers c q e ≡ absent)
      → ((e : ℕ) → mem e m.connections ≡ true → is_registered (update v.handlers c q e) ≡ true)
      → ((e : ℕ)
          → is_registered (update v.handlers c q e) ≡ true
          → (mem e m.connections ≡ true) ⊎ (mem e m.closed ≡ true))
      → IsServed (after_call v a) (update v.handlers c q)
manages-Served v c p q a s e at silent fresh registered known = record {
  reach = Shutdown.next_step (streams a) s.reach e;
  fresh = fresh;
  registered = registered;
  known = known;
  owned = λ ch h. still_owned v.handlers c ch q (rw (at, silent) (λ f. cc)) (s.owned ch h);
}

-- Add, when it returns a connection.
pub add_lem :
    (m : Manager.Manager) (c : ℕ)
    → (add m).1 ≡ some c
    → (c ≡ m.next)
      × ((add m).0 ≡ record m { connections = m.next ∷ m.connections; next = m.next + 1 })
unfolding add
add_lem m c e = ground arith

arrive-Served :
    (v t : Serving) (o : Option ℕ)
    → Served v
    → (add v.running.manager).1 ≡ o
    → arrive v o ≡ some t
    → Served t
unfolding arrive Shutdown.step Manager.step
arrive-Served v t none s refused e = subst Served (guard_lem true e).1 s
arrive-Served v t (some c) s joins e =
    let (new, m) = add_lem v.running.manager c joins in
    let at = s.fresh c (omega arith) in
    subst Served (guard_lem true e).1 (
      manages-Served v c absent added Manager.adds s refl at refl
        (λ x h. let below = rw m at h in ground (arith, s.fresh x))
        (λ x h. let member = rw m at h in ground (arith, s.registered x))
        (λ x h. rw m (ground (arith, s.known x))))

remove-Served :
    (v t : Serving) (c : ℕ) (p : Place)
    → Served v
    → v.handlers c ≡ p
    → remove_at v c p ≡ some t
    → Served t
unfolding remove_at Shutdown.step Manager.step remove
remove-Served v t c leaving s at e =
    let gone = λ (x : ℕ). mem-without_eq x c v.running.manager.connections in
    subst Served (guard_lem true e).1 (
      manages-Served v c leaving removed (Manager.removes (some c)) s refl at refl
        (λ x h. ground (arith, s.fresh x)) (λ x h. ground (arith, s.registered x, gone x))
        (λ x h. ground (arith, s.known x, gone x)))
remove-Served v t c absent s at e = cc
remove-Served v t c added s at e = cc
remove-Served v t c (joining ch) s at e = cc
remove-Served v t c (streaming ch) s at e = cc
remove-Served v t c removed s at e = cc
remove-Served v t c ended s at e = cc

close-Served :
    (v t : Serving) (c : ℕ) (p : Place)
    → Served v
    → v.handlers c ≡ p
    → close_at v c p ≡ some t
    → Served t
unfolding close_at Shutdown.step Manager.step close
close-Served v t c removed s at e = subst Served (guard_lem true e).1 (
    manages-Served v c removed ended (Manager.closes c) s refl at refl
      (λ x h. ground (arith, s.fresh x)) (λ x h. ground (arith, s.registered x))
      (λ x h. ground (arith, s.known x)))
close-Served v t c absent s at e = cc
close-Served v t c added s at e = cc
close-Served v t c (joining ch) s at e = cc
close-Served v t c (streaming ch) s at e = cc
close-Served v t c leaving s at e = cc
close-Served v t c ended s at e = cc

step-Served : (a : Action) (v t : Serving) → Served v → step v a ≡ some t → Served t
unfolding step
step-Served arrives v t s e = arrive-Served v t (add v.running.manager).1 s refl e
step-Served (subscribes c late) v t s e = subscribe-Served v t c late (v.handlers c) s refl e
step-Served (resumes c) v t s e = resume-Served v t c (v.handlers c) s refl e
step-Served (leaves c) v t s e = leave-Served v t c (v.handlers c) s refl e
step-Served (removes c) v t s e = remove-Served v t c (v.handlers c) s refl e
step-Served (closes c) v t s e = close-Served v t c (v.handlers c) s refl e
step-Served (others a) v t s e =
    let (alone, steps) = guarded_lem (not (is_handlers a)) e in
    let (r, inner, same) = map_some_lem (Shutdown.step v.running a) _ t steps in
    subst Served same (others-Served v a r s (ground (arith, alone)) inner)

pub Reach-Served : {v : Serving} → Reach v → Served v
unfolding new_broadcaster
Reach-Served start = record {
  reach = Shutdown.start;
  fresh = λ c h. refl;
  registered = λ c h. cc;
  known = λ c h. cc;
  owned = λ ch h. cc;
}
Reach-Served (next_step {v} {t} a r e) = step-Served a v t (Reach-Served r) e
