-- ===== src/Server/Streams/Ending.antt =====
-- server/handlerstats.go: a handler can always come to its end.
use xray_web_maneger.Common.{
  ℕ, ◌≡◌, inl, inr, refl, Bool, true, false, ◌==◌, some, is_some, update, if◌then◌else◌, arith,
  Bool-cases, Option-cases,
}
use xray_web_maneger.Sse.Manager
use xray_web_maneger.Sse.Broadcaster
use xray_web_maneger.Sse.Broadcaster.{find_waiter, subscribe, unsubscribe, loop_returns}
use xray_web_maneger.Sse.Broadcaster.Progress.{subscribe_never_hangs}
use xray_web_maneger.Server.Shutdown
use xray_web_maneger.Server.Shutdown.{Running, broadcasts}
use xray_web_maneger.Server.Shutdown.Order.{Reach-IsOrdered}
use xray_web_maneger.Server.Streams.{
  Place, absent, added, joining, streaming, leaving, removed, ended, Serving, Action, subscribes,
  resumes, leaves, removes, closes, others, after_subscribe, subscribe_at, closes_twice, resume_at,
  leave_at, remove_at, close_at, step, Reach, next_step,
}
use xray_web_maneger.Server.Streams.Registered.{is_registered, updated}
use xray_web_maneger.Server.Streams.Connections.{Reach-Served}
use xray_web_maneger.Server.Streams.Waiters.{Reach-Owned}

-- The steps of a handler, and the return of a polling loop, for which Subscribe may wait.
abbrev pub is_own : ℕ → Action → Bool
is_own c (subscribes e late) = e == c
is_own c (resumes e) = e == c
is_own c (leaves e) = e == c
is_own c (removes e) = e == c
is_own c (closes e) = e == c
is_own c (others (broadcasts (loop_returns d))) = true
is_own c _ = false

pub data Goes (c : ℕ) : Serving → Serving → Type 0 where
  rests : {v : Serving} → Goes c v v
  acts :
      {v u t : Serving} (a : Action)
      → is_own c a ≡ true
      → step v a ≡ some u
      → Goes c u t
      → Goes c v t

abbrev pub CanEnd : ℕ → Serving → Type 0
CanEnd c v = (t : Serving) × Goes c v t × (t.handlers c ≡ ended)

self_eq : (c : ℕ) → (c == c) ≡ true
self_eq c = ground arith

-- A step of the handler, and then the rest.
first_step :
    {v u : Serving} (c : ℕ) (a : Action)
    → is_own c a ≡ true
    → step v a ≡ some u
    → CanEnd c u
    → CanEnd c v
first_step c a own e (t, more, done) = (t, acts a own e more, done)

-- The state after a handler's step.
abbrev after_move : Serving → Running → ℕ → Place → Serving
after_move v r c p = record { running = r; handlers = update v.handlers c p }

abbrev after_call : Serving → Manager.Call → ℕ → Place → Serving
after_call v a c p =
    after_move v (record (v.running) { manager = Manager.step v.running.manager a }) c p

removed-CanEnd : (v : Serving) (c : ℕ) → v.handlers c ≡ removed → CanEnd c v
unfolding step close_at Shutdown.step
removed-CanEnd v c at =
    let u = after_call v (Manager.closes c) c ended in
    first_step {u = u} c (closes c) (self_eq c) (rw at refl) (u, rests, updated v.handlers c ended)

leaving-CanEnd : (v : Serving) (c : ℕ) → v.handlers c ≡ leaving → CanEnd c v
unfolding step remove_at Shutdown.step
leaving-CanEnd v c at =
    let u = after_call v (Manager.removes (some c)) c removed in
    first_step {u = u} c (removes c) (self_eq c) (rw at refl)
      (removed-CanEnd u c (updated v.handlers c removed))

-- A handler that has its channel does not wait in Subscribe, and neither does another with it.
nobody_waits :
    {v : Serving} (c ch : ℕ)
    → Reach v
    → v.handlers c ≡ streaming ch
    → is_some (find_waiter ch v.running.broadcaster.waiting) ≡ false
nobody_waits {v} c ch r at =
    elim (Bool-cases (is_some (find_waiter ch v.running.broadcaster.waiting))) [
      | inr free ↦ free
      | inl waits ↦
          let o = Reach-Owned r in
          let (e, here) = o.waits ch waits in
          let same = o.distinct c e ch (rw at refl) (rw here refl) in
          absurd (ground (arith, at, here, same))
    ]

streaming-CanEnd : (v : Serving) (c ch : ℕ) → Reach v → v.handlers c ≡ streaming ch → CanEnd c v
unfolding step leave_at Shutdown.step Broadcaster.step
streaming-CanEnd v c ch r at =
    let u =
      after_move v (record (v.running) { broadcaster = unsubscribe ch v.running.broadcaster }) c
        leaving in
    first_step {u = u} c (leaves c) (self_eq c) (rw at (ground (arith, nobody_waits c ch r at)))
      (leaving-CanEnd u c (updated v.handlers c leaving))

resume_step :
    (v : Serving) (c ch : ℕ) (b : Broadcaster.State)
    → v.handlers c ≡ joining ch
    → Broadcaster.step v.running.broadcaster (Broadcaster.resumes ch) ≡ some b
    → step v (resumes c)
      ≡ some (
          after_move v
            (record (v.running) { broadcaster = b })
            c
            (if closes_twice ch v.running.broadcaster then leaving else streaming ch))
unfolding step resume_at Shutdown.step
resume_step v c ch b at steps = rw at (ground (arith, steps))

resumed-CanEnd :
    (v : Serving) (c ch : ℕ) (b : Broadcaster.State)
    → Reach v
    → v.handlers c ≡ joining ch
    → Broadcaster.step v.running.broadcaster (Broadcaster.resumes ch) ≡ some b
    → CanEnd c v
resumed-CanEnd v c ch b r at steps =
    let e = resume_step v c ch b at steps in
    first_step c (resumes c) (self_eq c) e
      (elim (Bool-cases (closes_twice ch v.running.broadcaster)) [
        | inl twice ↦ leaving-CanEnd _ c (rw twice (updated v.handlers c leaving))
        | inr once ↦
            streaming-CanEnd _ c ch (next_step (resumes c) r e)
              (rw once (updated v.handlers c (streaming ch)))
      ])

loop_step :
    (v : Serving) (d : ℕ) (b : Broadcaster.State)
    → Broadcaster.step v.running.broadcaster (loop_returns d) ≡ some b
    → step v (others (broadcasts (loop_returns d)))
      ≡ some (record v { running = record (v.running) { broadcaster = b } })
unfolding step Shutdown.step
loop_step v d b steps = rw steps refl

joining-CanEnd : (v : Serving) (c ch : ℕ) → Reach v → v.handlers c ≡ joining ch → CanEnd c v
joining-CanEnd v c ch r at =
    let waits = (Reach-Owned r).joins c ch at in
    let reach = (Reach-IsOrdered (Reach-Served r).reach).reach in
    elim (Option-cases (find_waiter ch v.running.broadcaster.waiting)) [
      | inl nobody ↦ absurd (ground (arith, waits, nobody))
      | inr (w, found) ↦
          let (b, how) = subscribe_never_hangs ch w reach found in
          elim how [
            | inl at_once ↦ resumed-CanEnd v c ch b r at at_once
            | inr (u, returns, after) ↦
                let e = loop_step v w.done u returns in
                first_step c (others (broadcasts (loop_returns w.done))) refl e
                  (resumed-CanEnd _ c ch b (next_step _ r e) at after)
          ]
    ]

added_step :
    (v : Serving) (c : ℕ)
    → v.handlers c ≡ added
    → step v (subscribes c false)
      ≡ some (
          after_move v
            (record (v.running) { broadcaster = subscribe false v.running.broadcaster })
            c
            (after_subscribe false v.running.broadcaster))
unfolding step subscribe_at Shutdown.step Broadcaster.step
added_step v c at = rw at refl

added-CanEnd : (v : Serving) (c : ℕ) → Reach v → v.handlers c ≡ added → CanEnd c v
added-CanEnd v c r at =
    let e = added_step v c at in
    let b = v.running.broadcaster in
    let u = next_step (subscribes c false) r e in
    first_step c (subscribes c false) (self_eq c) e
      (elim (Bool-cases (is_some (find_waiter b.next (subscribe false b).waiting))) [
        | inl waits ↦ joining-CanEnd _ c b.next u (rw waits (updated v.handlers c (joining b.next)))
        | inr free ↦
            streaming-CanEnd _ c b.next u (rw free (updated v.handlers c (streaming b.next)))
      ])

-- From every reachable state a handler that is between Add and Remove can come to its end, by steps
-- of its own once its stream ends, and the return of a polling loop if it waits for that in
-- Subscribe.
pub handler-CanEnd :
    {v : Serving} (c : ℕ) → Reach v → is_registered (v.handlers c) ≡ true → CanEnd c v
handler-CanEnd {v} c r here = go (v.handlers c) refl here
  where
    go : (p : Place) → v.handlers c ≡ p → is_registered p ≡ true → CanEnd c v
    go added at h = added-CanEnd v c r at
    go (joining ch) at h = joining-CanEnd v c ch r at
    go (streaming ch) at h = streaming-CanEnd v c ch r at
    go leaving at h = leaving-CanEnd v c at
    go absent at h = cc
    go removed at h = cc
    go ended at h = cc
