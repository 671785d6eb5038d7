-- ===== src/Server/Streams/Shrinks.antt =====
-- server/server.go: what the steps that are no handler's do to the registered streams.
use xray_web_maneger.Common.{
  ℕ, ◌≤◌, ◌≡◌, ◌⊎◌, inl, inr, refl, subst, Bool, true, false, ◌&&◌, not, some, arith, guard_lem,
  guarded_lem, map_some_lem, mem, mem-append_eq,
}
use xray_web_maneger.Sse.Manager.{close_all}
use xray_web_maneger.Sse.Broadcaster
use xray_web_maneger.Sse.Broadcaster.{stop_begins, stop_finishes}
use xray_web_maneger.Sse.Broadcaster.Channels.{registered_before, is_subscribe, next-le}
use xray_web_maneger.Sse.Broadcaster.Waiting.{is_entry, waiting_kept}
use xray_web_maneger.Sse.Broadcaster.Phases.{is_stop}
use xray_web_maneger.Server.Shutdown
use xray_web_maneger.Server.Shutdown.{
  serving, cancelled, stopping, stopped, closed, returned, is_at, Running, Action, cancels,
  finishes_stop, shuts_streams, returns, begins_stop, monitor_ends, broadcasts, streams,
}
use xray_web_maneger.Server.Streams.{is_handlers}

-- Nothing is registered that was not, and what is registered no more was told to end.
pub record Shrinks (r t : Running) : Type 0 where
  pub next : t.manager.next ≡ r.manager.next
  pub connections :
      (c : ℕ) → mem c t.manager.connections ≡ true → mem c r.manager.connections ≡ true
  pub told :
      (c : ℕ)
      → mem c r.manager.connections ≡ true
      → (mem c t.manager.connections ≡ true) ⊎ (mem c t.manager.closed ≡ true)
  pub closed : (c : ℕ) → mem c r.manager.closed ≡ true → mem c t.manager.closed ≡ true
  pub subscribers :
      (ch : ℕ) → mem ch t.broadcaster.subscribers ≡ true → mem ch r.broadcaster.subscribers ≡ true
  pub waiting : t.broadcaster.waiting ≡ r.broadcaster.waiting
  pub number : r.broadcaster.next ≤ t.broadcaster.next

-- A step that leaves the connection manager alone.
with_broadcaster :
    (r : Running) (stage : Shutdown.Stage) (a : Broadcaster.Action) (b : Broadcaster.State)
    → is_subscribe a ≡ false
    → is_entry a ≡ false
    → Broadcaster.step r.broadcaster a ≡ some b
    → Shrinks r (record r { stage = stage; broadcaster = b })
with_broadcaster r stage a b k j e = record {
  next = refl;
  connections = λ c h. h;
  told = λ c h. inl h;
  closed = λ c h. h;
  subscribers = λ ch h. registered_before a r.broadcaster b ch k e h;
  waiting = waiting_kept a r.broadcaster b j e;
  number = next-le a r.broadcaster b e;
}

aside :
    (r : Running) (stage : Shutdown.Stage) (monitor : Bool)
    → Shrinks r (record r { stage = stage; monitor = monitor })
aside r stage monitor = record {
  next = refl;
  connections = λ c h. h;
  told = λ c h. inl h;
  closed = λ c h. h;
  subscribers = λ ch h. h;
  waiting = refl;
  number = omega arith;
}

shut : (r : Running) → Shrinks r (record r { stage = closed; manager = close_all r.manager })
unfolding close_all
shut r = record {
  next = refl;
  connections = λ c h. cc;
  told = λ c h. inr (ground (arith, mem-append_eq c r.manager.connections r.manager.closed));
  closed = λ c h. ground (arith, mem-append_eq c r.manager.connections r.manager.closed);
  subscribers = λ ch h. h;
  waiting = refl;
  number = omega arith;
}

pub step-Shrinks :
    (a : Action) (r t : Running) → is_handlers a ≡ false → Shutdown.step r a ≡ some t → Shrinks r t
unfolding Shutdown.step
step-Shrinks cancels r t k e =
    subst (Shrinks r) (guard_lem (is_at serving r.stage) e).1 (aside r cancelled r.monitor)
step-Shrinks (begins_stop late) r t k e =
    let (_, lifts) = guarded_lem (is_at cancelled r.stage) e in
    let (b, steps, same) =
      map_some_lem (Broadcaster.step r.broadcaster (stop_begins late)) _ t lifts in
    subst (Shrinks r) same (with_broadcaster r stopping (stop_begins late) b refl refl steps)
step-Shrinks finishes_stop r t k e =
    let (_, lifts) = guarded_lem (is_at stopping r.stage) e in
    let (b, steps, same) = map_some_lem (Broadcaster.step r.broadcaster stop_finishes) _ t lifts in
    subst (Shrinks r) same (with_broadcaster r stopped stop_finishes b refl refl steps)
step-Shrinks shuts_streams r t k e =
    subst (Shrinks r) (guard_lem (is_at stopped r.stage) e).1 (shut r)
step-Shrinks returns r t k e =
    subst (Shrinks r) (guard_lem (is_at closed r.stage && not r.monitor) e).1
      (aside r returned r.monitor)
step-Shrinks monitor_ends r t k e =
    subst (Shrinks r) (guard_lem (r.monitor && not (is_at serving r.stage)) e).1
      (aside r r.stage false)
step-Shrinks (broadcasts a) r t k e =
    let (_, lifts) = guarded_lem (not (is_stop a)) e in
    let (b, steps, same) = map_some_lem (Broadcaster.step r.broadcaster a) _ t lifts in
    subst (Shrinks r) same (with_broadcaster r r.stage a b (no_subscribe a k) (no_entry a k) steps)
  where
    no_subscribe :
        (a : Broadcaster.Action) → is_handlers (broadcasts a) ≡ false → is_subscribe a ≡ false
    no_subscribe a h = ground arith

    no_entry : (a : Broadcaster.Action) → is_handlers (broadcasts a) ≡ false → is_entry a ≡ false
    no_entry a h = ground arith
step-Shrinks (streams c) r t k e = cc
