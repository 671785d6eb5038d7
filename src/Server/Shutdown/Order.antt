-- ===== src/Server/Shutdown/Order.antt =====
-- Server.Shutdown: what holds at each of its stages.
use xray_web_maneger.Common.{
  ℕ, ◌≡◌, refl, sym, subst, Bool, true, false, not, ◌&&◌, Option, none, some, [], guard_lem,
  guarded_lem, map_some_lem, arith,
}
use xray_web_maneger.Sse.Manager.{Manager, add, close_all}
use xray_web_maneger.Sse.Manager
use xray_web_maneger.Sse.Manager.Invariant.{
  IsValid, new_manager-IsValid, step-IsValid, step-shutdown, close_all-IsValid, close_all-shutdown,
  add_of_shutdown,
}
use xray_web_maneger.Sse.Broadcaster
use xray_web_maneger.Sse.Broadcaster.{
  StopPhase, not_called, waits, finished, new_broadcaster, stop_begins, stop_finishes,
}
use xray_web_maneger.Sse.Broadcaster.Shutdown.{stop_ends_everything}
use xray_web_maneger.Sse.Broadcaster.Phases.{
  is_stop, phase_kept, begun_phase, finished_phase, new_broadcaster_phase,
}
use xray_web_maneger.Server.Shutdown.{
  Stage, serving, cancelled, stopping, stopped, closed, returned, is_at, Running, Action, cancels,
  finishes_stop, shuts_streams, returns, begins_stop, monitor_ends, broadcasts, streams, step,
  Reach, start, next_step,
}

-- The phase of the broadcaster's Stop at a stage.
abbrev pub Matches : Stage → StopPhase → Type 0
Matches serving p = p ≡ not_called
Matches cancelled p = p ≡ not_called
Matches stopping p = (o : Option ℕ) × (p ≡ waits o)
Matches stopped p = p ≡ finished
Matches closed p = p ≡ finished
Matches returned p = p ≡ finished

-- What CloseAll and the last wait have brought about.
abbrev pub Shut : Stage → Bool → Bool → Type 0
Shut closed monitor shutdown = shutdown ≡ true
Shut returned monitor shutdown = (shutdown ≡ true) × (monitor ≡ false)
Shut _ monitor shutdown = Unit

pub record IsOrdered (r : Running) : Type 0 where
  pub reach : Broadcaster.Reach r.broadcaster
  pub phase : Matches r.stage r.broadcaster.phase
  pub manager : IsValid r.manager
  pub shut : Shut r.stage r.monitor r.manager.shutdown

pub is_at_lem : (a b : Stage) → is_at a b ≡ true → a ≡ b
is_at_lem a b e = ground arith

and_lem : (a b : Bool) → a && b ≡ true → (a ≡ true) × (b ≡ true)
and_lem a b e = ground arith

ended-Shut : (s : Stage) (monitor shutdown : Bool) → Shut s monitor shutdown → Shut s false shutdown
ended-Shut closed monitor shutdown h = h
ended-Shut returned monitor shutdown (h, k) = (h, refl)
ended-Shut serving monitor shutdown h = tt
ended-Shut cancelled monitor shutdown h = tt
ended-Shut stopping monitor shutdown h = tt
ended-Shut stopped monitor shutdown h = tt

kept-Shut :
    (s : Stage) (monitor : Bool) (m : Manager) (c : Manager.Call)
    → Shut s monitor m.shutdown
    → Shut s monitor (Manager.step m c).shutdown
kept-Shut closed monitor m c h = step-shutdown m c h
kept-Shut returned monitor m c (h, k) = (step-shutdown m c h, k)
kept-Shut serving monitor m c h = tt
kept-Shut cancelled monitor m c h = tt
kept-Shut stopping monitor m c h = tt
kept-Shut stopped monitor m c h = tt

pub step-IsOrdered : (r t : Running) (a : Action) → IsOrdered r → step r a ≡ some t → IsOrdered t
unfolding step
step-IsOrdered r t cancels v e =
    let (at, same) = guard_lem (is_at serving r.stage) e in
    let stage = is_at_lem serving r.stage at in
    subst IsOrdered same (record {
      reach = v.reach;
      phase = subst (λ s. Matches s r.broadcaster.phase) (sym stage) v.phase;
      manager = v.manager;
      shut = tt;
    })
step-IsOrdered r t (begins_stop late) v e =
    let (at, lifts) = guarded_lem (is_at cancelled r.stage) e in
    let (b, steps, same) =
      map_some_lem (Broadcaster.step r.broadcaster (stop_begins late)) _ t lifts in
    subst IsOrdered same (record {
      reach = Broadcaster.next_step (stop_begins late) v.reach steps;
      phase = begun_phase late r.broadcaster b steps;
      manager = v.manager;
      shut = tt;
    })
step-IsOrdered r t finishes_stop v e =
    let (at, lifts) = guarded_lem (is_at stopping r.stage) e in
    let (b, steps, same) = map_some_lem (Broadcaster.step r.broadcaster stop_finishes) _ t lifts in
    subst IsOrdered same (record {
      reach = Broadcaster.next_step stop_finishes v.reach steps;
      phase = finished_phase r.broadcaster b steps;
      manager = v.manager;
      shut = tt;
    })
step-IsOrdered r t shuts_streams v e =
    let (at, same) = guard_lem (is_at stopped r.stage) e in
    let stage = is_at_lem stopped r.stage at in
    subst IsOrdered same (record {
      reach = v.reach;
      phase = subst (λ s. Matches s r.broadcaster.phase) (sym stage) v.phase;
      manager = close_all-IsValid r.manager v.manager;
      shut = close_all-shutdown r.manager;
    })
step-IsOrdered r t returns v e =
    let (both, same) = guard_lem (is_at closed r.stage && not r.monitor) e in
    let (at, ended) = and_lem (is_at closed r.stage) (not r.monitor) both in
    let stage = is_at_lem closed r.stage at in
    subst IsOrdered same (record {
      reach = v.reach;
      phase = subst (λ s. Matches s r.broadcaster.phase) (sym stage) v.phase;
      manager = v.manager;
      shut = (
        subst (λ s. Shut s r.monitor r.manager.shutdown) (sym stage) v.shut,
        not_lem r.monitor ended,
      );
    })
  where
    not_lem : (b : Bool) → not b ≡ true → b ≡ false
    not_lem b h = ground arith
step-IsOrdered r t monitor_ends v e =
    let (runs, same) = guard_lem (r.monitor && not (is_at serving r.stage)) e in
    subst IsOrdered same (record {
      reach = v.reach;
      phase = v.phase;
      manager = v.manager;
      shut = ended-Shut r.stage r.monitor r.manager.shutdown v.shut;
    })
step-IsOrdered r t (broadcasts a) v e =
    let (other, lifts) = guarded_lem (not (is_stop a)) e in
    let (b, steps, same) = map_some_lem (Broadcaster.step r.broadcaster a) _ t lifts in
    subst IsOrdered same (record {
      reach = Broadcaster.next_step a v.reach steps;
      phase =
          subst (Matches r.stage) (sym (phase_kept a r.broadcaster b (ground (arith, other)) steps))
            v.phase;
      manager = v.manager;
      shut = v.shut;
    })
step-IsOrdered r t (streams c) v e =
    let (other, same) = guard_lem _ e in
    subst IsOrdered same (record {
      reach = v.reach;
      phase = v.phase;
      manager = step-IsValid r.manager c v.manager;
      shut = kept-Shut r.stage r.monitor r.manager c v.shut;
    })

pub Reach-IsOrdered : {r : Running} → Reach r → IsOrdered r
Reach-IsOrdered start = record {
  reach = Broadcaster.start;
  phase = new_broadcaster_phase;
  manager = new_manager-IsValid;
  shut = tt;
}
Reach-IsOrdered (next_step {r} {t} a h e) = step-IsOrdered r t a (Reach-IsOrdered h) e

-- When Shutdown has returned, and whatever happens afterwards, no polling loop runs, no subscriber
-- and no connection is registered, the reconnect monitor has returned, and no connection is added.
pub returned_lem :
    {r : Running}
    → Reach r
    → r.stage ≡ returned
    → (r.broadcaster.loops ≡ [])
      × (r.broadcaster.subscribers ≡ [])
      × (r.manager.connections ≡ [])
      × (r.monitor ≡ false)
      × ((add r.manager).1 ≡ none)
returned_lem {r} h stage =
    let v = Reach-IsOrdered h in
    let (_, ended, left) =
      stop_ends_everything v.reach (subst (λ s. Matches s r.broadcaster.phase) stage v.phase) in
    let (shut, monitor) = subst (λ s. Shut s r.monitor r.manager.shutdown) stage v.shut in
    (ended, left, v.manager.shut shut, monitor, add_of_shutdown r.manager shut)
