-- ===== src/Sse/Broadcaster.antt =====
-- sse/broadcaster.go: the life of subscriptions, of the idle timer and of the polling goroutine.
-- A step is what one goroutine does while it holds the mutex, or a goroutine's start or end. A
-- channel, a loop and its two channels are numbers. Waiting without the mutex (for loopDone in
-- Subscribe and in Stop, for the idle timer) lies between two steps, so other steps may come there.
pub mod Control
pub mod Endings
pub mod Safety
pub mod Shutdown
pub mod Progress
pub mod Phases
pub mod Polling
pub mod Channels
pub mod Delivery
pub mod Idle
pub mod Waiting
mod Tests
use xray_web_maneger.Common.{
  ◌≡◌, ℕ, ◌+◌, ◌-◌, Bool, true, false, not, ◌==◌, ◌&&◌, ◌||◌, Option, none, some, List, [], ◌∷◌,
  ◌++◌, any, keep_if, is_some, if◌then◌else◌,
}
pub use xray_web_maneger.Common.{mem, without}

abbrev pub is_nil {ℓ} : {A : Type ℓ} → List A → Bool
is_nil [] = true
is_nil (_ ∷ _) = false

-- A Subscribe that waits for the previous loop: its channel, the loop, and the generation.
pub record Waiter : Type 0 where
  pub ch : ℕ
  pub done : ℕ
  pub gen : ℕ

pub data StopPhase : Type 0 where
  not_called : StopPhase
  -- Between the two critical sections, with the value of loopDone.
  waits : Option ℕ → StopPhase
  finished : StopPhase

pub record State : Type 0 where
  pub subscribers : List ℕ
  pub stopped : Bool
  pub loop_gen : ℕ
  pub stop_ch : Option ℕ
  pub loop_done : Option ℕ
  -- idleTimer != nil, and the callbacks of timers that may still run.
  pub idle_timer : Bool
  pub callbacks : ℕ
  -- The loops that have not returned, and those whose stop channel is closed.
  pub loops : List ℕ
  pub signalled : List ℕ
  pub waiting : List Waiter
  pub phase : StopPhase
  -- Closed subscriber channels, and whether one was closed twice, which is a panic.
  pub closed : List ℕ
  pub panicked : Bool
  pub next : ℕ

unfoldable pub new_broadcaster : State
new_broadcaster = record {
  subscribers = [];
  stopped = false;
  loop_gen = 0;
  stop_ch = none;
  loop_done = none;
  idle_timer = false;
  callbacks = 0;
  loops = [];
  signalled = [];
  waiting = [];
  phase = not_called;
  closed = [];
  panicked = false;
  next = 0;
}

-- idleTimer.Stop() and idleTimer = nil; a callback that is `late` has fired already, and will run.
abbrev pub cancel_timer : Bool → State → State
cancel_timer late s = record s {
  idle_timer = false;
  callbacks = if s.idle_timer && not late then s.callbacks - 1 else s.callbacks;
}

-- close(b.stopCh) and stopCh = nil.
abbrev pub signal : State → State
signal s = elim s.stop_ch [
  | none ↦ s
  | some d ↦ record s { stop_ch = none; signalled = d ∷ s.signalled }
]

abbrev pub start_loop : State → State
start_loop s = record s {
  stop_ch = some s.next;
  loop_done = some s.next;
  loops = s.next ∷ s.loops;
  next = s.next + 1;
}

-- Subscribe, on a broadcaster that is not stopped, once the timer is cancelled.
unfoldable pub join : State → State
join s =
    let s' = record s { subscribers = s.next ∷ s.subscribers; next = s.next + 1 } in
    if is_nil s.subscribers && not (is_some s.stop_ch)
    then elim s.loop_done [
      | none ↦ start_loop s'
      | some d ↦ record s' {
        waiting = record { ch = s.next; done = d; gen = s.loop_gen } ∷ s.waiting;
      }
    ]
    else s'

-- Subscribe up to its return or its wait; the new channel has the number s.next.
unfoldable pub subscribe : Bool → State → State
subscribe late s =
    if s.stopped
    then record s { closed = s.next ∷ s.closed; next = s.next + 1 }
    else join (cancel_timer late s)

abbrev pub find_waiter : ℕ → List Waiter → Option Waiter
find_waiter ch [] = none
find_waiter ch (w ∷ ws) = if w.ch == ch then some w else find_waiter ch ws

abbrev pub drop_waiter : ℕ → List Waiter → List Waiter
drop_waiter ch [] = []
drop_waiter ch (w ∷ ws) = if w.ch == ch then ws else w ∷ drop_waiter ch ws

-- The rest of Subscribe, with the mutex again.
unfoldable pub after_wait : Waiter → State → State
after_wait w s =
    if w.gen == s.loop_gen then start_loop s else if not s.stopped then s else record s {
      subscribers = without w.ch s.subscribers;
      panicked = s.panicked || mem w.ch s.closed;
      closed = w.ch ∷ s.closed;
    }

unfoldable pub resume : ℕ → State → Option State
resume ch s = elim (find_waiter ch s.waiting) [
  | none ↦ none
  | some w ↦
      if mem w.done s.loops
      then none
      else some (after_wait w (record s { waiting = drop_waiter ch s.waiting }))
]

unfoldable pub unsubscribe : ℕ → State → State
unsubscribe ch s =
    let s' = record s { subscribers = without ch s.subscribers } in
    if is_nil s'.subscribers && is_some s.stop_ch && not s.idle_timer
    then record s' { idle_timer = true; callbacks = s.callbacks + 1 }
    else s'

-- The function of the idle timer.
unfoldable pub idle_callback : State → State
idle_callback s =
    let s' = if not s.stopped && is_nil s.subscribers then signal s else s in
    record s' { idle_timer = false; callbacks = s.callbacks - 1 }

-- The first critical section of Stop.
unfoldable pub stop_begin : Bool → State → State
stop_begin late s =
    let s' = signal (cancel_timer late s) in
    record s' { stopped = true; loop_gen = s.loop_gen + 1; phase = waits s.loop_done }

-- The second one: every channel is closed.
unfoldable pub stop_finish : State → State
stop_finish s = record s {
  panicked = s.panicked || any (λ ch. mem ch s.closed) s.subscribers;
  closed = s.subscribers ++ s.closed;
  subscribers = [];
  phase = finished;
}

abbrev pub has_returned : Option ℕ → List ℕ → Bool
has_returned none loops = true
has_returned (some d) loops = not (mem d loops)

pub data Action : Type 0 where
  subscribes : Bool → Action
  -- A Subscribe that waited goes on, once the loop that it waited for has returned.
  resumes : ℕ → Action
  unsubscribes : ℕ → Action
  timer_runs : Action
  -- The loop sees its stop channel closed, or a panic ends it.
  loop_returns : ℕ → Action
  loop_panics : ℕ → Action
  stop_begins : Bool → Action
  stop_finishes : Action

-- One step, `none` where the action cannot happen. Stop runs once; a caller has no channel to
-- unsubscribe before Subscribe returns it.
unfoldable pub step : State → Action → Option State
step s (subscribes late) = some (subscribe late s)
step s (resumes ch) = resume ch s
step s (unsubscribes ch) =
    if is_some (find_waiter ch s.waiting) then none else some (unsubscribe ch s)
step s timer_runs = if s.callbacks == 0 then none else some (idle_callback s)
step s (loop_returns d) =
    if mem d s.loops && mem d s.signalled
    then some (record s { loops = without d s.loops })
    else none
step s (loop_panics d) =
    if mem d s.loops then some (record s { loops = without d s.loops }) else none
step s (stop_begins late) = elim s.phase [ not_called ↦ some (stop_begin late s) | _ ↦ none ]
step s stop_finishes = elim s.phase [
  | waits o ↦ if has_returned o s.loops then some (stop_finish s) else none
  | _ ↦ none
]

pub data Reach : State → Type 0 where
  start : Reach new_broadcaster
  next_step : {s t : State} (a : Action) → Reach s → step s a ≡ some t → Reach t
