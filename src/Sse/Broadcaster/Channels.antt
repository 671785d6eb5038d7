-- ===== src/Sse/Broadcaster/Channels.antt =====
-- sse/broadcaster.go: the numbers of channels and loops, and which channels are closed.
use xray_web_maneger.Common.{
  ℕ, ◌≤◌, ◌<◌, ◌≡◌, ◌≢◌, ◌⊎◌, subst, Bool, true, false, some, List, [], ◌∷◌, ◌==◌, ◌&&◌, not,
  guard_lem, arith, is_some, mem, without, mem-without_eq, mem-append_eq,
}
use xray_web_maneger.Sse.Broadcaster.{
  Waiter, State, new_broadcaster, join, subscribe, find_waiter, drop_waiter, after_wait, resume,
  unsubscribe, idle_callback, stop_begin, stop_finish, Action, subscribes, resumes, unsubscribes,
  timer_runs, loop_returns, loop_panics, stop_begins, stop_finishes, step, Reach, start, next_step,
}
use xray_web_maneger.Sse.Broadcaster.Safety.{resume_cases, begin_taken, finish_taken}
use xray_web_maneger.Sse.Broadcaster.Progress.{closes_while_idle}

-- What is registered is open, and what is in use has a number that was given out.
pub record Numbered (s : State) : Type 0 where
  pub subscribers : (c : ℕ) → mem c s.subscribers ≡ true → (mem c s.closed ≡ false) × (c < s.next)
  pub closed : (c : ℕ) → mem c s.closed ≡ true → c < s.next
  pub loops : (d : ℕ) → mem d s.loops ≡ true → d < s.next
  pub waiting : (c : ℕ) → is_some (find_waiter c s.waiting) ≡ true → c < s.next

new_broadcaster-Numbered : Numbered new_broadcaster
unfolding new_broadcaster
new_broadcaster-Numbered = record {
  subscribers = λ c e. cc;
  closed = λ c e. cc;
  loops = λ d e. cc;
  waiting = λ c e. cc;
}

subscribe-Numbered : (late : Bool) (s : State) → Numbered s → Numbered (subscribe late s)
unfolding subscribe join
subscribe-Numbered late s n = record {
  subscribers = λ c e. ground (arith, n.subscribers c, n.closed c);
  closed = λ c e. ground (arith, n.closed c);
  loops = λ d e. ground (arith, n.loops d);
  waiting = λ c e. ground (arith, n.waiting c);
}

unsubscribe-Numbered : (ch : ℕ) (s : State) → Numbered s → Numbered (unsubscribe ch s)
unfolding unsubscribe
unsubscribe-Numbered ch s n = record {
  subscribers = λ c e. ground (arith, n.subscribers c, mem-without_eq c ch s.subscribers);
  closed = λ c e. ground (arith, n.closed c);
  loops = λ d e. ground (arith, n.loops d);
  waiting = λ c e. ground (arith, n.waiting c);
}

idle_callback-Numbered : (s : State) → Numbered s → Numbered (idle_callback s)
unfolding idle_callback
idle_callback-Numbered s n = record {
  subscribers = λ c e. ground (arith, n.subscribers c);
  closed = λ c e. ground (arith, n.closed c);
  loops = λ d e. ground (arith, n.loops d);
  waiting = λ c e. ground (arith, n.waiting c);
}

loop_ends-Numbered :
    (d : ℕ) (s : State) → Numbered s → Numbered (record s { loops = without d s.loops })
loop_ends-Numbered d s n = record {
  subscribers = n.subscribers;
  closed = n.closed;
  loops = λ x e. ground (arith, n.loops x, mem-without_eq x d s.loops);
  waiting = n.waiting;
}

stop_begin-Numbered : (late : Bool) (s : State) → Numbered s → Numbered (stop_begin late s)
unfolding stop_begin
stop_begin-Numbered late s n = record {
  subscribers = λ c e. ground (arith, n.subscribers c);
  closed = λ c e. ground (arith, n.closed c);
  loops = λ d e. ground (arith, n.loops d);
  waiting = λ c e. ground (arith, n.waiting c);
}

stop_finish-Numbered : (s : State) → Numbered s → Numbered (stop_finish s)
unfolding stop_finish
stop_finish-Numbered s n = record {
  subscribers = λ c e. cc;
  closed =
      λ c e. ground (arith, n.closed c, n.subscribers c, mem-append_eq c s.subscribers s.closed);
  loops = n.loops;
  waiting = n.waiting;
}

pub find_waiter-ch :
    (ch : ℕ) (ws : List Waiter) (w : Waiter) → find_waiter ch ws ≡ some w → w.ch ≡ ch
find_waiter-ch ch [] w e = absurd (ground arith)
find_waiter-ch ch (v ∷ ws) w e = ground (arith, find_waiter-ch ch ws w)

find_waiter-drop :
    (c ch : ℕ) (ws : List Waiter)
    → is_some (find_waiter c (drop_waiter ch ws)) ≡ true
    → is_some (find_waiter c ws) ≡ true
find_waiter-drop c ch [] e = e
find_waiter-drop c ch (v ∷ ws) e = ground (arith, find_waiter-drop c ch ws)

after_wait-Numbered :
    (ch : ℕ) (w : Waiter) (s : State)
    → Numbered s
    → w.ch < s.next
    → Numbered (after_wait w (record s { waiting = drop_waiter ch s.waiting }))
unfolding after_wait
after_wait-Numbered ch w s n known = record {
  subscribers = λ c e. ground (arith, n.subscribers c, mem-without_eq c w.ch s.subscribers);
  closed = λ c e. ground (arith, n.closed c);
  loops = λ d e. ground (arith, n.loops d);
  waiting = λ c e. ground (arith, n.waiting c, find_waiter-drop c ch s.waiting);
}

step-Numbered : (a : Action) (s t : State) → Numbered s → step s a ≡ some t → Numbered t
unfolding step
step-Numbered (subscribes late) s t n e =
    subst Numbered (ground arith) (subscribe-Numbered late s n)
step-Numbered (resumes ch) s t n e =
    let (w, found, _, f) = resume_cases ch s t e in
    subst Numbered f (
      after_wait-Numbered ch w s n
        (ground (arith, n.waiting ch, find_waiter-ch ch s.waiting w found)))
step-Numbered (unsubscribes ch) s t n e =
    let (_, f) = guard_lem (not (is_some (find_waiter ch s.waiting))) {y = t} (ground arith) in
    subst Numbered f (unsubscribe-Numbered ch s n)
step-Numbered timer_runs s t n e =
    subst Numbered (guard_lem (not (s.callbacks == 0)) {y = t} (ground arith)).1
      (idle_callback-Numbered s n)
step-Numbered (loop_returns d) s t n e =
    subst Numbered (guard_lem (mem d s.loops && mem d s.signalled) e).1 (loop_ends-Numbered d s n)
step-Numbered (loop_panics d) s t n e =
    subst Numbered (guard_lem (mem d s.loops) e).1 (loop_ends-Numbered d s n)
step-Numbered (stop_begins late) s t n e =
    subst Numbered (begin_taken s.phase (stop_begin late s) t e).1 (stop_begin-Numbered late s n)
step-Numbered stop_finishes s t n e =
    let (o, _, _, f) = finish_taken s.phase s.loops (stop_finish s) t e in
    subst Numbered f (stop_finish-Numbered s n)

pub Reach-Numbered : {s : State} → Reach s → Numbered s
Reach-Numbered start = new_broadcaster-Numbered
Reach-Numbered (next_step {s} {t} a r e) = step-Numbered a s t (Reach-Numbered r) e

-- Numbers are only given out.
pub next-le : (a : Action) (s t : State) → step s a ≡ some t → s.next ≤ t.next
unfolding step subscribe resume after_wait unsubscribe idle_callback join stop_begin stop_finish
next-le (subscribes late) s t e = ground arith
next-le (resumes ch) s t e = ground arith
next-le (unsubscribes ch) s t e = ground arith
next-le timer_runs s t e = ground arith
next-le (loop_returns d) s t e = ground arith
next-le (loop_panics d) s t e = ground arith
next-le (stop_begins late) s t e = ground arith
next-le stop_finishes s t e = ground arith

-- A loop that runs after a step ran before it, or is new.
pub loop_before :
    (a : Action) (s t : State) (d : ℕ)
    → step s a ≡ some t
    → mem d t.loops ≡ true
    → (mem d s.loops ≡ true) ⊎ (s.next ≤ d)
unfolding step subscribe resume after_wait unsubscribe idle_callback join stop_begin stop_finish
loop_before (subscribes late) s t d e h = ground arith
loop_before (resumes ch) s t d e h = ground arith
loop_before (unsubscribes ch) s t d e h = ground arith
loop_before timer_runs s t d e h = ground arith
loop_before (loop_returns x) s t d e h = ground (arith, mem-without_eq d x s.loops)
loop_before (loop_panics x) s t d e h = ground (arith, mem-without_eq d x s.loops)
loop_before (stop_begins late) s t d e h = ground arith
loop_before stop_finishes s t d e h = ground arith

-- A channel that was given out and is open.
abbrev pub IsOpen : State → ℕ → Type 0
IsOpen s ch = (mem ch s.closed ≡ false) × (ch < s.next)

-- What is open stays open as long as a loop runs.
pub step-IsOpen :
    {s : State} (a : Action) (t : State) (d ch : ℕ)
    → Reach s
    → step s a ≡ some t
    → mem d s.loops ≡ true
    → IsOpen s ch
    → IsOpen t ch
step-IsOpen {s} a t d ch r e runs o = ground (arith, closes_while_idle a t r e, next-le a s t e)

abbrev pub is_subscribe : Action → Bool
is_subscribe (subscribes late) = true
is_subscribe _ = false

-- Only Subscribe registers a channel.
pub registered_before :
    (a : Action) (s t : State) (ch : ℕ)
    → is_subscribe a ≡ false
    → step s a ≡ some t
    → mem ch t.subscribers ≡ true
    → mem ch s.subscribers ≡ true
unfolding step resume after_wait unsubscribe idle_callback stop_begin stop_finish
registered_before (subscribes late) s t ch k e h = cc
registered_before (resumes c) s t ch k e h =
    let (w, found, _, f) = resume_cases c s t e in
    ground (arith, f, mem-without_eq ch w.ch s.subscribers)
registered_before (unsubscribes c) s t ch k e h = ground (arith, mem-without_eq ch c s.subscribers)
registered_before timer_runs s t ch k e h = ground arith
registered_before (loop_returns d) s t ch k e h = ground arith
registered_before (loop_panics d) s t ch k e h = ground arith
registered_before (stop_begins late) s t ch k e h = ground arith
registered_before stop_finishes s t ch k e h = ground arith

-- Subscribe registers its new channel alone.
pub subscribed_before :
    (late : Bool) (s t : State) (ch : ℕ)
    → step s (subscribes late) ≡ some t
    → mem ch t.subscribers ≡ true
    → (mem ch s.subscribers ≡ true) ⊎ (ch ≡ s.next)
unfolding step subscribe join
subscribed_before late s t ch e h = ground arith

-- Unsubscribe takes its channel off.
pub unsubscribed :
    (c : ℕ) (s t : State) (ch : ℕ)
    → step s (unsubscribes c) ≡ some t
    → mem ch t.subscribers ≡ true
    → ch ≢ c
unfolding step unsubscribe
unsubscribed c s t ch e h same = ground (arith, mem-without_eq ch c s.subscribers)
