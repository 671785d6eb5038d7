-- ===== src/Sse/Broadcaster/Control.antt =====
-- sse/broadcaster.go: the loops, the Subscribe that waits and Stop, as one invariant; Subscribe.
use xray_web_maneger.Common.{
  ℕ, ◌+◌, ◌-◌, ◌<◌, ◌≡◌, ◌≢◌, ◌⊎◌, inl, inr, refl, ap, subst, Bool, true, false, not, ◌&&◌, none,
  some, List, [], ◌∷◌, is_some, if◌then◌else◌, arith, Option-cases, Bool-cases,
}
use xray_web_maneger.Sse.Broadcaster.{
  mem, without, is_nil, Waiter, not_called, waits, finished, State, new_broadcaster, cancel_timer,
  start_loop, join, subscribe,
}

-- What a Subscribe that waits relies on.
pub record WaitsWell (s : State) (w : Waiter) : Type 0 where
  pub alone : s.waiting ≡ w ∷ []
  pub no_loop : s.stop_ch ≡ none
  pub latest : s.loop_done ≡ some w.done
  pub gen :
      ((s.stopped ≡ false) × (w.gen ≡ s.loop_gen) × (mem w.ch s.subscribers ≡ true))
      ⊎ ((s.stopped ≡ true) × (w.gen < s.loop_gen))

pub record Control (s : State) : Type 0 where
  pub one_loop : (s.loops ≡ []) ⊎ ((d : ℕ) × (s.loops ≡ d ∷ []) × (s.loop_done ≡ some d))
  pub current : (s.stop_ch ≡ none) ⊎ (s.stop_ch ≡ s.loop_done)
  pub one_waiter : (s.waiting ≡ []) ⊎ ((w : Waiter) × WaitsWell s w)
  pub stopping :
      ((s.stopped ≡ false) × (s.phase ≡ not_called))
      ⊎ ((s.stopped ≡ true)
          × (s.stop_ch ≡ none)
          × ((s.phase ≡ waits s.loop_done) ⊎ (s.phase ≡ finished)))

pub new_broadcaster-Control : Control new_broadcaster
unfolding new_broadcaster
new_broadcaster-Control = record {
  one_loop = inl refl;
  current = inl refl;
  one_waiter = inl refl;
  stopping = inl (refl, refl);
}

is_nil_of_mem : (a : ℕ) (xs : List ℕ) → mem a xs ≡ true → is_nil xs ≡ false
is_nil_of_mem a [] h = cc
is_nil_of_mem a (x ∷ xs) h = refl

pub mem-without : (a b : ℕ) (xs : List ℕ) → a ≢ b → mem a xs ≡ true → mem a (without b xs) ≡ true
mem-without a b [] n h = h
mem-without a b (x ∷ xs) n h = ground (arith, mem-without a b xs n)

-- Before Stop is called, and with no loop and no Subscribe on their way.
pub record Quiet (s : State) : Type 0 where
  pub loops : s.loops ≡ []
  pub waiting : s.waiting ≡ []
  pub stopped : s.stopped ≡ false
  pub phase : s.phase ≡ not_called

pub start_loop-Control : (s : State) → Quiet s → Control (start_loop s)
start_loop-Control s q = record {
  one_loop = inr (s.next, ap (◌∷◌ s.next) q.loops, refl);
  current = inr refl;
  one_waiter = inl q.waiting;
  stopping = inl (q.stopped, q.phase);
}

abbrev pub add_subscriber : State → State
add_subscriber s = record s { subscribers = s.next ∷ s.subscribers; next = s.next + 1 }

add_subscriber-Control : (s : State) → Control s → Control (add_subscriber s)
add_subscriber-Control s c = record {
  one_loop = c.one_loop;
  current = c.current;
  one_waiter = elim c.one_waiter [
    | inl e ↦ inl e
    | inr (w, h) ↦ inr (
      w,
      record {
        alone = h.alone;
        no_loop = h.no_loop;
        latest = h.latest;
        gen = ground (arith, h.gen);
      },
    )
  ];
  stopping = c.stopping;
}

pub phase_of_running : (s : State) → Control s → s.stopped ≡ false → s.phase ≡ not_called
phase_of_running s c h = ground (arith, c.stopping)

no_waiter_of_empty :
    (s : State) → Control s → s.stopped ≡ false → is_nil s.subscribers ≡ true → s.waiting ≡ []
no_waiter_of_empty s c h e = elim c.one_waiter [
  | inl none_waits ↦ none_waits
  | inr (w, v) ↦ absurd (ground (arith, v.gen, is_nil_of_mem w.ch s.subscribers))
]

no_loop_of_none : (s : State) → Control s → s.loop_done ≡ none → s.loops ≡ []
no_loop_of_none s c e = ground (arith, c.one_loop)

-- The three ways in which Subscribe may go on.
pub join_cases :
    (s : State)
    → (join s ≡ add_subscriber s)
      ⊎ ((is_nil s.subscribers ≡ true)
          × (s.stop_ch ≡ none)
          × (s.loop_done ≡ none)
          × (join s ≡ start_loop (add_subscriber s)))
      ⊎ ((d : ℕ) × (is_nil s.subscribers ≡ true)
          × (s.stop_ch ≡ none)
          × (s.loop_done ≡ some d)
          × (join s ≡ record (add_subscriber s) {
            waiting = record { ch = s.next; done = d; gen = s.loop_gen } ∷ s.waiting;
          }))
unfolding join
join_cases s = elim (Bool-cases (is_nil s.subscribers && not (is_some s.stop_ch))) [
  | inr e ↦ inl (rw e)
  | inl e ↦ elim (Option-cases s.loop_done) [
    | inl f ↦ inr (inl (ground arith, ground arith, f, ground arith))
    | inr (d, f) ↦ inr (inr (d, ground arith, ground arith, f, ground arith))
  ]
]

join-Control : (s : State) → Control s → s.stopped ≡ false → Control (join s)
join-Control s c h = elim (join_cases s) [
  | inl e ↦ rw e (add_subscriber-Control s c)
  | inr (inl (empty, idle, fresh, e)) ↦ rw e (
      start_loop-Control (add_subscriber s) (record {
        loops = no_loop_of_none s c fresh;
        waiting = no_waiter_of_empty s c h empty;
        stopped = h;
        phase = phase_of_running s c h;
      }))
  | inr (inr (d, empty, idle, old, e)) ↦ rw e (record {
    one_loop = c.one_loop;
    current = c.current;
    one_waiter = inr (
      record { ch = s.next; done = d; gen = s.loop_gen },
      record {
        alone =
            ap (◌∷◌ (record { ch = s.next; done = d; gen = s.loop_gen }))
              (no_waiter_of_empty s c h empty);
        no_loop = idle;
        latest = old;
        gen = inl (h, refl, ground arith);
      },
    );
    stopping = c.stopping;
  })
]

pub timer-Control :
    (timer : Bool) (n : ℕ) (s : State)
    → Control s
    → Control (record s { idle_timer = timer; callbacks = n })
timer-Control timer n s c = record {
  one_loop = c.one_loop;
  current = c.current;
  one_waiter = elim c.one_waiter [
    | inl e ↦ inl e
    | inr (w, h) ↦
        inr (w, record { alone = h.alone; no_loop = h.no_loop; latest = h.latest; gen = h.gen })
  ];
  stopping = c.stopping;
}

pub cancel_timer-Control : (late : Bool) (s : State) → Control s → Control (cancel_timer late s)
cancel_timer-Control late s c =
    timer-Control false (if s.idle_timer && not late then s.callbacks - 1 else s.callbacks) s c

abbrev pub reject : State → State
reject s = record s { closed = s.next ∷ s.closed; next = s.next + 1 }

reject-Control : (s : State) → Control s → Control (reject s)
reject-Control s c = record {
  one_loop = c.one_loop;
  current = c.current;
  one_waiter = elim c.one_waiter [
    | inl f ↦ inl f
    | inr (w, v) ↦
        inr (w, record { alone = v.alone; no_loop = v.no_loop; latest = v.latest; gen = v.gen })
  ];
  stopping = c.stopping;
}

pub subscribe_cases :
    (late : Bool) (s : State)
    → ((s.stopped ≡ true) × (reject s ≡ subscribe late s))
      ⊎ ((s.stopped ≡ false) × (join (cancel_timer late s) ≡ subscribe late s))
unfolding subscribe
subscribe_cases late s = elim (Bool-cases s.stopped) [
  | inl e ↦ inl (e, rw e refl)
  | inr e ↦ inr (e, rw e refl)
]

pub subscribe-Control : (late : Bool) (s : State) → Control s → Control (subscribe late s)
subscribe-Control late s c = elim (subscribe_cases late s) [
  | inl (e, f) ↦ subst Control f (reject-Control s c)
  | inr (e, f) ↦
      subst Control f (join-Control (cancel_timer late s) (cancel_timer-Control late s c) e)
]
