-- ===== src/Sse/Broadcaster/Endings.antt =====
-- sse/broadcaster.go: the idle timer, Unsubscribe, the end of a loop, and Stop.
use xray_web_maneger.Common.{
  ℕ, ◌+◌, ◌-◌, ◌≡◌, ◌≢◌, ◌⊎◌, inl, inr, refl, ap, ◌∙◌, subst, if_keeps, Bool, true, false, not,
  ◌&&◌, Option, none, some, [], ◌∷◌, is_some, arith, Option-cases, Bool-cases,
}
use xray_web_maneger.Sse.Broadcaster.{
  without, is_nil, not_called, waits, State, cancel_timer, signal, find_waiter, unsubscribe,
  idle_callback, stop_begin, stop_finish,
}
use xray_web_maneger.Sse.Broadcaster.Control.{
  Control, timer-Control, cancel_timer-Control, mem-without,
}

signal_of_none : (s : State) → s.stop_ch ≡ none → s ≡ signal s
signal_of_none s e = ground arith

signal_of_some :
    (s : State) (d : ℕ)
    → s.stop_ch ≡ some d
    → record s { stop_ch = none; signalled = d ∷ s.signalled } ≡ signal s
signal_of_some s d e = ground arith

signal-Control : (s : State) → Control s → Control (signal s)
signal-Control s c = elim (Option-cases s.stop_ch) [
  | inl e ↦ subst Control (signal_of_none s e) c
  | inr (d, e) ↦ subst Control (signal_of_some s d e) (record {
    one_loop = c.one_loop;
    current = inl refl;
    one_waiter = elim c.one_waiter [
      | inl f ↦ inl f
      | inr (w, h) ↦
          inr (w, record { alone = h.alone; no_loop = refl; latest = h.latest; gen = h.gen })
    ];
    stopping = ground (arith, c.stopping);
  })
]

pub idle_callback-Control : (s : State) → Control s → Control (idle_callback s)
unfolding idle_callback
idle_callback-Control s c = elim (Bool-cases (not s.stopped && is_nil s.subscribers)) [
  | inl e ↦ rw e (set_timer (signal s) (signal-Control s c))
  | inr e ↦ rw e (set_timer s c)
]
  where
    set_timer :
        (t : State)
        → Control t
        → Control (record t { idle_timer = false; callbacks = s.callbacks - 1 })
    set_timer t k = timer-Control false (s.callbacks - 1) t k

without_one : (d e : ℕ) → (without d (e ∷ []) ≡ []) ⊎ (without d (e ∷ []) ≡ e ∷ [])
without_one d e = ground arith

pub loop_ends-Control :
    (d : ℕ) (s : State) → Control s → Control (record s { loops = without d s.loops })
loop_ends-Control d s c = record {
  one_loop = elim c.one_loop [
    | inl e ↦ inl (ap (without d) e)
    | inr (x, e, f) ↦ elim (without_one d x) [
      | inl g ↦ inl (ap (without d) e ∙ g)
      | inr g ↦ inr (x, ap (without d) e ∙ g, f)
    ]
  ];
  current = c.current;
  one_waiter = elim c.one_waiter [
    | inl e ↦ inl e
    | inr (w, h) ↦
        inr (w, record { alone = h.alone; no_loop = h.no_loop; latest = h.latest; gen = h.gen })
  ];
  stopping = c.stopping;
}

pub unsubscribe-Control :
    (ch : ℕ) (s : State) → Control s → find_waiter ch s.waiting ≡ none → Control (unsubscribe ch s)
unfolding unsubscribe
unsubscribe-Control ch s c not_waiting =
    if_keeps Control (is_nil (without ch s.subscribers) && is_some s.stop_ch && not s.idle_timer)
      (timer-Control true (s.callbacks + 1) left kept) kept
  where
    left : State
    left = record s { subscribers = without ch s.subscribers }

    kept : Control left
    kept = record {
      one_loop = c.one_loop;
      current = c.current;
      one_waiter = elim c.one_waiter [
        | inl e ↦ inl e
        | inr (w, h) ↦
            let other : w.ch ≢ ch = ground (arith, h.alone) in
            inr (
              w,
              record {
                alone = h.alone;
                no_loop = h.no_loop;
                latest = h.latest;
                gen = ground (arith, h.gen, mem-without w.ch ch s.subscribers other);
              },
            )
      ];
      stopping = c.stopping;
    }

abbrev mark_stopped : State → State
mark_stopped t = record t { stopped = true; loop_gen = t.loop_gen + 1; phase = waits t.loop_done }

mark_stopped-Control :
    (t : State) → Control t → t.stop_ch ≡ none → t.stopped ≡ false → Control (mark_stopped t)
mark_stopped-Control t c no_loop h = record {
  one_loop = c.one_loop;
  current = inl no_loop;
  one_waiter = elim c.one_waiter [
    | inl e ↦ inl e
    | inr (w, v) ↦ inr (
      w,
      record {
        alone = v.alone;
        no_loop = v.no_loop;
        latest = v.latest;
        gen = ground (arith, v.gen);
      },
    )
  ];
  stopping = inr (refl, no_loop, inl refl);
}

stop_begin_cases :
    (late : Bool) (s : State)
    → ((s.stop_ch ≡ none) × (mark_stopped (cancel_timer late s) ≡ stop_begin late s))
      ⊎ ((d : ℕ) × (s.stop_ch ≡ some d)
          × (mark_stopped (signal (cancel_timer late s)) ≡ stop_begin late s))
unfolding stop_begin
stop_begin_cases late s = elim (Option-cases s.stop_ch) [
  | inl e ↦ inl (e, rw e refl)
  | inr (d, e) ↦ inr (d, e, rw e refl)
]

signal_stop_ch : (s : State) → (signal s).stop_ch ≡ none
signal_stop_ch s = ground arith

signal_stopped : (s : State) → (signal s).stopped ≡ s.stopped
signal_stopped s = ground arith

pub stop_begin-Control :
    (late : Bool) (s : State) → Control s → s.phase ≡ not_called → Control (stop_begin late s)
stop_begin-Control late s c e = elim (stop_begin_cases late s) [
  | inl (no_loop, f) ↦ subst Control f (mark_stopped-Control t k no_loop h)
  | inr (d, has_loop, f) ↦ subst Control f (
      mark_stopped-Control (signal t) (signal-Control t k) (signal_stop_ch t)
        (signal_stopped t ∙ h))
]
  where
    t : State
    t = cancel_timer late s

    k : Control t
    k = cancel_timer-Control late s c

    h : s.stopped ≡ false
    h = ground (arith, c.stopping)

pub stop_finish-Control :
    (s : State) (o : Option ℕ) → Control s → s.phase ≡ waits o → Control (stop_finish s)
unfolding stop_finish
stop_finish-Control s o c e = record {
  one_loop = c.one_loop;
  current = c.current;
  one_waiter = elim c.one_waiter [
    | inl f ↦ inl f
    | inr (w, h) ↦ inr (
      w,
      record {
        alone = h.alone;
        no_loop = h.no_loop;
        latest = h.latest;
        gen = ground (arith, h.gen, c.stopping);
      },
    )
  ];
  stopping = ground (arith, c.stopping);
}
