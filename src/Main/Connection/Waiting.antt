-- ===== src/Main/Connection/Waiting.antt =====
-- waitForReady: when it returns, and what.
use xray_web_maneger.Common.{
  ℕ, ◌+◌, ◌-◌, ◌≤◌, ◌<◌, ◌≡◌, ◌↔◌, inl, inr, refl, sym, ap, subst, ◌∙◌, Bool, true, false, ltb, suc,
  arith, Bool-cases, dec_lt, if_keeps,
}
use xray_web_maneger.Server.Connectivity.{
  Connectivity, ready, transient_failure, is_ready, is_transient_failure, History, stays, changes,
  get_state, advance, Waited,
}
use xray_web_maneger.Server.Connectivity.Time.{
  state_at, state_at_stays, state_at_early, state_at_late, back, advance-stays, advance_late,
  advance_none,
}
use xray_web_maneger.Main.Connection.{wait_for_ready}

pub wait_for_ready-le : (timeout : ℕ) (h : History) → (wait_for_ready timeout h).elapsed ≤ timeout
unfolding wait_for_ready
wait_for_ready-le timeout (stays s) = ground arith
wait_for_ready-le timeout (changes s n h) = ground (arith, wait_for_ready-le (timeout - suc n) h)

-- The connection is ready at the time k, before the deadline, and not in failure before k.
abbrev pub GetsReady : ℕ → History → ℕ → Type 0
GetsReady timeout h k =
    (k < timeout)
    × (state_at h k ≡ ready)
    × ((j : ℕ) → j < k → is_transient_failure (state_at h j) ≡ false)

later-GetsReady :
    (timeout : ℕ) (s : Connectivity) (n : ℕ) (h : History) (k : ℕ)
    → is_transient_failure s ≡ false
    → suc n < timeout
    → GetsReady (timeout - suc n) h k
    → GetsReady timeout (changes s n h) (suc n + k)
later-GetsReady timeout s n h k calm early (in_time, at_k, before) = (
  omega arith,
  state_at_late s n h (suc n + k) (omega arith) ∙ ap (state_at h) (back n k) ∙ at_k,
  λ j below. elim (dec_lt n j) [
    | yes late ↦
        ap is_transient_failure (state_at_late s n h j late) ∙ before (j - suc n) (omega arith)
    | no soon ↦ ap is_transient_failure (state_at_early s n h j (omega (arith, soon))) ∙ calm
  ],
)

earlier-GetsReady :
    (timeout : ℕ) (s : Connectivity) (n : ℕ) (h : History) (k : ℕ)
    → is_ready s ≡ false
    → GetsReady timeout (changes s n h) k
    → (n < k) × GetsReady (timeout - suc n) h (k - suc n)
earlier-GetsReady timeout s n h k other (in_time, at_k, before) = (
  late,
  (
    omega (arith, late),
    sym (state_at_late s n h k late) ∙ at_k,
    λ j below.
        ap is_transient_failure
          (sym (state_at_late s n h (suc n + j) (omega arith) ∙ ap (state_at h) (back n j)))
        ∙ before (suc n + j) (omega (arith, below)),
  ),
)
  where
    late : n < k
    late = elim (dec_lt n k) [
      | yes below ↦ below
      | no soon ↦
          absurd (ground (arith, sym (state_at_early s n h k (omega (arith, soon))) ∙ at_k, other))
    ]

is_ready_lem : (s : Connectivity) → is_ready s ≡ true → s ≡ ready
is_ready_lem s e = ground arith

ready_of_stays :
    (timeout : ℕ) (s : Connectivity) → (wait_for_ready timeout (stays s)).result ≡ true → s ≡ ready
unfolding wait_for_ready
ready_of_stays timeout s e = ground arith

-- A wait that is successful in the end, though the first state is not ready.
goes_on :
    (timeout : ℕ) (s : Connectivity) (n : ℕ) (h : History)
    → is_ready s ≡ false
    → (wait_for_ready timeout (changes s n h)).result ≡ true
    → (is_transient_failure s ≡ false)
      × (suc n < timeout)
      × ((wait_for_ready (timeout - suc n) h).result ≡ true)
unfolding wait_for_ready
goes_on timeout s n h other e = ground arith

wait_for_ready-GetsReady :
    (timeout : ℕ) (h : History)
    → 0 < timeout
    → (wait_for_ready timeout h).result ≡ true
    → (k : ℕ) × GetsReady timeout h k
unfolding wait_for_ready
wait_for_ready-GetsReady timeout (stays s) pos e =
    (0, (pos, state_at_stays s 0 ∙ ready_of_stays timeout s e, λ j below. absurd (omega arith)))
wait_for_ready-GetsReady timeout (changes s n h) pos e = elim (Bool-cases (is_ready s)) [
  | inl r ↦ (
    0,
    (pos, state_at_early s n h 0 (omega arith) ∙ is_ready_lem s r, λ j below. absurd (omega arith)),
  )
  | inr other ↦
      let (calm, early, waited) = goes_on timeout s n h other e in
      let (k, g) = wait_for_ready-GetsReady (timeout - suc n) h (omega arith) waited in
      (suc n + k, later-GetsReady timeout s n h k calm early g)
]

GetsReady-wait_for_ready :
    (timeout : ℕ) (h : History) (k : ℕ)
    → GetsReady timeout h k
    → (wait_for_ready timeout h).result ≡ true
unfolding wait_for_ready
GetsReady-wait_for_ready timeout (stays s) k (in_time, at_k, before) =
    rw (sym (state_at_stays s k) ∙ at_k) refl
GetsReady-wait_for_ready timeout (changes s n h) k g = elim (Bool-cases (is_ready s)) [
  | inl r ↦ rw r refl
  | inr other ↦
      let (late, later) = earlier-GetsReady timeout s n h k other g in
      ground (
        arith,
        other,
        sym (ap is_transient_failure (state_at_early s n h 0 (omega arith))) ∙ g.2 0 (omega arith),
        GetsReady-wait_for_ready (timeout - suc n) h (k - suc n) later,
      )
]

-- With some time until its deadline, waitForReady returns true exactly if the connection gets ready
-- before the deadline and is in no transient failure before that.
pub wait_for_ready_iff :
    (timeout : ℕ) (h : History)
    → 0 < timeout
    → ((wait_for_ready timeout h).result ≡ true) ↔ ((k : ℕ) × GetsReady timeout h k)
wait_for_ready_iff timeout h pos =
    (wait_for_ready-GetsReady timeout h pos, λ (k, g). GetsReady-wait_for_ready timeout h k g)

-- What is left is the history after the time that the wait took.
IsLeft : History → Waited → Type 0
IsLeft h w = w.left ≡ advance w.elapsed h

at_once-IsLeft : (h : History) (r : Bool) → IsLeft h (record { result = r; elapsed = 0; left = h })
unfolding IsLeft
at_once-IsLeft h r = sym (advance_none h)

timeout-IsLeft :
    (t : ℕ) (h : History) → IsLeft h (record { result = false; elapsed = t; left = advance t h })
unfolding IsLeft
timeout-IsLeft t h = refl

later-IsLeft :
    (s : Connectivity) (n : ℕ) (h : History) (w : Waited)
    → IsLeft h w
    → IsLeft (changes s n h) (record w { elapsed = suc n + w.elapsed })
unfolding IsLeft
later-IsLeft s n h w e =
    e
    ∙ sym (
        advance_late s n h (suc n + w.elapsed) (omega arith)
        ∙ ap (λ t. advance t h) (back n w.elapsed))

wait_for_ready-IsLeft : (timeout : ℕ) (h : History) → IsLeft h (wait_for_ready timeout h)
unfolding wait_for_ready
wait_for_ready-IsLeft timeout (stays s) =
    if_keeps (IsLeft (stays s)) (is_ready s) (at_once-IsLeft (stays s) true) (
      if_keeps (IsLeft (stays s)) (is_transient_failure s) (at_once-IsLeft (stays s) false) (
        subst (λ h. IsLeft (stays s) (record { result = false; elapsed = timeout; left = h }))
          (advance-stays timeout s) (timeout-IsLeft timeout (stays s))))
wait_for_ready-IsLeft timeout (changes s n h) =
    if_keeps (IsLeft (changes s n h)) (is_ready s) (at_once-IsLeft (changes s n h) true) (
      if_keeps (IsLeft (changes s n h)) (is_transient_failure s)
        (at_once-IsLeft (changes s n h) false)
        (if_keeps (IsLeft (changes s n h)) (ltb (suc n) timeout)
          (later-IsLeft s n h _ (wait_for_ready-IsLeft (timeout - suc n) h))
          (timeout-IsLeft timeout (changes s n h))))

-- A wait at a connection that is ready.
pub wait_for_ready_of_ready :
    (timeout : ℕ) (h : History)
    → get_state h ≡ ready
    → wait_for_ready timeout h ≡ record { result = true; elapsed = 0; left = h }
unfolding wait_for_ready
wait_for_ready_of_ready timeout (stays s) e = rw e refl
wait_for_ready_of_ready timeout (changes s n h) e = rw e refl

pub wait_for_ready-is_ready :
    (timeout : ℕ) (h : History)
    → (wait_for_ready timeout h).result ≡ true
    → is_ready (get_state (wait_for_ready timeout h).left) ≡ true
unfolding wait_for_ready
wait_for_ready-is_ready timeout (stays s) e = ground arith
wait_for_ready-is_ready timeout (changes s n h) e =
    ground (arith, wait_for_ready-is_ready (timeout - suc n) h)

pub wait_for_ready-left :
    (timeout : ℕ) (h : History)
    → (wait_for_ready timeout h).left ≡ advance (wait_for_ready timeout h).elapsed h
unfolding IsLeft
wait_for_ready-left timeout h = wait_for_ready-IsLeft timeout h

pub wait_for_ready_of_failure :
    (timeout : ℕ) (h : History)
    → get_state h ≡ transient_failure
    → wait_for_ready timeout h ≡ record { result = false; elapsed = 0; left = h }
unfolding wait_for_ready
wait_for_ready_of_failure timeout (stays s) e = rw e refl
wait_for_ready_of_failure timeout (changes s n h) e = rw e refl
