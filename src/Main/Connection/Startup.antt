-- ===== src/Main/Connection/Startup.antt =====
-- The start of the program: whether it goes on, and after how long.
use xray_web_maneger.Common.{
  ℕ, ◌+◌, ◌*◌, ◌≤◌, ◌≡◌, refl, sym, ap, ◌∙◌, true, none, some, is_some, arith,
}
use xray_web_maneger.Server.Connectivity.{
  ready, transient_failure, History, is_ready, get_state, advance,
}
use xray_web_maneger.Server.Connectivity.Time.{state_at, advance_none, advance-advance}
use xray_web_maneger.Main.Connection.{wait_for_ready, second, connect_timeout, connect, start_up}
use xray_web_maneger.Main.Connection.Waiting.{
  wait_for_ready-le, wait_for_ready-left, wait_for_ready_of_ready, wait_for_ready-is_ready,
  wait_for_ready_of_failure,
}

-- The history when an attempt and its delay are over.
abbrev after : ℕ → History → History
after delay h = advance delay (wait_for_ready connect_timeout h).left

after_lem :
    (delay t : ℕ) (h : History)
    → (u : ℕ) × (t + delay ≤ u) × (after delay (advance t h) ≡ advance u h)
after_lem delay t h =
    let w = wait_for_ready connect_timeout (advance t h) in
    (
      t + w.elapsed + delay,
      omega arith,
      ap (advance delay) (wait_for_ready-left connect_timeout (advance t h))
          ∙ ap (advance delay) (advance-advance w.elapsed t h)
          ∙ advance-advance delay (t + w.elapsed) h,
    )

-- The third attempt, if there is one, begins after three seconds or later.
third :
    (h : History) → (u : ℕ) × (3 * second ≤ u) × (after (2 * second) (after second h) ≡ advance u h)
third h =
    let (t, a, e) = after_lem second 0 h in
    let (u, b, f) = after_lem (2 * second) t h in
    (
      u,
      omega (arith, a, b),
      ap (after (2 * second)) (ap (after second) (sym (advance_none h)) ∙ e) ∙ f,
    )

-- The program goes on only with a connection that is ready.
pub start_up-is_ready :
    (h left : History) → (start_up h).1 ≡ some left → is_ready (get_state left) ≡ true
unfolding start_up
start_up-is_ready h left e = ground arith

-- If the connection is ready from the third second on, the program goes on.
pub start_up_of_settled :
    (h : History)
    → ((t : ℕ) → 3 * second ≤ t → state_at h t ≡ ready)
    → is_some (start_up h).1 ≡ true
unfolding start_up connect
start_up_of_settled h settled =
    let h1 = after second h in
    let (u, late, e) = third h in
    ground (
      arith,
      wait_for_ready-is_ready connect_timeout h,
      wait_for_ready-is_ready connect_timeout h1,
      wait_for_ready_of_ready connect_timeout (after (2 * second) h1)
          (ap get_state e ∙ settled u late),
      ap get_state e ∙ settled u late,
    )

-- If the connection is in transient failure for the first three seconds, the program gives up after
-- three seconds.
pub start_up_of_failure :
    (h : History)
    → ((t : ℕ) → t ≤ 3 * second → state_at h t ≡ transient_failure)
    → start_up h ≡ (3 * second, none)
unfolding start_up connect
start_up_of_failure h failing =
    let two = advance-advance (2 * second) second h in
    rw
      (
        wait_for_ready_of_failure connect_timeout h
            (ap get_state (sym (advance_none h)) ∙ failing 0 (omega arith)),
        wait_for_ready_of_failure connect_timeout (advance second h) (failing second (omega arith)),
        two,
        wait_for_ready_of_failure connect_timeout (advance (3 * second) h)
            (failing (3 * second) (omega arith)),
        advance_none (advance (3 * second) h),
        failing (3 * second) (omega arith),
      )
      refl

-- Whatever states the connection goes through, the program goes on or gives up within 18 seconds of
-- its first attempt.
pub start_up-le : (h : History) → (start_up h).0 ≤ 18 * second
unfolding start_up connect
start_up-le h =
    let h1 = after second h in
    ground (
      arith,
      wait_for_ready-le connect_timeout h,
      wait_for_ready-le connect_timeout h1,
      wait_for_ready-le connect_timeout (after (2 * second) h1),
    )
