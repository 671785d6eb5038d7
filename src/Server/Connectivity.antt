-- ===== src/Server/Connectivity.antt =====
-- What package grpc tells of a connection. The states that it goes through are a history: each holds
-- for some nanoseconds, the last one for ever. GetState reads the first state; WaitForStateChange
-- goes to the next one, or fails at the deadline of its context.
pub mod Time
use xray_web_maneger.Common.{ℕ, ◌-◌, suc, Bool, true, false, ltb, if◌then◌else◌}

-- connectivity.State.
pub data Connectivity : Type 0 where
  idle connecting ready transient_failure closed : Connectivity

abbrev pub is_ready : Connectivity → Bool
is_ready ready = true
is_ready _ = false

abbrev pub is_transient_failure : Connectivity → Bool
is_transient_failure transient_failure = true
is_transient_failure _ = false

-- In `changes s n h` the state s holds for n + 1 nanoseconds.
pub data History : Type 0 where
  stays : Connectivity → History
  changes : Connectivity → ℕ → History → History

-- GetState.
abbrev pub get_state : History → Connectivity
get_state (stays s) = s
get_state (changes s n h) = s

-- The history as it is after some nanoseconds.
pub advance : ℕ → History → History
advance t (stays s) = stays s
advance t (changes s n h) =
    let later = advance (t - suc n) h in if ltb n t then later else changes s (n - t) h

-- What a wait returns, after how long, and what is left of the history.
pub record Waited : Type 0 where
  pub result : Bool
  pub elapsed : ℕ
  pub left : History
