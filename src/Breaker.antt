-- ===== src/Breaker.antt =====
-- app/breaker.py: the circuit breaker of one backend, and the registry of breakers.
-- A clock reading is an argument, in ticks; the breaker that a method leaves is returned.
pub mod Life
pub mod Registry
use llm_inference_autoscalin.Base.{
  ℕ, ◌+◌, ◌-◌, String, Bool, true, false, not, Option, none, some, leb, if◌then◌else◌,
}

pub data BreakerState : Type 0 where
  closed open_state half_open : BreakerState

pub record CircuitBreaker : Type 0 where
  pub name : String
  pub failure_threshold : ℕ
  pub recovery_timeout : ℕ
  pub state : BreakerState
  pub consecutive_failures : ℕ
  pub opened_at : ℕ
  pub half_open_probe_taken : Bool

abbrev pub is_open : BreakerState → Bool
is_open open_state = true
is_open _ = false

-- `allows`, by the state. `now - opened_at >= recovery_timeout` is written as a sum.
pub allows_in : BreakerState → CircuitBreaker → ℕ → CircuitBreaker × Bool
allows_in closed b now = (b, true)
allows_in open_state b now =
    if leb (b.opened_at + b.recovery_timeout) now
    then (record b { state = half_open; half_open_probe_taken = true }, true)
    else (b, false)
allows_in half_open b now =
    if not b.half_open_probe_taken
    then (record b { half_open_probe_taken = true }, true)
    else (b, false)

unfoldable pub allows : CircuitBreaker → ℕ → CircuitBreaker × Bool
unfolding allows_in
allows b now = allows_in b.state b now

-- `max(0.0, recovery_timeout - (now - opened_at))`, 0 when closed.
pub retry_after_in : BreakerState → CircuitBreaker → ℕ → ℕ
retry_after_in closed b now = 0
retry_after_in _ b now = b.opened_at + b.recovery_timeout - now

unfoldable pub retry_after : CircuitBreaker → ℕ → ℕ
unfolding retry_after_in
retry_after b now = retry_after_in b.state b now

-- `CircuitOpenError(name, retry_after_s)`
pub record CircuitOpenError : Type 0 where
  pub name : String
  pub retry_after_s : ℕ

-- `check`, which reads the clock twice when it raises; `none` is a normal return.
unfoldable pub check : CircuitBreaker → ℕ → ℕ → CircuitBreaker × Option CircuitOpenError
check b now later =
    let (b', allowed) = allows b now in
    if not allowed
    then (b', some (record { name = b'.name; retry_after_s = retry_after b' later }))
    else (b', none)

unfoldable pub record_success : CircuitBreaker → CircuitBreaker
record_success b = record b {
  state = closed;
  consecutive_failures = 0;
  half_open_probe_taken = false;
}

-- `_trip`
unfoldable pub trip : CircuitBreaker → ℕ → CircuitBreaker
trip b now = record b { state = open_state; opened_at = now; half_open_probe_taken = false }

-- `record_failure`, by the state, after the count has gone up.
pub record_failure_in : BreakerState → CircuitBreaker → ℕ → CircuitBreaker
unfolding trip
record_failure_in half_open b now = trip b now
record_failure_in _ b now = if leb b.failure_threshold b.consecutive_failures then trip b now else b

unfoldable pub record_failure : CircuitBreaker → ℕ → CircuitBreaker
unfolding record_failure_in
record_failure b now =
    let counted = record b { consecutive_failures = b.consecutive_failures + 1 } in
    record_failure_in b.state counted now

-- The constructor's defaults, with the parameters given.
unfoldable pub new_breaker : String → ℕ → ℕ → CircuitBreaker
new_breaker name threshold recovery = record {
  name = name;
  failure_threshold = threshold;
  recovery_timeout = recovery;
  state = closed;
  consecutive_failures = 0;
  opened_at = 0;
  half_open_probe_taken = false;
}
