-- ===== src/Aggregator/Coingecko/Circuit.antt =====
-- The circuit breaker of client.go. Each method runs under the mutex, so it is one step; `now` is
-- time.Now(), which does not pass within a step.
use holdex_backend_cqrs.Prelude.{ℕ, ◌+◌, Bool, true, false, ltb, leb, if◌then◌else◌}

pub data CircuitState : Type 0 where
  state_closed state_open state_half_open : CircuitState

pub record CircuitBreaker : Type 0 where
  pub state : CircuitState
  pub failures : ℕ
  pub successes : ℕ
  pub last_activity : ℕ
  pub cooldown : ℕ
  pub threshold : ℕ
  pub half_open_in_flight : Bool

unfoldable pub new_circuit_breaker : ℕ → ℕ → ℕ → CircuitBreaker
new_circuit_breaker threshold cooldown now = record {
  state = state_closed;
  failures = 0;
  successes = 0;
  last_activity = now;
  cooldown = cooldown;
  threshold = threshold;
  half_open_in_flight = false;
}

-- time.Since(cb.lastActivity) > cb.cooldown
abbrev pub cooled : CircuitBreaker → ℕ → Bool
cooled cb now = ltb (cb.last_activity + cb.cooldown) now

allow_in : CircuitState → CircuitBreaker → ℕ → CircuitBreaker × Bool
allow_in state_open cb now =
    if cooled cb now
    then (
      record cb { state = state_half_open; last_activity = now; half_open_in_flight = true },
      true,
    )
    else (cb, false)
allow_in state_half_open cb now =
    if cb.half_open_in_flight then (cb, false) else (record cb { half_open_in_flight = true }, true)
allow_in state_closed cb now = (cb, true)

unfoldable pub allow : CircuitBreaker → ℕ → CircuitBreaker × Bool
unfolding allow_in
allow cb now = allow_in cb.state cb now

failure_in : CircuitState → CircuitBreaker → CircuitBreaker
failure_in state_closed cb =
    let cb' = record cb { failures = cb.failures + 1 } in
    if leb cb'.threshold cb'.failures then record cb' { state = state_open } else cb'
failure_in state_half_open cb = record cb { state = state_open }
failure_in state_open cb = cb

unfoldable pub record_failure : CircuitBreaker → ℕ → CircuitBreaker
unfolding failure_in
record_failure cb now =
    failure_in cb.state (record cb { last_activity = now; half_open_in_flight = false })

success_in : CircuitState → CircuitBreaker → CircuitBreaker
success_in state_half_open cb =
    let cb' = record cb { successes = cb.successes + 1 } in
    if leb 2 cb'.successes
    then record cb' { state = state_closed; failures = 0; successes = 0 }
    else cb'
success_in state_closed cb = record cb { failures = 0 }
success_in state_open cb = cb

unfoldable pub record_success : CircuitBreaker → ℕ → CircuitBreaker
unfolding success_in
record_success cb now =
    success_in cb.state (record cb { last_activity = now; half_open_in_flight = false })
