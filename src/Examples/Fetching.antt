-- ===== src/Examples/Fetching.antt =====
-- The theorems on the client of the CoinGecko API at concrete inputs.
use holdex_backend_cqrs.Prelude.{some, ℕ, ◌+◌, ◌≡◌, refl, false, none, [], ◌∷◌, arith}
use holdex_backend_cqrs.Aggregator.Service.{Tick, start}
use holdex_backend_cqrs.Aggregator.Service.Polling.{IsService, start-IsService}
use holdex_backend_cqrs.Examples.{exact, bitcoin, noon, start_world}
use holdex_backend_cqrs.Aggregator.Coingecko.{
  Attempt, transport_error, response, failed, client_error, circuit_open, execute_with_retry, stop,
}
use holdex_backend_cqrs.Aggregator.Coingecko.Circuit.{
  CircuitBreaker, state_closed, state_open, new_circuit_breaker, allow, record_failure,
  record_success,
}
use holdex_backend_cqrs.Aggregator.Coingecko.Breaking.{IsBreaker, circuit-IsBreaker}
use holdex_backend_cqrs.Aggregator.Coingecko.Retrying.{
  IsBounded, execute_with_retry-IsBounded, client_error_sticks,
}

abbrev closed_breaker : CircuitBreaker
closed_breaker = record {
  state = state_closed;
  failures = 4;
  successes = 0;
  last_activity = 0;
  cooldown = 30;
  threshold = 5;
  half_open_in_flight = false;
}

abbrev open_breaker : CircuitBreaker
open_breaker = record closed_breaker { state = state_open; failures = 5 }

abbrev attempts_at : ℕ → ℕ → Attempt
attempts_at now i = record {
  asked_at = now + i;
  reply = response 404 none;
  replied_at = now + i;
  jitter = 7;
  cancelled = false;
}

abbrev silent : ℕ → Attempt
silent i = record (attempts_at 50 i) { reply = transport_error }

closed-IsBreaker : IsBreaker closed_breaker
closed-IsBreaker = record {
  can_trip = omega arith;
  closed_below = λ h. omega arith;
  tripped = λ h. absurd (ground arith);
  one_probe = λ h. absurd (ground arith);
  few_successes = omega arith;
}

circuit-IsBreaker_example :
    IsBreaker (new_circuit_breaker 5 30 0)
    × IsBreaker (allow closed_breaker 9).0
    × IsBreaker (record_failure closed_breaker 9)
    × IsBreaker (record_success closed_breaker 9)
circuit-IsBreaker_example = circuit-IsBreaker 5 30 0 9 closed_breaker (omega arith) closed-IsBreaker

execute_with_retry-IsBounded_example :
    IsBounded 3 0 silent (execute_with_retry silent (new_circuit_breaker 5 30 0))
execute_with_retry-IsBounded_example =
    execute_with_retry-IsBounded silent (new_circuit_breaker 5 30 0)

client_error_sticks_example :
    let x = execute_with_retry (attempts_at 40) open_breaker in
    (x.outcome ≡ failed (client_error 404))
    × (execute_with_retry silent x.breaker ≡ stop circuit_open x.breaker 0)
client_error_sticks_example =
    client_error_sticks (attempts_at 40) open_breaker 404 none silent refl (omega arith) refl
      (λ e. omega (arith, e)) (λ e. omega (arith, e)) (omega arith)

abbrev served : Tick
served = record {
  attempts =
      λ i. record (attempts_at 50 i) { reply = response 200 (some (bitcoin ∷ bitcoin ∷ [])) };
  moments = λ i. record { now = noon + i; is_cancelled = false };
}

abbrev unserved : Tick
unserved = record served { attempts = silent }

start-IsService_example :
    IsService
      (start exact ("bitcoin" ∷ []) served (unserved ∷ served ∷ []) (closed_breaker, start_world))
start-IsService_example =
    start-IsService exact ("bitcoin" ∷ []) served (unserved ∷ served ∷ [])
      (closed_breaker, start_world)
      (closed-IsBreaker, record { numbered = λ agg_id. tt; readable = tt })
