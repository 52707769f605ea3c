-- ===== src/Aggregator/Coingecko/Breaking.antt =====
-- The states of the circuit breaker of client.go.
use holdex_backend_cqrs.Prelude.{
  ℕ, ◌+◌, ◌≤◌, ◌<◌, ◌≡◌, ◌↔◌, ◌⊎◌, inl, inr, true, false, arith, ltb, leb, Bool-cases, ◌∙◌, List,
  [], ◌∷◌, length, if◌then◌else◌,
}
use holdex_backend_cqrs.Aggregator.Coingecko.Circuit.{
  state_closed, state_open, state_half_open, CircuitBreaker, new_circuit_breaker, allow,
  record_failure, record_success,
}

-- What holds of a breaker between two calls: a closed one is below its threshold, any other has
-- reached it, only a half-open one has a probe in flight, and it closes at the second success.
pub record IsBreaker (cb : CircuitBreaker) : Type 0 where
  pub can_trip : 0 < cb.threshold
  pub closed_below : cb.state ≡ state_closed → cb.failures < cb.threshold
  pub tripped : (cb.state ≡ state_open) ⊎ (cb.state ≡ state_half_open) → cb.threshold ≤ cb.failures
  pub one_probe : cb.half_open_in_flight ≡ true → cb.state ≡ state_half_open
  pub few_successes : cb.successes < 2

-- A new breaker with a positive threshold satisfies the invariant, and every method keeps it, at
-- any time.
pub circuit-IsBreaker :
    (threshold cooldown start now : ℕ) (cb : CircuitBreaker)
    → 0 < threshold
    → IsBreaker cb
    → IsBreaker (new_circuit_breaker threshold cooldown start)
      × IsBreaker (allow cb now).0
      × IsBreaker (record_failure cb now)
      × IsBreaker (record_success cb now)
unfolding new_circuit_breaker allow record_failure record_success
circuit-IsBreaker threshold cooldown start now cb p h =
    (ground arith, ground arith, ground arith, ground arith)

-- Under the invariant, a request is refused exactly while the breaker is open and has not cooled
-- down, or has a probe in flight, and a refusal changes nothing.
pub allow-eq_false :
    (cb : CircuitBreaker) (now : ℕ)
    → IsBreaker cb
    → (((allow cb now).1 ≡ false) ↔ (
        ((cb.state ≡ state_open) × (now ≤ cb.last_activity + cb.cooldown))
        ⊎ (cb.half_open_in_flight ≡ true)))
      × ((allow cb now).1 ≡ false → (allow cb now).0 ≡ cb)
unfolding allow
allow-eq_false cb now h = ((λ e. ground arith, λ e. ground arith), λ e. ground arith)

-- The breaker after a number of failures at any times.
abbrev pub fail_at : List ℕ → CircuitBreaker → CircuitBreaker
fail_at [] cb = cb
fail_at (now ∷ times) cb = fail_at times (record_failure cb now)

fail_at-open :
    (times : List ℕ) (cb : CircuitBreaker)
    → cb.state ≡ state_open
    → (fail_at times cb).state ≡ state_open
unfolding record_failure
fail_at-open [] cb h = h
fail_at-open (now ∷ times) cb h = fail_at-open times (record_failure cb now) (ground arith)

record_failure-below :
    (cb : CircuitBreaker) (now : ℕ)
    → cb.state ≡ state_closed
    → ((cb.threshold ≤ cb.failures + 1) × ((record_failure cb now).state ≡ state_open))
      ⊎ ((cb.failures + 1 < cb.threshold)
          × ((record_failure cb now).state ≡ state_closed)
          × ((record_failure cb now).failures ≡ cb.failures + 1)
          × ((record_failure cb now).threshold ≡ cb.threshold))
unfolding record_failure
record_failure-below cb now c = elim (Bool-cases (leb cb.threshold (cb.failures + 1))) [
  | inl y ↦ inl (ground arith, ground arith)
  | inr n ↦ inr (ground arith, ground arith, ground arith, ground arith)
]

-- A closed breaker below its threshold that only fails is closed while the count of failures is
-- below the threshold, and open from then on.
pub fail_at-closed :
    (times : List ℕ) (cb : CircuitBreaker)
    → cb.state ≡ state_closed
    → cb.failures < cb.threshold
    → (fail_at times cb).state
      ≡ (if ltb (cb.failures + length times) cb.threshold then state_closed else state_open)
fail_at-closed [] cb c h = ground arith
fail_at-closed (now ∷ times) cb c h = elim (record_failure-below cb now c) [
  | inl (reached, opened) ↦ fail_at-open times (record_failure cb now) opened ∙ ground arith
  | inr (below, closed, counted, same) ↦
      fail_at-closed times (record_failure cb now) closed (omega arith) ∙ ground arith
]
