-- ===== src/Aggregator/Coingecko/Keeping.antt =====
-- The requests of client.go keep the breaker's invariant, whatever is replied.
use holdex_backend_cqrs.Prelude.{
  ℕ, zero, suc, ◌+◌, ◌*◌, String, Bool, true, false, List, [], ◌∷◌, inl, inr, Bool-cases, arith,
  ◌==◌, ◌||◌, leb,
}
use holdex_backend_cqrs.Aggregator.Coingecko.{
  Attempt, Reply, transport_error, response, FetchError, Execution, retry, round, rounds,
  execute_with_retry, fetch_market_data,
}
use holdex_backend_cqrs.Aggregator.Coingecko.Circuit.{
  CircuitBreaker, allow, record_failure, record_success,
}
use holdex_backend_cqrs.Aggregator.Coingecko.Breaking.{IsBreaker, circuit-IsBreaker}

module _ (cb : CircuitBreaker) (now : ℕ) (h : IsBreaker cb) where
  allow-IsBreaker : IsBreaker (allow cb now).0
  allow-IsBreaker = (circuit-IsBreaker 1 0 0 now cb (omega arith) h).1

  record_failure-IsBreaker : IsBreaker (record_failure cb now)
  record_failure-IsBreaker = (circuit-IsBreaker 1 0 0 now cb (omega arith) h).2

  record_success-IsBreaker : IsBreaker (record_success cb now)
  record_success-IsBreaker = (circuit-IsBreaker 1 0 0 now cb (omega arith) h).3

retry-IsBreaker :
    (last : Bool) (e : FetchError) (a : Attempt) (backoff : ℕ) (cb : CircuitBreaker)
    (rest : Execution)
    → IsBreaker cb
    → IsBreaker rest.breaker
    → IsBreaker (retry last e a backoff cb rest).breaker
unfolding retry
retry-IsBreaker true e a backoff cb rest h k = h
retry-IsBreaker false e a backoff cb rest h k = elim (Bool-cases a.cancelled) [
  | inl y ↦ rw y h
  | inr n ↦ rw n k
]

round-IsBreaker :
    (last : Bool) (a : Attempt) (backoff : ℕ) (cb : CircuitBreaker) (reply : Reply)
    (rest : CircuitBreaker → Execution)
    → IsBreaker cb
    → ((c : CircuitBreaker) → IsBreaker c → IsBreaker (rest c).breaker)
    → IsBreaker (round last a backoff cb reply rest).breaker
unfolding round
round-IsBreaker last a backoff cb transport_error rest h k =
    let f = record_failure-IsBreaker cb a.replied_at h in
    retry-IsBreaker last _ a backoff (record_failure cb a.replied_at)
      (rest (record_failure cb a.replied_at)) f (k _ f)
round-IsBreaker last a backoff cb (response status decoded) rest h k =
    elim (Bool-cases (status == 200)) [
      | inl y ↦ rw y (record_success-IsBreaker cb a.replied_at h)
      | inr n ↦ rw n (elim (Bool-cases (status == 429 || leb 500 status)) [
        | inl y ↦
            let f = record_failure-IsBreaker cb a.replied_at h in
            rw y (
              retry-IsBreaker last _ a backoff (record_failure cb a.replied_at)
                (rest (record_failure cb a.replied_at)) f (k _ f))
        | inr m ↦ rw m h
      ])
    ]

rounds-IsBreaker :
    (left i : ℕ) (attempts : ℕ → Attempt) (backoff : ℕ) (cb : CircuitBreaker)
    → IsBreaker cb
    → IsBreaker (rounds left i attempts backoff cb).breaker
unfolding rounds
rounds-IsBreaker zero i attempts backoff cb h = h
rounds-IsBreaker (suc left) i attempts backoff cb h =
    let kept = allow-IsBreaker cb (attempts i).asked_at h in
    elim (Bool-cases (allow cb (attempts i).asked_at).1) [
      | inl y ↦ rw y (
          round-IsBreaker (i == 2) (attempts i) backoff (allow cb (attempts i).asked_at).0
            (attempts i).reply (rounds left (i + 1) attempts (backoff * 2)) kept
            (λ c. rounds-IsBreaker left (i + 1) attempts (backoff * 2) c))
      | inr n ↦ rw n kept
    ]

-- A fetch keeps the breaker's invariant, whatever its attempts meet.
pub fetch_market_data-IsBreaker :
    (attempts : ℕ → Attempt) (coin_ids : List String) (cb : CircuitBreaker)
    → IsBreaker cb
    → IsBreaker (fetch_market_data attempts coin_ids cb).breaker
unfolding fetch_market_data execute_with_retry
fetch_market_data-IsBreaker attempts [] cb h = h
fetch_market_data-IsBreaker attempts (c ∷ cs) cb h = rounds-IsBreaker 3 0 attempts _ cb h
