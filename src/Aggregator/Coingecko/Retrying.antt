-- ===== src/Aggregator/Coingecko/Retrying.antt =====
-- The retries of client.go, and the breaker that a client error leaves behind.
use holdex_backend_cqrs.Prelude.{
  ℕ, zero, suc, ◌+◌, ◌*◌, ◌≤◌, ◌<◌, ◌≡◌, ◌≢◌, refl, ◌∙◌, ap, inl, inr, Bool, true, false, Option,
  List, arith, Bool-cases, ◌||◌, leb, ◌==◌, ==_iff, All, length,
}
use holdex_backend_cqrs.Aggregator.Coingecko.Circuit.{
  state_open, state_half_open, CircuitBreaker, allow,
}
use holdex_backend_cqrs.Aggregator.Coingecko.{
  MarketData, Reply, response, transport_error, Attempt, FetchError, circuit_open, client_error,
  body, failed, Execution, rounds, round, retry, sleep_time, execute_with_retry, max_backoff, stop,
}

-- What every execution keeps to: at most one request for each round, at most one sleep between two
-- rounds, no sleep past the maximum, and a body only from a reply with status 200.
pub record IsBounded (left i : ℕ) (attempts : ℕ → Attempt) (x : Execution) : Type 0 where
  pub few_requests : x.requests ≤ left
  pub short_sleeps : All (λ t. t ≤ max_backoff) x.sleeps
  pub few_sleeps : length x.sleeps ≤ x.requests
  pub served :
      (records : Option (List MarketData))
      → x.outcome ≡ body records
      → (j : ℕ) × (j < left) × ((attempts (i + j)).reply ≡ response 200 records)

shift :
    (left i : ℕ) (attempts : ℕ → Attempt) (records : Option (List MarketData))
    → (j : ℕ) × (j < left) × ((attempts (i + 1 + j)).reply ≡ response 200 records)
    → (j : ℕ) × (j < suc left) × ((attempts (i + j)).reply ≡ response 200 records)
shift left i attempts records (j, below, is_reply) =
    let e : i + suc j ≡ i + 1 + j = omega arith in
    (suc j, omega arith, ap (λ k. (attempts k).reply) e ∙ is_reply)

stop-IsBounded :
    (left i n : ℕ) (attempts : ℕ → Attempt) (e : FetchError) (cb : CircuitBreaker)
    → n ≤ left
    → IsBounded left i attempts (stop e cb n)
stop-IsBounded left i n attempts e cb h = record {
  few_requests = h;
  short_sleeps = tt;
  few_sleeps = omega arith;
  served = λ records s. absurd (ground arith);
}

sleep_time-le : (backoff jitter : ℕ) → sleep_time backoff jitter ≤ max_backoff
sleep_time-le backoff jitter = ground arith

retry-IsBounded :
    (left i : ℕ) (attempts : ℕ → Attempt) (last : Bool) (e : FetchError) (a : Attempt) (backoff : ℕ)
    (cb : CircuitBreaker) (rest : Execution)
    → IsBounded left (i + 1) attempts rest
    → IsBounded (suc left) i attempts (retry last e a backoff cb rest)
unfolding retry
retry-IsBounded left i attempts true e a backoff cb rest h =
    stop-IsBounded (suc left) i 1 attempts e cb (omega arith)
retry-IsBounded left i attempts false e a backoff cb rest h = elim (Bool-cases a.cancelled) [
  | inl y ↦ rw y (record {
    few_requests = omega arith;
    short_sleeps = (sleep_time-le backoff a.jitter, tt);
    few_sleeps = omega arith;
    served = λ records s. absurd (ground arith);
  })
  | inr n ↦ rw n (record {
    few_requests = omega (arith, h.few_requests);
    short_sleeps = (sleep_time-le backoff a.jitter, h.short_sleeps);
    few_sleeps = omega (arith, h.few_sleeps);
    served = λ records s. shift left i attempts records (h.served records s);
  })
]

round-IsBounded :
    (left i : ℕ) (attempts : ℕ → Attempt) (last : Bool) (backoff : ℕ) (cb : CircuitBreaker)
    (reply : Reply) (rest : CircuitBreaker → Execution)
    → (attempts i).reply ≡ reply
    → ((cb' : CircuitBreaker) → IsBounded left (i + 1) attempts (rest cb'))
    → IsBounded (suc left) i attempts (round last (attempts i) backoff cb reply rest)
unfolding round
round-IsBounded left i attempts last backoff cb transport_error rest e h =
    retry-IsBounded left i attempts last _ (attempts i) backoff _ _ (h _)
round-IsBounded left i attempts last backoff cb (response status records) rest e h =
    elim (Bool-cases (status == 200)) [
      | inl y ↦ rw y (record {
        few_requests = omega arith;
        short_sleeps = tt;
        few_sleeps = omega arith;
        served = λ records' s.
            let here : i + 0 ≡ i = omega arith in
            (0, omega arith, ap (λ k. (attempts k).reply) here ∙ e ∙ cc ((==_iff status 200).0 y));
      })
      | inr n ↦ rw n (elim (Bool-cases (status == 429 || leb 500 status)) [
        | inl y ↦ rw y (retry-IsBounded left i attempts last _ (attempts i) backoff _ _ (h _))
        | inr m ↦
            rw m (stop-IsBounded (suc left) i 1 attempts (client_error status) cb (omega arith))
      ])
    ]

rounds-IsBounded :
    (left i : ℕ) (attempts : ℕ → Attempt) (backoff : ℕ) (cb : CircuitBreaker)
    → IsBounded left i attempts (rounds left i attempts backoff cb)
unfolding rounds
rounds-IsBounded zero i attempts backoff cb = stop-IsBounded 0 i 0 attempts _ cb (omega arith)
rounds-IsBounded (suc left) i attempts backoff cb =
    elim (Bool-cases (allow cb (attempts i).asked_at).1) [
      | inl y ↦ rw y (
          round-IsBounded left i attempts (i == 2) backoff (allow cb (attempts i).asked_at).0
            (attempts i).reply (rounds left (i + 1) attempts (backoff * 2)) refl
            (λ cb'. rounds-IsBounded left (i + 1) attempts (backoff * 2) cb'))
      | inr n ↦ rw n (stop-IsBounded (suc left) i 0 attempts _ _ (omega arith))
    ]

-- An execution sends at most three requests and sleeps at most as often, never longer than five
-- seconds, and a body that it returns is the body of a reply with status 200 to one of them.
pub execute_with_retry-IsBounded :
    (attempts : ℕ → Attempt) (cb : CircuitBreaker)
    → IsBounded 3 0 attempts (execute_with_retry attempts cb)
unfolding execute_with_retry
execute_with_retry-IsBounded attempts cb = rounds-IsBounded 3 0 attempts _ cb

-- With a probe in flight the breaker refuses every execution without a request, at any time, and
-- stays as it is.
stuck_probe :
    (attempts : ℕ → Attempt) (cb : CircuitBreaker)
    → cb.state ≡ state_half_open
    → cb.half_open_in_flight ≡ true
    → execute_with_retry attempts cb ≡ stop circuit_open cb 0
unfolding execute_with_retry
stuck_probe attempts cb h p = ground arith

-- The probe of a breaker that has cooled down, answered with a client error, leaves it so.
probe_client_error :
    (attempts : ℕ → Attempt) (cb : CircuitBreaker) (status : ℕ) (records : Option (List MarketData))
    → cb.state ≡ state_open
    → cb.last_activity + cb.cooldown < (attempts 0).asked_at
    → (attempts 0).reply ≡ response status records
    → status ≢ 200
    → status ≢ 429
    → status < 500
    → let x = execute_with_retry attempts cb in
      (x.outcome ≡ failed (client_error status))
      × (x.breaker.state ≡ state_half_open)
      × (x.breaker.half_open_in_flight ≡ true)
unfolding execute_with_retry
probe_client_error attempts cb status records o cooled is_reply h200 h429 h500 =
    (ground arith, ground arith, ground arith)

-- Where the breaker is open and has cooled down, and its probe is answered with a client error
-- (a status below 500 that is neither 200 nor 429), the error is returned, and every execution
-- from then on is refused without a request, whatever the time, and leaves the breaker as it is.
pub client_error_sticks :
    (attempts : ℕ → Attempt) (cb : CircuitBreaker) (status : ℕ) (records : Option (List MarketData))
    (later : ℕ → Attempt)
    → cb.state ≡ state_open
    → cb.last_activity + cb.cooldown < (attempts 0).asked_at
    → (attempts 0).reply ≡ response status records
    → status ≢ 200
    → status ≢ 429
    → status < 500
    → let x = execute_with_retry attempts cb in
      (x.outcome ≡ failed (client_error status))
      × (execute_with_retry later x.breaker ≡ stop circuit_open x.breaker 0)
client_error_sticks attempts cb status records later o cooled is_reply h200 h429 h500 =
    let (outcome, half_open, in_flight) =
      probe_client_error attempts cb status records o cooled is_reply h200 h429 h500 in
    (outcome, stuck_probe later (execute_with_retry attempts cb).breaker half_open in_flight)
