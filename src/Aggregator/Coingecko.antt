-- ===== src/Aggregator/Coingecko.antt =====
-- internal/aggregator/coingecko/client.go: the client of the CoinGecko API, with its retries behind a
-- circuit breaker. The network, the clock, the random jitter and the cancellation of the context are
-- an argument: one record for each attempt. Durations and times are in nanoseconds.
pub mod Circuit
pub mod Breaking
pub mod Retrying
pub mod Keeping
use holdex_backend_cqrs.Prelude.{
  ℕ, zero, suc, ◌+◌, ◌*◌, ◌^◌, String, Bool, true, false, ◌||◌, Option, none, some, List, [], ◌∷◌,
  ltb, leb, ◌==◌, if◌then◌else◌,
}
use Circuit.{CircuitBreaker, allow, record_failure, record_success}

pub record MarketData : Type 0 where
  pub id : String
  pub symbol : String
  pub name : String
  pub current_price : ℕ
  pub market_cap : ℕ
  pub total_volume : ℕ
  pub price_change_24h : ℕ
  pub last_updated : ℕ

-- The reply of `httpClient.Do`: an error, or a status with the records that its body decodes to.
pub data Reply : Type 0 where
  transport_error : Reply
  response : ℕ → Option (List MarketData) → Reply

-- What one round of the loop meets.
pub record Attempt : Type 0 where
  pub asked_at : ℕ
  pub reply : Reply
  pub replied_at : ℕ
  pub jitter : ℕ
  pub cancelled : Bool

pub data FetchError : Type 0 where
  circuit_open context_done request_failed retries_failed decode_failed : FetchError
  client_error : ℕ → FetchError

pub data Fetched : Type 0 where
  body : Option (List MarketData) → Fetched
  failed : FetchError → Fetched

-- The outcome, the breaker after it, the number of requests sent and the times slept.
pub record Execution : Type 0 where
  pub outcome : Fetched
  pub breaker : CircuitBreaker
  pub requests : ℕ
  pub sleeps : List ℕ

abbrev pub millisecond : ℕ
millisecond = 10 ^ 6

abbrev pub max_backoff : ℕ
max_backoff = 5000 * millisecond

abbrev pub sleep_time : ℕ → ℕ → ℕ
sleep_time backoff jitter =
    if ltb max_backoff (backoff + jitter) then max_backoff else backoff + jitter

abbrev pub stop : FetchError → CircuitBreaker → ℕ → Execution
stop e cb n = record { outcome = failed e; breaker = cb; requests = n; sleeps = [] }

abbrev pub after_sleep : ℕ → Execution → Execution
after_sleep t x = record x { requests = x.requests + 1; sleeps = t ∷ x.sleeps }

-- What follows a failed round: the last one ends the loop with the error that it left.
retry : Bool → FetchError → Attempt → ℕ → CircuitBreaker → Execution → Execution
retry last e a backoff cb rest =
    if last
    then stop e cb 1
    else if a.cancelled
    then record (stop context_done cb 1) { sleeps = sleep_time backoff a.jitter ∷ [] }
    else after_sleep (sleep_time backoff a.jitter) rest

-- One round after `Allow`, by the reply. `rest` is the execution of the rounds that follow.
round : Bool → Attempt → ℕ → CircuitBreaker → Reply → (CircuitBreaker → Execution) → Execution
unfolding retry
round last a backoff cb transport_error rest =
    let cb' = record_failure cb a.replied_at in retry last request_failed a backoff cb' (rest cb')
round last a backoff cb (response status decoded) rest =
    if status == 200
    then record {
      outcome = body decoded;
      breaker = record_success cb a.replied_at;
      requests = 1;
      sleeps = [];
    }
    else if status == 429 || leb 500 status
    then (let cb' = record_failure cb a.replied_at in
        retry last retries_failed a backoff cb' (rest cb'))
    else stop (client_error status) cb 1

-- `for i := 0; i < 3; i++`: the rounds left, and the number of the round.
unfoldable pub rounds : ℕ → ℕ → (ℕ → Attempt) → ℕ → CircuitBreaker → Execution
unfolding round allow record_failure record_success
rounds zero i attempts backoff cb = stop retries_failed cb 0
rounds (suc left) i attempts backoff cb =
    let a = attempts i in
    let rest = rounds left (i + 1) attempts (backoff * 2) in
    let (cb', allowed) = allow cb a.asked_at in
    if allowed then round (i == 2) a backoff cb' a.reply rest else stop circuit_open cb' 0

unfoldable pub execute_with_retry : (ℕ → Attempt) → CircuitBreaker → Execution
unfolding rounds
execute_with_retry attempts cb = rounds 3 0 attempts (500 * millisecond) cb

-- What `FetchMarketData` makes of the response: a body that does not decode is an error.
abbrev pub decoded : Fetched → Fetched
decoded (body none) = failed decode_failed
decoded (body (some records)) = body (some records)
decoded (failed e) = failed e

unfoldable pub fetch_market_data : (ℕ → Attempt) → List String → CircuitBreaker → Execution
unfolding execute_with_retry
fetch_market_data attempts [] cb = record {
  outcome = body (some []);
  breaker = cb;
  requests = 0;
  sleeps = [];
}
fetch_market_data attempts (id ∷ coin_ids) cb =
    let x = execute_with_retry attempts cb in record x { outcome = decoded x.outcome }
