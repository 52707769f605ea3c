-- ===== src/Aggregator/Service.antt =====
-- internal/aggregator/service.go: the loop that fetches the records and processes each one. The
-- clock and the cancellation of the context are arguments.
pub mod Polling
use holdex_backend_cqrs.Prelude.{
  ℕ, ◌+◌, String, Bool, Option, none, some, List, [], ◌∷◌, if◌then◌else◌,
}
use holdex_backend_cqrs.Tables.{Columns}
use holdex_backend_cqrs.World.{World}
use holdex_backend_cqrs.Aggregator.Coingecko.{
  MarketData, Attempt, Fetched, body, failed, Execution, fetch_market_data,
}
use holdex_backend_cqrs.Aggregator.Coingecko.Circuit.{CircuitBreaker}
use holdex_backend_cqrs.Aggregator.Processor.{process_market_data}

-- What the loop over the records meets: the time of a call, and ctx.Err() before it.
pub record Moment : Type 0 where
  pub now : ℕ
  pub is_cancelled : Bool

-- One turn of the loop of `Start`.
pub record Tick : Type 0 where
  pub attempts : ℕ → Attempt
  pub moments : ℕ → Moment

-- A record that fails is logged and passed over; `i` counts the records before it.
unfoldable pub process_records : Columns → (ℕ → Moment) → ℕ → List MarketData → World → World
process_records pg moments i [] w = w
process_records pg moments i (r ∷ rs) w =
    let rest =
      process_records pg moments (i + 1) rs (process_market_data pg (moments i).now r w).1 in
    if (moments i).is_cancelled then w else rest

unfoldable pub process_fetched : Columns → (ℕ → Moment) → Fetched → World → World
unfolding process_records
process_fetched pg moments (failed e) w = w
process_fetched pg moments (body none) w = w
process_fetched pg moments (body (some records)) w = process_records pg moments 0 records w

unfoldable pub fetch_and_process :
    Columns → List String → Tick → CircuitBreaker × World → CircuitBreaker × World
unfolding process_fetched
fetch_and_process pg coin_ids t (cb, w) =
    let x = fetch_market_data t.attempts coin_ids cb in
    (x.breaker, process_fetched pg t.moments x.outcome w)

-- `Start`: a first turn at once, and one after each poll interval.
unfoldable pub start :
    Columns → List String → Tick → List Tick → CircuitBreaker × World → CircuitBreaker × World
unfolding fetch_and_process
start pg coin_ids first [] s = fetch_and_process pg coin_ids first s
start pg coin_ids first (t ∷ ts) s = start pg coin_ids t ts (fetch_and_process pg coin_ids first s)
