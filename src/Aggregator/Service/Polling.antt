-- ===== src/Aggregator/Service/Polling.antt =====
-- What the polling of service.go keeps, over any turns: a log that is numbered and readable, and a
-- breaker between two calls.
use holdex_backend_cqrs.Prelude.{ℕ, ◌+◌, String, none, some, List, [], ◌∷◌, inl, inr, Bool-cases}
use holdex_backend_cqrs.Tables.{Columns}
use holdex_backend_cqrs.World.{World}
use holdex_backend_cqrs.Aggregator.Coingecko.{MarketData, Fetched, body, failed}
use holdex_backend_cqrs.Aggregator.Coingecko.Circuit.{CircuitBreaker}
use holdex_backend_cqrs.Aggregator.Coingecko.Breaking.{IsBreaker}
use holdex_backend_cqrs.Aggregator.Coingecko.Keeping.{fetch_market_data-IsBreaker}
use holdex_backend_cqrs.Aggregator.Processor.Log.{IsMarketLog, process_market_data-IsMarketLog}
use holdex_backend_cqrs.Aggregator.Processor.{process_market_data}
use holdex_backend_cqrs.Aggregator.Service.{
  Moment, Tick, process_records, process_fetched, fetch_and_process, start,
}

process_records-IsMarketLog :
    (pg : Columns) (moments : ℕ → Moment) (i : ℕ) (rs : List MarketData) (w : World)
    → IsMarketLog w.db.events
    → IsMarketLog (process_records pg moments i rs w).db.events
unfolding process_records
process_records-IsMarketLog pg moments i [] w h = h
process_records-IsMarketLog pg moments i (r ∷ rs) w h = elim (Bool-cases (moments i).is_cancelled) [
  | inl y ↦ rw y h
  | inr n ↦ rw n (
      process_records-IsMarketLog pg moments (i + 1) rs
        (process_market_data pg (moments i).now r w).1
        (process_market_data-IsMarketLog pg (moments i).now r w h))
]

process_fetched-IsMarketLog :
    (pg : Columns) (moments : ℕ → Moment) (x : Fetched) (w : World)
    → IsMarketLog w.db.events
    → IsMarketLog (process_fetched pg moments x w).db.events
unfolding process_fetched
process_fetched-IsMarketLog pg moments (failed e) w h = h
process_fetched-IsMarketLog pg moments (body none) w h = h
process_fetched-IsMarketLog pg moments (body (some rs)) w h =
    process_records-IsMarketLog pg moments 0 rs w h

abbrev pub IsService : CircuitBreaker × World → Type 0
IsService (cb, w) = IsBreaker cb × IsMarketLog w.db.events

fetch_and_process-IsService :
    (pg : Columns) (coin_ids : List String) (t : Tick) (s : CircuitBreaker × World)
    → IsService s
    → IsService (fetch_and_process pg coin_ids t s)
unfolding fetch_and_process
fetch_and_process-IsService pg coin_ids t (cb, w) (b, l) = (
  fetch_market_data-IsBreaker t.attempts coin_ids cb b,
  process_fetched-IsMarketLog pg t.moments _ w l,
)

-- From a breaker that satisfies its invariant and a log that is numbered and readable, any turns of
-- the service, with any replies, faults and cancellations, end in such a breaker and such a log.
pub start-IsService :
    (pg : Columns) (coin_ids : List String) (first : Tick) (ts : List Tick)
    (s : CircuitBreaker × World)
    → IsService s
    → IsService (start pg coin_ids first ts s)
unfolding start
start-IsService pg coin_ids first [] s h = fetch_and_process-IsService pg coin_ids first s h
start-IsService pg coin_ids first (t ∷ ts) s h =
    start-IsService pg coin_ids t ts (fetch_and_process pg coin_ids first s)
      (fetch_and_process-IsService pg coin_ids first s h)
