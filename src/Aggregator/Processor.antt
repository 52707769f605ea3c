-- ===== src/Aggregator/Processor.antt =====
-- internal/aggregator/processor.go: one record of market data becomes the next event of its coin.
pub mod Hydration
pub mod Recording
pub mod Log
pub mod Success
use holdex_backend_cqrs.Prelude.{ℕ, String, true, false, Option, none, some, minus_one}
use holdex_backend_cqrs.Domain.{get_uncommitted_events}
use holdex_backend_cqrs.Domain.Market.{
  Event, FetchMarketDataCommand, fetch, MarketAggregate, new_market_aggregate, handle_command,
  apply,
}
use holdex_backend_cqrs.Tables.{Columns}
use holdex_backend_cqrs.World.{Exec, ◌>>=◌, lift}
use holdex_backend_cqrs.Aggregator.Coingecko.{MarketData}
use holdex_backend_cqrs.EventStore.{append_events, get_latest_event}

-- The fresh aggregate, with the latest event applied if there is one.
unfoldable pub hydrate : String → Option Event → MarketAggregate
hydrate id none = new_market_aggregate id
hydrate id (some latest_event) = apply (new_market_aggregate id) latest_event false

abbrev pub command_of : MarketData → FetchMarketDataCommand
command_of d = record {
  coin_id = d.id;
  symbol = d.symbol;
  name = d.name;
  current_price = d.current_price;
  market_cap = d.market_cap;
  volume_24h = d.total_volume;
  price_change_24h = d.price_change_24h;
  last_updated = d.last_updated;
}

-- The append of the aggregate's uncommitted events, one version behind the aggregate.
unfoldable pub save : Columns → MarketAggregate → Exec (Unit {0})
unfolding get_uncommitted_events
save pg agg = append_events pg agg.id_str (minus_one agg.vers) (get_uncommitted_events agg.root)

unfoldable pub process_market_data : Columns → ℕ → MarketData → Exec (Unit {0})
unfolding hydrate save
process_market_data pg now d = do
  latest_event ← get_latest_event d.id
  event ← lift (handle_command (hydrate d.id latest_event) (fetch (command_of d)) now)
  save pg (apply (hydrate d.id latest_event) event true)
