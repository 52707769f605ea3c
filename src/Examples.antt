-- ===== src/Examples.antt =====
-- One coin, recorded twice: the data that the examples of the modules below share.
pub mod Recording
pub mod Publishing
pub mod Fetching
pub mod Projecting
pub mod Configuring
pub mod Competing
pub mod Connecting
pub mod Interleaving
pub mod Limiting
pub mod Migrating
pub mod Querying
pub mod Serving
use holdex_backend_cqrs.Prelude.{
  ℕ, suc, ◌+◌, ◌*◌, ◌^◌, ◌≤◌, ◌<◌, ◌≡◌, refl, ap, subst, ◌⊎◌, inl, inr, ◌↔◌, Bool, true, false,
  Option, none, some, List, [], ◌∷◌, ◌++◌, ℤ, pos, arith, String, str_eq, All, replicate, ltb,
  if◌then◌else◌,
}
use mathlib.Core.List.{Memᴰ}
use holdex_backend_cqrs.Result.{Error, ok, err, outbox_failed, duplicate_version, version_conflict}
use holdex_backend_cqrs.Json.{
  Json, text, float, timestamp, object, field, end, base64, int, is_negative, is_json_time,
}
use holdex_backend_cqrs.Domain.{new_base_event}
use holdex_backend_cqrs.Domain.Market.{
  Event, market_event, base, NewDataFetchedPayload, payload_of, marshal_payload,
  new_data_fetched_event, new_new_data_fetched_event, new_market_aggregate, handle_command, apply,
  unmarshal_payload,
}
use holdex_backend_cqrs.Tables.{Columns, EventRow, OutboxRow, Db, empty_db, rows_of, max_version}
use holdex_backend_cqrs.World.{World, rollback, transaction}
use holdex_backend_cqrs.EventStore.{
  serialize_event, deserialize_event, deserialize_raw_json, load_row, load_rows, load_events,
  load_latest, get_latest_event, event_row, check_version, insert_event, insert_events, append_body,
  append_events,
}
use holdex_backend_cqrs.EventStore.Append.{
  with_event, Inserts, Accepts, append_events-Inserts, append_events_atomic, append_events_succeeds,
  append_events_conflict,
}
use holdex_backend_cqrs.EventStore.Codec.{deserialize-serialize_event, load_row-event_row}
use holdex_backend_cqrs.Aggregator.Coingecko.{MarketData}
use holdex_backend_cqrs.Aggregator.Processor.{hydrate, command_of, save, process_market_data}
use holdex_backend_cqrs.Aggregator.Processor.Hydration.{replay, hydrate-eq-replay}
use holdex_backend_cqrs.Aggregator.Processor.Recording.{
  event_of, process_market_data-Inserts, process_market_data_atomic,
}
use holdex_backend_cqrs.Aggregator.Processor.Log.{IsMarketLog, process_all, process_all-IsMarketLog}
use holdex_backend_cqrs.Aggregator.Processor.Success.{process_market_data_succeeds}

abbrev pub exact : Columns
exact = record {
  timestamptz = λ t. t;
  numeric_20_8 = λ x. some x;
  numeric_30_2 = λ x. some x;
  numeric_10_4 = λ x. some x;
}

-- The float64 42.0.
abbrev pub price : ℕ
price = 4631107791820423168

abbrev pub noon : ℕ
noon = 1700000000 * 10 ^ 9

abbrev pub bitcoin : MarketData
bitcoin = record {
  id = "bitcoin";
  symbol = "btc";
  name = "Bitcoin";
  current_price = price;
  market_cap = price;
  total_volume = price;
  price_change_24h = 0;
  last_updated = noon;
}

abbrev pub document : Json
document = object (
    field "coin_id" (text "bitcoin") (
      field "symbol" (text "btc") (
        field "name" (text "Bitcoin") (
          field "current_price" (float price) (
            field "market_cap" (float price) (
              field "volume_24h" (float price) (
                field "price_change_24h" (float 0)
                  (field "last_updated" (timestamp noon) end))))))))

abbrev pub quote : ℕ → Event
quote version =
    market_event
      (record {
        type = "NewDataFetched";
        agg_id = "bitcoin";
        agg_type = "Market";
        vers = version;
        time = noon;
        payload = document;
      })
      (payload_of (command_of bitcoin))

abbrev pub message : ℕ → Json
message version = object (
    field "type" (text "NewDataFetched") (
      field "aggregate_id" (text "bitcoin") (
        field "version" (int version)
          (field "timestamp" (timestamp noon) (field "data" (base64 document) end)))))

abbrev pub start_world : World
start_world = record { db = empty_db; bus = []; cache = []; faults = [] }

-- The tables after one recorded event, and after two.
abbrev pub one_event : Db
one_event = with_event exact (quote 1) (message 1) empty_db

abbrev pub two_events : Db
two_events = with_event exact (quote 2) (message 2) one_event

abbrev pub one_world : World
one_world = record start_world { db = one_event }

-- The statement of the outbox entry will fail.
abbrev pub faulty_world : World
faulty_world = record one_world { faults = false ∷ false ∷ false ∷ false ∷ false ∷ true ∷ [] }
