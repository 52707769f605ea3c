-- ===== src/Domain/Market.antt =====
-- internal/domain/market: the command, the event with its payload, and the aggregate.
use mathlib.Core.Option
use holdex_backend_cqrs.Prelude.{
  ℕ, ◌+◌, String, Bool, ◌&&◌, Option, none, some, [], str_eq, if◌then◌else◌,
}
use holdex_backend_cqrs.Result.{
  Result, ok, err, empty_coin_id, negative_price, create_event_failed, unknown_command,
}
use holdex_backend_cqrs.Json.{
  Json, text, float, timestamp, object, end, field, is_finite, is_negative, is_json_time, read_text,
  read_float, read_time, read_struct,
}
use holdex_backend_cqrs.Domain.{BaseEvent, new_base_event, BaseAggregateRoot, raise_event}

pub record FetchMarketDataCommand : Type 0 where
  pub coin_id : String
  pub symbol : String
  pub name : String
  pub current_price : ℕ
  pub market_cap : ℕ
  pub volume_24h : ℕ
  pub price_change_24h : ℕ
  pub last_updated : ℕ

-- `cmd interface{}`: a fetch command, or a value of any other type.
pub data Command : Type 0 where
  fetch : FetchMarketDataCommand → Command
  other : String → Command

abbrev pub new_data_fetched_event : String
new_data_fetched_event = "NewDataFetched"

pub record NewDataFetchedPayload : Type 0 where
  pub coin_id : String
  pub symbol : String
  pub name : String
  pub current_price : ℕ
  pub market_cap : ℕ
  pub volume_24h : ℕ
  pub price_change_24h : ℕ
  pub last_updated : ℕ

-- The values of the interface `domain.Event`: `BaseEvent` itself, and `MarketEvent`, which embeds it.
pub data Event : Type 0 where
  base_event : BaseEvent → Event
  market_event : BaseEvent → NewDataFetchedPayload → Event

-- The methods of `domain.Event` are those of the embedded `BaseEvent`.
abbrev pub base : Event → BaseEvent
base (base_event b) = b
base (market_event b p) = b

-- json.Marshal of the payload, by its struct tags. NaN, an infinity and a year past 9999 are errors.
unfoldable pub marshal_payload : NewDataFetchedPayload → Option Json
marshal_payload p =
    if is_finite p.current_price
      && (is_finite p.market_cap
          && (is_finite p.volume_24h
              && (is_finite p.price_change_24h && is_json_time p.last_updated)))
    then some (
        object (
          field "coin_id" (text p.coin_id) (
            field "symbol" (text p.symbol) (
              field "name" (text p.name) (
                field "current_price" (float p.current_price) (
                  field "market_cap" (float p.market_cap) (
                    field "volume_24h" (float p.volume_24h) (
                      field "price_change_24h" (float p.price_change_24h)
                        (field "last_updated" (timestamp p.last_updated) end)))))))))
    else none

set_member : String → Json → NewDataFetchedPayload → Option NewDataFetchedPayload
set_member k j p =
    if str_eq k "coin_id"
    then Option.map (λ s. record p { coin_id = s }) (read_text j p.coin_id)
    else if str_eq k "symbol"
    then Option.map (λ s. record p { symbol = s }) (read_text j p.symbol)
    else if str_eq k "name"
    then Option.map (λ s. record p { name = s }) (read_text j p.name)
    else if str_eq k "current_price"
    then Option.map (λ x. record p { current_price = x }) (read_float j p.current_price)
    else if str_eq k "market_cap"
    then Option.map (λ x. record p { market_cap = x }) (read_float j p.market_cap)
    else if str_eq k "volume_24h"
    then Option.map (λ x. record p { volume_24h = x }) (read_float j p.volume_24h)
    else if str_eq k "price_change_24h"
    then Option.map (λ x. record p { price_change_24h = x }) (read_float j p.price_change_24h)
    else if str_eq k "last_updated"
    then Option.map (λ t. record p { last_updated = t }) (read_time j p.last_updated)
    else some p

-- `var payload market.NewDataFetchedPayload`. Its zero time.Time lies before 1970; no document that
-- `marshal_payload` writes leaves it in place.
abbrev pub zero_payload : NewDataFetchedPayload
zero_payload = record {
  coin_id = "";
  symbol = "";
  name = "";
  current_price = 0;
  market_cap = 0;
  volume_24h = 0;
  price_change_24h = 0;
  last_updated = 0;
}

unfoldable pub unmarshal_payload : Json → Option NewDataFetchedPayload
unfolding set_member
unmarshal_payload j = read_struct set_member j zero_payload

unfoldable pub new_new_data_fetched_event : String → ℕ → NewDataFetchedPayload → ℕ → Option Event
new_new_data_fetched_event coin_id version payload now = elim (marshal_payload payload) [
  | none ↦ none
  | some d ↦
      some (
        market_event (new_base_event coin_id "Market" new_data_fetched_event version d now) payload)
]

pub record MarketAggregate : Type 0 where
  pub root : BaseAggregateRoot Event
  pub open root use *
  pub symbol : String
  pub name : String
  pub current_price : ℕ
  pub market_cap : ℕ
  pub volume_24h : ℕ
  pub price_change_24h : ℕ

unfoldable pub new_market_aggregate : String → MarketAggregate
new_market_aggregate coin_id = record {
  root = record { id_str = coin_id; type_str = "Market"; vers = 0; uncommitted_events = [] };
  symbol = "";
  name = "";
  current_price = 0;
  market_cap = 0;
  volume_24h = 0;
  price_change_24h = 0;
}

-- The payload that `HandleCommand` copies out of the command.
abbrev pub payload_of : FetchMarketDataCommand → NewDataFetchedPayload
payload_of c = record {
  coin_id = c.coin_id;
  symbol = c.symbol;
  name = c.name;
  current_price = c.current_price;
  market_cap = c.market_cap;
  volume_24h = c.volume_24h;
  price_change_24h = c.price_change_24h;
  last_updated = c.last_updated;
}

unfoldable pub handle_command : MarketAggregate → Command → ℕ → Result Event
handle_command a (fetch c) now =
    if str_eq c.coin_id ""
    then err empty_coin_id
    else if is_negative c.current_price
    then err negative_price
    else elim (new_new_data_fetched_event c.coin_id (a.vers + 1) (payload_of c) now) [
      | none ↦ err create_event_failed
      | some event ↦ ok event
    ]
handle_command a (other t) now = err (unknown_command t)

-- The `if isNew` and the assignment of `Vers` at the head of `Apply`.
take_version : MarketAggregate → Event → Bool → MarketAggregate
take_version a event is_new =
    let root = (if is_new then raise_event event a.root else a.root) in
    record a { root = record root { vers = (base event).vers } }

-- The assignments under the type assertion `event.(MarketEvent)`.
copy_payload : NewDataFetchedPayload → MarketAggregate → MarketAggregate
copy_payload p a = record a {
  symbol = p.symbol;
  name = p.name;
  current_price = p.current_price;
  market_cap = p.market_cap;
  volume_24h = p.volume_24h;
  price_change_24h = p.price_change_24h;
}

unfoldable pub apply : MarketAggregate → Event → Bool → MarketAggregate
unfolding take_version copy_payload raise_event
apply a (base_event b) is_new = take_version a (base_event b) is_new
apply a (market_event b p) is_new =
    let a' = take_version a (market_event b p) is_new in
    if str_eq b.type new_data_fetched_event then copy_payload p a' else a'
