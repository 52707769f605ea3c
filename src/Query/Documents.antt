-- ===== src/Query/Documents.antt =====
-- The documents that internal/cache/redis.go stores: json.Marshal of summaries and price points by
-- their struct tags, and json.Unmarshal of them.
pub mod RoundTrip
use mathlib.Core.Option
use holdex_backend_cqrs.Prelude.{String, ◌≡◌, ◌&&◌, Option, none, some, List, str_eq, if◌then◌else◌}
use holdex_backend_cqrs.Json.{
  Json, text, float, timestamp, object, end, field, is_finite, is_json_time, read_text, read_float,
  read_time, read_struct, write_slice, read_slice,
}
use holdex_backend_cqrs.Projection.ReadModel.{MarketSummary}
use holdex_backend_cqrs.Projection.Queries.{PricePoint}

unfoldable pub marshal_summary : MarketSummary → Option Json
marshal_summary s =
    if is_finite s.current_price
      && (is_finite s.market_cap
          && (is_finite s.volume_24h
              && (is_finite s.price_change_24h && is_json_time s.last_updated)))
    then some (
        object (
          field "coin_id" (text s.coin_id) (
            field "symbol" (text s.symbol) (
              field "name" (text s.name) (
                field "current_price" (float s.current_price) (
                  field "market_cap" (float s.market_cap) (
                    field "volume_24h" (float s.volume_24h) (
                      field "price_change_24h" (float s.price_change_24h)
                        (field "last_updated" (timestamp s.last_updated) end)))))))))
    else none

set_member : String → Json → MarketSummary → Option MarketSummary
set_member k j s =
    if str_eq k "coin_id"
    then Option.map (λ x. record s { coin_id = x }) (read_text j s.coin_id)
    else if str_eq k "symbol"
    then Option.map (λ x. record s { symbol = x }) (read_text j s.symbol)
    else if str_eq k "name"
    then Option.map (λ x. record s { name = x }) (read_text j s.name)
    else if str_eq k "current_price"
    then Option.map (λ x. record s { current_price = x }) (read_float j s.current_price)
    else if str_eq k "market_cap"
    then Option.map (λ x. record s { market_cap = x }) (read_float j s.market_cap)
    else if str_eq k "volume_24h"
    then Option.map (λ x. record s { volume_24h = x }) (read_float j s.volume_24h)
    else if str_eq k "price_change_24h"
    then Option.map (λ x. record s { price_change_24h = x }) (read_float j s.price_change_24h)
    else if str_eq k "last_updated"
    then Option.map (λ t. record s { last_updated = t }) (read_time j s.last_updated)
    else some s

abbrev pub zero_summary : MarketSummary
zero_summary = record {
  coin_id = "";
  symbol = "";
  name = "";
  current_price = 0;
  market_cap = 0;
  volume_24h = 0;
  price_change_24h = 0;
  last_updated = 0;
}

unfoldable pub unmarshal_summary : Json → Option MarketSummary
unfolding set_member
unmarshal_summary j = read_struct set_member j zero_summary

unfoldable pub marshal_point : PricePoint → Option Json
marshal_point p =
    if is_finite p.price && is_json_time p.recorded_at
    then some
        (object (field "price" (float p.price) (field "recorded_at" (timestamp p.recorded_at) end)))
    else none

set_point_member : String → Json → PricePoint → Option PricePoint
set_point_member k j p =
    if str_eq k "price"
    then Option.map (λ x. record p { price = x }) (read_float j p.price)
    else if str_eq k "recorded_at"
    then Option.map (λ t. record p { recorded_at = t }) (read_time j p.recorded_at)
    else some p

unfoldable pub unmarshal_point : Json → Option PricePoint
unfolding set_point_member
unmarshal_point j = read_struct set_point_member j (record { price = 0; recorded_at = 0 })

-- What the cache stores values of a type by, and the law that a stored value is read back.
pub record Codec (A : Type 0) : Type 0 where
  pub marshal : A → Option Json
  pub unmarshal : Json → Option A

pub record IsCodec {A : Type 0} (c : Codec A) : Type 0 where
  pub unmarshal-marshal : (a : A) {j : Json} → c.marshal a ≡ some j → c.unmarshal j ≡ some a

abbrev pub summary_codec : Codec MarketSummary
summary_codec = record { marshal = marshal_summary; unmarshal = unmarshal_summary }

abbrev pub summaries_codec : Codec (List MarketSummary)
summaries_codec = record {
  marshal = write_slice marshal_summary;
  unmarshal = read_slice unmarshal_summary;
}

abbrev pub points_codec : Codec (List PricePoint)
points_codec = record {
  marshal = write_slice marshal_point;
  unmarshal = read_slice unmarshal_point;
}
