-- ===== src/Api/Grpc.antt =====
-- api/grpc/server.go: the gRPC service on the query service and the event store. `int32` fields of a
-- request are integers; formatting a time in RFC 3339 in UTC is a parameter.
pub mod Tracing
pub mod Updates
use holdex_backend_cqrs.Prelude.{
  ℕ, String, Bool, true, false, ◌&&◌, not, Option, none, some, List, [], ◌∷◌, map, str_eq,
  if◌then◌else◌, ℤ,
}
use holdex_backend_cqrs.Result.{Error, Result, ok, err, no_rows}
use holdex_backend_cqrs.World.{World, Exec}
use holdex_backend_cqrs.Domain.Market.{NewDataFetchedPayload}
use holdex_backend_cqrs.Projection.ReadModel.{MarketSummary}
use holdex_backend_cqrs.Projection.Queries.{PricePoint}
use holdex_backend_cqrs.Query.Service.{
  Service, service_market_summaries, service_market_summary, service_price_history,
}
use holdex_backend_cqrs.Api.Streaming.{
  Turn, context_done, channel_closed, received, Ending, finished, cancelled, send_failed,
  still_running, market_payload,
}

pub record PbMarketSummary : Type 0 where
  pub coin_id : String
  pub symbol : String
  pub name : String
  pub current_price : ℕ
  pub market_cap : ℕ
  pub volume_24h : ℕ
  pub price_change_24h : ℕ
  pub last_updated : String

pub record PbPricePoint : Type 0 where
  pub price : ℕ
  pub recorded_at : String

-- The statuses, with the coin that a message names.
pub data Status : Type 0 where
  internal_server_error rate_limit_exceeded : Status
  market_summary_not_found price_history_not_found : String → Status

pub data Response (A : Type 0) : Type 0 where
  response : A → Response A
  failure : Status → Response A

-- errors.Is(err, pgx.ErrNoRows)
abbrev pub is_no_rows : Error → Bool
is_no_rows no_rows = true
is_no_rows _ = false

module _ {A B : Type 0} where
  -- A query's result as a reply: its value is converted, and its error is mapped to a status.
  abbrev pub respond : (A → B) → (Error → Status) → Result A × World → Response B × World
  respond convert status (ok a, w) = (response (convert a), w)
  respond convert status (err e, w) = (failure (status e), w)

-- filterCoinID != "" && filterCoinID != me.Payload.CoinID
abbrev pub is_filtered_out : String → NewDataFetchedPayload → Bool
is_filtered_out filter p = not (str_eq filter "") && not (str_eq filter p.coin_id)

abbrev pub send_update :
    Bool → PbMarketSummary → List PbMarketSummary × Ending → List PbMarketSummary × Ending
send_update false summary rest = ([], send_failed)
send_update true summary (sent, ending) = (summary ∷ sent, ending)

module _ (format_utc : ℕ → String) where
  -- mapSummaryToPB
  abbrev pub map_summary_to_pb : MarketSummary → PbMarketSummary
  map_summary_to_pb s = record {
    coin_id = s.coin_id;
    symbol = s.symbol;
    name = s.name;
    current_price = s.current_price;
    market_cap = s.market_cap;
    volume_24h = s.volume_24h;
    price_change_24h = s.price_change_24h;
    last_updated = format_utc s.last_updated;
  }

  abbrev pub point_to_pb : PricePoint → PbPricePoint
  point_to_pb p = record { price = p.price; recorded_at = format_utc p.recorded_at }

  abbrev pub payload_to_pb : NewDataFetchedPayload → PbMarketSummary
  payload_to_pb p = record {
    coin_id = p.coin_id;
    symbol = p.symbol;
    name = p.name;
    current_price = p.current_price;
    market_cap = p.market_cap;
    volume_24h = p.volume_24h;
    price_change_24h = p.price_change_24h;
    last_updated = format_utc p.last_updated;
  }

  unfoldable pub rpc_market_summaries :
      Service → ℤ → ℤ → World → Response (List PbMarketSummary) × World
  rpc_market_summaries s limit offset w =
      respond (map map_summary_to_pb) (λ e. internal_server_error)
        (service_market_summaries s limit offset w)

  unfoldable pub rpc_market_summary : Service → String → World → Response PbMarketSummary × World
  rpc_market_summary s coin_id w =
      respond map_summary_to_pb
        (λ e. if is_no_rows e then market_summary_not_found coin_id else internal_server_error)
        (service_market_summary s coin_id w)

  unfoldable pub rpc_price_history :
      Service → String → ℤ → World → Response (List PbPricePoint) × World
  rpc_price_history s coin_id limit w =
      respond (map point_to_pb)
        (λ e. if is_no_rows e then price_history_not_found coin_id else internal_server_error)
        (service_price_history s coin_id limit w)

  abbrev pub handle_update :
      String
      → Option NewDataFetchedPayload
      → Bool
      → List PbMarketSummary × Ending
      → List PbMarketSummary × Ending
  handle_update filter none taken rest = rest
  handle_update filter (some p) taken rest =
      if is_filtered_out filter p then rest else send_update taken (payload_to_pb p) rest

  -- The loop of StreamMarketUpdates: what is sent, and how it ends.
  unfoldable pub stream_market_updates : String → List Turn → List PbMarketSummary × Ending
  stream_market_updates filter [] = ([], still_running)
  stream_market_updates filter (context_done ∷ ts) = ([], cancelled)
  stream_market_updates filter (channel_closed ∷ ts) = ([], finished)
  stream_market_updates filter (received e taken ∷ ts) =
      let rest = stream_market_updates filter ts in
      handle_update filter (market_payload e) taken rest

-- The interceptors for unary and for streaming calls: a call runs if the token bucket allows it, and
-- is refused if not. The bucket is the one of golang.org/x/time/rate, a parameter.
module _ {L A : Type 0} (allow : L → ℕ → Bool × L) (refuse : Status → A) where
  unfoldable pub rate_limited : ℕ → L → (World → A × World) → World → (A × World) × L
  rate_limited now limiter handler w =
      let (passes, left) = allow limiter now in
      (if passes then handler w else (refuse rate_limit_exceeded, w), left)
