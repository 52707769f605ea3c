-- ===== src/Api/Graphql/Resolvers.antt =====
-- api/graphql/schema.resolvers.go: the resolvers on the query service, the dataloader and the event
-- store. Formatting a time in RFC 3339, in the location that the time carries, is a parameter.
use holdex_backend_cqrs.Prelude.{
  ℕ, String, Bool, true, false, not, Option, none, some, List, [], ◌∷◌, map, str_eq, if◌then◌else◌,
  ℤ, pos,
}
use holdex_backend_cqrs.Result.{Result}
use holdex_backend_cqrs.World.{World, Exec, ◌>>=◌, pure}
use holdex_backend_cqrs.Domain.Market.{NewDataFetchedPayload}
use holdex_backend_cqrs.Projection.ReadModel.{MarketSummary}
use holdex_backend_cqrs.Projection.Queries.{PricePoint}
use holdex_backend_cqrs.Query.Service.{
  Service, service_market_summaries, service_market_summary, service_price_history,
}
use holdex_backend_cqrs.Api.Streaming.{
  Turn, context_done, channel_closed, received, Ending, finished, cancelled, still_running,
  market_payload,
}
use holdex_backend_cqrs.Api.Graphql.Dataloader.{Point, Dataloader, Loaded, load}

-- `MarketSummary` of the schema; the pointers may be nil.
pub record Summary : Type 0 where
  pub coin_id : String
  pub symbol : String
  pub name : String
  pub current_price : ℕ
  pub market_cap : Option ℕ
  pub volume_24h : Option ℕ
  pub price_change_24h : Option ℕ
  pub last_updated : String

-- An argument that may be left out.
abbrev pub argument_or : ℤ → Option ℤ → ℤ
argument_or d none = d
argument_or d (some n) = n

-- The answer of a field: at once, or from the dataloader of the request.
pub data FieldAnswer : Type 0 where
  direct : Result (List Point) × World → FieldAnswer
  batched : Loaded × Dataloader → FieldAnswer

-- coinID != nil && *coinID != me.Payload.CoinID
abbrev pub is_unwanted : Option String → NewDataFetchedPayload → Bool
is_unwanted none p = false
is_unwanted (some coin_id) p = not (str_eq coin_id p.coin_id)

-- The inner select: the context may be done before the client takes the summary.
abbrev pub push_update : Bool → Summary → List Summary × Ending → List Summary × Ending
push_update false summary rest = ([], cancelled)
push_update true summary (sent, ending) = (summary ∷ sent, ending)

module _ (format_local : ℕ → String) where
  abbrev pub resolved_summary : MarketSummary → Summary
  resolved_summary s = record {
    coin_id = s.coin_id;
    symbol = s.symbol;
    name = s.name;
    current_price = s.current_price;
    market_cap = some s.market_cap;
    volume_24h = some s.volume_24h;
    price_change_24h = some s.price_change_24h;
    last_updated = format_local s.last_updated;
  }

  abbrev pub local_point_of : PricePoint → Point
  local_point_of p = record { price = p.price; recorded_at = format_local p.recorded_at }

  abbrev pub payload_summary : NewDataFetchedPayload → Summary
  payload_summary p = record {
    coin_id = p.coin_id;
    symbol = p.symbol;
    name = p.name;
    current_price = p.current_price;
    market_cap = some p.market_cap;
    volume_24h = some p.volume_24h;
    price_change_24h = some p.price_change_24h;
    last_updated = format_local p.last_updated;
  }

  unfoldable pub resolve_market_summaries : Service → Option ℤ → Option ℤ → Exec (List Summary)
  resolve_market_summaries s limit offset = do
    summaries ←
        service_market_summaries s (argument_or (pos 100) limit) (argument_or (pos 0) offset)
    pure (map resolved_summary summaries)

  unfoldable pub resolve_market_summary : Service → String → Exec Summary
  resolve_market_summary s coin_id = do
    summary ← service_market_summary s coin_id
    pure (resolved_summary summary)

  unfoldable pub resolve_price_history : Service → String → Option ℤ → Exec (List Point)
  resolve_price_history s coin_id limit = do
    history ← service_price_history s coin_id (argument_or (pos 100) limit)
    pure (map local_point_of history)

  -- The field `priceHistory` of a summary.
  unfoldable pub resolve_summary_price_history :
      Service → Option Dataloader → String → Option ℤ → World → FieldAnswer
  unfolding resolve_price_history load
  resolve_summary_price_history s none coin_id limit w =
      direct (resolve_price_history s coin_id limit w)
  resolve_summary_price_history s (some dl) coin_id limit w =
      batched (load coin_id (argument_or (pos 100) limit) dl)

  abbrev pub pass_update :
      Option String
      → Option NewDataFetchedPayload
      → Bool
      → List Summary × Ending
      → List Summary × Ending
  pass_update coin_id none taken rest = rest
  pass_update coin_id (some p) taken rest =
      if is_unwanted coin_id p then rest else push_update taken (payload_summary p) rest

  -- The goroutine of MarketPriceUpdated: what is sent, and how it ends.
  unfoldable pub market_price_updated : Option String → List Turn → List Summary × Ending
  market_price_updated coin_id [] = ([], still_running)
  market_price_updated coin_id (context_done ∷ ts) = ([], cancelled)
  market_price_updated coin_id (channel_closed ∷ ts) = ([], finished)
  market_price_updated coin_id (received e taken ∷ ts) =
      let rest = market_price_updated coin_id ts in
      pass_update coin_id (market_payload e) taken rest
