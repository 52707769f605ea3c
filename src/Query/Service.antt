-- ===== src/Query/Service.antt =====
-- internal/query/service.go: the query interface, its implementations, and the service that passes
-- calls on to one.
use holdex_backend_cqrs.Prelude.{String, Bool, List, ℤ}
use holdex_backend_cqrs.World.{Exec}
use holdex_backend_cqrs.Projection.ReadModel.{MarketSummary}
use holdex_backend_cqrs.Projection.Queries.{
  PricePoint, Ordering, get_market_summaries, get_market_summary, get_price_history,
  get_price_histories,
}
use holdex_backend_cqrs.Query.CachedRepo.{
  Times, cached_market_summaries, cached_market_summary, cached_price_history,
  cached_price_histories,
}

pub record Repository : Type 0 where
  pub get_market_summaries : ℤ → ℤ → Exec (List MarketSummary)
  pub get_market_summary : String → Exec MarketSummary
  pub get_price_history : String → ℤ → Exec (List PricePoint)
  pub get_price_histories : List String → ℤ → Exec (List (String × List PricePoint))

abbrev pub read_model : Ordering → Repository
read_model q = record {
  get_market_summaries = get_market_summaries q;
  get_market_summary = get_market_summary q;
  get_price_history = get_price_history q;
  get_price_histories = get_price_histories q;
}

-- The cached repository, at the times of a query.
abbrev pub cached_repository : Bool → (ℤ → String) → Ordering → Times → Repository
cached_repository has_redis itoa q times = record {
  get_market_summaries =
      λ limit offset. cached_market_summaries has_redis itoa q limit offset times;
  get_market_summary = λ coin_id. cached_market_summary has_redis itoa q coin_id times;
  get_price_history = λ coin_id limit. cached_price_history has_redis itoa q coin_id limit times;
  get_price_histories =
      λ coin_ids limit. cached_price_histories has_redis itoa q coin_ids limit times;
}

pub record Service : Type 0 where
  pub repo : Repository

abbrev pub new_service : Repository → Service
new_service repo = record { repo = repo }

abbrev pub service_market_summaries : Service → ℤ → ℤ → Exec (List MarketSummary)
service_market_summaries s limit offset = s.repo.get_market_summaries limit offset

abbrev pub service_market_summary : Service → String → Exec MarketSummary
service_market_summary s coin_id = s.repo.get_market_summary coin_id

abbrev pub service_price_history : Service → String → ℤ → Exec (List PricePoint)
service_price_history s coin_id limit = s.repo.get_price_history coin_id limit

abbrev pub service_price_histories :
    Service → List String → ℤ → Exec (List (String × List PricePoint))
service_price_histories s coin_ids limit = s.repo.get_price_histories coin_ids limit
