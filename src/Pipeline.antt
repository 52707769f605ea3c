-- ===== src/Pipeline.antt =====
-- The parts of the program together, as cmd/server/main.go connects them: internal/aggregator
-- records a quote, internal/projection carries it over to the read model, and the outbox of
-- internal/eventstore carries it to the subscribers; internal/query and api answer with it.
pub mod Answering
pub mod Delivering
pub mod Frames
pub mod Integrity
pub mod Streaming
pub mod Unsent
use holdex_backend_cqrs.Prelude.{ℕ, String, Bool, ℤ}
use holdex_backend_cqrs.Tables.{Columns}
use holdex_backend_cqrs.World.{World}
use holdex_backend_cqrs.Aggregator.Coingecko.{MarketData}
use holdex_backend_cqrs.Aggregator.Processor.{process_market_data}
use holdex_backend_cqrs.Projection.Projector.{Loop, round}
use holdex_backend_cqrs.Projection.Queries.{Ordering}
use holdex_backend_cqrs.Query.CachedRepo.{Times}
use holdex_backend_cqrs.Query.Service.{Service, new_service, cached_repository}

-- The query service on the repository with the cache.
abbrev pub service_of : Ordering → Bool → (ℤ → String) → Times → Service
service_of q has_redis itoa times = new_service (cached_repository has_redis itoa q times)

module _ (pg : Columns) (now : ℕ) (d : MarketData) where
  -- The world after a quote was recorded.
  abbrev pub after_recording : World → World
  after_recording w = (process_market_data pg now d w).1

  -- The world after one more round of the projector.
  abbrev pub after_round : Loop → World → World
  after_round l w = (round pg l (after_recording w)).1
