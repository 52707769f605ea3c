-- ===== src/Pipeline/Answering.antt =====
-- A recorded quote on its way to the query interfaces, by the projector and the cache.
use Prim.Native.String.{◌++◌ as concat}
use holdex_backend_cqrs.Prelude.{
  ℕ, String, ◌≤◌, ◌<◌, ◌≡◌, refl, sym, ap, subst, ◌∙◌, Bool, false, true, none, some, [], All, ℤ,
  str_eq, lookup,
}
use holdex_backend_cqrs.Result.{ok}
use holdex_backend_cqrs.Json.{Json, is_negative, is_json_time}
use holdex_backend_cqrs.Domain.{new_base_event}
use holdex_backend_cqrs.Domain.Market.{Event, market_event, marshal_payload, new_data_fetched_event}
use holdex_backend_cqrs.Tables.{Columns, EventRow, SummaryRow}
use holdex_backend_cqrs.World.{World}
use holdex_backend_cqrs.EventStore.{event_row}
use holdex_backend_cqrs.EventStore.Codec.{new_event-eq_some}
use holdex_backend_cqrs.EventStore.Append.{with_event}
use holdex_backend_cqrs.Aggregator.Coingecko.{MarketData}
use holdex_backend_cqrs.Aggregator.Processor.{process_market_data}
use holdex_backend_cqrs.Aggregator.Processor.Recording.{recorded, event_of}
use holdex_backend_cqrs.Aggregator.Processor.Log.{IsMarketLog}
use holdex_backend_cqrs.Aggregator.Processor.Success.{process_market_data_succeeds}
use holdex_backend_cqrs.Projection.ReadModel.{summary_row}
use holdex_backend_cqrs.Projection.Projector.{Loop, round, summary_of, deserialize_event}
use holdex_backend_cqrs.Projection.Projector.Advancing.{
  deserialize_event-event_row, project_fault_free, round_of_one, new_events-append,
}
use holdex_backend_cqrs.Projection.Queries.{Ordering, find_row, summary_of_row}
use holdex_backend_cqrs.Query.CachedRepo.{Times}
use holdex_backend_cqrs.Query.CachedRepo.Invalidation.{
  project-find_row, cached_market_summary-found,
}
use holdex_backend_cqrs.Api.Graphql.Resolvers.{resolve_market_summary, resolved_summary}
use holdex_backend_cqrs.Api.Grpc.{rpc_market_summary, response, map_summary_to_pb}
use holdex_backend_cqrs.Pipeline.{service_of, after_recording, after_round}

module _ (pg : Columns) (now : ℕ) (d : MarketData) (l : Loop) (w : World) where
  -- What the round leaves for a query: the coin's row, no entry of the cache, no failing call.
  abbrev Answerable : SummaryRow → World → Type 0
  Answerable row v =
      (lookup (concat "cache:summary:" d.id) v.cache ≡ none)
      × (v.faults ≡ [])
      × (find_row d.id v.db.summaries ≡ some row)

  round-Answerable :
      (k : Json) (version : ℕ) (row : SummaryRow) (e : Event)
      → w.faults ≡ []
      → summary_row pg (summary_of (recorded d)) ≡ some row
      → All (λ (r : EventRow). r.id ≤ l.last_id) w.db.events
      → l.last_id < w.db.next_event_id
      → event_of d version now ≡ some e
      → (after_recording pg now d w) ≡ record w { db = with_event pg e k w.db }
      → ((round pg l (after_recording pg now d w)).0.last_id ≡ w.db.next_event_id)
        × Answerable row (after_round pg now d l w)
  round-Answerable k version row e none_left is_row old past made recorded_as =
      let id = w.db.next_event_id in
      let v : World = record w { db = with_event pg e k w.db } in
      let (j, encoded, is_market) = new_event-eq_some d.id version (recorded d) now made in
      let b = new_base_event d.id "Market" new_data_fetched_event version j (pg.timestamptz now) in
      let readable : deserialize_event (event_row pg id e) ≡ some (market_event b (recorded d)) =
        rw is_market (deserialize_event-event_row pg id d.id version now (recorded d) encoded) in
      let projected = project_fault_free pg b (recorded d) v none_left is_row in
      let (absent, none_after, found) =
        project-find_row pg b (recorded d) row v none_left is_row projected in
      let stepped =
        round_of_one pg (event_row pg id e) (market_event b (recorded d)) l v readable projected
          none_after
          (new_events-append l.last_id (event_row pg id e) w.db.events v.db old past refl)
          none_left in
      subst (λ p. (p.0.last_id ≡ id) × Answerable row p.1)
        (sym (ap (round pg l) recorded_as ∙ stepped)) (refl, (absent, none_after, found))

  -- Where no call fails, a valid quote that ProcessMarketData records behind a projector that has
  -- passed every event is what both interfaces answer for its coin after the next round, whatever
  -- the cache held of it: what the columns keep of the quote.
  pub recorded_quote_is_answered :
      (q : Ordering) (has_redis : Bool) (itoa : ℤ → String) (times : Times)
      (format_utc format_local : ℕ → String) (j : Json) (row : SummaryRow)
      → IsMarketLog w.db.events
      → w.faults ≡ []
      → str_eq d.id "" ≡ false
      → is_negative d.current_price ≡ false
      → marshal_payload (recorded d) ≡ some j
      → is_json_time now ≡ true
      → summary_row pg (summary_of (recorded d)) ≡ some row
      → All (λ (r : EventRow). r.id ≤ l.last_id) w.db.events
      → l.last_id < w.db.next_event_id
      → ((process_market_data pg now d w).0 ≡ ok tt)
        × ((round pg l (after_recording pg now d w)).0.last_id ≡ w.db.next_event_id)
        × ((rpc_market_summary format_utc
              (service_of q has_redis itoa times)
              d.id
              (after_round pg now d l w)).0
            ≡ response (map_summary_to_pb format_utc (summary_of_row q row)))
        × ((resolve_market_summary format_local
              (service_of q has_redis itoa times)
              d.id
              (after_round pg now d l w)).0
            ≡ ok (resolved_summary format_local (summary_of_row q row)))
  unfolding rpc_market_summary resolve_market_summary
  recorded_quote_is_answered q has_redis itoa times format_utc format_local j row log none_left
        named positive encoded in_time is_row old past =
      let (e, k, made, serialized, recorded_as) =
        process_market_data_succeeds pg now d w j log none_left named positive encoded in_time in
      let (at, (absent, none_after, found)) =
        round-Answerable k _ row e none_left is_row old past made (ap (λ r. r.1) recorded_as) in
      let answered =
        cached_market_summary-found q has_redis itoa times d.id row (after_round pg now d l w)
          absent none_after found in
      (ap (λ r. r.0) recorded_as, at, rw answered refl, rw answered refl)
