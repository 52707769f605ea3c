-- ===== src/Examples/Connecting.antt =====
-- The theorems on the parts of the program together, at one quote.
use holdex_backend_cqrs.Prelude.{◌*◌, ◌+◌, ◌≡◌, refl, true, some, List, [], ◌∷◌, All, length, arith}
use holdex_backend_cqrs.Result.{ok}
use holdex_backend_cqrs.Json.{Json}
use holdex_backend_cqrs.Domain.{new_base_event}
use holdex_backend_cqrs.Domain.Market.{
  marshal_payload, unmarshal_payload, handle_command, new_new_data_fetched_event, apply,
  new_market_aggregate,
}
use holdex_backend_cqrs.EventStore.{
  get_latest_event, append_events, serialize_event, deserialize_raw_json,
}
use holdex_backend_cqrs.Projection.Projector
use holdex_backend_cqrs.World.{World}
use holdex_backend_cqrs.EventStore.Outbox.{publish_batch}
use holdex_backend_cqrs.EventStore.Outbox.Drain.{unlocked}
use holdex_backend_cqrs.Aggregator.Processor.{process_market_data}
use holdex_backend_cqrs.Aggregator.Processor.Recording.{recorded}
use holdex_backend_cqrs.Projection.ReadModel.{summary_row, prune_price_history, get_new_events}
use holdex_backend_cqrs.Projection.Projector.{Loop, round, project_batch, project}
use holdex_backend_cqrs.Projection.Queries.{summary_of_row}
use holdex_backend_cqrs.Query.CachedRepo.{second}
use holdex_backend_cqrs.Api.Graphql.Resolvers.{
  resolve_market_summary, resolved_summary, payload_summary, market_price_updated,
}
use holdex_backend_cqrs.Api.Grpc.{
  rpc_market_summary, response, map_summary_to_pb, payload_to_pb, stream_market_updates,
}
use holdex_backend_cqrs.Pipeline.{service_of, after_recording, after_round}
use holdex_backend_cqrs.Pipeline.Answering.{recorded_quote_is_answered}
use holdex_backend_cqrs.EventStore.Subscription.{receive}
use holdex_backend_cqrs.Pipeline.Delivering.{IsComplete, perform_all-IsComplete}
use holdex_backend_cqrs.Pipeline.Integrity.{
  Operation, recording, publishing, projecting, pruning, perform_all, Sound, HasRow,
  perform_all-integrity,
}
use holdex_backend_cqrs.Pipeline.Streaming.{turns_of, recorded_quote_is_streamed}
use holdex_backend_cqrs.Examples.{exact, noon, bitcoin, document, start_world, one_event, one_world}
use holdex_backend_cqrs.Examples.Recording.{empty-IsMarketLog, one_world-IsMarketLog}
use holdex_backend_cqrs.Examples.Querying.{as_stored, times, decimal, row, show}

-- One event is recorded and projected, its message was published, and its summary is cached.
abbrev settled_world : World
settled_world = record one_world {
  db = record one_event { outbox = [] };
  cache =
      ("cache:summary:bitcoin", record { document = document; expires_at = noon + 9 * second })
      ∷ [];
}

abbrev caught_up : Loop
caught_up = record { last_id = 1; current_interval = 100 }

recorded_quote_is_answered_example :
    ((process_market_data exact noon bitcoin settled_world).0 ≡ ok tt)
    × ((round exact caught_up (after_recording exact noon bitcoin settled_world)).0.last_id ≡ 2)
    × ((rpc_market_summary show
          (service_of as_stored true decimal times)
          "bitcoin"
          (after_round exact noon bitcoin caught_up settled_world)).0
        ≡ response (map_summary_to_pb show (summary_of_row as_stored (row "bitcoin"))))
    × ((resolve_market_summary show
          (service_of as_stored true decimal times)
          "bitcoin"
          (after_round exact noon bitcoin caught_up settled_world)).0
        ≡ ok (resolved_summary show (summary_of_row as_stored (row "bitcoin"))))
unfolding marshal_payload summary_row
recorded_quote_is_answered_example =
    recorded_quote_is_answered exact noon bitcoin caught_up settled_world as_stored true decimal
      times show show document (row "bitcoin") one_world-IsMarketLog refl refl refl refl refl refl
      (omega arith, tt) (omega arith)

recorded_quote_is_streamed_example :
    (k : Json) × ((publish_batch unlocked (after_recording exact noon bitcoin settled_world)).1.bus
      ≡ k ∷ [])
    × ((publish_batch unlocked (after_recording exact noon bitcoin settled_world)).1.db.outbox ≡ [])
    × ((stream_market_updates show "bitcoin" (turns_of (k ∷ []))).0
        ≡ payload_to_pb show (recorded bitcoin) ∷ [])
    × ((market_price_updated show (some "bitcoin") (turns_of (k ∷ []))).0
        ≡ payload_summary show (recorded bitcoin) ∷ [])
unfolding marshal_payload
recorded_quote_is_streamed_example =
    recorded_quote_is_streamed exact noon bitcoin settled_world show show document
      one_world-IsMarketLog refl refl refl refl refl refl

-- An empty system, in which a quote is recorded, published and projected, and the history is pruned.
start_world-Sound : Sound exact start_world
start_world-Sound = record { log = empty-IsMarketLog; entries = tt; messages = tt }

abbrev operations : List Operation
operations =
    recording noon bitcoin
    ∷ publishing unlocked
    ∷ projecting (record { last_id = 0; current_interval = 100 })
    ∷ pruning noon
    ∷ recording (noon + 1) bitcoin
    ∷ []

perform_all-integrity_example :
    Sound exact (perform_all exact operations start_world)
    × All
        (HasRow exact (perform_all exact operations start_world).db.events)
        (receive [] (perform_all exact operations start_world).bus)
perform_all-integrity_example =
    perform_all-integrity exact operations start_world [] start_world-Sound

start_world-IsComplete : IsComplete exact start_world
start_world-IsComplete = record { ordered = tt; drawn = tt; delivered = tt }

perform_all-IsComplete_example : IsComplete exact (perform_all exact operations start_world)
perform_all-IsComplete_example =
    perform_all-IsComplete exact operations start_world start_world-IsComplete

-- In this run a subscriber receives the event.
received_of_operations : length (receive [] (perform_all exact operations start_world).bus) ≡ 1
unfolding receive marshal_payload process_market_data summary_row publish_batch round
    get_latest_event prune_price_history get_new_events handle_command new_new_data_fetched_event
    append_events apply new_base_event new_market_aggregate serialize_event project_batch
    unmarshal_payload project deserialize_raw_json Projector.deserialize_event
received_of_operations = refl
