-- ===== src/Examples/Serving.antt =====
-- The theorems on the interfaces and on the start of the server at concrete inputs.
use holdex_backend_cqrs.Prelude.{
  ℕ, ◌*◌, ◌<◌, String, ◌≡◌, ◌≢◌, ap, str_eq, Bool, true, false, ◌⊎◌, Option, none, some, List, [],
  ◌∷◌, Filtered, map, pos, arith, length, take,
}
use holdex_backend_cqrs.Domain.Market.{NewDataFetchedPayload}
use holdex_backend_cqrs.Query.Service.{Service, new_service, read_model}
use holdex_backend_cqrs.Api.Streaming.{Turn, received, arrived, payloads, send_failed}
use holdex_backend_cqrs.Api.Graphql.Resolvers.{
  resolve_market_summaries, resolve_market_summary, resolve_price_history, market_price_updated,
}
use holdex_backend_cqrs.Api.Grpc.{
  respond, internal_server_error, rpc_market_summaries, rpc_market_summary, rpc_price_history,
  stream_market_updates, payload_to_pb,
}
use holdex_backend_cqrs.Api.Grpc.Updates.{Asks, stream_market_updates-Filtered}
use holdex_backend_cqrs.Api.Agreement.{
  pb_of_summary, pb_of_point, summary_status, history_status, filter_of, interfaces_agree,
}
use holdex_backend_cqrs.Server.Lifecycle.{Environment, second}
use holdex_backend_cqrs.Examples.{quote}
use holdex_backend_cqrs.Examples.Querying.{as_stored, coins_world, show}

-- Three quotes arrive, and the client takes the first two.
abbrev turns : List Turn
turns = received (quote 1) true ∷ received (quote 2) true ∷ received (quote 3) false ∷ []

abbrev service : Service
service = new_service (read_model as_stored)

abbrev only_bitcoin : Option String
only_bitcoin = some "bitcoin"

abbrev is_empty_text : Option String → Bool
is_empty_text none = false
is_empty_text (some coin_id) = str_eq coin_id ""

bitcoin_named : only_bitcoin ≢ some ""
bitcoin_named h = absurd (ground (arith, ap is_empty_text h))

interfaces_agree_example :
    (rpc_market_summaries show service (pos 1) (pos 0) coins_world
      ≡ respond
          (map pb_of_summary)
          (λ e. internal_server_error)
          (resolve_market_summaries show service (some (pos 1)) (some (pos 0)) coins_world))
    × (rpc_market_summary show service "dogecoin" coins_world
        ≡ respond pb_of_summary
            (summary_status "dogecoin")
            (resolve_market_summary show service "dogecoin" coins_world))
    × (rpc_price_history show service "dogecoin" (pos 1) coins_world
        ≡ respond
            (map pb_of_point)
            (history_status "dogecoin")
            (resolve_price_history show service "dogecoin" (some (pos 1)) coins_world))
    × ((stream_market_updates show (filter_of only_bitcoin) turns).0
        ≡ map pb_of_summary (market_price_updated show only_bitcoin turns).0)
interfaces_agree_example =
    interfaces_agree show show service "dogecoin" only_bitcoin (pos 1) (pos 0) coins_world turns
      (λ t i. show t) bitcoin_named

stream_market_updates-Filtered_example :
    (asked : List NewDataFetchedPayload) × Filtered
      (Asks "bitcoin")
      (payloads (arrived turns))
      asked
    × (((stream_market_updates show "bitcoin" turns).0 ≡ map (payload_to_pb show) asked)
        ⊎ ((n : ℕ) × (n < length asked)
            × ((stream_market_updates show "bitcoin" turns).0
                ≡ take n (map (payload_to_pb show) asked))
            × ((stream_market_updates show "bitcoin" turns).1 ≡ send_failed)))
stream_market_updates-Filtered_example = stream_market_updates-Filtered show "bitcoin" turns

-- The ping of the read pool will fail.

-- Every daemon takes a second, the HTTP server all of its timeout, and a gRPC client never leaves.
abbrev slow : Environment
slow = record {
  grpc_port_free = true;
  http_port_free = true;
  signal_at = 60 * second;
  runs_on = λ d. second;
  http_shutdown = λ t. (false, t);
  graceful_stop = none;
  hard_stop = 1;
  close_pools = λ ds s. 3 * second;
}
