-- ===== src/Examples/Recording.antt =====
-- The theorems on recording and on the event store at concrete inputs.
use holdex_backend_cqrs.Prelude.{ℕ, suc, ◌≡◌, refl, ap, subst, some, [], ◌∷◌, pos}
use holdex_backend_cqrs.Result.{ok, err, outbox_failed, duplicate_version}
use holdex_backend_cqrs.Json.{Json}
use holdex_backend_cqrs.Domain.{new_base_event}
use holdex_backend_cqrs.Domain.Market.{
  Event, payload_of, marshal_payload, new_new_data_fetched_event, new_market_aggregate,
  handle_command, apply, unmarshal_payload,
}
use holdex_backend_cqrs.Tables.{empty_db, rows_of, max_version}
use holdex_backend_cqrs.World.{World, transaction}
use holdex_backend_cqrs.EventStore.{
  serialize_event, deserialize_event, deserialize_raw_json, load_row, load_rows, load_events,
  load_latest, get_latest_event, check_version, insert_event, insert_events, append_body,
  append_events,
}
use holdex_backend_cqrs.EventStore.Append.{with_event, Inserts, Accepts, append_events-Inserts}
use holdex_backend_cqrs.EventStore.Codec.{deserialize-serialize_event}
use holdex_backend_cqrs.Aggregator.Processor.{hydrate, command_of, save, process_market_data}
use holdex_backend_cqrs.Aggregator.Processor.Hydration.{replay, hydrate-eq-replay}
use holdex_backend_cqrs.Aggregator.Processor.Recording.{event_of, process_market_data-Inserts}
use holdex_backend_cqrs.Aggregator.Processor.Log.{IsMarketLog, process_all-IsMarketLog}
use holdex_backend_cqrs.Aggregator.Processor.Success.{process_market_data_succeeds}
use holdex_backend_cqrs.Examples.{
  exact, noon, bitcoin, document, quote, message, start_world, one_event, two_events, one_world,
  faulty_world,
}

pub empty-IsMarketLog : IsMarketLog []
empty-IsMarketLog = record { numbered = λ agg_id. tt; readable = tt }

quote-event_of : (version : ℕ) → event_of bitcoin version noon ≡ some (quote version)
unfolding new_new_data_fetched_event marshal_payload new_base_event
quote-event_of version = refl

pub quote-serialize : (version : ℕ) → serialize_event (quote version) ≡ some (message version)
unfolding serialize_event
quote-serialize version = refl

first_run : process_market_data exact noon bitcoin start_world ≡ (ok tt, one_world)
unfolding process_market_data get_latest_event load_latest hydrate new_market_aggregate
    handle_command new_new_data_fetched_event marshal_payload new_base_event apply save
    append_events transaction append_body check_version insert_events insert_event serialize_event
first_run = refl

pub one_world-IsMarketLog : IsMarketLog one_world.db.events
one_world-IsMarketLog =
    subst (λ (w : World). IsMarketLog w.db.events) (ap (λ r. r.1) first_run)
      (process_all-IsMarketLog exact ((noon, bitcoin) ∷ []) start_world empty-IsMarketLog)

process_market_data_succeeds_example :
    (e : Event) × (k : Json) × (event_of bitcoin
        (suc (max_version (rows_of "bitcoin" one_event.events)))
        noon
      ≡ some e)
    × (serialize_event e ≡ some k)
    × (process_market_data exact noon bitcoin one_world
        ≡ (ok tt, record one_world { db = with_event exact e k one_event }))
unfolding marshal_payload
process_market_data_succeeds_example =
    process_market_data_succeeds exact noon bitcoin one_world document one_world-IsMarketLog refl
      refl refl refl refl

process_market_data-Inserts_example :
    (e : Event) × (event_of bitcoin (suc (max_version (rows_of "bitcoin" []))) noon ≡ some e)
    × Inserts exact (e ∷ []) empty_db (process_market_data exact noon bitcoin start_world).1.db
process_market_data-Inserts_example =
    process_market_data-Inserts exact noon bitcoin start_world (ap (λ r. r.0) first_run)

faulty_run : (process_market_data exact noon bitcoin faulty_world).0 ≡ err outbox_failed
unfolding process_market_data get_latest_event load_latest load_row deserialize_event
    unmarshal_payload hydrate new_market_aggregate handle_command new_new_data_fetched_event
    marshal_payload new_base_event apply save append_events transaction append_body check_version
    insert_events insert_event serialize_event
faulty_run = refl

loaded : (load_events "bitcoin" one_world).0 ≡ ok (quote 1 ∷ [])
unfolding load_events load_rows load_row deserialize_event unmarshal_payload
loaded = refl

latest : (get_latest_event "bitcoin" one_world).0 ≡ ok (some (quote 1))
unfolding get_latest_event load_latest load_row deserialize_event unmarshal_payload
latest = refl

hydrate-eq-replay_example :
    hydrate "bitcoin" (some (quote 1)) ≡ replay (new_market_aggregate "bitcoin") (quote 1 ∷ [])
hydrate-eq-replay_example =
    hydrate-eq-replay "bitcoin" one_world one_world-IsMarketLog.numbered loaded latest

second-Inserts : Inserts exact (quote 2 ∷ []) one_event two_events
second-Inserts = (message 2, quote-serialize 2, refl, refl)

appended :
    append_events exact "bitcoin" (pos 1) (quote 2 ∷ []) one_world
    ≡ (ok tt, record one_world { db = two_events })
unfolding append_events transaction append_body check_version insert_events insert_event
    serialize_event
appended = refl

append_events-Inserts_example :
    Accepts (pos 1) (max_version (rows_of "bitcoin" one_event.events))
    × Inserts exact
        (quote 2 ∷ [])
        one_event
        (append_events exact "bitcoin" (pos 1) (quote 2 ∷ []) one_world).1.db
append_events-Inserts_example =
    append_events-Inserts exact "bitcoin" (pos 1) (quote 2) [] one_world (ap (λ r. r.0) appended)

appended_twice :
    (append_events exact "bitcoin" (pos 1) (quote 2 ∷ quote 2 ∷ []) one_world).0
    ≡ err duplicate_version
unfolding append_events transaction append_body check_version insert_events insert_event
    serialize_event
appended_twice = refl

deserialize-serialize_event_example : deserialize_raw_json (message 3) ≡ some (quote 3)
deserialize-serialize_event_example =
    deserialize-serialize_event "bitcoin" 3 (payload_of (command_of bitcoin)) noon
      (quote-event_of 3) (quote-serialize 3)
