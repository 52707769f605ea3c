-- ===== src/Pipeline/Streaming.antt =====
-- A recorded quote on its way to the subscribers, by the outbox and the Redis channel.
use holdex_backend_cqrs.Prelude.{
  ℕ, String, ◌≡◌, refl, ap, ◌∙◌, false, true, some, List, [], ◌∷◌, ◌++◌, map, str_eq, eq_refl,
  arith, select,
}
use holdex_backend_cqrs.Json.{Json, is_negative, is_json_time}
use holdex_backend_cqrs.Domain.{new_base_event}
use holdex_backend_cqrs.Domain.Market.{
  Event, marshal_payload, new_data_fetched_event, NewDataFetchedPayload, new_new_data_fetched_event,
}
use holdex_backend_cqrs.Tables.{Columns}
use holdex_backend_cqrs.World.{World}
use holdex_backend_cqrs.EventStore.{serialize_event}
use holdex_backend_cqrs.EventStore.Codec.{new_event-eq_some}
use holdex_backend_cqrs.EventStore.Append.{with_event}
use holdex_backend_cqrs.EventStore.Outbox.{publish_batch}
use holdex_backend_cqrs.EventStore.Outbox.Drain.{unlocked, publish_batch_fault_free}
use holdex_backend_cqrs.EventStore.Subscription.{established, first_backoff, matches, subscribe}
use holdex_backend_cqrs.EventStore.Subscription.Delivering.{subscribe-select}
use holdex_backend_cqrs.Aggregator.Coingecko.{MarketData}
use holdex_backend_cqrs.Aggregator.Processor.Recording.{recorded}
use holdex_backend_cqrs.Aggregator.Processor.Log.{IsMarketLog}
use holdex_backend_cqrs.Aggregator.Processor.Success.{process_market_data_succeeds}
use holdex_backend_cqrs.Api.Streaming.{Turn, received, market_payload}
use holdex_backend_cqrs.Api.Graphql.Resolvers.{payload_summary, market_price_updated}
use holdex_backend_cqrs.Api.Grpc.{payload_to_pb, stream_market_updates}
use holdex_backend_cqrs.Pipeline.{after_recording}

-- A subscription of the program's one event type that is open while these messages are published,
-- by a client that takes what it is given.
abbrev pub turns_of : List Json → List Turn
turns_of js =
    map (λ e. received e true)
      (subscribe (new_data_fetched_event ∷ []) (established js ∷ []) first_backoff).0

module _ (coin_id : String) (version now : ℕ) (p : NewDataFetchedPayload) (e : Event) (k : Json)
    (made : new_new_data_fetched_event coin_id version p now ≡ some e)
    (serialized : serialize_event e ≡ some k) where
  -- The message of an event that was made is read back, and passes the filter of its type.
  turns_of_one : (turns_of (k ∷ []) ≡ received e true ∷ []) × (market_payload e ≡ some p)
  unfolding new_base_event matches
  turns_of_one =
      let (j, encoded, is_market) = new_event-eq_some coin_id version p now made in
      let passes : select (matches (new_data_fetched_event ∷ [])) (e ∷ []) ≡ e ∷ [] =
        rw is_market refl in
      (
        ap (map (λ (x : Event). received x true)) (
            subscribe-select (new_data_fetched_event ∷ []) (established (k ∷ []) ∷ []) first_backoff
              (e ∷ []) ((coin_id, version, p, now, made, serialized), tt)
            ∙ passes),
        ap market_payload is_market,
      )

  -- What either interface sends of it to a client of the event's coin.
  sent_of_one :
      (format_utc format_local : ℕ → String)
      → ((stream_market_updates format_utc p.coin_id (turns_of (k ∷ []))).0
          ≡ payload_to_pb format_utc p ∷ [])
        × ((market_price_updated format_local (some p.coin_id) (turns_of (k ∷ []))).0
            ≡ payload_summary format_local p ∷ [])
  unfolding stream_market_updates market_price_updated
  sent_of_one format_utc format_local =
      let (arrives, is_payload) = turns_of_one in
      rw arrives (rw is_payload (rw (eq_refl p.coin_id) (ground arith, refl)))

-- Where no call fails, the publisher moves a valid quote that ProcessMarketData records behind an
-- empty outbox to the channel as one message, and either interface sends the quote, unrounded, to a
-- client that is subscribed to its coin and takes it, once and nothing else.
pub recorded_quote_is_streamed :
    (pg : Columns) (now : ℕ) (d : MarketData) (w : World) (format_utc format_local : ℕ → String)
    (j : Json)
    → IsMarketLog w.db.events
    → w.faults ≡ []
    → str_eq d.id "" ≡ false
    → is_negative d.current_price ≡ false
    → marshal_payload (recorded d) ≡ some j
    → is_json_time now ≡ true
    → w.db.outbox ≡ []
    → (k : Json) × ((publish_batch unlocked (after_recording pg now d w)).1.bus ≡ w.bus ++ k ∷ [])
      × ((publish_batch unlocked (after_recording pg now d w)).1.db.outbox ≡ [])
      × ((stream_market_updates format_utc d.id (turns_of (k ∷ []))).0
          ≡ payload_to_pb format_utc (recorded d) ∷ [])
      × ((market_price_updated format_local (some d.id) (turns_of (k ∷ []))).0
          ≡ payload_summary format_local (recorded d) ∷ [])
recorded_quote_is_streamed pg now d w format_utc format_local j log none_left named positive encoded
      in_time drained =
    let (e, k, made, serialized, recorded_as) =
      process_market_data_succeeds pg now d w j log none_left named positive encoded in_time in
    let (sent, pushed) =
      sent_of_one d.id _ now (recorded d) e k made serialized format_utc format_local in
    let published =
      publish_batch_fault_free (record w { db = with_event pg e k w.db }) none_left
        (rw drained (omega arith, tt)) in
    let result =
      ap (λ v. (publish_batch unlocked v).1) (ap (λ r. r.1) recorded_as)
      ∙ ap (λ r. r.1) published in
    (
      k,
      ap (λ (v : World). v.bus) result ∙ (rw drained refl),
      ap (λ (v : World). v.db.outbox) result ∙ (rw drained refl),
      sent,
      pushed,
    )
