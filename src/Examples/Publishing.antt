-- ===== src/Examples/Publishing.antt =====
-- The theorems on the outbox at concrete inputs.
use mathlib.Core.List.{Memᴰ}
use holdex_backend_cqrs.Prelude.{
  Filtered, some, ℕ, ◌*◌, ◌==◌, ◌≡◌, refl, inl, Bool, true, false, List, [], ◌∷◌, ◌++◌, replicate,
  arith, negsuc,
}
use holdex_backend_cqrs.Tables.{OutboxRow}
use holdex_backend_cqrs.World.{World}
use holdex_backend_cqrs.EventStore.Outbox.{
  OutboxPublisher, new_outbox_publisher, pending, publish_batch, start, millisecond,
}
use holdex_backend_cqrs.EventStore.Outbox.Batch.{payloads, IsSettled, publish_batch-IsSettled}
use holdex_backend_cqrs.EventStore.Outbox.Drain.{unlocked, start_drains}
use holdex_backend_cqrs.EventStore.Outbox.Delivery.{IsCarried, start-IsCarried}
use holdex_backend_cqrs.Domain.Market.{
  payload_of, marshal_payload, unmarshal_payload, new_new_data_fetched_event,
}
use holdex_backend_cqrs.Domain.{new_base_event}
use holdex_backend_cqrs.EventStore.{serialize_event, deserialize_raw_json}
use holdex_backend_cqrs.EventStore.Subscription.{
  Connection, refused, established, first_backoff, matches, receive, subscribe,
}
use holdex_backend_cqrs.EventStore.Subscription.Delivering.{
  Written, messages, Wants, subscribe-Filtered,
}
use holdex_backend_cqrs.Aggregator.Processor.{command_of}
use holdex_backend_cqrs.Examples.{bitcoin, quote, noon, start_world, two_events, message}

abbrev two_world : World
two_world = record start_world { db = two_events }

-- The second publication fails, and then the commit.
abbrev faulty_publisher : World
faulty_publisher = record two_world {
  faults = false ∷ false ∷ false ∷ false ∷ true ∷ false ∷ true ∷ [];
}

abbrev publisher : OutboxPublisher
publisher = record { poll_interval = 100 * millisecond }

abbrev first_locked : ℕ → Bool
first_locked i = i == 1

abbrev second_entry : OutboxRow
second_entry = record { id = 2; event_id = 2; payload = message 2 }

-- A poll interval that is not positive is replaced.
new_outbox_publisher_default : new_outbox_publisher (negsuc 4) ≡ publisher
unfolding new_outbox_publisher
new_outbox_publisher_default = refl

publish_batch-IsSettled_example :
    (sent : List OutboxRow) × (rest : List OutboxRow) × (sent ++ rest ≡ pending unlocked two_events)
    × ((publish_batch unlocked faulty_publisher).1.bus ≡ [] ++ payloads sent)
    × IsSettled sent rest two_events
        (publish_batch unlocked faulty_publisher).0
        (publish_batch unlocked faulty_publisher).1.db
publish_batch-IsSettled_example = publish_batch-IsSettled unlocked faulty_publisher

start-IsCarried_example :
    IsCarried second_entry
      (start publisher
        (unlocked ∷ first_locked ∷ unlocked ∷ [])
        (100 * millisecond)
        faulty_publisher).1
start-IsCarried_example =
    start-IsCarried publisher (unlocked ∷ first_locked ∷ unlocked ∷ []) (100 * millisecond)
      faulty_publisher second_entry (omega arith, (omega arith, tt))
      (inl (Memᴰ.tail (Memᴰ.head refl)))

start_drains_example :
    let w = (start publisher (replicate 1 unlocked) (100 * millisecond) two_world).1 in
    (w.db.outbox ≡ []) × (w.bus ≡ [] ++ message 1 ∷ message 2 ∷ [])
start_drains_example =
    start_drains publisher 1 (100 * millisecond) two_world refl (omega arith, (omega arith, tt))
      (omega arith)

-- Two refused connections, and two that deliver a message each.
abbrev connections : List Connection
connections = refused ∷ established (message 1 ∷ []) ∷ refused ∷ established (message 2 ∷ []) ∷ []

made :
    (version : ℕ)
    → new_new_data_fetched_event "bitcoin" version (payload_of (command_of bitcoin)) noon
      ≡ some (quote version)
unfolding new_new_data_fetched_event marshal_payload new_base_event
made version = refl

written : (version : ℕ) → serialize_event (quote version) ≡ some (message version)
unfolding serialize_event
written version = refl

both-Written : Written (quote 1 ∷ quote 2 ∷ []) (messages connections)
both-Written = (
  ("bitcoin", 1, payload_of (command_of bitcoin), noon, made 1, written 1),
  (("bitcoin", 2, payload_of (command_of bitcoin), noon, made 2, written 2), tt),
)

subscribe-Filtered_example :
    Filtered
      (Wants ("NewDataFetched" ∷ []))
      (quote 1 ∷ quote 2 ∷ [])
      (subscribe ("NewDataFetched" ∷ []) connections first_backoff).0
subscribe-Filtered_example =
    subscribe-Filtered ("NewDataFetched" ∷ []) connections first_backoff (quote 1 ∷ quote 2 ∷ [])
      both-Written

-- A subscriber that names another type receives neither of them, and one that names none both.
other_type :
    ((subscribe ("PriceCorrected" ∷ []) connections first_backoff).0 ≡ [])
    × ((subscribe [] connections first_backoff).0 ≡ quote 1 ∷ quote 2 ∷ [])
unfolding subscribe receive matches deserialize_raw_json unmarshal_payload
other_type = (refl, refl)
