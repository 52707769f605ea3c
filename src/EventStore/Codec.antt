-- ===== src/EventStore/Codec.antt =====
-- The documents that store.go and events.go write are read back unchanged.
use holdex_backend_cqrs.Prelude.{ℕ, String, ◌≡◌, some, arith, ◌∙◌, sym, inl, inr, Option-cases}
use holdex_backend_cqrs.Json.{Json}
use holdex_backend_cqrs.Domain.{new_base_event}
use holdex_backend_cqrs.Domain.Market.{
  NewDataFetchedPayload, Event, marshal_payload, unmarshal_payload, new_new_data_fetched_event,
  base, market_event, new_data_fetched_event,
}
use holdex_backend_cqrs.Tables.{Columns}
use holdex_backend_cqrs.EventStore.{
  serialize_event, deserialize_event, deserialize_raw_json, event_row, load_row,
}

-- A payload that json.Marshal accepts is read back as it was.
pub unmarshal-marshal :
    (p : NewDataFetchedPayload) {j : Json}
    → marshal_payload p ≡ some j
    → unmarshal_payload j ≡ some p
unfolding marshal_payload unmarshal_payload
unmarshal-marshal p h = ground arith

-- The event behind an outbox message is the one that `deserializeEvent` makes of its columns.
pub deserialize-serialize :
    (e : Event) {j : Json}
    → serialize_event e ≡ some j
    → deserialize_raw_json j
      ≡ deserialize_event (base e).type (base e).agg_id (base e).vers (base e).time (base e).payload
unfolding serialize_event deserialize_raw_json
deserialize-serialize e h = ground arith

-- What a successful `NewNewDataFetchedEvent` has made.
pub new_event-eq_some :
    (coin_id : String) (version : ℕ) (p : NewDataFetchedPayload) (now : ℕ) {e : Event}
    → new_new_data_fetched_event coin_id version p now ≡ some e
    → (j : Json) × (marshal_payload p ≡ some j)
      × (e ≡ market_event (new_base_event coin_id "Market" new_data_fetched_event version j now) p)
unfolding new_new_data_fetched_event
new_event-eq_some coin_id version p now h = elim (Option-cases (marshal_payload p)) [
  | inl x ↦ absurd (ground arith)
  | inr (j, x) ↦ (j, x, ground arith)
]

-- It succeeds for every payload that has a document.
pub new_event_of_marshal :
    (coin_id : String) (version : ℕ) (p : NewDataFetchedPayload) (now : ℕ) {j : Json}
    → marshal_payload p ≡ some j
    → new_new_data_fetched_event coin_id version p now
      ≡ some (market_event (new_base_event coin_id "Market" new_data_fetched_event version j now) p)
unfolding new_new_data_fetched_event
new_event_of_marshal coin_id version p now h = rw (h, new_new_data_fetched_event)

-- A row of this program's one event type is read back by its payload alone.
deserialize_market :
    (agg_id : String) (version time : ℕ) (p : NewDataFetchedPayload) {j : Json}
    → marshal_payload p ≡ some j
    → deserialize_event new_data_fetched_event agg_id version time j
      ≡ some (market_event (new_base_event agg_id "Market" new_data_fetched_event version j time) p)
unfolding deserialize_event new_base_event
deserialize_market agg_id version time p h = rw (unmarshal-marshal p h)

module _ (coin_id : String) (version : ℕ) (p : NewDataFetchedPayload) (now : ℕ) {e : Event}
    (made : new_new_data_fetched_event coin_id version p now ≡ some e) where
  -- An event that NewNewDataFetchedEvent makes is read back by deserializeRawJSON as it was from
  -- the document that serializeEvent writes.
  pub deserialize-serialize_event :
      {j : Json} → serialize_event e ≡ some j → deserialize_raw_json j ≡ some e
  deserialize-serialize_event h =
      let (d, encoded, is_market) = new_event-eq_some coin_id version p now made in
      deserialize-serialize e h
      ∙ (rw is_market (unfold new_base_event in deserialize_market coin_id version now p encoded))

  -- The row that is written for an event of NewNewDataFetchedEvent is read back as the event,
  -- with the time that the column keeps.
  pub load_row-event_row :
      (pg : Columns) (id : ℕ)
      → load_row coin_id (event_row pg id e)
        ≡ new_new_data_fetched_event coin_id version p (pg.timestamptz now)
  load_row-event_row pg id =
      let (d, encoded, is_market) = new_event-eq_some coin_id version p now made in
      rw is_market (
        unfold new_base_event load_row in
        deserialize_market coin_id version (pg.timestamptz now) p encoded)
      ∙ sym (new_event_of_marshal coin_id version p (pg.timestamptz now) encoded)
