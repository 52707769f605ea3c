-- ===== src/Aggregator/Processor/Hydration.antt =====
-- Hydrating from the latest event alone, against replaying all events of the aggregate.
use holdex_backend_cqrs.Prelude.{
  String, ◌≡◌, refl, sym, ◌∙◌, ap, true, false, Option, some, List, [], ◌∷◌, inl, inr, Option-cases,
  last?, arith, str_eq,
}
use holdex_backend_cqrs.Domain.{BaseEvent}
use holdex_backend_cqrs.Domain.Market.{
  Event, base_event, market_event, NewDataFetchedPayload, MarketAggregate, new_market_aggregate,
  apply, new_data_fetched_event, unmarshal_payload,
}
use holdex_backend_cqrs.Tables.{EventRow, rows_of}
use holdex_backend_cqrs.World.{World}
use holdex_backend_cqrs.Result.{ok}
use holdex_backend_cqrs.EventStore.{load_row, load_rows, load_events, get_latest_event}
use holdex_backend_cqrs.EventStore.Reading.{
  LatestOf, LatestOf-some, load_events-eq_ok, get_latest_event-eq_ok,
}
use holdex_backend_cqrs.EventStore.Numbering.{IsNumbered, order_by-Numbered, latest_row-Numbered}
use holdex_backend_cqrs.Aggregator.Processor.{hydrate}

-- Replaying: every event applied in order.
abbrev pub replay : MarketAggregate → List Event → MarketAggregate
replay a [] = a
replay a (e ∷ es) = replay (apply a e false) es

-- A `NewDataFetched` event overwrites whatever another event has left in the aggregate.
apply-apply :
    (a : MarketAggregate) (f : Event) (b : BaseEvent) (p : NewDataFetchedPayload)
    → str_eq b.type new_data_fetched_event ≡ true
    → apply (apply a f false) (market_event b p) false ≡ apply a (market_event b p) false
unfolding apply
apply-apply a (base_event c) b p h = ground arith
apply-apply a (market_event c q) b p h = ground arith

-- Every event that the store reads back is of that kind.
load_row-eq_some :
    (agg_id : String) (r : EventRow) {e : Event}
    → load_row agg_id r ≡ some e
    → (b : BaseEvent) × (p : NewDataFetchedPayload) × (e ≡ market_event b p)
      × (str_eq b.type new_data_fetched_event ≡ true)
unfolding load_row
load_row-eq_some agg_id r h = elim (Option-cases (unmarshal_payload r.data_column)) [
  | inl x ↦ absurd (ground arith)
  | inr (p, x) ↦ (
    record {
      type = r.event_type;
      agg_id = agg_id;
      agg_type = "Market";
      vers = r.version;
      time = r.created_at;
      payload = r.data_column;
    },
    p,
    ground arith,
    ground arith,
  )
]

apply-load_row :
    (a : MarketAggregate) (f : Event) (agg_id : String) (r : EventRow) {e : Event}
    → load_row agg_id r ≡ some e
    → apply (apply a f false) e false ≡ apply a e false
apply-load_row a f agg_id r h =
    let (b, p, is_market, is_fetched) = load_row-eq_some agg_id r h in
    rw is_market (apply-apply a f b p is_fetched)

load_rows-cons :
    (agg_id : String) (r : EventRow) (rs : List EventRow) {es : List Event}
    → load_rows agg_id (r ∷ rs) ≡ some es
    → (e : Event) × (es' : List Event) × (load_row agg_id r ≡ some e)
      × (load_rows agg_id rs ≡ some es')
      × (es ≡ e ∷ es')
unfolding load_rows
load_rows-cons agg_id r rs h = elim (Option-cases (load_row agg_id r)) [
  | inl x ↦ absurd (ground arith)
  | inr (e, x) ↦ elim (Option-cases (load_rows agg_id rs)) [
    | inl y ↦ absurd (ground arith)
    | inr (es', y) ↦ (e, es', x, y, ground arith)
  ]
]

load_rows-nil : (agg_id : String) {es : List Event} → load_rows agg_id [] ≡ some es → es ≡ []
unfolding load_rows
load_rows-nil agg_id h = ground arith

-- Replaying loaded events is applying the last of them.
replay-load_rows :
    (a : MarketAggregate) (agg_id : String) (r : EventRow) (rs : List EventRow) {es : List Event}
    → load_rows agg_id (r ∷ rs) ≡ some es
    → (t : EventRow) × (e : Event) × (last? (r ∷ rs) ≡ some t)
      × (load_row agg_id t ≡ some e)
      × (replay a es ≡ apply a e false)
replay-load_rows a agg_id r [] h =
    let (e, es', x, y, z) = load_rows-cons agg_id r [] h in
    (r, e, refl, x, ap (replay a) (z ∙ ap (λ fs. e ∷ fs) (load_rows-nil agg_id y)))
replay-load_rows a agg_id r (s ∷ rs) h =
    let (e, es', x, y, z) = load_rows-cons agg_id r (s ∷ rs) h in
    let (t, e', is_last, loads, same) = replay-load_rows (apply a e false) agg_id s rs y in
    (t, e', is_last, loads, ap (replay a) z ∙ (same ∙ apply-load_row a e agg_id t loads))

hydrate-rows :
    (agg_id : String) (rows : List EventRow) {es : List Event} (latest : Option Event)
    → load_rows agg_id rows ≡ some es
    → LatestOf agg_id (last? rows) latest
    → hydrate agg_id latest ≡ replay (new_market_aggregate agg_id) es
unfolding hydrate
hydrate-rows agg_id [] latest loaded h = rw (load_rows-nil agg_id loaded, h)
hydrate-rows agg_id (r ∷ rs) latest loaded h =
    let (t, e, is_last, loads, same) =
      replay-load_rows (new_market_aggregate agg_id) agg_id r rs loaded in
    rw (LatestOf-some agg_id (last? (r ∷ rs)) t h is_last loads) (sym same)

-- What the processor hydrates from the latest event is what replaying all events of the coin gives:
-- where both reads succeed and the coin's versions are numbered, the two aggregates are equal.
pub hydrate-eq-replay :
    (agg_id : String) (w : World) {es : List Event} {latest : Option Event}
    → IsNumbered w.db.events
    → (load_events agg_id w).0 ≡ ok es
    → (get_latest_event agg_id w).0 ≡ ok latest
    → hydrate agg_id latest ≡ replay (new_market_aggregate agg_id) es
hydrate-eq-replay agg_id w {latest = latest} numbered loaded read =
    let rows = rows_of agg_id w.db.events in
    hydrate-rows agg_id rows latest
      (rw (order_by-Numbered rows (numbered agg_id)) at (load_events-eq_ok agg_id w loaded))
      (rw (latest_row-Numbered 0 rows (numbered agg_id)) at (get_latest_event-eq_ok agg_id w read))
