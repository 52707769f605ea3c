-- ===== src/Aggregator/Processor/Success.antt =====
-- Where no call fails, a valid record is recorded, and the next read returns it.
use holdex_backend_cqrs.Prelude.{
  ℕ, suc, ◌+◌, ◌≡◌, refl, ap, subst, ◌∙◌, true, false, Option, some, [], ◌∷◌, inl, inr, pos,
  Option-cases, arith, str_eq,
}
use holdex_backend_cqrs.Result.{ok}
use holdex_backend_cqrs.Json.{Json, is_negative, is_json_time}
use holdex_backend_cqrs.Domain.{BaseEvent, new_base_event}
use holdex_backend_cqrs.Domain.Market.{
  Event, market_event, NewDataFetchedPayload, FetchMarketDataCommand, MarketAggregate, payload_of,
  fetch, marshal_payload, new_new_data_fetched_event, new_data_fetched_event, handle_command, apply,
}
use holdex_backend_cqrs.Tables.{Columns, rows_of, max_version, latest_row}
use holdex_backend_cqrs.World.{World, Exec, lift, continue}
use holdex_backend_cqrs.World.Bind.{bind_of_ok}
use holdex_backend_cqrs.EventStore.{serialize_event, append_events}
use holdex_backend_cqrs.EventStore.Codec.{new_event_of_marshal}
use holdex_backend_cqrs.EventStore.Append.{with_event, append_events_succeeds}
use holdex_backend_cqrs.EventStore.Numbering.{has_version-suc_max}
use holdex_backend_cqrs.EventStore.Reading.{LatestOf, get_latest_event_fault_free}
use holdex_backend_cqrs.Aggregator.Coingecko.{MarketData}
use holdex_backend_cqrs.Aggregator.Processor.{hydrate, command_of, save, process_market_data}
use holdex_backend_cqrs.Aggregator.Processor.Recording.{
  recorded, event_of, finish, save-event_of, hydrate-fields, version_of-latest_row,
}
use holdex_backend_cqrs.Aggregator.Processor.Log.{IsMarketLog, LatestOf-IsMarketLog}

serialize_of_json_time :
    (b : BaseEvent) (p : NewDataFetchedPayload)
    → is_json_time b.time ≡ true
    → (k : Json) × (serialize_event (market_event b p) ≡ some k)
unfolding serialize_event
serialize_of_json_time b p h = elim (Option-cases (serialize_event (market_event b p))) [
  | inl x ↦ absurd (ground arith)
  | inr (k, x) ↦ (k, x)
]

handle_command_of :
    (a : MarketAggregate) (c : FetchMarketDataCommand) (now : ℕ) {e : Event}
    → str_eq c.coin_id "" ≡ false
    → is_negative c.current_price ≡ false
    → new_new_data_fetched_event c.coin_id (a.vers + 1) (payload_of c) now ≡ some e
    → handle_command a (fetch c) now ≡ ok e
unfolding handle_command
handle_command_of a c now named positive made = ground arith

module _ (pg : Columns) (now : ℕ) (d : MarketData) where
  finish_of :
      (latest : Option Event) (w : World) {e : Event}
      → LatestOf d.id (latest_row (rows_of d.id w.db.events)) latest
      → str_eq d.id "" ≡ false
      → is_negative d.current_price ≡ false
      → event_of d (suc (max_version (rows_of d.id w.db.events))) now ≡ some e
      → finish pg now d latest w
        ≡ append_events pg d.id (pos (max_version (rows_of d.id w.db.events))) (e ∷ []) w
  finish_of latest w {e = e} read named positive made =
      let a = hydrate d.id latest in
      let rows = rows_of d.id w.db.events in
      let (vers, is_id, empty) = hydrate-fields d.id (latest_row rows) latest read in
      let at_max : suc (max_version rows) ≡ a.vers + 1 =
        omega (arith, vers, version_of-latest_row rows) in
      let handled =
        handle_command_of a (command_of d) now named positive
          (subst (λ v. event_of d v now ≡ some e) at_max made) in
      bind_of_ok (lift (handle_command a (fetch (command_of d)) now))
        (λ event. save pg (apply a event true)) w handled
      ∙ ap (λ (m : Exec (Unit {0})). m w)
          (save-event_of pg now d a (max_version rows) empty is_id made)

  -- Where the log is numbered and readable and no call fails, a record with an id, no negative
  -- price, finite numbers and times that JSON can write becomes the next event of its coin, with
  -- its outbox entry, and nothing else changes.
  pub process_market_data_succeeds :
      (w : World) (j : Json)
      → IsMarketLog w.db.events
      → w.faults ≡ []
      → str_eq d.id "" ≡ false
      → is_negative d.current_price ≡ false
      → marshal_payload (recorded d) ≡ some j
      → is_json_time now ≡ true
      → (e : Event) × (k : Json) × (event_of d (suc (max_version (rows_of d.id w.db.events))) now
          ≡ some e)
        × (serialize_event e ≡ some k)
        × (process_market_data pg now d w ≡ (ok tt, record w { db = with_event pg e k w.db }))
  unfolding process_market_data new_base_event
  process_market_data_succeeds w j h none_left named positive encoded in_time =
      let n = max_version (rows_of d.id w.db.events) in
      let (latest, read) = LatestOf-IsMarketLog d.id w.db.events h in
      let b = new_base_event d.id "Market" new_data_fetched_event (suc n) j now in
      let p = recorded d in
      let (k, serialized) = serialize_of_json_time b p in_time in
      let made = new_event_of_marshal d.id (suc n) p now encoded in
      let reads = get_latest_event_fault_free d.id w latest none_left read in
      (
        market_event b p,
        k,
        made,
        serialized,
        ap (λ r. continue (finish pg now d) r.0 r.1) reads
            ∙ finish_of latest w read named positive made
            ∙ append_events_succeeds pg d.id (pos n) (market_event b p) [] w _ none_left refl
                (k, serialized, has_version-suc_max d.id w.db.events h.numbered, refl),
      )
