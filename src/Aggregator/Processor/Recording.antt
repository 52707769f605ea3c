-- ===== src/Aggregator/Processor/Recording.antt =====
-- One run of ProcessMarketData: what it adds, and that a failing run adds nothing.
use holdex_backend_cqrs.Prelude.{
  ℕ, suc, ◌+◌, String, ◌≡◌, refl, sym, ap, subst, ◌∙◌, true, false, Option, none, some, List, [],
  ◌∷◌, inl, inr, pos, Bool-cases, arith, str_eq, minus_one,
}
use holdex_backend_cqrs.Result.{Error, ok, err}
use holdex_backend_cqrs.Json.{is_negative}
use holdex_backend_cqrs.Domain.{BaseEvent, new_base_event}
use holdex_backend_cqrs.Domain.Market.{
  Event, base, market_event, base_event, NewDataFetchedPayload, payload_of, fetch, MarketAggregate,
  new_market_aggregate, FetchMarketDataCommand, new_new_data_fetched_event, new_data_fetched_event,
  handle_command, apply,
}
use holdex_backend_cqrs.Tables.{Columns, EventRow, rows_of, max_version, latest_row}
use holdex_backend_cqrs.World.{World, Exec, ◌>>=◌, lift, rollback}
use holdex_backend_cqrs.World.Bind.{Result-cases, bind-eq_ok, bind_of_ok, bind_of_err}
use holdex_backend_cqrs.EventStore.{load_row, get_latest_event, append_events}
use holdex_backend_cqrs.EventStore.Codec.{new_event-eq_some}
use holdex_backend_cqrs.EventStore.Append.{Inserts, append_events-Inserts, append_events_atomic}
use holdex_backend_cqrs.EventStore.Reading.{
  LatestOf, get_latest_event-eq_ok, get_latest_event-frame,
}
use holdex_backend_cqrs.Aggregator.Coingecko.{MarketData}
use holdex_backend_cqrs.Aggregator.Processor.{hydrate, command_of, save, process_market_data}

-- The version that a latest row stands for.
abbrev pub version_of : Option EventRow → ℕ
version_of none = 0
version_of (some r) = r.version

pub version_of-latest_row : (rows : List EventRow) → version_of (latest_row rows) ≡ max_version rows
version_of-latest_row [] = refl
version_of-latest_row (r ∷ rs) = ground (arith, version_of-latest_row rs)

vers-load_row :
    (agg_id : String) (r : EventRow) {e : Event}
    → load_row agg_id r ≡ some e
    → (base e).vers ≡ r.version
unfolding load_row
vers-load_row agg_id r h = ground arith

-- A hydrated aggregate is a fresh one of its coin at the version of the latest row.
pub hydrate-fields :
    (agg_id : String) (row : Option EventRow) (latest : Option Event)
    → LatestOf agg_id row latest
    → ((hydrate agg_id latest).vers ≡ version_of row)
      × ((hydrate agg_id latest).id_str ≡ agg_id)
      × ((hydrate agg_id latest).uncommitted_events ≡ [])
unfolding hydrate new_market_aggregate apply
hydrate-fields agg_id none latest h = ground arith
hydrate-fields agg_id (some r) none (e, loads, is_e) = absurd (ground arith)
hydrate-fields agg_id (some r) (some (base_event b)) (e, loads, is_e) =
    ground (arith, vers-load_row agg_id r loads)
hydrate-fields agg_id (some r) (some (market_event b p)) (e, loads, is_e) =
    ground (arith, vers-load_row agg_id r loads)

-- The two checks of the command have passed, and an event is made of the next version.
handle_command-eq_ok :
    (a : MarketAggregate) (c : FetchMarketDataCommand) (now : ℕ) {e : Event}
    → handle_command a (fetch c) now ≡ ok e
    → (str_eq c.coin_id "" ≡ false)
      × (is_negative c.current_price ≡ false)
      × (new_new_data_fetched_event c.coin_id (a.vers + 1) (payload_of c) now ≡ some e)
unfolding handle_command
handle_command-eq_ok a c now h = ground arith

-- Saving after an applied event is an append of that event behind the version before it.
save-apply :
    (pg : Columns) (a : MarketAggregate) (b : BaseEvent) (p : NewDataFetchedPayload)
    → a.uncommitted_events ≡ []
    → save pg (apply a (market_event b p) true)
      ≡ append_events pg a.id_str (minus_one b.vers) (market_event b p ∷ [])
unfolding save apply
save-apply pg a b p h = elim (Bool-cases (str_eq b.type new_data_fetched_event)) [
  | inl x ↦ rw (x, h)
  | inr x ↦ rw (x, h)
]

-- The payload that a record is meant to become.
abbrev pub recorded : MarketData → NewDataFetchedPayload
recorded d = record {
  coin_id = d.id;
  symbol = d.symbol;
  name = d.name;
  current_price = d.current_price;
  market_cap = d.market_cap;
  volume_24h = d.total_volume;
  price_change_24h = d.price_change_24h;
  last_updated = d.last_updated;
}

-- The event of a record with a version.
abbrev pub event_of : MarketData → ℕ → ℕ → Option Event
event_of d version now = new_new_data_fetched_event d.id version (recorded d) now

module _ (pg : Columns) (now : ℕ) (d : MarketData) where
  abbrev pub finish : Option Event → Exec (Unit {0})
  finish latest =
      lift (handle_command (hydrate d.id latest) (fetch (command_of d)) now) >>= λ event.
      save pg (apply (hydrate d.id latest) event true)

  pub save-event_of :
      (a : MarketAggregate) (n : ℕ) {e : Event}
      → a.uncommitted_events ≡ []
      → a.id_str ≡ d.id
      → event_of d (suc n) now ≡ some e
      → save pg (apply a e true) ≡ append_events pg d.id (pos n) (e ∷ [])
  save-event_of a n empty is_id made =
      let (j, encoded, is_market) = new_event-eq_some d.id (suc n) (recorded d) now made in
      rw is_market (save-apply pg a _ _ empty ∙ (rw is_id (unfold new_base_event in refl)))

  finish-eq_ok :
      (latest : Option Event) (w : World)
      → LatestOf d.id (latest_row (rows_of d.id w.db.events)) latest
      → (finish latest w).0 ≡ ok tt
      → (e : Event) × (event_of d (suc (max_version (rows_of d.id w.db.events))) now ≡ some e)
        × (finish latest w
            ≡ append_events pg d.id (pos (max_version (rows_of d.id w.db.events))) (e ∷ []) w)
  finish-eq_ok latest w read h =
      let a = hydrate d.id latest in
      let row = latest_row (rows_of d.id w.db.events) in
      let (e, h1, h2, q) =
        bind-eq_ok (lift (handle_command a (fetch (command_of d)) now))
          (λ event. save pg (apply a event true)) w h in
      let (named, positive, made) = handle_command-eq_ok a (command_of d) now h1 in
      let (vers, is_id, empty) = hydrate-fields d.id row latest read in
      let at_max : a.vers + 1 ≡ suc (max_version (rows_of d.id w.db.events)) =
        omega (arith, vers, version_of-latest_row (rows_of d.id w.db.events)) in
      let made' = subst (λ v. event_of d v now ≡ some e) at_max made in
      (e, made', q ∙ ap (λ (m : Exec (Unit {0})). m w) (save-event_of a _ empty is_id made'))

  -- A run that succeeds has added one event, made of the record at the version after the coin's
  -- current one, with its outbox entry, and nothing else.
  pub process_market_data-Inserts :
      (w : World)
      → (process_market_data pg now d w).0 ≡ ok tt
      → (e : Event) × (event_of d (suc (max_version (rows_of d.id w.db.events))) now ≡ some e)
        × Inserts pg (e ∷ []) w.db (process_market_data pg now d w).1.db
  unfolding process_market_data
  process_market_data-Inserts w h =
      let (latest, h1, h2, q1) = bind-eq_ok (get_latest_event d.id) finish w h in
      let w' = (get_latest_event d.id w).1 in
      let same_db : w'.db ≡ w.db = ap (λ (v : World). v.db) (get_latest_event-frame d.id w) in
      let read = get_latest_event-eq_ok d.id w h1 in
      let (e, made, q2) =
        finish-eq_ok latest w'
          (subst (λ db. LatestOf d.id (latest_row (rows_of d.id db.events)) latest) (sym same_db)
            read)
          h2 in
      let n = max_version (rows_of d.id w'.db.events) in
      let (accepted, inserted) =
        append_events-Inserts pg d.id (pos n) e [] w' (subst (λ r. r.0 ≡ ok tt) q2 h2) in
      (
        e,
        subst (λ db. event_of d (suc (max_version (rows_of d.id db.events))) now ≡ some e) same_db
            made,
        subst (λ db. Inserts pg (e ∷ []) db (process_market_data pg now d w).1.db) same_db
            (subst (λ r. Inserts pg (e ∷ []) w'.db r.1.db) (sym (q1 ∙ q2)) inserted),
      )

  finish-eq_err :
      (latest : Option Event) (w : World) {x : Error}
      → (finish latest w).0 ≡ err x
      → (finish latest w).1.db ≡ rollback w.db (finish latest w).1.db
  unfolding save
  finish-eq_err latest w h =
      elim (Result-cases (handle_command (hydrate d.id latest) (fetch (command_of d)) now)) [
        | inl (e, r) ↦ rw r (append_events_atomic pg _ _ _ w (rw r at h))
        | inr (x, r) ↦ rw r
      ]

  -- A run that fails, whatever the error, leaves every table as it was: only the ids that it
  -- drew are used up.
  pub process_market_data_atomic :
      (w : World) {x : Error}
      → (process_market_data pg now d w).0 ≡ err x
      → (process_market_data pg now d w).1.db ≡ rollback w.db (process_market_data pg now d w).1.db
  unfolding process_market_data
  process_market_data_atomic w {x = x} h =
      let w' = (get_latest_event d.id w).1 in
      let same_db : w'.db ≡ w.db = ap (λ (v : World). v.db) (get_latest_event-frame d.id w) in
      elim (Result-cases (get_latest_event d.id w).0) [
        | inl (latest, r) ↦
            let q = bind_of_ok (get_latest_event d.id) finish w r in
            subst
              (λ db.
                (process_market_data pg now d w).1.db
                ≡ rollback db (process_market_data pg now d w).1.db)
              same_db
              (subst (λ p. p.1.db ≡ rollback w'.db p.1.db) (sym q)
                (finish-eq_err latest w' (subst (λ p. p.0 ≡ err x) q h)))
        | inr (e, r) ↦
            subst (λ p. p.1.db ≡ rollback w.db p.1.db)
              (sym (bind_of_err (get_latest_event d.id) finish w r))
              (subst (λ db. db ≡ rollback w.db db) (sym same_db) refl)
      ]
