-- ===== src/Aggregator/Processor/Log.antt =====
-- The events that any sequence of runs of ProcessMarketData leaves: numbered for each coin, and
-- all readable.
use holdex_backend_cqrs.Prelude.{
  ℕ, String, ◌≡◌, refl, sym, ap, subst, ◌∙◌, Option, none, some, List, [], ◌∷◌, ◌⊎◌, inl, inr, All,
  All-append, str_eq, eq_iff, Bool-cases, last?,
}
use holdex_backend_cqrs.Domain.{new_base_event}
use holdex_backend_cqrs.Domain.Market.{Event, base, market_event, new_data_fetched_event}
use holdex_backend_cqrs.Tables.{Columns, EventRow, Db, rows_of, latest_row}
use holdex_backend_cqrs.World.{World}
use holdex_backend_cqrs.World.Bind.{Result-cases}
use holdex_backend_cqrs.EventStore.{load_row, event_row}
use holdex_backend_cqrs.EventStore.Codec.{
  new_event-eq_some, new_event_of_marshal, load_row-event_row,
}
use holdex_backend_cqrs.EventStore.Reading.{LatestOf}
use holdex_backend_cqrs.EventStore.Numbering.{IsNumbered, latest_row-Numbered, Inserts-IsNumbered}
use holdex_backend_cqrs.Aggregator.Coingecko.{MarketData}
use holdex_backend_cqrs.Aggregator.Processor.{process_market_data}
use holdex_backend_cqrs.Aggregator.Processor.Recording.{
  recorded, event_of, process_market_data-Inserts, process_market_data_atomic,
}

abbrev pub IsReadable : EventRow → Type 0
IsReadable r = (e : Event) × (load_row r.aggregate_id r ≡ some e)

pub record IsMarketLog (rows : List EventRow) : Type 0 where
  pub numbered : IsNumbered rows
  pub readable : All IsReadable rows

-- What `event_of` makes has the coin's id and the given version, and its row can be read.
event_of_fields :
    (d : MarketData) (n now : ℕ) {e : Event}
    → event_of d n now ≡ some e
    → ((base e).agg_id ≡ d.id) × ((base e).vers ≡ n)
unfolding new_base_event
event_of_fields d n now h =
    let (j, encoded, is_market) = new_event-eq_some d.id n (recorded d) now h in
    rw is_market (refl, refl)

event_of-IsReadable :
    (pg : Columns) (d : MarketData) (n now id : ℕ) {e : Event}
    → event_of d n now ≡ some e
    → IsReadable (event_row pg id e)
event_of-IsReadable pg d n now id {e = e} h =
    let p = recorded d in
    let (j, encoded, is_market) = new_event-eq_some d.id n p now h in
    let stored =
      market_event (new_base_event d.id "Market" new_data_fetched_event n j (pg.timestamptz now))
        p in
    let read =
      load_row-event_row d.id n p now h pg id
      ∙ new_event_of_marshal d.id n p (pg.timestamptz now) encoded in
    (
      stored,
      subst (λ a. load_row a (event_row pg id e) ≡ some stored) (sym (event_of_fields d n now h).0)
          read,
    )

-- Whatever fails in a run, the log stays numbered for each coin, and readable.
pub process_market_data-IsMarketLog :
    (pg : Columns) (now : ℕ) (d : MarketData) (w : World)
    → IsMarketLog w.db.events
    → IsMarketLog (process_market_data pg now d w).1.db.events
process_market_data-IsMarketLog pg now d w h =
    elim (Result-cases (process_market_data pg now d w).0) [
      | inl (u, r) ↦
          let (e, made, inserted) = process_market_data-Inserts pg now d w r in
          let (j, serialized, fresh, is_after) = inserted in
          let (is_agg, is_next) = event_of_fields d _ now made in
          record {
            numbered =
                Inserts-IsNumbered pg d.id (e ∷ []) w.db _ h.numbered (is_agg, is_next, tt)
                  inserted;
            readable =
                subst (λ (db : Db). All IsReadable db.events) (sym is_after)
                  (All-append IsReadable w.db.events (event_row pg w.db.next_event_id e ∷ [])
                    h.readable (event_of-IsReadable pg d _ now w.db.next_event_id made, tt));
          }
      | inr (x, r) ↦
          subst (λ rows. IsMarketLog rows)
            (sym (ap (λ (db : Db). db.events) (process_market_data_atomic pg now d w r))) h
    ]

-- A sequence of runs, each with its time and its record; a failed run is logged and passed over.
abbrev pub process_all : Columns → List (ℕ × MarketData) → World → World
process_all pg [] w = w
process_all pg ((now, d) ∷ ds) w = process_all pg ds (process_market_data pg now d w).1

-- From a log that is numbered for each coin and readable, such as the empty one, any runs with
-- any faults leave a log that is numbered and readable.
pub process_all-IsMarketLog :
    (pg : Columns) (ds : List (ℕ × MarketData)) (w : World)
    → IsMarketLog w.db.events
    → IsMarketLog (process_all pg ds w).db.events
process_all-IsMarketLog pg [] w h = h
process_all-IsMarketLog pg ((now, d) ∷ ds) w h =
    process_all-IsMarketLog pg ds (process_market_data pg now d w).1
      (process_market_data-IsMarketLog pg now d w h)

select-All :
    (agg_id : String) (rows : List EventRow)
    → All IsReadable rows
    → All (λ r. (e : Event) × (load_row agg_id r ≡ some e)) (rows_of agg_id rows)
select-All agg_id [] h = tt
select-All agg_id (r ∷ rs) ((e, loads), hs) = elim (Bool-cases (str_eq r.aggregate_id agg_id)) [
  | inl y ↦ rw y (
    (e, subst (λ a. load_row a r ≡ some e) ((eq_iff r.aggregate_id agg_id).0 y) loads),
    select-All agg_id rs hs,
  )
  | inr n ↦ rw n (select-All agg_id rs hs)
]

All-last? :
    {P : EventRow → Type 0} (rows : List EventRow)
    → All P rows
    → (last? rows ≡ none) ⊎ ((r : EventRow) × (last? rows ≡ some r) × P r)
All-last? [] h = inl refl
All-last? (r ∷ []) h = inr (r, refl, h.0)
All-last? (r ∷ s ∷ rs) h = All-last? (s ∷ rs) h.1

-- The latest event of a coin can always be read back from such a log.
pub LatestOf-IsMarketLog :
    (agg_id : String) (rows : List EventRow)
    → IsMarketLog rows
    → (latest : Option Event) × LatestOf agg_id (latest_row (rows_of agg_id rows)) latest
LatestOf-IsMarketLog agg_id rows h =
    rw (latest_row-Numbered 0 (rows_of agg_id rows) (h.numbered agg_id))
      (elim (All-last? (rows_of agg_id rows) (select-All agg_id rows h.readable)) [
        | inl x ↦ (none, rw x refl)
        | inr (r, x, (e, loads)) ↦ (some e, rw x (e, loads, refl))
      ])
