-- ===== src/Projection/Projector/Advancing.antt =====
-- A round of `Start` in projector.go that finds one new event, where no call fails.
use holdex_backend_cqrs.Prelude.{
  ℕ, suc, String, ◌≤◌, ◌<◌, ◌≡◌, refl, ap, ◌∙◌, inl, inr, Bool-cases, Option-cases, some, List, [],
  ◌∷◌, ◌++◌, All, arith, ltb, select,
}
use holdex_backend_cqrs.Result.{ok, query_failed, iteration_failed, checkpoint_failed}
use holdex_backend_cqrs.Json.{Json}
use holdex_backend_cqrs.Domain.{BaseEvent, new_base_event}
use holdex_backend_cqrs.Domain.Market.{
  Event, market_event, NewDataFetchedPayload, marshal_payload, new_data_fetched_event,
}
use holdex_backend_cqrs.Tables.{Columns, EventRow, SummaryRow, Db}
use holdex_backend_cqrs.World.{World}
use holdex_backend_cqrs.World.Bind.{attempt_fault_free}
use holdex_backend_cqrs.EventStore.{event_row}
use holdex_backend_cqrs.EventStore.Codec.{unmarshal-marshal}
use holdex_backend_cqrs.Projection.ReadModel.{
  summary_row, new_events, get_new_events, update_last_event_id, save_checkpoint,
  update_market_summary, add_price_history,
}
use holdex_backend_cqrs.Projection.Projector.{
  deserialize_event, summary_of, project, invalidate, project_batch, save_progress, interval_after,
  handle_records, round, Loop, poll_interval,
}
use holdex_backend_cqrs.Projection.Projector.Batch.{project_batch-ok}

-- The projector reads the row of an event as the event, at the time that the column keeps.
pub deserialize_event-event_row :
    (pg : Columns) (id : ℕ) (coin_id : String) (version now : ℕ) (p : NewDataFetchedPayload)
    {j : Json}
    → marshal_payload p ≡ some j
    → deserialize_event (
        event_row pg id
          (market_event (new_base_event coin_id "Market" new_data_fetched_event version j now) p))
      ≡ some (
          market_event
            (new_base_event coin_id "Market" new_data_fetched_event version j (pg.timestamptz now))
            p)
unfolding deserialize_event new_base_event
deserialize_event-event_row pg id coin_id version now p h = rw (unmarshal-marshal p h)

price-summary_row :
    (pg : Columns) (p : NewDataFetchedPayload) {row : SummaryRow}
    → summary_row pg (summary_of p) ≡ some row
    → (price : ℕ) × (pg.numeric_20_8 p.current_price ≡ some price)
unfolding summary_row
price-summary_row pg p h = elim (Option-cases (pg.numeric_20_8 p.current_price)) [
  | inl x ↦ absurd (ground arith)
  | inr (price, x) ↦ (price, x)
]

-- Where no call fails, a payload that the columns take is projected.
pub project_fault_free :
    (pg : Columns) (b : BaseEvent) (p : NewDataFetchedPayload) (w : World) {row : SummaryRow}
    → w.faults ≡ []
    → summary_row pg (summary_of p) ≡ some row
    → (project pg (market_event b p) w).0 ≡ ok tt
unfolding project
project_fault_free pg b p w none_left is_row =
    let (price, kept) = price-summary_row pg p is_row in ground arith

-- It leaves no fault behind either.
pub project-faults :
    (pg : Columns) (b : BaseEvent) (p : NewDataFetchedPayload) (w : World) {row : SummaryRow}
    → w.faults ≡ []
    → summary_row pg (summary_of p) ≡ some row
    → (project pg (market_event b p) w).1.faults ≡ []
unfolding project update_market_summary add_price_history invalidate
project-faults pg b p w none_left is_row =
    let (price, kept) = price-summary_row pg p is_row in ground arith

-- Behind a last id that no earlier record is past, a new record is the only one.
select-new :
    (last_id : ℕ) (r : EventRow) (rows : List EventRow)
    → All (λ (s : EventRow). s.id ≤ last_id) rows
    → last_id < r.id
    → select (λ (s : EventRow). ltb last_id s.id) (rows ++ r ∷ []) ≡ r ∷ []
select-new last_id r [] old past = ground arith
select-new last_id r (s ∷ rows) (h, old) past = elim (Bool-cases (ltb last_id s.id)) [
  | inl y ↦ absurd (ground arith)
  | inr n ↦ rw n (select-new last_id r rows old past)
]

-- The tables after the checkpoint of the projector was saved.
abbrev pub at_checkpoint : ℕ → World → World
at_checkpoint last_id w = record w {
  db = record w.db { checkpoints = save_checkpoint "portfolio_projector" last_id w.db.checkpoints };
}

pub get_new_events_fault_free :
    (last_id : ℕ) (w : World)
    → w.faults ≡ []
    → get_new_events last_id 100 w ≡ (ok (new_events last_id 100 w.db), w)
unfolding get_new_events
get_new_events_fault_free last_id w none_left =
    attempt_fault_free query_failed _ w none_left
    ∙ attempt_fault_free iteration_failed _ w none_left

pub save_progress_fault_free :
    (last_id n : ℕ) (w : World)
    → w.faults ≡ []
    → save_progress last_id (suc n) w ≡ at_checkpoint last_id w
unfolding save_progress update_last_event_id
save_progress_fault_free last_id n w none_left =
    ap (λ r. r.1) (attempt_fault_free checkpoint_failed _ w none_left)

module _ (pg : Columns) (r : EventRow) (ev : Event) (l : Loop) (w : World)
    (readable : deserialize_event r ≡ some ev) (projected : (project pg ev w).0 ≡ ok tt)
    (none_after : (project pg ev w).1.faults ≡ []) where
  handle_one : handle_records pg (ok (r ∷ [])) l w ≡ (
    record { last_id = r.id; current_interval = poll_interval },
    at_checkpoint r.id (project pg ev w).1,
  )
  unfolding handle_records interval_after
  handle_one = rw (project_batch-ok pg r [] l.last_id 0 w ev readable projected) (
      unfold project_batch in
      rw (save_progress_fault_free r.id 0 (project pg ev w).1 none_after) refl)

  -- A round that finds this record alone projects it and saves its id.
  pub round_of_one :
      new_events l.last_id 100 w.db ≡ r ∷ []
      → w.faults ≡ []
      → round pg l w ≡ (
        record { last_id = r.id; current_interval = poll_interval },
        at_checkpoint r.id (project pg ev w).1,
      )
  unfolding round
  round_of_one only none_left =
      rw (get_new_events_fault_free l.last_id w none_left) (rw only handle_one)

-- The new events behind a last id, after one append to a table of which it has passed every row.
pub new_events-append :
    (last_id : ℕ) (r : EventRow) (rows : List EventRow) (db : Db)
    → All (λ (s : EventRow). s.id ≤ last_id) rows
    → last_id < r.id
    → db.events ≡ rows ++ r ∷ []
    → new_events last_id 100 db ≡ r ∷ []
new_events-append last_id r rows db old past is_events =
    rw is_events (rw (select-new last_id r rows old past) refl)
