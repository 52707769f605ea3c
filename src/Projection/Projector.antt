-- ===== src/Projection/Projector.antt =====
-- internal/projection/projector.go: one round of `Start` reads a batch of events behind the
-- checkpoint, projects each one, and saves the checkpoint. Durations are in nanoseconds.
pub mod Advancing
pub mod Batch
pub mod Behind
pub mod CatchingUp
pub mod Frames
pub mod Keeping
pub mod Rounds
pub mod Progressing
pub mod Summaries
use Prim.Native.String.{◌++◌ as concat}
use mathlib.Core.Option
use holdex_backend_cqrs.Prelude.{
  ℕ, zero, suc, ◌+◌, ◌*◌, ◌^◌, String, Bool, true, false, not, Option, none, some, List, [], ◌∷◌,
  str_eq, ltb, ◌==◌, if◌then◌else◌, select,
}
use holdex_backend_cqrs.Result.{Error, Result, ok, err}
use holdex_backend_cqrs.Json.{Json}
use holdex_backend_cqrs.Domain.{BaseEvent}
use holdex_backend_cqrs.Domain.Market.{
  Event, base_event, market_event, new_data_fetched_event, NewDataFetchedPayload, unmarshal_payload,
}
use holdex_backend_cqrs.Tables.{Columns, EventRow}
use holdex_backend_cqrs.World.{World, Exec, ◌>>=◌, ◌>>◌, pure, fault?}
use holdex_backend_cqrs.World.Bind.{next}
use holdex_backend_cqrs.Projection.ReadModel.{
  MarketSummary, update_market_summary, add_price_history, update_last_event_id, get_new_events,
  get_last_event_id,
}

-- `deserializeEvent` of the projector, by clauses on the columns of the record.
unfoldable pub deserialize_event : EventRow → Option Event
deserialize_event rec =
    if str_eq rec.event_type new_data_fetched_event
    then Option.map
        (market_event (record {
          type = rec.event_type;
          agg_id = rec.aggregate_id;
          agg_type = "Market";
          vers = rec.version;
          time = rec.created_at;
          payload = rec.data_column;
        }))
        (unmarshal_payload rec.data_column)
    else none

abbrev pub summary_of : NewDataFetchedPayload → MarketSummary
summary_of p = record {
  coin_id = p.coin_id;
  symbol = p.symbol;
  name = p.name;
  current_price = p.current_price;
  market_cap = p.market_cap;
  volume_24h = p.volume_24h;
  price_change_24h = p.price_change_24h;
  last_updated = p.last_updated;
}

-- DEL of the key "cache:summary:" + coin id. A failure is logged and passed over.
unfoldable pub invalidate : String → Exec (Unit {0})
invalidate coin_id w = if fault? w.faults then (ok tt, next w) else (
  ok tt,
  record (next w) {
    cache = select (λ entry. not (str_eq entry.0 (concat "cache:summary:" coin_id))) w.cache;
  },
)

unfoldable pub project : Columns → Event → Exec (Unit {0})
unfolding invalidate update_market_summary add_price_history
project pg (base_event b) = pure tt
project pg (market_event b p) = do
  let summary = summary_of p
  update_market_summary pg summary
  add_price_history pg summary.coin_id summary.current_price summary.last_updated
  invalidate summary.coin_id

-- The loop over a batch: the last id, the number of records processed or skipped, and the error
-- that broke it off.
abbrev pub Progress : Type 0
Progress = ℕ × ℕ × Option Error

unfoldable pub project_batch : Columns → List EventRow → ℕ → ℕ → World → Progress × World
project_batch pg [] last_id processed w = ((last_id, processed, none), w)
project_batch pg (rec ∷ recs) last_id processed w = elim (deserialize_event rec) [
  | none ↦ project_batch pg recs rec.id (processed + 1) w
  | some ev ↦
      let (result, w') = project pg ev w in
      elim result [
        | err e ↦ ((last_id, processed, some e), w')
        | ok u ↦ project_batch pg recs rec.id (processed + 1) w'
      ]
]

abbrev pub millisecond : ℕ
millisecond = 10 ^ 6

abbrev pub poll_interval : ℕ
poll_interval = 100 * millisecond

abbrev pub max_interval : ℕ
max_interval = 2000 * millisecond

abbrev pub capped : ℕ → ℕ
capped i = if ltb max_interval i then max_interval else i

-- The checkpoint is saved if something was processed; a failure to save it is logged only.
unfoldable pub save_progress : ℕ → ℕ → World → World
unfolding update_last_event_id
save_progress last_id zero w = w
save_progress last_id (suc n) w = (update_last_event_id "portfolio_projector" last_id w).1

-- The interval after a batch that was not empty.
unfoldable pub interval_after : Option Error → ℕ → ℕ
interval_after none current = poll_interval
interval_after (some e) current =
    let doubled = current * 2 in
    capped (if ltb doubled (500 * millisecond) then 500 * millisecond else doubled)

-- The variables of the loop: the last id and the current interval.
pub record Loop : Type 0 where
  pub last_id : ℕ
  pub current_interval : ℕ

finish_batch : Progress → Loop → World → Loop × World
unfolding save_progress interval_after
finish_batch (last_id, processed, error) l w = (
  record { last_id = last_id; current_interval = interval_after error l.current_interval },
  save_progress last_id processed w,
)

unfoldable pub handle_records : Columns → Result (List EventRow) → Loop → World → Loop × World
unfolding finish_batch
handle_records pg (err e) l w = (record l { current_interval = 1000 * millisecond }, w)
handle_records pg (ok []) l w = (record l { current_interval = capped (l.current_interval * 2) }, w)
handle_records pg (ok (rec ∷ recs)) l w =
    let (progress, w') = project_batch pg (rec ∷ recs) l.last_id 0 w in finish_batch progress l w'

-- One round of the loop of `Start`.
unfoldable pub round : Columns → Loop → World → Loop × World
unfolding handle_records
round pg l w = let (records, w') = get_new_events l.last_id 100 w in handle_records pg records l w'

-- `Start` for a number of rounds, from the saved checkpoint on.
unfoldable pub rounds : Columns → ℕ → Loop → World → Loop × World
rounds pg zero l w = (l, w)
rounds pg (suc n) l w = let (l', w') = round pg l w in rounds pg n l' w'

unfoldable pub start : Columns → ℕ → Exec Loop
start pg n = do
  last_id ← get_last_event_id "portfolio_projector"
  λ w.
      (let (l, w') =
          rounds pg n (record { last_id = last_id; current_interval = poll_interval }) w in
        (ok l, w'))
