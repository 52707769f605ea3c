-- ===== src/Examples/Projecting.antt =====
-- The theorems on the projector at concrete inputs.
use mathlib.Core.List.{Memᴰ}
use holdex_backend_cqrs.Prelude.{All, inr, ◌≤◌, ◌≡◌, refl, ◌⊎◌, none, [], ◌∷◌, true, false, arith}
use holdex_backend_cqrs.Domain.Market.{unmarshal_payload}
use holdex_backend_cqrs.Tables.{EventRow}
use holdex_backend_cqrs.World.{World}
use holdex_backend_cqrs.EventStore.{event_row}
use holdex_backend_cqrs.Projection.ReadModel.{
  summary_row, update_market_summary, add_price_history, update_last_event_id, get_new_events,
  upsert,
}
use holdex_backend_cqrs.Projection.Projector.{
  Loop, poll_interval, deserialize_event, invalidate, project, project_batch, save_progress,
  interval_after, handle_records, round, rounds,
}
use holdex_backend_cqrs.Domain.Market.{market_event, base, NewDataFetchedPayload}
use holdex_backend_cqrs.Tables.{SummaryRow}
use holdex_backend_cqrs.Result.{ok}
use holdex_backend_cqrs.Prelude.{ℕ, ◌++◌, ◌≢◌, String, some}
use holdex_backend_cqrs.Projection.Queries.{find_row}
use holdex_backend_cqrs.Projection.Projector.Keeping.{IsRowOf, project-IsRowOf}
use holdex_backend_cqrs.Projection.Projector.Batch.{BatchSplit, project_batch-BatchSplit}
use holdex_backend_cqrs.Projection.Projector.Behind.{behind}
use holdex_backend_cqrs.Projection.Projector.CatchingUp.{IsProjectable, rounds_catch_up}
use holdex_backend_cqrs.Projection.Projector.Progressing.{WasHandledIn, rounds_no_gap}
use holdex_backend_cqrs.Projection.Projector.Summaries.{
  find_summary, after_records, project_batch-after_records, project_batch_again,
}
use holdex_backend_cqrs.Examples.{exact, noon, start_world, two_events, quote}

-- The upsert of the second event will fail.
abbrev faulty_projector : World
faulty_projector = record start_world {
  db = two_events;
  faults = false ∷ false ∷ false ∷ false ∷ false ∷ true ∷ [];
}

abbrev projector_world : World
projector_world = record start_world { db = two_events }

abbrev first_row : EventRow
first_row = event_row exact 1 (quote 1)

abbrev from_start : Loop
from_start = record { last_id = 0; current_interval = poll_interval }

project_batch-BatchSplit_example :
    BatchSplit exact two_events.events 0 0 faulty_projector
      (project_batch exact two_events.events 0 0 faulty_projector)
project_batch-BatchSplit_example =
    project_batch-BatchSplit exact two_events.events 0 0 faulty_projector

rounds-first : 1 ≤ (rounds exact 2 from_start faulty_projector).0.last_id
unfolding rounds round get_new_events handle_records project_batch deserialize_event
    unmarshal_payload project invalidate update_market_summary summary_row add_price_history
    save_progress interval_after update_last_event_id upsert
rounds-first = omega arith

rounds_no_gap_example : (1 ≤ 0) ⊎ WasHandledIn exact 2 from_start faulty_projector first_row
rounds_no_gap_example =
    rounds_no_gap exact 2 from_start faulty_projector first_row (omega arith, (omega arith, tt))
      (Memᴰ.head refl) rounds-first

both_projected : (project_batch exact two_events.events 0 0 projector_world).0.2 ≡ none
unfolding project_batch deserialize_event unmarshal_payload project invalidate update_market_summary
    summary_row add_price_history upsert
both_projected = refl

both_projected_again :
    (project_batch exact two_events.events 0 0
      (project_batch exact two_events.events 0 0 projector_world).1).0.2
    ≡ none
unfolding project_batch deserialize_event unmarshal_payload project invalidate update_market_summary
    summary_row add_price_history upsert
both_projected_again = refl

project_batch-after_records_example :
    find_summary "bitcoin"
      (project_batch exact two_events.events 0 0 projector_world).1.db.summaries
    ≡ after_records exact "bitcoin" none two_events.events
project_batch-after_records_example =
    project_batch-after_records exact "bitcoin" two_events.events 0 0 projector_world both_projected

project_batch_again_example :
    find_summary "bitcoin"
      (project_batch exact two_events.events 0 0
        (project_batch exact two_events.events 0 0 projector_world).1).1.db.summaries
    ≡ find_summary "bitcoin"
        (project_batch exact two_events.events 0 0 projector_world).1.db.summaries
project_batch_again_example =
    project_batch_again exact "bitcoin" two_events.events 0 0 projector_world both_projected
      both_projected_again

-- A second coin is in the table, with a point of its history.
abbrev dogecoin : SummaryRow
dogecoin = record {
  coin_id = "dogecoin";
  symbol = "doge";
  name = "Dogecoin";
  current_price = 1;
  market_cap = 2;
  volume_24h = 3;
  price_change_24h = 4;
  last_updated = noon;
}

abbrev dogecoin_world : World
dogecoin_world = record start_world { db = record two_events { summaries = dogecoin ∷ [] } }

-- A payload with another number in each field.
abbrev pub numbers : NewDataFetchedPayload
numbers = record {
  coin_id = "bitcoin";
  symbol = "btc";
  name = "Bitcoin";
  current_price = 10;
  market_cap = 20;
  volume_24h = 30;
  price_change_24h = 40;
  last_updated = noon;
}

numbers_projected : (project exact (market_event (base (quote 1)) numbers) dogecoin_world).0 ≡ ok tt
unfolding project invalidate update_market_summary summary_row add_price_history upsert
numbers_projected = refl

project-IsRowOf_example :
    (row : SummaryRow) × (kept : ℕ) × IsRowOf exact numbers row
    × (some 10 ≡ some kept)
    × (find_row "bitcoin"
          (project exact (market_event (base (quote 1)) numbers) dogecoin_world).1.db.summaries
        ≡ some row)
    × ((other : String)
        → other ≢ "bitcoin"
        → find_row other
            (project exact (market_event (base (quote 1)) numbers) dogecoin_world).1.db.summaries
          ≡ find_row other (dogecoin ∷ []))
    × ((project exact (market_event (base (quote 1)) numbers) dogecoin_world).1.db.history
        ≡ [] ++ record { id = 1; coin_id = "bitcoin"; price = kept; recorded_at = noon } ∷ [])
project-IsRowOf_example =
    project-IsRowOf exact (base (quote 1)) numbers dogecoin_world numbers_projected

two_events-IsProjectable : All (IsProjectable exact) two_events.events
unfolding deserialize_event unmarshal_payload summary_row
two_events-IsProjectable = (inr (quote 1, refl, (_, refl)), (inr (quote 2, refl, (_, refl)), tt))

rounds_catch_up_example :
    All
      (λ (r : EventRow). r.id ≤ (rounds exact 1 from_start projector_world).0.last_id)
      two_events.events
    × (find_summary "bitcoin" (rounds exact 1 from_start projector_world).1.db.summaries
        ≡ after_records exact "bitcoin" none (behind 0 two_events.events))
rounds_catch_up_example =
    rounds_catch_up exact "bitcoin" 1 from_start projector_world refl
      (omega arith, (omega arith, tt)) two_events-IsProjectable (omega arith)
