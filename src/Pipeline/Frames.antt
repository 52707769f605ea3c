-- ===== src/Pipeline/Frames.antt =====
-- The projector and the pruner write neither to the channel nor to the outbox.
use holdex_backend_cqrs.Prelude.{
  ℕ, zero, suc, ◌+◌, ◌≡◌, refl, ◌∙◌, String, List, [], ◌∷◌, inl, inr, Bool-cases, Option-cases,
  arith,
}
use holdex_backend_cqrs.Json.{Json}
use holdex_backend_cqrs.Result.{Result, ok, err}
use holdex_backend_cqrs.Domain.Market.{Event, base_event, market_event}
use holdex_backend_cqrs.Tables.{Columns, EventRow, OutboxRow}
use holdex_backend_cqrs.World.{World, ◌>>◌, fault?}
use holdex_backend_cqrs.World.Bind.{Result-cases, next}
use holdex_backend_cqrs.World.Frames.{Keeps, Keeps-then}
use holdex_backend_cqrs.Projection.ReadModel.{
  MarketSummary, summary_row, update_market_summary, add_price_history, update_last_event_id,
  get_new_events, prune_price_history,
}
use holdex_backend_cqrs.Projection.Projector.{
  deserialize_event, summary_of, invalidate, project, project_batch, save_progress, handle_records,
  round, Loop,
}
use holdex_backend_cqrs.Projection.Projector.Batch.{
  project_batch-skip, project_batch-ok, project_batch-err,
}
use holdex_backend_cqrs.Server.{prune_at}

-- What is still to be published, and what was.
abbrev pub carried : World → List OutboxRow × ℕ × List Json
carried w = (w.db.outbox, w.db.next_outbox_id, w.bus)

get_new_events-carried :
    (last_id : ℕ) (w : World) → carried (get_new_events last_id 100 w).1 ≡ carried w
unfolding get_new_events
get_new_events-carried last_id w = elim (Bool-cases (fault? w.faults)) [
  | inl x ↦ rw x refl
  | inr x ↦ elim (Bool-cases (fault? (next w).faults)) [
    | inl y ↦ rw x (rw y refl)
    | inr y ↦ rw x (rw y refl)
  ]
]

module _ (pg : Columns) where
  invalidate-carried : (coin_id : String) → Keeps carried (invalidate coin_id)
  unfolding invalidate
  invalidate-carried coin_id w = elim (Bool-cases (fault? w.faults)) [
    | inl y ↦ rw y refl
    | inr n ↦ rw n refl
  ]

  update_market_summary-carried : (s : MarketSummary) → Keeps carried (update_market_summary pg s)
  unfolding update_market_summary
  update_market_summary-carried s w = elim (Option-cases (summary_row pg s)) [
    | inl x ↦ ground arith
    | inr (row, x) ↦ ground arith
  ]

  add_price_history-carried :
      (coin_id : String) (price recorded_at : ℕ)
      → Keeps carried (add_price_history pg coin_id price recorded_at)
  unfolding add_price_history
  add_price_history-carried coin_id price recorded_at w =
      elim (Option-cases (pg.numeric_20_8 price)) [
        | inl x ↦ ground arith
        | inr (kept, x) ↦ ground arith
      ]

  project-carried : (ev : Event) → Keeps carried (project pg ev)
  unfolding project
  project-carried (base_event b) w = refl
  project-carried (market_event b p) w =
      Keeps-then carried (update_market_summary pg (summary_of p))
        (add_price_history pg p.coin_id p.current_price p.last_updated >> invalidate p.coin_id)
        (update_market_summary-carried (summary_of p))
        (Keeps-then carried (add_price_history pg p.coin_id p.current_price p.last_updated)
          (invalidate p.coin_id)
          (add_price_history-carried p.coin_id p.current_price p.last_updated)
          (invalidate-carried p.coin_id))
        w

  project_batch-carried :
      (recs : List EventRow) (last_id n : ℕ) (w : World)
      → carried (project_batch pg recs last_id n w).1 ≡ carried w
  project_batch-carried [] last_id n w = unfold project_batch in refl
  project_batch-carried (r ∷ recs) last_id n w = elim (Option-cases (deserialize_event r)) [
    | inl x ↦
        rw (project_batch-skip pg r recs last_id n w x) (project_batch-carried recs r.id (n + 1) w)
    | inr (ev, x) ↦ elim (Result-cases (project pg ev w).0) [
      | inl (u, y) ↦
          rw (project_batch-ok pg r recs last_id n w ev x y)
            (project_batch-carried recs r.id (n + 1) (project pg ev w).1 ∙ project-carried ev w)
      | inr (e, y) ↦ rw (project_batch-err pg r recs last_id n w ev e x y) (project-carried ev w)
    ]
  ]

  save_progress-carried :
      (last_id n : ℕ) (w : World) → carried (save_progress last_id n w) ≡ carried w
  unfolding save_progress update_last_event_id
  save_progress-carried last_id zero w = refl
  save_progress-carried last_id (suc n) w = elim (Bool-cases (fault? w.faults)) [
    | inl y ↦ rw (y, save_progress) refl
    | inr x ↦ rw (x, save_progress) refl
  ]

  handle_records-carried :
      (records : Result (List EventRow)) (l : Loop) (w : World)
      → carried (handle_records pg records l w).1 ≡ carried w
  unfolding handle_records
  handle_records-carried (err e) l w = refl
  handle_records-carried (ok []) l w = refl
  handle_records-carried (ok (r ∷ recs)) l w =
      save_progress-carried _ _ _ ∙ project_batch-carried (r ∷ recs) l.last_id 0 w

  pub round-carried : (l : Loop) (w : World) → carried (round pg l w).1 ≡ carried w
  unfolding round
  round-carried l w =
      handle_records-carried (get_new_events l.last_id 100 w).0 l _
      ∙ get_new_events-carried l.last_id w

-- The pruner writes no event, no entry and no message.
pub prune_at-carried :
    (now : ℕ) (w : World)
    → (carried (prune_at now w) ≡ carried w) × ((prune_at now w).db.events ≡ w.db.events)
unfolding prune_price_history
prune_at-carried now w = elim (Bool-cases (fault? w.faults)) [
  | inl y ↦ rw (y, prune_at) (refl, refl)
  | inr x ↦ rw (x, prune_at) (refl, refl)
]
