-- ===== src/Projection/Projector/Frames.antt =====
-- What a projection leaves alone, and what a successful one writes.
use holdex_backend_cqrs.Prelude.{◌≡◌, refl, inl, inr, Option-cases, some, arith}
use holdex_backend_cqrs.Result.{ok}
use holdex_backend_cqrs.Domain.{BaseEvent}
use holdex_backend_cqrs.Domain.Market.{Event, base_event, market_event, NewDataFetchedPayload}
use holdex_backend_cqrs.Tables.{Columns, SummaryRow}
use holdex_backend_cqrs.World.{World}
use holdex_backend_cqrs.Projection.ReadModel.{summary_row, upsert}
use holdex_backend_cqrs.Projection.Projector.{project, summary_of}

-- The tables that the projector reads are not written by a projection.
abbrev pub SameLog : World → World → Type 0
SameLog v w = (v.db.events ≡ w.db.events) × (v.db.checkpoints ≡ w.db.checkpoints)

pub project-SameLog : (pg : Columns) (ev : Event) (w : World) → SameLog (project pg ev w).1 w
unfolding project
project-SameLog pg (base_event b) w = (refl, refl)
project-SameLog pg (market_event b p) w = elim (Option-cases (summary_row pg (summary_of p))) [
  | inl x ↦ (ground arith, ground arith)
  | inr (s, x) ↦ elim (Option-cases (pg.numeric_20_8 p.current_price)) [
    | inl y ↦ (ground arith, ground arith)
    | inr (q, y) ↦ (ground arith, ground arith)
  ]
]

-- A projection that succeeds has upserted the summary's row.
pub project-eq_ok :
    (pg : Columns) (b : BaseEvent) (p : NewDataFetchedPayload) (w : World)
    → (project pg (market_event b p) w).0 ≡ ok tt
    → (s : SummaryRow) × (summary_row pg (summary_of p) ≡ some s)
      × ((project pg (market_event b p) w).1.db.summaries ≡ upsert s w.db.summaries)
unfolding project
project-eq_ok pg b p w h = elim (Option-cases (summary_row pg (summary_of p))) [
  | inl x ↦ absurd (ground arith)
  | inr (s, x) ↦ elim (Option-cases (pg.numeric_20_8 p.current_price)) [
    | inl y ↦ absurd (ground arith)
    | inr (q, y) ↦ (s, x, ground arith)
  ]
]
