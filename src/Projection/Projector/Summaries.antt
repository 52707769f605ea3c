-- ===== src/Projection/Projector/Summaries.antt =====
-- The read model of projector.go against its abstract view, a map from coins to their latest summary.
use mathlib.Core.List.{append-nil}
use holdex_backend_cqrs.Prelude.{
  ℕ, ◌≡◌, refl, sym, ap, subst, ◌∙◌, true, false, Option, none, some, List, [], ◌∷◌, ◌++◌, ◌⊎◌, inl,
  inr, Bool-cases, arith, String, str_eq, eq_iff, if◌then◌else◌,
}
use holdex_backend_cqrs.Result.{ok}
use holdex_backend_cqrs.Domain.Market.{Event, base_event, market_event}
use holdex_backend_cqrs.Tables.{Columns, EventRow, SummaryRow}
use holdex_backend_cqrs.World.{World}
use holdex_backend_cqrs.Projection.ReadModel.{MarketSummary, summary_row, upsert}
use holdex_backend_cqrs.Projection.Projector.{deserialize_event, project, project_batch, summary_of}
use holdex_backend_cqrs.Projection.Projector.Batch.{Handled, Stopped, project_batch-BatchSplit}
use holdex_backend_cqrs.Projection.Projector.Frames.{project-eq_ok}

-- The summary of a coin, in the table.
abbrev pub find_summary : String → List SummaryRow → Option SummaryRow
find_summary coin_id [] = none
find_summary coin_id (r ∷ rs) =
    let rest = find_summary coin_id rs in if str_eq r.coin_id coin_id then some r else rest

-- The summary of a coin after one event, and after a list of records: the last event of the coin
-- that can be read decides.
abbrev pub after_event : Columns → String → Option SummaryRow → Event → Option SummaryRow
after_event pg coin_id old (base_event b) = old
after_event pg coin_id old (market_event b p) =
    if str_eq p.coin_id coin_id then summary_row pg (summary_of p) else old

abbrev pub after_read : Columns → String → Option SummaryRow → Option Event → Option SummaryRow
after_read pg coin_id old none = old
after_read pg coin_id old (some ev) = after_event pg coin_id old ev

abbrev pub after_records : Columns → String → Option SummaryRow → List EventRow → Option SummaryRow
after_records pg coin_id old [] = old
after_records pg coin_id old (r ∷ rs) =
    after_records pg coin_id (after_read pg coin_id old (deserialize_event r)) rs

find_summary-upsert :
    (coin_id : String) (s : SummaryRow) (rows : List SummaryRow)
    → find_summary coin_id (upsert s rows)
      ≡ (if str_eq s.coin_id coin_id then some s else find_summary coin_id rows)
unfolding upsert
find_summary-upsert coin_id s [] = refl
find_summary-upsert coin_id s (r ∷ rs) = elim (Bool-cases (str_eq r.coin_id s.coin_id)) [
  | inl y ↦ rw y (
      rw ((eq_iff r.coin_id s.coin_id).0 y)
        (elim (Bool-cases (str_eq s.coin_id coin_id)) [ inl t ↦ rw t | inr f ↦ rw f ]))
  | inr n ↦
      let other : str_eq s.coin_id coin_id ≡ true
          → str_eq r.coin_id coin_id ≡ true
          → r.coin_id ≡ s.coin_id =
        λ t u. (eq_iff r.coin_id coin_id).0 u ∙ sym ((eq_iff s.coin_id coin_id).0 t) in
      let distinct : r.coin_id ≡ s.coin_id → false ≡ true =
        λ e. sym n ∙ (eq_iff r.coin_id s.coin_id).1 e in
      rw n (elim (Bool-cases (str_eq r.coin_id coin_id)) [
        | inl u ↦ elim (Bool-cases (str_eq s.coin_id coin_id)) [
          | inl t ↦ (let e = distinct (other t u) in absurd (ground arith))
          | inr f ↦ rw (u, f)
        ]
        | inr u ↦ rw u (find_summary-upsert coin_id s rs)
      ])
]

pub coin_id-summary_row :
    (pg : Columns) (s : MarketSummary) {r : SummaryRow}
    → summary_row pg s ≡ some r
    → r.coin_id ≡ s.coin_id
unfolding summary_row
coin_id-summary_row pg s h = ground arith

project-find_summary :
    (pg : Columns) (ev : Event) (w : World) (coin_id : String)
    → (project pg ev w).0 ≡ ok tt
    → find_summary coin_id (project pg ev w).1.db.summaries
      ≡ after_event pg coin_id (find_summary coin_id w.db.summaries) ev
project-find_summary pg (base_event b) w coin_id h = unfold project in refl
project-find_summary pg (market_event b p) w coin_id h =
    let (s, is_row, upserted) = project-eq_ok pg b p w h in
    ap (find_summary coin_id) upserted
    ∙ find_summary-upsert coin_id s w.db.summaries
    ∙ (rw (is_row, coin_id-summary_row pg (summary_of p) is_row))

-- What a batch has handled refines the map: every coin has the summary of its last readable event
-- among the handled records, and the old one if there is none.
Handled-after_records :
    (pg : Columns) (coin_id : String) (rs : List EventRow) (before after : World)
    → Handled pg rs before after
    → find_summary coin_id after.db.summaries
      ≡ after_records pg coin_id (find_summary coin_id before.db.summaries) rs
Handled-after_records pg coin_id [] before after h = rw h
Handled-after_records pg coin_id (r ∷ rs) before after (inl (skipped, h)) =
    rw skipped (Handled-after_records pg coin_id rs before after h)
Handled-after_records pg coin_id (r ∷ rs) before after (inr (ev, read, projected, h)) = rw read (
    Handled-after_records pg coin_id rs (project pg ev before).1 after h
    ∙ ap (λ old. after_records pg coin_id old rs)
        (project-find_summary pg ev before coin_id projected))

-- One event either leaves any summary of the coin alone, or decides it whatever it was.
after_read-cases :
    (pg : Columns) (coin_id : String) (read : Option Event)
    → ((old : Option SummaryRow) → after_read pg coin_id old read ≡ old)
      ⊎ ((old new : Option SummaryRow)
          → after_read pg coin_id old read ≡ after_read pg coin_id new read)
after_read-cases pg coin_id none = inl (λ old. refl)
after_read-cases pg coin_id (some (base_event b)) = inl (λ old. refl)
after_read-cases pg coin_id (some (market_event b p)) =
    elim (Bool-cases (str_eq p.coin_id coin_id)) [
      | inl y ↦ inr (λ old new. rw y)
      | inr n ↦ inl (λ old. rw n)
    ]

after_records-cases :
    (pg : Columns) (coin_id : String) (rs : List EventRow)
    → ((old : Option SummaryRow) → after_records pg coin_id old rs ≡ old)
      ⊎ ((old new : Option SummaryRow)
          → after_records pg coin_id old rs ≡ after_records pg coin_id new rs)
after_records-cases pg coin_id [] = inl (λ old. refl)
after_records-cases pg coin_id (r ∷ rs) = elim (after_records-cases pg coin_id rs) [
  | inr decided ↦ inr (λ old new. decided _ _)
  | inl alone ↦ elim (after_read-cases pg coin_id (deserialize_event r)) [
    | inl first ↦ inl (λ old. alone _ ∙ first old)
    | inr first ↦ inr (λ old new. alone _ ∙ first old new ∙ sym (alone _))
  ]
]

after_records_again :
    (pg : Columns) (coin_id : String) (rs : List EventRow) (old : Option SummaryRow)
    → after_records pg coin_id (after_records pg coin_id old rs) rs
      ≡ after_records pg coin_id old rs
after_records_again pg coin_id rs old = elim (after_records-cases pg coin_id rs) [
  | inl alone ↦ alone _
  | inr decided ↦ decided _ _
]

split-after_records :
    (pg : Columns) (coin_id : String) (done rest : List EventRow) (before between after : World)
    → Handled pg done before between
    → Stopped pg rest between none after
    → find_summary coin_id after.db.summaries
      ≡ after_records pg coin_id (find_summary coin_id before.db.summaries) (done ++ rest)
split-after_records pg coin_id done [] before between after handled (no_error, same) =
    rw (append-nil done) (
      ap (λ (v : World). find_summary coin_id v.db.summaries) same
      ∙ Handled-after_records pg coin_id done before between handled)
split-after_records pg coin_id done (r ∷ rs) before between after handled
      (ev, e, read, failed, no_error, same) =
    absurd (ground arith)

module _ (pg : Columns) (coin_id : String) (recs : List EventRow) where
  -- A batch that ends without an error refines the map from coins to summaries: the coin has the
  -- summary of its last readable event in the batch, and the old one if there is none.
  pub project_batch-after_records :
      (last_id processed : ℕ) (w : World)
      → (project_batch pg recs last_id processed w).0.2 ≡ none
      → find_summary coin_id (project_batch pg recs last_id processed w).1.db.summaries
        ≡ after_records pg coin_id (find_summary coin_id w.db.summaries) recs
  project_batch-after_records last_id processed w no_error =
      let (done, rest, between, is_all, handled, stopped, at, counted) =
        project_batch-BatchSplit pg recs last_id processed w in
      let after = (project_batch pg recs last_id processed w).1 in
      subst
        (λ rs.
          find_summary coin_id after.db.summaries
          ≡ after_records pg coin_id (find_summary coin_id w.db.summaries) rs)
        is_all
        (split-after_records pg coin_id done rest w between after handled
          (subst (λ error. Stopped pg rest between error after) no_error stopped))

  -- Events may be projected again, after a checkpoint that was not saved: two runs over the same
  -- batch, both without an error, leave the summary that the first one left.
  pub project_batch_again :
      (last_id processed : ℕ) (w : World)
      → (project_batch pg recs last_id processed w).0.2 ≡ none
      → (project_batch pg recs last_id processed (project_batch pg recs last_id processed w).1).0.2
        ≡ none
      → find_summary coin_id
          (project_batch pg recs last_id processed
            (project_batch pg recs last_id processed w).1).1.db.summaries
        ≡ find_summary coin_id (project_batch pg recs last_id processed w).1.db.summaries
  project_batch_again last_id processed w first second =
      let once = project_batch-after_records last_id processed w first in
      project_batch-after_records last_id processed (project_batch pg recs last_id processed w).1
        second
      ∙ ap (λ old. after_records pg coin_id old recs) once
      ∙ after_records_again pg coin_id recs _
      ∙ sym once
