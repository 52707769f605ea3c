-- ===== src/Projection/Projector/CatchingUp.antt =====
-- Enough undisturbed rounds of `Start` in projector.go bring the read model up to the events table.
use native.Mathlib.Nat.{zero-add}
use holdex_backend_cqrs.Prelude.{
  ℕ, zero, suc, ◌+◌, ◌*◌, ◌≤◌, ◌≡◌, refl, sym, ap, subst, ◌∙◌, String, ◌⊎◌, inl, inr, Option, none,
  some, List, [], ◌∷◌, ◌++◌, All, arith, length, take, drop, take-append-drop, Ascending,
  All-select, All-take,
}
use holdex_backend_cqrs.Result.{ok}
use holdex_backend_cqrs.Domain.Market.{Event, base_event, market_event}
use holdex_backend_cqrs.Tables.{Columns, EventRow, SummaryRow}
use holdex_backend_cqrs.World.{World}
use holdex_backend_cqrs.Projection.ReadModel.{summary_row}
use holdex_backend_cqrs.Projection.Projector.{
  deserialize_event, summary_of, project, project_batch, handle_records, round, rounds, Loop,
}
use holdex_backend_cqrs.Projection.Projector.Batch.{
  row_id, last_id_of, project_batch-skip, project_batch-ok,
}
use holdex_backend_cqrs.Projection.Projector.Behind.{
  behind, behind-nil, behind-batch, length-nil, length-drop_le,
}
use holdex_backend_cqrs.Projection.Projector.Summaries.{
  find_summary, after_read, after_records, project_batch-after_records,
}
use holdex_backend_cqrs.Projection.Projector.Rounds.{new_events-select}
use holdex_backend_cqrs.Projection.Projector.Progressing.{round-events}
use holdex_backend_cqrs.Projection.Projector.Advancing.{
  project_fault_free, project-faults, get_new_events_fault_free, save_progress_fault_free,
}

-- An event that the columns take; and a row that is skipped, or has such an event.
abbrev pub FitsColumns : Columns → Event → Type 0
FitsColumns pg (base_event b) = Unit
FitsColumns pg (market_event b p) = (row : SummaryRow) × (summary_row pg (summary_of p) ≡ some row)

abbrev pub IsProjectable : Columns → EventRow → Type 0
IsProjectable pg r =
    (deserialize_event r ≡ none)
    ⊎ ((ev : Event) × (deserialize_event r ≡ some ev) × FitsColumns pg ev)

-- A record that fits is projected, and uses no fault up.
project-FitsColumns :
    (pg : Columns) (ev : Event) (w : World)
    → w.faults ≡ []
    → FitsColumns pg ev
    → ((project pg ev w).0 ≡ ok tt) × ((project pg ev w).1.faults ≡ [])
unfolding project
project-FitsColumns pg (base_event b) w none_left fits = (refl, none_left)
project-FitsColumns pg (market_event b p) w none_left (row, is_row) =
    (project_fault_free pg b p w none_left is_row, project-faults pg b p w none_left is_row)

-- A batch of such records is handled to its end.
project_batch_fault_free :
    (pg : Columns) (recs : List EventRow) (last_id n : ℕ) (w : World)
    → w.faults ≡ []
    → All (IsProjectable pg) recs
    → ((project_batch pg recs last_id n w).0 ≡ (last_id_of last_id recs, n + length recs, none))
      × ((project_batch pg recs last_id n w).1.faults ≡ [])
project_batch_fault_free pg [] last_id n w none_left fits =
    unfold project_batch in (ap (λ m. (last_id, m, none)) (omega arith), none_left)
project_batch_fault_free pg (r ∷ recs) last_id n w none_left (inl skipped, fits) =
    let (is, after) = project_batch_fault_free pg recs r.id (n + 1) w none_left fits in
    rw (project_batch-skip pg r recs last_id n w skipped)
      (is ∙ ap (λ m. (last_id_of r.id recs, m, none)) (omega arith), after)
project_batch_fault_free pg (r ∷ recs) last_id n w none_left (inr (ev, readable, fit), fits) =
    let (projected, none_after) = project-FitsColumns pg ev w none_left fit in
    let (is, after) =
      project_batch_fault_free pg recs r.id (n + 1) (project pg ev w).1 none_after fits in
    rw (project_batch-ok pg r recs last_id n w ev readable projected)
      (is ∙ ap (λ m. (last_id_of r.id recs, m, none)) (omega arith), after)

after_records-append :
    (pg : Columns) (coin_id : String) (xs ys : List EventRow) (old : Option SummaryRow)
    → after_records pg coin_id old (xs ++ ys)
      ≡ after_records pg coin_id (after_records pg coin_id old xs) ys
after_records-append pg coin_id [] ys old = refl
after_records-append pg coin_id (x ∷ xs) ys old =
    after_records-append pg coin_id xs ys (after_read pg coin_id old (deserialize_event x))

module _ (pg : Columns) (coin_id : String) where
  -- What a round has done with a batch of these records.
  abbrev IsAdvanced : List EventRow → Loop → World → Loop × World → Type 0
  IsAdvanced recs l w r =
      (r.0.last_id ≡ last_id_of l.last_id recs)
      × (r.1.faults ≡ [])
      × (find_summary coin_id r.1.db.summaries
          ≡ after_records pg coin_id (find_summary coin_id w.db.summaries) recs)

  handle_records-IsAdvanced :
      (recs : List EventRow) (l : Loop) (w : World)
      → w.faults ≡ []
      → All (IsProjectable pg) recs
      → IsAdvanced recs l w (handle_records pg (ok recs) l w)
  unfolding handle_records
  handle_records-IsAdvanced [] l w none_left fits = (refl, none_left, refl)
  handle_records-IsAdvanced (r ∷ recs) l w none_left fits =
      let (is, none_after) = project_batch_fault_free pg (r ∷ recs) l.last_id 0 w none_left fits in
      let after = (project_batch pg (r ∷ recs) l.last_id 0 w).1 in
      let refined =
        project_batch-after_records pg coin_id (r ∷ recs) l.last_id 0 w (ap (λ p. p.2) is) in
      rw is (
        rw zero-add (
          rw (save_progress_fault_free (last_id_of r.id recs) (length recs) after none_after)
            (refl, none_after, refined)))

  round-IsAdvanced :
      (l : Loop) (w : World)
      → w.faults ≡ []
      → Ascending row_id 0 w.db.events
      → All (IsProjectable pg) w.db.events
      → IsAdvanced (take 100 (behind l.last_id w.db.events)) l w (round pg l w)
  unfolding round
  round-IsAdvanced l w none_left ascending fits =
      let recs = take 100 (behind l.last_id w.db.events) in
      let is_batch = new_events-select l.last_id w.db ascending in
      let read = get_new_events_fault_free l.last_id w none_left in
      let fitting =
        All-take (IsProjectable pg) 100 (behind l.last_id w.db.events)
          (All-select (IsProjectable pg) _ w.db.events fits) in
      rw read (rw is_batch (handle_records-IsAdvanced recs l w none_left fitting))

  -- Where no call fails and the columns take every event, as many rounds as there are hundreds of
  -- events behind the last id, begun ones included, bring the last id past every event; and then each
  -- coin has the summary of its last event behind the former last id, or else the former one.
  pub rounds_catch_up :
      (n : ℕ) (l : Loop) (w : World)
      → w.faults ≡ []
      → Ascending row_id 0 w.db.events
      → All (IsProjectable pg) w.db.events
      → length (behind l.last_id w.db.events) ≤ 100 * n
      → All (λ (r : EventRow). r.id ≤ (rounds pg n l w).0.last_id) w.db.events
        × (find_summary coin_id (rounds pg n l w).1.db.summaries
            ≡ after_records pg coin_id
                (find_summary coin_id w.db.summaries)
                (behind l.last_id w.db.events))
  unfolding rounds
  rounds_catch_up zero l w none_left ascending fits enough = (
    behind-nil l.last_id w.db.events enough,
    ap (after_records pg coin_id (find_summary coin_id w.db.summaries))
        (sym (length-nil (behind l.last_id w.db.events) enough)),
  )
  rounds_catch_up (suc n) l w none_left ascending fits enough =
      let past = behind l.last_id w.db.events in
      let (moved, none_after, advanced) = round-IsAdvanced l w none_left ascending fits in
      let same : (round pg l w).1.db.events ≡ w.db.events = round-events pg l w in
      let left : behind (round pg l w).0.last_id (round pg l w).1.db.events ≡ drop 100 past =
        ap (behind (round pg l w).0.last_id) same
        ∙ ap (λ k. behind k w.db.events) moved
        ∙ behind-batch l.last_id 100 w.db.events ascending in
      let (passed, summed) =
        rounds_catch_up n (round pg l w).0 (round pg l w).1 none_after
          (subst (λ rs. Ascending row_id 0 rs) (sym same) ascending)
          (subst (λ rs. All (IsProjectable pg) rs) (sym same) fits)
          (rw left (length-drop_le 100 (100 * n) past (omega (arith, enough)))) in
      let final = (rounds pg n (round pg l w).0 (round pg l w).1).0.last_id in
      (
        subst (λ rs. All (λ (r : EventRow). r.id ≤ final) rs) same passed,
        summed
            ∙ ap (after_records pg coin_id (find_summary coin_id (round pg l w).1.db.summaries))
                left
            ∙ ap (λ old. after_records pg coin_id old (drop 100 past)) advanced
            ∙ sym (
                after_records-append pg coin_id (take 100 past) (drop 100 past)
                  (find_summary coin_id w.db.summaries))
            ∙ ap (after_records pg coin_id (find_summary coin_id w.db.summaries))
                (take-append-drop 100 past),
      )
