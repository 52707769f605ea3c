-- ===== src/Projection/Projector/Progressing.antt =====
-- Many rounds of `Start` in projector.go over the events table.
use mathlib.Core.List.{Memᴰ}
use holdex_backend_cqrs.Prelude.{
  ℕ, zero, suc, ◌≤◌, ◌≡◌, refl, sym, ap, subst, ◌∙◌, Option, List, [], ◌∷◌, ◌⊎◌, inl, inr, arith,
  Ascending,
}
use holdex_backend_cqrs.Result.{Error, Result, ok, err}
use holdex_backend_cqrs.Tables.{Columns, EventRow, Db}
use holdex_backend_cqrs.World.{World}
use holdex_backend_cqrs.World.Bind.{next}
use holdex_backend_cqrs.Projection.ReadModel.{new_events}
use holdex_backend_cqrs.Projection.Projector.{
  Loop, project, project_batch, save_progress, handle_records, round, rounds,
}
use holdex_backend_cqrs.Projection.Projector.Batch.{
  row_id, Handled, Stopped, project_batch-BatchSplit,
}
use holdex_backend_cqrs.Projection.Projector.Frames.{SameLog, project-SameLog}
use holdex_backend_cqrs.Projection.Projector.Rounds.{get_new_events-cases, WasHandled, round_no_gap}

SameLog-trans : (u v w : World) → SameLog u v → SameLog v w → SameLog u w
SameLog-trans u v w (a, b) (c, d) = (a ∙ c, b ∙ d)

Handled-SameLog :
    (pg : Columns) (rs : List EventRow) (before after : World)
    → Handled pg rs before after
    → SameLog after before
Handled-SameLog pg [] before after h =
    (ap (λ (v : World). v.db.events) h, ap (λ (v : World). v.db.checkpoints) h)
Handled-SameLog pg (r ∷ rs) before after (inl (skipped, h)) = Handled-SameLog pg rs before after h
Handled-SameLog pg (r ∷ rs) before after (inr (ev, read, projected, h)) =
    SameLog-trans after (project pg ev before).1 before
      (Handled-SameLog pg rs (project pg ev before).1 after h) (project-SameLog pg ev before)

Stopped-SameLog :
    (pg : Columns) (rs : List EventRow) (between : World) (error : Option Error) (after : World)
    → Stopped pg rs between error after
    → SameLog after between
Stopped-SameLog pg [] between error after (e, h) =
    (ap (λ (v : World). v.db.events) h, ap (λ (v : World). v.db.checkpoints) h)
Stopped-SameLog pg (r ∷ rs) between error after (ev, e, read, failed, is_error, h) =
    subst (λ v. SameLog v between) (sym h) (project-SameLog pg ev between)

pub project_batch-SameLog :
    (pg : Columns) (recs : List EventRow) (last_id processed : ℕ) (w : World)
    → SameLog (project_batch pg recs last_id processed w).1 w
project_batch-SameLog pg recs last_id processed w =
    let (done, rest, between, is_all, handled, stopped, at, counted) =
      project_batch-BatchSplit pg recs last_id processed w in
    SameLog-trans (project_batch pg recs last_id processed w).1 between w
      (Stopped-SameLog pg rest between _ _ stopped) (Handled-SameLog pg done w between handled)

save_progress-events :
    (last_id processed : ℕ) (w : World)
    → (save_progress last_id processed w).db.events ≡ w.db.events
unfolding save_progress
save_progress-events last_id zero w = refl
save_progress-events last_id (suc n) w = ground arith

handle_records-events :
    (pg : Columns) (records : Result (List EventRow)) (l : Loop) (w : World)
    → (handle_records pg records l w).1.db.events ≡ w.db.events
unfolding handle_records
handle_records-events pg (err e) l w = refl
handle_records-events pg (ok []) l w = refl
handle_records-events pg (ok (r ∷ rs)) l w =
    save_progress-events _ _ _ ∙ (project_batch-SameLog pg (r ∷ rs) l.last_id 0 w).0

-- A round writes no event.
pub round-events : (pg : Columns) (l : Loop) (w : World) → (round pg l w).1.db.events ≡ w.db.events
unfolding round
round-events pg l w = elim (get_new_events-cases l.last_id w) [
  | inl (e, v, failed, same) ↦
      rw failed (handle_records-events pg (err e) l v ∙ ap (λ (db : Db). db.events) same)
  | inr got ↦
      rw got (handle_records-events pg (ok (new_events l.last_id 100 w.db)) l (next (next w)))
]

-- One of the rounds has handled the record.
abbrev pub WasHandledIn : Columns → ℕ → Loop → World → EventRow → Type 0
WasHandledIn pg zero l w r = ⊥
WasHandledIn pg (suc n) l w r =
    WasHandled pg l w r ⊎ WasHandledIn pg n (round pg l w).0 (round pg l w).1 r

-- Over any number of rounds and any faults, in a table with increasing ids to which nothing is added
-- meanwhile, every event up to the loop's last id was behind the last id that it began with, or was
-- handled in the batch of one of these rounds: skipped, since it cannot be read, or projected without
-- an error.
pub rounds_no_gap :
    (pg : Columns) (n : ℕ) (l : Loop) (w : World) (r : EventRow)
    → Ascending row_id 0 w.db.events
    → Memᴰ r w.db.events
    → r.id ≤ (rounds pg n l w).0.last_id
    → (r.id ≤ l.last_id) ⊎ WasHandledIn pg n l w r
unfolding rounds
rounds_no_gap pg zero l w r a m h = inl h
rounds_no_gap pg (suc n) l w r a m h =
    let same = sym (round-events pg l w) in
    elim (rounds_no_gap pg n (round pg l w).0 (round pg l w).1 r
      (subst (λ rs. Ascending row_id 0 rs) same a) (subst (λ rs. Memᴰ r rs) same m) h) [
        | inl old ↦ elim (round_no_gap pg l w r a m old) [
          | inl older ↦ inl older
          | inr now ↦ inr (inl now)
        ]
        | inr new ↦ inr (inr new)
      ]
