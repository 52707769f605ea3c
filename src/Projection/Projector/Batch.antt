-- ===== src/Projection/Projector/Batch.antt =====
-- The loop over a batch in projector.go: it stops at the first event that cannot be projected.
use holdex_backend_cqrs.Prelude.{
  ℕ, ◌+◌, ◌≡◌, refl, sym, ap, subst, Option, none, some, List, [], ◌∷◌, ◌++◌, ◌⊎◌, inl, inr,
  Option-cases, arith, length,
}
use holdex_backend_cqrs.Result.{Error, ok, err}
use holdex_backend_cqrs.Domain.Market.{Event}
use holdex_backend_cqrs.Tables.{Columns, EventRow}
use holdex_backend_cqrs.World.{World}
use holdex_backend_cqrs.World.Bind.{Result-cases}
use holdex_backend_cqrs.Projection.Projector.{deserialize_event, project, project_batch, Progress}

abbrev pub row_id : EventRow → ℕ
row_id r = r.id

-- The last id after these records.
abbrev pub last_id_of : ℕ → List EventRow → ℕ
last_id_of last_id [] = last_id
last_id_of last_id (r ∷ rs) = last_id_of r.id rs

-- Each record was skipped, for it cannot be read, or was projected without an error, in order.
abbrev pub Handled : Columns → List EventRow → World → World → Type 0
Handled pg [] before after = after ≡ before
Handled pg (r ∷ rs) before after =
    ((deserialize_event r ≡ none) × Handled pg rs before after)
    ⊎ ((ev : Event) × (deserialize_event r ≡ some ev)
        × ((project pg ev before).0 ≡ ok tt)
        × Handled pg rs (project pg ev before).1 after)

-- Where a batch stopped: behind its last record, or at the first whose projection failed.
abbrev pub Stopped : Columns → List EventRow → World → Option Error → World → Type 0
Stopped pg [] between error after = (error ≡ none) × (after ≡ between)
Stopped pg (r ∷ rs) between error after =
    (ev : Event) × (e : Error) × (deserialize_event r ≡ some ev)
    × ((project pg ev between).0 ≡ err e)
    × (error ≡ some e)
    × (after ≡ (project pg ev between).1)

-- A batch in progress: what it handled, what it left, and the world between the two.
abbrev pub BatchSplit : Columns → List EventRow → ℕ → ℕ → World → Progress × World → Type 0
BatchSplit pg recs last_id processed w r =
    (done : List EventRow) × (rest : List EventRow) × (between : World) × (done ++ rest ≡ recs)
    × Handled pg done w between
    × Stopped pg rest between r.0.2 r.1
    × (r.0.0 ≡ last_id_of last_id done)
    × (r.0.1 ≡ processed + length done)

pub project_batch-skip :
    (pg : Columns) (r : EventRow) (rs : List EventRow) (last_id n : ℕ) (w : World)
    → deserialize_event r ≡ none
    → project_batch pg (r ∷ rs) last_id n w ≡ project_batch pg rs r.id (n + 1) w
unfolding project_batch
project_batch-skip pg r rs last_id n w h = rw (h, project_batch)

pub project_batch-ok :
    (pg : Columns) (r : EventRow) (rs : List EventRow) (last_id n : ℕ) (w : World) (ev : Event)
    → deserialize_event r ≡ some ev
    → (project pg ev w).0 ≡ ok tt
    → project_batch pg (r ∷ rs) last_id n w ≡ project_batch pg rs r.id (n + 1) (project pg ev w).1
unfolding project_batch
project_batch-ok pg r rs last_id n w ev h p = rw (h, p, project_batch)

pub project_batch-err :
    (pg : Columns) (r : EventRow) (rs : List EventRow) (last_id n : ℕ) (w : World) (ev : Event)
    (e : Error)
    → deserialize_event r ≡ some ev
    → (project pg ev w).0 ≡ err e
    → project_batch pg (r ∷ rs) last_id n w ≡ ((last_id, n, some e), (project pg ev w).1)
unfolding project_batch
project_batch-err pg r rs last_id n w ev e h p = rw (h, p, project_batch)

-- A batch handles a first part of its records, counts them, and ends with the id of the last of
-- them; it handles all of them unless a projection fails, and then nothing behind the failure.
pub project_batch-BatchSplit :
    (pg : Columns) (recs : List EventRow) (last_id processed : ℕ) (w : World)
    → BatchSplit pg recs last_id processed w (project_batch pg recs last_id processed w)
project_batch-BatchSplit pg [] last_id n w = (
  [],
  [],
  w,
  refl,
  refl,
  unfold project_batch in (refl, refl),
  unfold project_batch in refl,
  unfold project_batch in omega arith,
)
project_batch-BatchSplit pg (r ∷ rs) last_id n w = elim (Option-cases (deserialize_event r)) [
  | inl x ↦
      let (done, rest, between, is_all, handled, stopped, at, counted) =
        project_batch-BatchSplit pg rs r.id (n + 1) w in
      subst (λ p. BatchSplit pg (r ∷ rs) last_id n w p)
        (sym (project_batch-skip pg r rs last_id n w x))
        (
          r ∷ done,
          rest,
          between,
          ap (λ l. r ∷ l) is_all,
          inl (x, handled),
          stopped,
          at,
          omega (arith, counted),
        )
  | inr (ev, x) ↦ elim (Result-cases (project pg ev w).0) [
    | inl (u, y) ↦
        let (done, rest, between, is_all, handled, stopped, at, counted) =
          project_batch-BatchSplit pg rs r.id (n + 1) (project pg ev w).1 in
        subst (λ p. BatchSplit pg (r ∷ rs) last_id n w p)
          (sym (project_batch-ok pg r rs last_id n w ev x y))
          (
            r ∷ done,
            rest,
            between,
            ap (λ l. r ∷ l) is_all,
            inr (ev, x, y, handled),
            stopped,
            at,
            omega (arith, counted),
          )
    | inr (e, y) ↦
        subst (λ p. BatchSplit pg (r ∷ rs) last_id n w p)
          (sym (project_batch-err pg r rs last_id n w ev e x y))
          ([], r ∷ rs, w, refl, refl, (ev, e, x, y, refl, refl), refl, omega arith)
  ]
]
