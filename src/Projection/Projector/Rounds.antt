-- ===== src/Projection/Projector/Rounds.antt =====
-- One round of `Start` in projector.go over the events table: which events its batch has handled.
use mathlib.Core.List.{Memᴰ, append_assoc}
use holdex_backend_cqrs.Prelude.{
  ℕ, suc, ◌≤◌, ◌<◌, ◌≡◌, refl, sym, ap, subst, ◌∙◌, List, [], ◌∷◌, ◌++◌, ◌⊎◌, inl, inr, Bool-cases,
  arith, ltb, ltb→lt, take, drop, take-append-drop, select, Ascending, select-Ascending, select-Mem,
  le-Mem, order_by-Ascending,
}
use holdex_backend_cqrs.Result.{Error, ok, err, query_failed, iteration_failed}
use holdex_backend_cqrs.Tables.{Columns, EventRow, Db}
use holdex_backend_cqrs.World.{World, fault?}
use holdex_backend_cqrs.World.Bind.{next}
use holdex_backend_cqrs.Projection.ReadModel.{new_events, get_new_events}
use holdex_backend_cqrs.Projection.Projector.{Loop, project_batch, handle_records, round}
use holdex_backend_cqrs.Projection.Projector.Batch.{
  row_id, last_id_of, Handled, Stopped, project_batch-BatchSplit,
}

-- In a table with increasing ids, whatever is not past the last record handled was handled.
Mem-last_id :
    {r : EventRow} (lo last : ℕ) (done tail : List EventRow)
    → Ascending row_id lo (done ++ tail)
    → last < lo
    → Memᴰ r (done ++ tail)
    → r.id ≤ last_id_of last done
    → Memᴰ r done
Mem-last_id lo last [] tail a l m h = absurd (omega (arith, le-Mem row_id lo tail a m))
Mem-last_id lo last (d ∷ done) tail a l (Memᴰ.head e) h = Memᴰ.head e
Mem-last_id lo last (d ∷ done) tail a l (Memᴰ.tail m) h =
    Memᴰ.tail (Mem-last_id (suc d.id) d.id done tail a.1 (omega arith) m h)

-- The records behind the last id, split at what a batch has handled.
pub new_events-select :
    (last_id : ℕ) (db : Db)
    → Ascending row_id 0 db.events
    → new_events last_id 100 db ≡ take 100 (select (λ r. ltb last_id r.id) db.events)
new_events-select last_id db a =
    ap (take 100) (
      order_by-Ascending row_id 0 _ (select-Ascending row_id 0 (λ r. ltb last_id r.id) db.events a))

pub Ascending-past :
    (lo last : ℕ) (xs : List EventRow)
    → Ascending row_id lo xs
    → Ascending row_id (suc last) (select (λ r. ltb last r.id) xs)
Ascending-past lo last [] a = tt
Ascending-past lo last (x ∷ xs) a = elim (Bool-cases (ltb last x.id)) [
  | inl y ↦
      rw y (ltb→lt last x.id y, select-Ascending row_id (suc x.id) (λ r. ltb last r.id) xs a.1)
  | inr n ↦ rw n (Ascending-past (suc x.id) last xs a.1)
]

no_gap :
    {r : EventRow} (last_id : ℕ) (db : Db) (done rest : List EventRow)
    → Ascending row_id 0 db.events
    → done ++ rest ≡ new_events last_id 100 db
    → Memᴰ r db.events
    → r.id ≤ last_id_of last_id done
    → (r.id ≤ last_id) ⊎ Memᴰ r done
no_gap {r} last_id db done rest a is_all m h = elim (Bool-cases (ltb last_id r.id)) [
  | inl y ↦
      let past = select (λ (s : EventRow). ltb last_id s.id) db.events in
      let whole : past ≡ done ++ (rest ++ drop 100 past) =
        sym (take-append-drop 100 past)
        ∙ ap (λ xs. xs ++ drop 100 past) (sym (is_all ∙ new_events-select last_id db a))
        ∙ append_assoc done rest (drop 100 past) in
      inr (
        Mem-last_id (suc last_id) last_id done (rest ++ drop 100 past)
          (subst (λ xs. Ascending row_id (suc last_id) xs) whole
            (Ascending-past 0 last_id db.events a))
          (omega arith)
          (subst (λ xs. Memᴰ r xs) whole (select-Mem (λ s. ltb last_id s.id) db.events m y)) h)
  | inr n ↦ inl (ground arith)
]

pub get_new_events-cases :
    (last_id : ℕ) (w : World)
    → ((e : Error) × (v : World) × (get_new_events last_id 100 w ≡ (err e, v)) × (v.db ≡ w.db))
      ⊎ (get_new_events last_id 100 w ≡ (ok (new_events last_id 100 w.db), next (next w)))
unfolding get_new_events
get_new_events-cases last_id w = elim (Bool-cases (fault? w.faults)) [
  | inl x ↦ inl (query_failed, next w, rw x, refl)
  | inr x ↦ elim (Bool-cases (fault? (next w).faults)) [
    | inl y ↦ inl (iteration_failed, next (next w), rw x (rw y), refl)
    | inr y ↦ inr (rw x (rw y))
  ]
]

-- In the round that starts with this loop and world, the batch that the query delivers has handled the
-- record: it is in the first part of the batch, which was handled in order from the world of the query
-- on, and behind which the batch stopped.
abbrev pub WasHandled : Columns → Loop → World → EventRow → Type 0
WasHandled pg l w r =
    (recs : List EventRow) × (v : World) × (done : List EventRow) × (rest : List EventRow)
    × (between : World) × (get_new_events l.last_id 100 w ≡ (ok recs, v))
    × (done ++ rest ≡ recs)
    × Memᴰ r done
    × Handled pg done v between
    × Stopped pg rest between (project_batch pg recs l.last_id 0 v).0.2
        (project_batch pg recs l.last_id 0 v).1

handle_records-no_gap :
    (pg : Columns) (l : Loop) (w v : World) (recs : List EventRow) (r : EventRow)
    → recs ≡ new_events l.last_id 100 w.db
    → get_new_events l.last_id 100 w ≡ (ok recs, v)
    → Ascending row_id 0 w.db.events
    → Memᴰ r w.db.events
    → r.id ≤ (handle_records pg (ok recs) l v).0.last_id
    → (r.id ≤ l.last_id) ⊎ WasHandled pg l w r
unfolding handle_records
handle_records-no_gap pg l w v [] r e got a m h = inl h
handle_records-no_gap pg l w v (x ∷ xs) r e got a m h =
    let (done, rest, between, is_all, handled, stopped, at, counted) =
      project_batch-BatchSplit pg (x ∷ xs) l.last_id 0 v in
    elim (no_gap l.last_id w.db done rest a (is_all ∙ e) m (omega (arith, at))) [
      | inl old ↦ inl old
      | inr new ↦ inr (x ∷ xs, v, done, rest, between, got, is_all, new, handled, stopped)
    ]

-- Whatever fails, a round that moves the last id past an event has handled it.
pub round_no_gap :
    (pg : Columns) (l : Loop) (w : World) (r : EventRow)
    → Ascending row_id 0 w.db.events
    → Memᴰ r w.db.events
    → r.id ≤ (round pg l w).0.last_id
    → (r.id ≤ l.last_id) ⊎ WasHandled pg l w r
unfolding round
round_no_gap pg l w r a m h = elim (get_new_events-cases l.last_id w) [
  | inl (e, v, failed, same) ↦
      inl (subst (λ p. r.id ≤ (handle_records pg p.0 l p.1).0.last_id) failed h)
  | inr got ↦
      handle_records-no_gap pg l w (next (next w)) (new_events l.last_id 100 w.db) r refl got a m
        (subst (λ p. r.id ≤ (handle_records pg p.0 l p.1).0.last_id) got h)
]
