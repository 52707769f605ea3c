-- ===== src/EventStore/Outbox/Workers/Batches.antt =====
-- A whole publishBatch is one transaction of a worker, which no other one comes between.
use mathlib.Core.List.{append-nil, append_assoc}
use holdex_backend_cqrs.Prelude.{
  ◌≡◌, refl, sym, ap, subst, ◌∙◌, Option, none, some, List, [], ◌∷◌, ◌++◌, inl, inr, Bool, String,
}
use holdex_backend_cqrs.Json.{Json}
use holdex_backend_cqrs.Result.{Error, publish_failed}
use holdex_backend_cqrs.Tables.{OutboxRow, Db}
use holdex_backend_cqrs.World.{World, CacheEntry}
use holdex_backend_cqrs.EventStore.Outbox.{Batch, pending, delete_ids, publish_batch}
use holdex_backend_cqrs.EventStore.Outbox.Batch.{
  ids, payloads, RollsBack, IsSettled, publish_batch-IsSettled,
}
use holdex_backend_cqrs.EventStore.Outbox.Workers.{
  Worker, idle, publishing, locked_by, Shared, claim, publish, commit, abort, WorkerSteps, none_yet,
  then_step,
}

-- The world that a worker sees.
abbrev pub world_of : Shared → List (String × CacheEntry) → List Bool → World
world_of s cache faults = record { db = s.db; bus = s.bus; cache = cache; faults = faults }

-- What one worker does from `start` on, while no other one acts: it claims its records, once, and
-- publishes them one after the other. `sent` are published, `left` are not.
module _ (before after : List Worker) where
  pub data Sending (start : Shared) : List OutboxRow → List OutboxRow → Shared → Type 0 where
    claimed :
        start.workers ≡ before ++ idle ∷ after
        → Sending start [] (pending (locked_by (before ++ after)) start.db) (record start {
          workers =
              before ++ publishing [] (pending (locked_by (before ++ after)) start.db) ∷ after;
        })
    then_sent :
        {sent left : List OutboxRow} {t : Shared} (r : OutboxRow)
        → Sending start sent (r ∷ left) t
        → Sending start (sent ++ r ∷ []) left (record t {
          bus = t.bus ++ r.payload ∷ [];
          published = t.published ++ r ∷ [];
          workers = before ++ publishing (sent ++ r ∷ []) left ∷ after;
        })

  abbrev pub committed : List OutboxRow → Shared → Shared
  committed sent t = record t { db = delete_ids (ids sent) t.db; workers = before ++ idle ∷ after }

  abbrev pub aborted : List OutboxRow → Shared → Shared
  aborted sent t = record t {
    rolled_back = t.rolled_back ++ sent;
    workers = before ++ idle ∷ after;
  }

  -- One transaction of the worker, by the error that it ends with: without one all is published and
  -- the deletion committed; after a failed publication the deletion of what was published; and after
  -- another error the transaction is rolled back.
  pub data Transaction (start : Shared) : Option Error → Shared → Type 0 where
    all_sent :
        {sent : List OutboxRow} {t : Shared}
        → Sending start sent [] t
        → Transaction start none (committed sent t)
    broken_off :
        {sent left : List OutboxRow} {t : Shared}
        → Sending start sent left t
        → Transaction start (some publish_failed) (committed sent t)
    undone :
        {sent left : List OutboxRow} {t : Shared} {e : Error}
        → RollsBack sent e
        → Sending start sent left t
        → Transaction start (some e) (aborted sent t)

  Sending-at :
      (start : Shared) {sent left : List OutboxRow} {t : Shared}
      → Sending start sent left t
      → t.workers ≡ before ++ publishing sent left ∷ after
  Sending-at start (claimed at) = refl
  Sending-at start (then_sent r sending) = refl

  Sending-WorkerSteps :
      (start : Shared) {sent left : List OutboxRow} {t : Shared}
      → Sending start sent left t
      → WorkerSteps start t
  Sending-WorkerSteps start (claimed at) = then_step none_yet (claim before after at)
  Sending-WorkerSteps start (then_sent {sent} {left} r sending) =
      then_step (Sending-WorkerSteps start sending)
        (publish before after sent left r (Sending-at start sending))

  -- The transaction of a worker is a run of the step relation.
  pub Transaction-WorkerSteps :
      (start : Shared) {e : Option Error} {t : Shared} → Transaction start e t → WorkerSteps start t
  Transaction-WorkerSteps start (all_sent {sent} sending) =
      then_step (Sending-WorkerSteps start sending)
        (commit before after sent [] (Sending-at start sending))
  Transaction-WorkerSteps start (broken_off {sent} {left} sending) =
      then_step (Sending-WorkerSteps start sending)
        (commit before after sent left (Sending-at start sending))
  Transaction-WorkerSteps start (undone {sent} {left} rolls_back sending) =
      then_step (Sending-WorkerSteps start sending)
        (abort before after sent left (Sending-at start sending))

module _ (before after : List Worker) (start : Shared) where
  -- What was published of the worker's records, with these messages on the channel.
  abbrev Reaches : List OutboxRow → List OutboxRow → List Json → Type 0
  Reaches sent left bus =
      (t : Shared) × Sending before after start sent left t × (t.db ≡ start.db) × (t.bus ≡ bus)

  Reaches-publish :
      (todo rest done : List OutboxRow) (bus : List Json)
      → Reaches done (todo ++ rest) bus
      → Reaches (done ++ todo) rest (bus ++ payloads todo)
  Reaches-publish [] rest done bus (t, sending, same_db, same_bus) = (
    t,
    subst (λ d. Sending before after start d rest t) (sym (append-nil done)) sending,
    same_db,
    same_bus ∙ sym (append-nil bus),
  )
  Reaches-publish (r ∷ todo) rest done bus (t, sending, same_db, same_bus) =
      let published : Reaches (done ++ r ∷ []) (todo ++ rest) (bus ++ r.payload ∷ []) =
        (_, then_sent r sending, same_db, ap (λ b. b ++ r.payload ∷ []) same_bus) in
      subst (λ b. Reaches (done ++ r ∷ todo) rest b)
        (append_assoc bus (r.payload ∷ []) (payloads todo))
        (subst (λ d. Reaches d rest ((bus ++ r.payload ∷ []) ++ payloads todo))
          (append_assoc done (r ∷ []) todo)
          (Reaches-publish todo rest (done ++ r ∷ []) (bus ++ r.payload ∷ []) published))

  -- What a transaction leaves, by the error that it ends with.
  abbrev Ends : Option Error → Db → List Json → Type 0
  Ends e db bus =
      (t : Shared) × Transaction before after start e t
      × (t.db ≡ db)
      × (t.bus ≡ bus)
      × (t.workers ≡ before ++ idle ∷ after)

  Reaches-settled :
      (sent rest : List OutboxRow) (bus : List Json) (batch : Batch) (db : Db)
      → Reaches sent rest bus
      → IsSettled sent rest start.db batch db
      → Ends batch.1 db bus
  Reaches-settled sent rest bus (count, none) db (t, sending, same_db, same_bus)
        (nothing_left, deleted, counted) =
      (
        _,
        all_sent (subst (λ l. Sending before after start sent l t) nothing_left sending),
        ap (delete_ids (ids sent)) same_db ∙ sym deleted,
        same_bus,
        refl,
      )
  Reaches-settled sent rest bus (count, some e) db (t, sending, same_db, same_bus)
        (counted, inl (unchanged, error)) =
      (_, undone error sending, same_db ∙ sym unchanged, same_bus, refl)
  Reaches-settled sent rest bus (count, some e) db (t, sending, same_db, same_bus)
        (counted, inr (deleted, failed)) =
      (
        committed before after sent t,
        subst (λ f. Transaction before after start (some f) (committed before after sent t))
            (sym failed) (broken_off sending),
        ap (delete_ids (ids sent)) same_db ∙ sym deleted,
        same_bus,
        refl,
      )

  -- Whatever fails in it, publishBatch by an idle worker that meets the locks of the others is one
  -- transaction of this worker, in which no other one acts: with the error that publishBatch returns,
  -- the same tables and the same messages; and the worker is idle again. Such a transaction is a run
  -- of the step relation.
  pub publish_batch-Transaction :
      (cache : List (String × CacheEntry)) (faults : List Bool)
      → start.workers ≡ before ++ idle ∷ after
      → (t : Shared) × Transaction before after start
          (publish_batch (locked_by (before ++ after)) (world_of start cache faults)).0.1
          t
        × WorkerSteps start t
        × (t.db ≡ (publish_batch (locked_by (before ++ after)) (world_of start cache faults)).1.db)
        × (t.bus
            ≡ (publish_batch (locked_by (before ++ after)) (world_of start cache faults)).1.bus)
        × (t.workers ≡ before ++ idle ∷ after)
  publish_batch-Transaction cache faults at =
      let w = world_of start cache faults in
      let locked = locked_by (before ++ after) in
      let (sent, rest, is_all, on_bus, settled) = publish_batch-IsSettled locked w in
      let first : Reaches [] (sent ++ rest) start.bus = (
        _,
        subst
            (λ rows. Sending before after start [] rows (record start {
              workers = before ++ publishing [] (pending locked start.db) ∷ after;
            }))
            (sym is_all) (claimed at),
        refl,
        refl,
      ) in
      let published = Reaches-publish sent rest [] start.bus first in
      let (t, transaction, same_db, same_bus, idle_again) =
        Reaches-settled sent rest (publish_batch locked w).1.bus (publish_batch locked w).0 _
          (rw on_bus published) settled in
      (
        t,
        transaction,
        Transaction-WorkerSteps before after start transaction,
        same_db,
        same_bus,
        idle_again,
      )
