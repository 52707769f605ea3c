-- ===== src/EventStore/Outbox.antt =====
-- internal/eventstore/outbox.go: the publisher that moves outbox entries to the Redis channel.
-- Durations are in nanoseconds. The rows that other publishers hold (SKIP LOCKED) are a parameter.
pub mod Batch
pub mod Drain
pub mod Interval
pub mod Delivery
pub mod Workers
use holdex_backend_cqrs.Prelude.{
  ℕ, zero, suc, ◌*◌, ◌^◌, Bool, true, false, not, ◌&&◌, ◌||◌, Option, none, some, List, [], ◌∷◌,
  ◌++◌, ltb, ◌==◌, if◌then◌else◌, ℤ, pos, negsuc, length, take, select, exists, order_by,
}
use holdex_backend_cqrs.Result.{
  Error, begin_failed, query_failed, iteration_failed, publish_failed, delete_failed, commit_failed,
}
use holdex_backend_cqrs.Tables.{OutboxRow, Db}
use holdex_backend_cqrs.World.{World, fault?, rollback}
use holdex_backend_cqrs.World.Bind.{next}

pub record OutboxPublisher : Type 0 where
  pub poll_interval : ℕ

abbrev pub millisecond : ℕ
millisecond = 10 ^ 6

abbrev pub second : ℕ
second = 10 ^ 9

-- A `time.Duration` is signed.
unfoldable pub new_outbox_publisher : ℤ → OutboxPublisher
new_outbox_publisher (negsuc n) = record { poll_interval = 100 * millisecond }
new_outbox_publisher (pos zero) = record { poll_interval = 100 * millisecond }
new_outbox_publisher (pos (suc n)) = record { poll_interval = suc n }

abbrev pub batch_limit : ℕ
batch_limit = 100

-- ORDER BY id ASC LIMIT 100 FOR UPDATE SKIP LOCKED
abbrev pub pending : (ℕ → Bool) → Db → List OutboxRow
pending locked db =
    take batch_limit
      (select (λ r. not (locked r.id)) (order_by (λ (r : OutboxRow). r.id) db.outbox))

-- DELETE FROM outbox_events WHERE id = ANY($1)
abbrev pub delete_ids : List ℕ → Db → Db
delete_ids ids db = record db { outbox = select (λ r. not (exists (λ i. i == r.id) ids)) db.outbox }

abbrev pub send : OutboxRow → World → World
send r w = record w { bus = w.bus ++ r.payload ∷ [] }

-- The loop over the records: the ids published, and whether a publication failed and broke it off.
unfoldable pub publish_records : List OutboxRow → World → (List ℕ × Bool) × World
publish_records [] w = (([], false), w)
publish_records (r ∷ rs) w =
    let rest = publish_records rs (send r (next w)) in
    if fault? w.faults then (([], true), next w) else ((r.id ∷ rest.0.0, rest.0.1), rest.1)

-- What `publishBatch` returns: a count, and an error or nil.
abbrev pub Batch : Type 0
Batch = ℕ × Option Error

-- The commit, after a transaction that began with the tables `before`: the error counts what was
-- published, and success the records of the batch.
unfoldable pub commit_batch : Db → ℕ → ℕ → Bool → World → Batch × World
commit_batch before published records failed w =
    if fault? w.faults
    then ((published, some commit_failed), record (next w) { db = rollback before w.db })
    else if failed
    then ((published, some publish_failed), next w)
    else ((records, none), next w)

-- The bulk delete, where there is something to delete.
unfoldable pub delete_batch : List ℕ → ℕ → Bool → World → Batch × World
unfolding commit_batch
delete_batch [] records failed w = commit_batch w.db 0 records failed w
delete_batch (i ∷ ids) records failed w =
    if fault? w.faults
    then ((length (i ∷ ids), some delete_failed), next w)
    else commit_batch w.db (length (i ∷ ids)) records failed
        (record (next w) { db = delete_ids (i ∷ ids) w.db })

unfoldable pub publish_pending : List OutboxRow → World → Batch × World
unfolding publish_records delete_batch
publish_pending [] w = ((0, none), w)
publish_pending (r ∷ rs) w =
    let ((ids, failed), w') = publish_records (r ∷ rs) w in
    delete_batch ids (length (r ∷ rs)) failed w'

unfoldable pub publish_batch : (ℕ → Bool) → World → Batch × World
unfolding publish_pending
publish_batch locked w =
    if fault? w.faults
    then ((0, some begin_failed), next w)
    else if fault? (next w).faults
    then ((0, some query_failed), next (next w))
    else if fault? (next (next w)).faults
    then ((0, some iteration_failed), next (next (next w)))
    else publish_pending (pending locked w.db) (next (next (next w)))

abbrev pub max_interval : ℕ
max_interval = 2 * second

-- The interval that `Start` waits after a batch.
unfoldable pub next_interval : OutboxPublisher → ℕ → Batch → ℕ
next_interval p current (count, some e) = 1 * second
next_interval p current (count, none) =
    if ltb 0 count
    then p.poll_interval
    else let doubled = current * 2 in if ltb max_interval doubled then max_interval else doubled

-- `Start` for a number of rounds, with the locks that each of them meets; the intervals waited.
unfoldable pub start : OutboxPublisher → List (ℕ → Bool) → ℕ → World → List ℕ × World
unfolding publish_batch next_interval
start p [] current w = ([], w)
start p (locked ∷ rounds) current w =
    let (batch, w') = publish_batch locked w in
    let interval = next_interval p current batch in
    let (waited, w'') = start p rounds interval w' in (interval ∷ waited, w'')
