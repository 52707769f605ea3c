-- ===== src/Examples/Competing.antt =====
-- The theorems on outbox publishers that work at once, at two workers and one entry.
use holdex_backend_cqrs.Prelude.{◌+◌, ◌≤◌, ◌≡◌, refl, true, false, [], ◌∷◌, ◌++◌}
use holdex_backend_cqrs.Tables.{OutboxRow, empty_db}
use holdex_backend_cqrs.EventStore.Outbox.{publish_batch}
use holdex_backend_cqrs.EventStore.Outbox.Batch.{payloads}
use holdex_backend_cqrs.EventStore.Outbox.Workers.{
  idle, publishing, locked_by, Shared, append, claim, publish, commit, abort, WorkerSteps, none_yet,
  then_step, at_start,
}
use holdex_backend_cqrs.EventStore.Outbox.Workers.Counting.{times, times_held}
use holdex_backend_cqrs.EventStore.Outbox.Workers.Ledger.{WorkerSteps-Accounted}
use holdex_backend_cqrs.EventStore.Outbox.Workers.Batches.{
  world_of, Transaction, publish_batch-Transaction,
}
use holdex_backend_cqrs.Examples.{message, two_events}

abbrev entry : OutboxRow
entry = record { id = 1; event_id = 1; payload = message 1 }

-- The first worker publishes the entry and is rolled back; the second one publishes it again.
abbrev after_retry : Shared
after_retry = record {
  db = record empty_db { next_outbox_id = 2 };
  bus = message 1 ∷ message 1 ∷ [];
  workers = idle ∷ idle ∷ [];
  written = entry ∷ [];
  published = entry ∷ entry ∷ [];
  rolled_back = entry ∷ [];
}

retried : WorkerSteps (at_start 2 empty_db []) after_retry
retried =
    then_step
      (then_step
        (then_step
          (then_step
            (then_step
              (then_step (then_step none_yet (append 1 (message 1))) (claim [] (idle ∷ []) refl))
              (publish [] (idle ∷ []) [] [] entry refl))
            (abort [] (idle ∷ []) (entry ∷ []) [] refl))
          (claim (idle ∷ []) [] refl))
        (publish (idle ∷ []) [] [] [] entry refl))
      (commit (idle ∷ []) [] (entry ∷ []) [] refl)

WorkerSteps-Accounted_example :
    (times_held 1 after_retry.workers ≤ 1)
    × (times 1 after_retry.published ≤ times 1 after_retry.rolled_back + 1)
    × (times 1 after_retry.written ≤ times 1 after_retry.db.outbox + times 1 after_retry.published)
    × (after_retry.bus ≡ [] ++ payloads after_retry.published)
WorkerSteps-Accounted_example = WorkerSteps-Accounted 2 empty_db [] after_retry 1 retried

-- One of two entries is held by another worker.
abbrev busy : Shared
busy = record {
  db = two_events;
  bus = [];
  workers = idle ∷ publishing [] (entry ∷ []) ∷ [];
  written = two_events.outbox;
  published = [];
  rolled_back = [];
}

publish_batch-Transaction_example :
    (t : Shared) × Transaction []
      (publishing [] (entry ∷ []) ∷ [])
      busy
      (publish_batch (locked_by busy.workers) (world_of busy [] (false ∷ true ∷ []))).0.1
      t
    × WorkerSteps busy t
    × (t.db ≡ (publish_batch (locked_by busy.workers) (world_of busy [] (false ∷ true ∷ []))).1.db)
    × (t.bus
        ≡ (publish_batch (locked_by busy.workers) (world_of busy [] (false ∷ true ∷ []))).1.bus)
    × (t.workers ≡ idle ∷ publishing [] (entry ∷ []) ∷ [])
publish_batch-Transaction_example =
    publish_batch-Transaction [] (publishing [] (entry ∷ []) ∷ []) busy [] (false ∷ true ∷ []) refl
