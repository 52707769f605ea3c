-- ===== src/EventStore/Outbox/Workers.antt =====
-- Several outbox publishers at once: publishBatch of outbox.go, cut into the actions that other
-- workers and appends come between. Each action of one worker is atomic: SELECT ... FOR UPDATE SKIP
-- LOCKED, one Publish, the DELETE with its Commit, and the end of a transaction without a commit.
pub mod Counting
pub mod Ledger
pub mod Batches
use holdex_backend_cqrs.Prelude.{ℕ, ◌≡◌, Bool, List, [], ◌∷◌, ◌++◌, ◌==◌, exists, replicate}
use holdex_backend_cqrs.Json.{Json}
use holdex_backend_cqrs.Tables.{OutboxRow, Db}
use holdex_backend_cqrs.EventStore.{add_outbox}
use holdex_backend_cqrs.EventStore.Outbox.{pending, delete_ids}
use holdex_backend_cqrs.EventStore.Outbox.Batch.{ids}

-- A worker is between two transactions, or has published a first part of its records.
pub data Worker : Type 0 where
  idle : Worker
  publishing : List OutboxRow → List OutboxRow → Worker

-- The rows that its transaction has locked.
abbrev pub held : Worker → List OutboxRow
held idle = []
held (publishing sent left) = sent ++ left

abbrev pub locked_by : List Worker → ℕ → Bool
locked_by workers i = exists (λ p. exists (λ (r : OutboxRow). r.id == i) (held p)) workers

-- What the workers share, and what has happened so far: the rows written to the outbox, the rows
-- published, and those of them whose transaction ended without a commit.
pub record Shared : Type 0 where
  pub db : Db
  pub bus : List Json
  pub workers : List Worker
  pub written : List OutboxRow
  pub published : List OutboxRow
  pub rolled_back : List OutboxRow

abbrev pub new_row : ℕ → Json → Db → OutboxRow
new_row event_id payload db = record {
  id = db.next_outbox_id;
  event_id = event_id;
  payload = payload;
}

-- One action. The worker is the one between `before` and `after`.
pub data WorkerStep (s : Shared) : Shared → Type 0 where
  -- AppendEvents commits an entry.
  append :
      (event_id : ℕ) (payload : Json)
      → WorkerStep s (record s {
        db = add_outbox event_id payload s.db;
        written = s.written ++ new_row event_id payload s.db ∷ [];
      })
  -- The query locks the first rows that no other worker holds.
  claim :
      (before after : List Worker)
      → s.workers ≡ before ++ idle ∷ after
      → WorkerStep s (record s {
        workers = before ++ publishing [] (pending (locked_by (before ++ after)) s.db) ∷ after;
      })
  publish :
      (before after : List Worker) (sent left : List OutboxRow) (r : OutboxRow)
      → s.workers ≡ before ++ publishing sent (r ∷ left) ∷ after
      → WorkerStep s (record s {
        bus = s.bus ++ r.payload ∷ [];
        published = s.published ++ r ∷ [];
        workers = before ++ publishing (sent ++ r ∷ []) left ∷ after;
      })
  -- The loop is over, or a failed publication broke it off: delete what was published, and commit.
  commit :
      (before after : List Worker) (sent left : List OutboxRow)
      → s.workers ≡ before ++ publishing sent left ∷ after
      → WorkerStep s
          (record s { db = delete_ids (ids sent) s.db; workers = before ++ idle ∷ after })
  -- A failed statement, a failed commit or a crash: the transaction is rolled back.
  abort :
      (before after : List Worker) (sent left : List OutboxRow)
      → s.workers ≡ before ++ publishing sent left ∷ after
      → WorkerStep s
          (record s { rolled_back = s.rolled_back ++ sent; workers = before ++ idle ∷ after })

pub data WorkerSteps (s : Shared) : Shared → Type 0 where
  none_yet : WorkerSteps s s
  then_step : {t u : Shared} → WorkerSteps s t → WorkerStep t u → WorkerSteps s u

-- A number of idle workers over an empty outbox.
abbrev pub at_start : ℕ → Db → List Json → Shared
at_start n db bus = record {
  db = record db { outbox = [] };
  bus = bus;
  workers = replicate n idle;
  written = [];
  published = [];
  rolled_back = [];
}
