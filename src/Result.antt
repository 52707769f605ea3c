-- ===== src/Result.antt =====
-- The errors that the program returns, one constructor for each place that makes or wraps one, and
-- results that may be errors.
use holdex_backend_cqrs.Prelude.{ℕ, String}

pub data Error : Type 0 where
  -- market/aggregate.go
  empty_coin_id negative_price create_event_failed : Error
  unknown_command : String → Error
  -- eventstore/store.go; a conflict carries the expected and the current version, or neither
  begin_failed lock_failed version_query_failed insert_failed serialize_failed outbox_failed : Error
  commit_failed query_failed iteration_failed deserialize_failed : Error
  version_conflict : ℕ → ℕ → Error
  duplicate_version : Error
  -- eventstore/outbox.go
  publish_failed delete_failed : Error
  -- projection/readmodel.go
  upsert_failed history_failed checkpoint_failed : Error
  -- pgx.ErrNoRows, which is told from other errors
  no_rows : Error

pub data Result {ℓ} (A : Type ℓ) : Type ℓ where
  ok : A → Result A
  err : Error → Result A
