-- ===== src/EventStore.antt =====
-- internal/eventstore/store.go: appending events with their outbox entries in one transaction, and
-- reading them back. The advisory lock and the transaction make an append one step of the world;
-- each statement may fail. The proofs are in the modules below.
pub mod Codec
pub mod Append
pub mod Numbering
pub mod Reading
pub mod Outbox
pub mod Subscription
use holdex_backend_cqrs.Prelude.{
  ℕ, ◌+◌, String, not, Option, none, some, List, [], ◌∷◌, ◌++◌, str_eq, ◌==◌, if◌then◌else◌, ℤ, pos,
  negsuc, order_by,
}
use holdex_backend_cqrs.Result.{
  begin_failed, lock_failed, version_query_failed, insert_failed, serialize_failed, outbox_failed,
  commit_failed, query_failed, iteration_failed, deserialize_failed, version_conflict,
  duplicate_version,
}
use holdex_backend_cqrs.Json.{
  Json, text, int, timestamp, base64, object, end, field, null, is_json_time, read_text, read_int,
  read_time, read_bytes, read_struct,
}
use holdex_backend_cqrs.Domain.Market.{
  Event, market_event, base, new_data_fetched_event, unmarshal_payload,
}
use holdex_backend_cqrs.Tables.{
  Columns, EventRow, Db, rows_of, has_version, max_version, latest_row,
}
use holdex_backend_cqrs.World.{
  Exec, ◌>>=◌, ◌>>◌, pure, gets, modify, require, from_option, attempt, transaction,
}
use mathlib.Core.Option

pub record EventWrapper : Type 0 where
  pub type : String
  pub aggregate_id : String
  pub version : ℕ
  pub time : ℕ
  pub bytes : Json

unfoldable pub serialize_event : Event → Option Json
serialize_event event =
    let b = base event in
    if is_json_time b.time
    then some (
        object (
          field "type" (text b.type) (
            field "aggregate_id" (text b.agg_id) (
              field "version" (int b.vers)
                (field "timestamp" (timestamp b.time) (field "data" (base64 b.payload) end))))))
    else none

-- The members of `eventWrapper` by their struct tags.
set_member : String → Json → EventWrapper → Option EventWrapper
set_member k j w =
    if str_eq k "type"
    then Option.map (λ s. record w { type = s }) (read_text j w.type)
    else if str_eq k "aggregate_id"
    then Option.map (λ s. record w { aggregate_id = s }) (read_text j w.aggregate_id)
    else if str_eq k "version"
    then Option.map (λ n. record w { version = n }) (read_int j w.version)
    else if str_eq k "timestamp"
    then Option.map (λ t. record w { time = t }) (read_time j w.time)
    else if str_eq k "data"
    then Option.map (λ d. record w { bytes = d }) (read_bytes j w.bytes)
    else some w

abbrev pub zero_wrapper : EventWrapper
zero_wrapper = record { type = ""; aggregate_id = ""; version = 0; time = 0; bytes = null }

unfoldable pub deserialize_event : String → String → ℕ → ℕ → Json → Option Event
deserialize_event event_type agg_id version time d =
    if str_eq event_type new_data_fetched_event
    then Option.map
        (market_event (record {
          type = event_type;
          agg_id = agg_id;
          agg_type = "Market";
          vers = version;
          time = time;
          payload = d;
        }))
        (unmarshal_payload d)
    else none

unfoldable pub deserialize_raw_json : Json → Option Event
unfolding set_member deserialize_event
deserialize_raw_json j = elim (read_struct set_member j zero_wrapper) [
  | none ↦ none
  | some w ↦ deserialize_event w.type w.aggregate_id w.version w.time w.bytes
]

-- `expectedVersion >= 0 && currentVersion != expectedVersion`
unfoldable pub check_version : ℤ → ℕ → Exec (Unit {0})
check_version (negsuc n) current = pure tt
check_version (pos n) current = require (current == n) (version_conflict n current)

-- nextval of the sequence behind a BIGSERIAL column
abbrev pub take_event_id : Db → Db
take_event_id db = record db { next_event_id = db.next_event_id + 1 }

-- INSERT INTO outbox_events (event_id, payload)
abbrev pub add_outbox : ℕ → Json → Db → Db
add_outbox event_id payload db = record db {
  outbox =
      db.outbox ++ record { id = db.next_outbox_id; event_id = event_id; payload = payload } ∷ [];
  next_outbox_id = db.next_outbox_id + 1;
}

module _ (pg : Columns) where
  abbrev pub event_row : ℕ → Event → EventRow
  event_row id event =
      let b = base event in
      record {
        id = id;
        aggregate_id = b.agg_id;
        aggregate_type = b.agg_type;
        event_type = b.type;
        version = b.vers;
        data_column = b.payload;
        created_at = pg.timestamptz b.time;
      }

  -- INSERT INTO events ... RETURNING id, once the sequence has given the id
  abbrev pub add_event : ℕ → Event → Db → Db
  add_event id event db = record db { events = db.events ++ event_row id event ∷ [] }

  -- The body of the loop over the events.
  unfoldable pub insert_event : Event → Exec (Unit {0})
  insert_event event = do
    let b = base event
    attempt insert_failed
    id ← gets (λ db. db.next_event_id)
    modify take_event_id
    taken ← gets (λ db. has_version b.agg_id b.vers db.events)
    require (not taken) duplicate_version
    modify (add_event id event)
    payload ← from_option serialize_failed (serialize_event event)
    attempt outbox_failed
    modify (add_outbox id payload)

  unfoldable pub insert_events : List Event → Exec (Unit {0})
  unfolding insert_event
  insert_events [] = pure tt
  insert_events (event ∷ events) = do insert_event event; insert_events events

  -- What runs between Begin and the deferred Rollback.
  unfoldable pub append_body : String → ℤ → List Event → Exec (Unit {0})
  unfolding check_version insert_events
  append_body aggregate_id expected_version events = do
    attempt lock_failed
    attempt version_query_failed
    current ← gets (λ db. max_version (rows_of aggregate_id db.events))
    check_version expected_version current
    insert_events events
    attempt commit_failed

  unfoldable pub append_events : String → ℤ → List Event → Exec (Unit {0})
  unfolding append_body transaction
  append_events aggregate_id expected_version [] = pure tt
  append_events aggregate_id expected_version (event ∷ events) = do
    attempt begin_failed
    transaction (append_body aggregate_id expected_version (event ∷ events))

-- `Scan` and `deserializeEvent` of one row.
unfoldable pub load_row : String → EventRow → Option Event
unfolding deserialize_event
load_row aggregate_id r =
    deserialize_event r.event_type aggregate_id r.version r.created_at r.data_column

unfoldable pub load_rows : String → List EventRow → Option (List Event)
unfolding load_row
load_rows aggregate_id [] = some []
load_rows aggregate_id (r ∷ rs) = elim (load_row aggregate_id r) [
  | none ↦ none
  | some event ↦ Option.map (λ events. event ∷ events) (load_rows aggregate_id rs)
]

-- The two faults are the query and the iteration over its rows (`Scan` and `rows.Err`).
unfoldable pub load_events : String → Exec (List Event)
unfolding load_rows
load_events aggregate_id = do
  attempt query_failed
  attempt iteration_failed
  rows ← gets (λ db. order_by (λ r. r.version) (rows_of aggregate_id db.events))
  from_option deserialize_failed (load_rows aggregate_id rows)

-- `none` is the nil event of an aggregate that has none (pgx.ErrNoRows).
unfoldable pub load_latest : String → Option EventRow → Exec (Option Event)
unfolding load_row
load_latest aggregate_id none = pure none
load_latest aggregate_id (some r) =
    from_option deserialize_failed (Option.map some (load_row aggregate_id r))

unfoldable pub get_latest_event : String → Exec (Option Event)
unfolding load_latest
get_latest_event aggregate_id = do
  attempt query_failed
  row ← gets (λ db. latest_row (rows_of aggregate_id db.events))
  load_latest aggregate_id row
