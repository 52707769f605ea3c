-- ===== src/EventStore/Append/Sessions.antt =====
-- Several transactions of AppendEvents in internal/eventstore/store.go at once: each statement of a
-- session is one action, between which other sessions act. A session sees the committed rows and its
-- own ones. The key of the advisory lock is fnv.New64a of the aggregate id, a parameter; PostgreSQL
-- gives a key to one session at a time, until its transaction ends.
pub mod Turns
pub mod Isolation
use holdex_backend_cqrs.Prelude.{
  ℕ, ◌+◌, ◌≡◌, ◌≢◌, String, Bool, false, Option, none, some, List, [], ◌∷◌, ◌++◌, ◌==◌, pos,
  if◌then◌else◌,
}
use holdex_backend_cqrs.Json.{Json}
use holdex_backend_cqrs.Domain.Market.{Event, base}
use holdex_backend_cqrs.Tables.{Columns, EventRow, OutboxRow, Db, rows_of, has_version, max_version}
use holdex_backend_cqrs.EventStore.{serialize_event, event_row, take_event_id}
use holdex_backend_cqrs.EventStore.Append.{Accepts}
use holdex_backend_cqrs.EventStore.Numbering.{Consecutive}

-- A session is outside of a transaction, waits for the lock, holds it, or has passed the version
-- check: then it has events left, and rows that are not committed yet.
pub data AppendSession : Type 0 where
  outside : AppendSession
  waiting : String → ℕ → List Event → AppendSession
  holding : String → ℕ → List Event → AppendSession
  writing : String → List Event → List EventRow → List OutboxRow → AppendSession

-- The aggregate whose lock it holds.
abbrev pub lock_of : AppendSession → Option String
lock_of outside = none
lock_of (waiting agg_id expected events) = none
lock_of (holding agg_id expected events) = some agg_id
lock_of (writing agg_id left rows entries) = some agg_id

-- The committed tables with their sequences, and the sessions by their numbers.
pub record Concurrent : Type 0 where
  pub db : Db
  pub sessions : ℕ → AppendSession

abbrev pub with_session : (ℕ → AppendSession) → ℕ → AppendSession → ℕ → AppendSession
with_session sessions i session j = if i == j then session else sessions j

abbrev pub take_outbox_id : Db → Db
take_outbox_id db = record db { next_outbox_id = db.next_outbox_id + 1 }

abbrev pub commit_rows : List EventRow → List OutboxRow → Db → Db
commit_rows rows entries db = record db {
  events = db.events ++ rows;
  outbox = db.outbox ++ entries;
}

abbrev pub entry_of : Event → Json → Db → OutboxRow
entry_of e j db = record { id = db.next_outbox_id; event_id = db.next_event_id; payload = j }

module _ (pg : Columns) (lock_key : String → ℕ) where
  -- One action of the session i.
  pub data Action (s : Concurrent) : Concurrent → Type 0 where
    -- AppendEvents as ProcessMarketData calls it: its events follow the expected version.
    begin :
        (i : ℕ) (agg_id : String) (expected : ℕ) (events : List Event)
        → s.sessions i ≡ outside
        → Consecutive agg_id expected events
        → Action s
            (record s { sessions = with_session s.sessions i (waiting agg_id expected events) })
    lock :
        (i : ℕ) (agg_id : String) (expected : ℕ) (events : List Event)
        → s.sessions i ≡ waiting agg_id expected events
        → ((j : ℕ) (other : String)
            → lock_of (s.sessions j) ≡ some other
            → lock_key other ≢ lock_key agg_id)
        → Action s
            (record s { sessions = with_session s.sessions i (holding agg_id expected events) })
    -- The version query and the check.
    check :
        (i : ℕ) (agg_id : String) (expected : ℕ) (events : List Event)
        → s.sessions i ≡ holding agg_id expected events
        → Accepts (pos expected) (max_version (rows_of agg_id s.db.events))
        → Action s (record s { sessions = with_session s.sessions i (writing agg_id events [] []) })
    -- The two insertions for an event, which the unique constraint lets pass.
    insert :
        (i : ℕ) (agg_id : String) (e : Event) (left : List Event) (rows : List EventRow)
        (entries : List OutboxRow) (j : Json)
        → s.sessions i ≡ writing agg_id (e ∷ left) rows entries
        → has_version (base e).agg_id (base e).vers (s.db.events ++ rows) ≡ false
        → serialize_event e ≡ some j
        → Action s (record {
          db = take_outbox_id (take_event_id s.db);
          sessions = with_session s.sessions i (
              writing agg_id left
                (rows ++ event_row pg s.db.next_event_id e ∷ [])
                (entries ++ entry_of e j s.db ∷ []));
        })
    commit :
        (i : ℕ) (agg_id : String) (rows : List EventRow) (entries : List OutboxRow)
        → s.sessions i ≡ writing agg_id [] rows entries
        → Action s (record {
          db = commit_rows rows entries s.db;
          sessions = with_session s.sessions i outside;
        })
    -- A sequence is moved on by a statement that fails, too.
    draw : Action s (record s { db = take_event_id s.db })
    -- A conflict of versions, a failed statement, or a connection that is lost.
    roll_back : (i : ℕ) → Action s (record s { sessions = with_session s.sessions i outside })

  pub data Actions (s : Concurrent) : Concurrent → Type 0 where
    none_yet : Actions s s
    then_action : {t u : Concurrent} → Actions s t → Action t u → Actions s u

abbrev pub all_outside : Db → Concurrent
all_outside db = record { db = db; sessions = λ i. outside }
