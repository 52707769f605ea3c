-- ===== src/Tables.antt =====
-- The rows of the tables that migrations/*.up.sql create, and the functions of PostgreSQL that the
-- statements rely on. PostgreSQL itself is not under the repository: what a column type does to a
-- value is a parameter, and a statement's text is translated as a function on lists of rows.
use holdex_backend_cqrs.Prelude.{
  ℕ, String, Bool, ◌&&◌, Option, none, some, List, [], ◌∷◌, str_eq, leb, ◌==◌, if◌then◌else◌,
  select, exists,
}
use holdex_backend_cqrs.Json.{Json}

-- What a column keeps of a value: `none` if the value is out of the column's range.
pub record Columns : Type 0 where
  pub timestamptz : ℕ → ℕ
  pub numeric_20_8 : ℕ → Option ℕ
  pub numeric_30_2 : ℕ → Option ℕ
  pub numeric_10_4 : ℕ → Option ℕ

pub record EventRow : Type 0 where
  pub id : ℕ
  pub aggregate_id : String
  pub aggregate_type : String
  pub event_type : String
  pub version : ℕ
  pub data_column : Json
  pub created_at : ℕ

pub record OutboxRow : Type 0 where
  pub id : ℕ
  pub event_id : ℕ
  pub payload : Json

pub record SummaryRow : Type 0 where
  pub coin_id : String
  pub symbol : String
  pub name : String
  pub current_price : ℕ
  pub market_cap : ℕ
  pub volume_24h : ℕ
  pub price_change_24h : ℕ
  pub last_updated : ℕ

pub record PriceRow : Type 0 where
  pub id : ℕ
  pub coin_id : String
  pub price : ℕ
  pub recorded_at : ℕ

pub record CheckpointRow : Type 0 where
  pub projector_name : String
  pub last_event_id : ℕ

-- The tables, each in the order of insertion, and the sequences of their BIGSERIAL columns.
pub record Db : Type 0 where
  pub events : List EventRow
  pub outbox : List OutboxRow
  pub summaries : List SummaryRow
  pub history : List PriceRow
  pub checkpoints : List CheckpointRow
  pub next_event_id : ℕ
  pub next_outbox_id : ℕ
  pub next_history_id : ℕ

abbrev pub empty_db : Db
empty_db = record {
  events = [];
  outbox = [];
  summaries = [];
  history = [];
  checkpoints = [];
  next_event_id = 1;
  next_outbox_id = 1;
  next_history_id = 1;
}

-- WHERE aggregate_id = $1
abbrev pub of_aggregate : String → EventRow → Bool
of_aggregate agg_id r = str_eq r.aggregate_id agg_id

abbrev pub rows_of : String → List EventRow → List EventRow
rows_of agg_id rows = select (of_aggregate agg_id) rows

-- The constraint UNIQUE(aggregate_id, version), as a test before an insertion.
abbrev pub has_version : String → ℕ → List EventRow → Bool
has_version agg_id version rows = exists (λ r. of_aggregate agg_id r && r.version == version) rows

-- COALESCE(MAX(version), 0)
abbrev pub max_version : List EventRow → ℕ
max_version [] = 0
max_version (r ∷ rs) = let m = max_version rs in if leb r.version m then m else r.version

-- ORDER BY version DESC LIMIT 1
abbrev pub latest_row : List EventRow → Option EventRow
latest_row [] = none
latest_row (r ∷ rs) = elim (latest_row rs) [
  | none ↦ some r
  | some s ↦ if leb s.version r.version then some r else some s
]
