-- ===== src/Projection/ReadModel.antt =====
-- internal/projection/readmodel.go: the statements on the read model tables and the checkpoint.
use mathlib.Core.Option
use holdex_backend_cqrs.Prelude.{
  ℕ, ◌+◌, String, not, Option, none, some, List, [], ◌∷◌, ◌++◌, str_eq, ltb, leb, if◌then◌else◌,
  select, take, order_by,
}
use holdex_backend_cqrs.Result.{
  upsert_failed, history_failed, query_failed, iteration_failed, checkpoint_failed,
}
use holdex_backend_cqrs.Tables.{Columns, EventRow, SummaryRow, PriceRow, CheckpointRow, Db}
use holdex_backend_cqrs.World.{Exec, ◌>>=◌, ◌>>◌, gets, modify, from_option, attempt}

pub record MarketSummary : Type 0 where
  pub coin_id : String
  pub symbol : String
  pub name : String
  pub current_price : ℕ
  pub market_cap : ℕ
  pub volume_24h : ℕ
  pub price_change_24h : ℕ
  pub last_updated : ℕ

-- The row that the columns keep of a summary: `none` if a number is out of its column's range.
unfoldable pub summary_row : Columns → MarketSummary → Option SummaryRow
summary_row pg s = elim (pg.numeric_20_8 s.current_price) [
  | none ↦ none
  | some price ↦ elim (pg.numeric_30_2 s.market_cap) [
    | none ↦ none
    | some cap ↦ elim (pg.numeric_30_2 s.volume_24h) [
      | none ↦ none
      | some volume ↦
          Option.map
            (λ change. record {
              coin_id = s.coin_id;
              symbol = s.symbol;
              name = s.name;
              current_price = price;
              market_cap = cap;
              volume_24h = volume;
              price_change_24h = change;
              last_updated = pg.timestamptz s.last_updated;
            })
            (pg.numeric_10_4 s.price_change_24h)
    ]
  ]
]

-- INSERT ... ON CONFLICT (coin_id) DO UPDATE SET ... EXCLUDED: one row for each coin.
unfoldable pub upsert : SummaryRow → List SummaryRow → List SummaryRow
upsert s [] = s ∷ []
upsert s (r ∷ rs) =
    let rest = upsert s rs in if str_eq r.coin_id s.coin_id then s ∷ rs else r ∷ rest

unfoldable pub update_market_summary : Columns → MarketSummary → Exec (Unit {0})
unfolding upsert
update_market_summary pg s = do
  attempt upsert_failed
  row ← from_option upsert_failed (summary_row pg s)
  modify (λ db. record db { summaries = upsert row db.summaries })

abbrev pub add_price : String → ℕ → ℕ → Db → Db
add_price coin_id price recorded_at db = record db {
  history =
      db.history
      ++ record {
        id = db.next_history_id;
        coin_id = coin_id;
        price = price;
        recorded_at = recorded_at;
      }
        ∷ [];
  next_history_id = db.next_history_id + 1;
}

unfoldable pub add_price_history : Columns → String → ℕ → ℕ → Exec (Unit {0})
add_price_history pg coin_id price recorded_at = do
  attempt history_failed
  kept ← from_option history_failed (pg.numeric_20_8 price)
  modify (add_price coin_id kept (pg.timestamptz recorded_at))

-- WHERE projector_name = $1; no row is a checkpoint of 0.
abbrev pub checkpoint_of : String → List CheckpointRow → ℕ
checkpoint_of name [] = 0
checkpoint_of name (c ∷ cs) =
    if str_eq c.projector_name name then c.last_event_id else checkpoint_of name cs

unfoldable pub get_last_event_id : String → Exec ℕ
get_last_event_id name = do attempt query_failed; gets (λ db. checkpoint_of name db.checkpoints)

-- ON CONFLICT (projector_name) DO UPDATE SET last_event_id = GREATEST(...)
abbrev pub save_checkpoint : String → ℕ → List CheckpointRow → List CheckpointRow
save_checkpoint name last_id [] = record { projector_name = name; last_event_id = last_id } ∷ []
save_checkpoint name last_id (c ∷ cs) =
    let rest = save_checkpoint name last_id cs in
    if str_eq c.projector_name name
    then record c {
      last_event_id = if leb c.last_event_id last_id then last_id else c.last_event_id;
    }
      ∷ cs
    else c ∷ rest

unfoldable pub update_last_event_id : String → ℕ → Exec (Unit {0})
update_last_event_id name last_id = do
  attempt checkpoint_failed
  modify (λ db. record db { checkpoints = save_checkpoint name last_id db.checkpoints })

-- WHERE id > $1 ORDER BY id ASC LIMIT $2
abbrev pub new_events : ℕ → ℕ → Db → List EventRow
new_events last_id limit db =
    take limit (order_by (λ (r : EventRow). r.id) (select (λ r. ltb last_id r.id) db.events))

unfoldable pub get_new_events : ℕ → ℕ → Exec (List EventRow)
get_new_events last_id limit = do
  attempt query_failed
  attempt iteration_failed
  gets (new_events last_id limit)

-- DELETE FROM price_history WHERE recorded_at < $1, with the cutoff `now - retention`; an earlier
-- cutoff than 1970 deletes nothing.
unfoldable pub prune_price_history : ℕ → ℕ → Exec (Unit {0})
prune_price_history now retention = do
  attempt history_failed
  modify (λ db. record db {
    history = select (λ (r : PriceRow). not (ltb (r.recorded_at + retention) now)) db.history;
  })
