-- ===== src/Projection/Queries.antt =====
-- internal/projection/readmodel.go: the queries of the read model. What PostgreSQL leaves open, the
-- order of rows that compare equal and of a result without ORDER BY, is a parameter.
pub mod Batching
pub mod ReadBack
use mathlib.Core.Option
use holdex_backend_cqrs.Prelude.{
  ℕ, zero, suc, String, Bool, true, false, Option, none, some, List, [], ◌∷◌, ◌++◌, map, str_eq,
  if◌then◌else◌, ℤ, pos, negsuc, take, drop, select, exists, lookup, insert,
}
use holdex_backend_cqrs.Result.{query_failed, iteration_failed, no_rows}
use holdex_backend_cqrs.Tables.{SummaryRow, PriceRow, Db}
use holdex_backend_cqrs.World.{Exec, ◌>>=◌, ◌>>◌, pure, gets, from_option, attempt}
use holdex_backend_cqrs.Projection.ReadModel.{MarketSummary}

pub record PricePoint : Type 0 where
  pub price : ℕ
  pub recorded_at : ℕ

-- The database's part: a NUMERIC as the float64 that it is scanned into; ORDER BY market_cap DESC
-- NULLS LAST, which may order equal rows differently for each LIMIT and OFFSET; ORDER BY recorded_at
-- DESC of a query under its LIMIT, and that of a window; and the order in which the rows of a window
-- query arrive.
pub record Ordering : Type 0 where
  pub float_of : ℕ → ℕ
  pub by_market_cap : ℕ → ℕ → List SummaryRow → List SummaryRow
  pub newest_first : ℕ → List PriceRow → List PriceRow
  pub newest_in_window : List PriceRow → List PriceRow
  pub arrange : List PriceRow → List PriceRow

-- `limit <= 0` stands for 100.
abbrev pub limit_of : ℤ → ℕ
limit_of (negsuc n) = 100
limit_of (pos zero) = 100
limit_of (pos (suc n)) = suc n

-- PostgreSQL refuses a negative OFFSET, which pgx reports when the rows are read.
abbrev pub offset_of : ℤ → Option ℕ
offset_of (negsuc n) = none
offset_of (pos n) = some n

abbrev pub of_coin : String → PriceRow → Bool
of_coin coin_id r = str_eq r.coin_id coin_id

abbrev pub find_row : String → List SummaryRow → Option SummaryRow
find_row coin_id [] = none
find_row coin_id (r ∷ rs) =
    let rest = find_row coin_id rs in if str_eq r.coin_id coin_id then some r else rest

module _ (q : Ordering) where
  abbrev pub summary_of_row : SummaryRow → MarketSummary
  summary_of_row r = record {
    coin_id = r.coin_id;
    symbol = r.symbol;
    name = r.name;
    current_price = q.float_of r.current_price;
    market_cap = q.float_of r.market_cap;
    volume_24h = q.float_of r.volume_24h;
    price_change_24h = q.float_of r.price_change_24h;
    last_updated = r.last_updated;
  }

  abbrev pub point_of_row : PriceRow → PricePoint
  point_of_row r = record { price = q.float_of r.price; recorded_at = r.recorded_at }

  abbrev pub page : ℕ → ℕ → Db → List MarketSummary
  page limit offset db =
      map summary_of_row (take limit (drop offset (q.by_market_cap limit offset db.summaries)))

  unfoldable pub get_market_summaries : ℤ → ℤ → Exec (List MarketSummary)
  get_market_summaries limit offset = do
    attempt query_failed
    attempt iteration_failed
    skipped ← from_option iteration_failed (offset_of offset)
    gets (page (limit_of limit) skipped)

  unfoldable pub get_market_summary : String → Exec MarketSummary
  get_market_summary coin_id = do
    attempt query_failed
    row ← gets (λ db. find_row coin_id db.summaries)
    from_option no_rows (Option.map summary_of_row row)

  -- WHERE coin_id = $1 ORDER BY recorded_at DESC LIMIT $2
  abbrev pub recent_rows : ℕ → Db → String → List PriceRow
  recent_rows limit db coin_id =
      take limit (q.newest_first limit (select (of_coin coin_id) db.history))

  unfoldable pub get_price_history : String → ℤ → Exec (List PricePoint)
  get_price_history coin_id limit = do
    attempt query_failed
    attempt iteration_failed
    gets (λ db. map point_of_row (recent_rows (limit_of limit) db coin_id))

  -- coin_id = ANY($1): each coin once
  abbrev pub distinct : List String → List String
  distinct [] = []
  distinct (c ∷ cs) =
      let rest = distinct cs in if exists (λ d. str_eq d c) cs then rest else c ∷ rest

  -- ROW_NUMBER() OVER (PARTITION BY coin_id ORDER BY recorded_at DESC) <= $2
  abbrev pub window_of : ℕ → Db → String → List PriceRow
  window_of limit db coin_id = take limit (q.newest_in_window (select (of_coin coin_id) db.history))

  abbrev pub windows : ℕ → Db → List String → List PriceRow
  windows limit db [] = []
  windows limit db (c ∷ cs) = window_of limit db c ++ windows limit db cs

  abbrev pub or_empty : Option (List PricePoint) → List PricePoint
  or_empty none = []
  or_empty (some points) = points

  -- res[coinID] = append(res[coinID], p), row by row
  abbrev pub add_rows :
      List PriceRow → List (String × List PricePoint) → List (String × List PricePoint)
  add_rows [] res = res
  add_rows (r ∷ rs) res =
      add_rows rs (insert r.coin_id (or_empty (lookup r.coin_id res) ++ point_of_row r ∷ []) res)

  unfoldable pub get_price_histories : List String → ℤ → Exec (List (String × List PricePoint))
  get_price_histories [] limit = pure []
  get_price_histories (c ∷ cs) limit = do
    attempt query_failed
    attempt iteration_failed
    gets (λ db. add_rows (q.arrange (windows (limit_of limit) db (distinct (c ∷ cs)))) [])
