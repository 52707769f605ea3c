-- ===== src/Projection/Queries/ReadBack.antt =====
-- UpdateMarketSummary followed by GetMarketSummary.
use holdex_backend_cqrs.Prelude.{
  String, ◌≡◌, refl, ap, ◌∙◌, Bool, true, false, inl, inr, Option-cases, Option, none, some, List,
  [], ◌∷◌, arith, str_eq, eq_iff, if◌then◌else◌,
}
use holdex_backend_cqrs.Result.{Result, ok, err, no_rows, upsert_failed, query_failed}
use holdex_backend_cqrs.Tables.{Columns, SummaryRow}
use holdex_backend_cqrs.World.{World}
use holdex_backend_cqrs.World.Bind.{attempt_fault_free}
use holdex_backend_cqrs.Projection.ReadModel.{
  MarketSummary, summary_row, upsert, update_market_summary,
}
use holdex_backend_cqrs.Projection.Projector.Summaries.{coin_id-summary_row}
use holdex_backend_cqrs.Projection.Queries.{Ordering, find_row, summary_of_row, get_market_summary}

pub find_row-upsert :
    (c : String) (s : SummaryRow) (rs : List SummaryRow)
    → find_row c (upsert s rs) ≡ (if str_eq s.coin_id c then some s else find_row c rs)
unfolding upsert
find_row-upsert c s [] = refl
find_row-upsert c s (r ∷ rs) = ground (
  arith,
  eq_iff r.coin_id s.coin_id,
  eq_iff s.coin_id c,
  eq_iff r.coin_id c,
  find_row-upsert c s rs,
)

-- Where no call fails, GetMarketSummary answers by the row of the coin.
of_row : (q : Ordering) → Option SummaryRow → Result MarketSummary
of_row q none = err no_rows
of_row q (some r) = ok (summary_of_row q r)

get_market_summary-of_row :
    (q : Ordering) (c : String) (w : World)
    → w.faults ≡ []
    → (get_market_summary q c w).0 ≡ of_row q (find_row c w.db.summaries)
unfolding get_market_summary of_row
get_market_summary-of_row q c w none_left = elim (Option-cases (find_row c w.db.summaries)) [
  | inl e ↦ ap (λ r. r.0) (attempt_fault_free query_failed _ w none_left) ∙ (rw e)
  | inr (r, e) ↦ ap (λ r. r.0) (attempt_fault_free query_failed _ w none_left) ∙ (rw e)
]

pub get_market_summary-found :
    (q : Ordering) (c : String) (r : SummaryRow) (w : World)
    → w.faults ≡ []
    → find_row c w.db.summaries ≡ some r
    → (get_market_summary q c w).0 ≡ ok (summary_of_row q r)
unfolding of_row
get_market_summary-found q c r w none_left found =
    get_market_summary-of_row q c w none_left ∙ ap (of_row q) found

of_row-if :
    (q : Ordering) (b : Bool) (r : SummaryRow) (o : Option SummaryRow)
    → of_row q (if b then some r else o) ≡ (if b then ok (summary_of_row q r) else of_row q o)
unfolding of_row
of_row-if q true r o = refl
of_row-if q false r o = refl

-- Where no call fails and the columns take the values, UpdateMarketSummary succeeds; after it
-- GetMarketSummary returns what the columns keep of that summary, and answers every other coin as
-- before.
pub market_summary_read_back :
    (pg : Columns) (q : Ordering) (s : MarketSummary) (row : SummaryRow) (w : World) (c : String)
    → summary_row pg s ≡ some row
    → w.faults ≡ []
    → ((update_market_summary pg s w).0 ≡ ok tt)
      × ((get_market_summary q c (update_market_summary pg s w).1).0 ≡ (
          if str_eq s.coin_id c then ok (summary_of_row q row) else (get_market_summary q c w).0))
unfolding update_market_summary get_market_summary
market_summary_read_back pg q s row w c h none_left =
    let after : World = record w { db = record w.db { summaries = upsert row w.db.summaries } } in
    let stored : update_market_summary pg s w ≡ (ok tt, after) =
      attempt_fault_free upsert_failed _ w none_left ∙ (rw h) in
    (
      ap (λ r. r.0) stored,
      ap (λ r. (get_market_summary q c r.1).0) stored
          ∙ get_market_summary-of_row q c after none_left
          ∙ ap (of_row q) (find_row-upsert c row w.db.summaries)
          ∙ of_row-if q (str_eq row.coin_id c) row (find_row c w.db.summaries)
          ∙ (rw (coin_id-summary_row pg s h, get_market_summary-of_row q c w none_left)),
    )
