-- ===== src/Projection/Projector/Keeping.antt =====
-- What the tables keep of an event that the projector has projected.
use holdex_backend_cqrs.Prelude.{
  ℕ, String, ◌≡◌, ◌≢◌, refl, sym, ap, subst, ◌∙◌, some, List, [], ◌∷◌, ◌++◌, inl, inr, Bool-cases,
  Option-cases, arith, str_eq, eq_iff, eq_refl, if◌then◌else◌,
}
use holdex_backend_cqrs.Result.{ok}
use holdex_backend_cqrs.Domain.{BaseEvent}
use holdex_backend_cqrs.Domain.Market.{market_event, NewDataFetchedPayload}
use holdex_backend_cqrs.Tables.{Columns, SummaryRow}
use holdex_backend_cqrs.World.{World}
use holdex_backend_cqrs.Projection.ReadModel.{
  summary_row, upsert, update_market_summary, add_price_history,
}
use holdex_backend_cqrs.Projection.Projector.{summary_of, invalidate, project}
use holdex_backend_cqrs.Projection.Queries.{find_row}
use holdex_backend_cqrs.Projection.Queries.ReadBack.{find_row-upsert}

-- The row holds what the columns keep of each field of the payload.
pub record IsRowOf (pg : Columns) (p : NewDataFetchedPayload) (row : SummaryRow) : Type 0 where
  pub same_coin : row.coin_id ≡ p.coin_id
  pub same_symbol : row.symbol ≡ p.symbol
  pub same_name : row.name ≡ p.name
  pub price_kept : pg.numeric_20_8 p.current_price ≡ some row.current_price
  pub cap_kept : pg.numeric_30_2 p.market_cap ≡ some row.market_cap
  pub volume_kept : pg.numeric_30_2 p.volume_24h ≡ some row.volume_24h
  pub change_kept : pg.numeric_10_4 p.price_change_24h ≡ some row.price_change_24h
  pub time_kept : row.last_updated ≡ pg.timestamptz p.last_updated

summary_row-IsRowOf :
    (pg : Columns) (p : NewDataFetchedPayload) (row : SummaryRow)
    → summary_row pg (summary_of p) ≡ some row
    → IsRowOf pg p row
unfolding summary_row
summary_row-IsRowOf pg p row h = elim (Option-cases (pg.numeric_20_8 p.current_price)) [
  | inl x ↦ absurd (ground arith)
  | inr (price, x) ↦ elim (Option-cases (pg.numeric_30_2 p.market_cap)) [
    | inl y ↦ absurd (ground arith)
    | inr (cap, y) ↦ elim (Option-cases (pg.numeric_30_2 p.volume_24h)) [
      | inl z ↦ absurd (ground arith)
      | inr (volume, z) ↦ elim (Option-cases (pg.numeric_10_4 p.price_change_24h)) [
        | inl u ↦ absurd (ground arith)
        | inr (change, u) ↦
            let kept : SummaryRow = record {
              coin_id = p.coin_id;
              symbol = p.symbol;
              name = p.name;
              current_price = price;
              market_cap = cap;
              volume_24h = volume;
              price_change_24h = change;
              last_updated = pg.timestamptz p.last_updated;
            } in
            let same : kept ≡ row = ground (arith, h, x, y, z, u) in
            subst (IsRowOf pg p) same (record {
              same_coin = refl;
              same_symbol = refl;
              same_name = refl;
              price_kept = x;
              cap_kept = y;
              volume_kept = z;
              change_kept = u;
              time_kept = refl;
            })
      ]
    ]
  ]
]

-- What a projection that succeeded has written, whatever was left of the faults.
project-tables :
    (pg : Columns) (b : BaseEvent) (p : NewDataFetchedPayload) (w : World)
    → (project pg (market_event b p) w).0 ≡ ok tt
    → (row : SummaryRow) × (kept : ℕ) × (summary_row pg (summary_of p) ≡ some row)
      × (pg.numeric_20_8 p.current_price ≡ some kept)
      × ((project pg (market_event b p) w).1.db.summaries ≡ upsert row w.db.summaries)
      × ((project pg (market_event b p) w).1.db.history
          ≡ w.db.history
            ++ record {
              id = w.db.next_history_id;
              coin_id = p.coin_id;
              price = kept;
              recorded_at = pg.timestamptz p.last_updated;
            }
              ∷ [])
unfolding project update_market_summary add_price_history invalidate
project-tables pg b p w h = elim (Option-cases (summary_row pg (summary_of p))) [
  | inl x ↦ absurd (ground arith)
  | inr (row, x) ↦ elim (Option-cases (pg.numeric_20_8 p.current_price)) [
    | inl y ↦ absurd (ground arith)
    | inr (kept, y) ↦ (row, kept, x, y, ground arith, ground arith)
  ]
]

find_row-same :
    (c : String) (p : NewDataFetchedPayload) (row : SummaryRow) (rows : List SummaryRow)
    → row.coin_id ≡ p.coin_id
    → find_row c (upsert row rows) ≡ (if str_eq p.coin_id c then some row else find_row c rows)
find_row-same c p row rows same =
    find_row-upsert c row rows ∙ ap (λ k. if str_eq k c then some row else find_row c rows) same

-- Whatever fails in it, a Project that has succeeded leaves in the row of the event's coin what
-- the columns keep of each field of the payload, the rows of the other coins as they were,
-- and one more point of the coin's history, with the price and the time of the payload.
pub project-IsRowOf :
    (pg : Columns) (b : BaseEvent) (p : NewDataFetchedPayload) (w : World)
    → (project pg (market_event b p) w).0 ≡ ok tt
    → (row : SummaryRow) × (kept : ℕ) × IsRowOf pg p row
      × (pg.numeric_20_8 p.current_price ≡ some kept)
      × (find_row p.coin_id (project pg (market_event b p) w).1.db.summaries ≡ some row)
      × ((other : String)
          → other ≢ p.coin_id
          → find_row other (project pg (market_event b p) w).1.db.summaries
            ≡ find_row other w.db.summaries)
      × ((project pg (market_event b p) w).1.db.history
          ≡ w.db.history
            ++ record {
              id = w.db.next_history_id;
              coin_id = p.coin_id;
              price = kept;
              recorded_at = pg.timestamptz p.last_updated;
            }
              ∷ [])
project-IsRowOf pg b p w h =
    let (row, kept, is_row, price, summaries, history) = project-tables pg b p w h in
    let row_of = summary_row-IsRowOf pg p row is_row in
    let found : (c : String)
        → find_row c (project pg (market_event b p) w).1.db.summaries
          ≡ (if str_eq p.coin_id c then some row else find_row c w.db.summaries) =
      λ c. ap (find_row c) summaries ∙ find_row-same c p row w.db.summaries row_of.same_coin in
    (
      row,
      kept,
      row_of,
      price,
      found p.coin_id ∙ (rw (eq_refl p.coin_id) refl),
      (λ other ne. found other ∙ (elim (Bool-cases (str_eq p.coin_id other)) [
        | inl y ↦ absurd (ne (sym ((eq_iff p.coin_id other).0 y)))
        | inr n ↦ rw n refl
      ])),
      history,
    )
