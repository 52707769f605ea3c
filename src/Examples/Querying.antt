-- ===== src/Examples/Querying.antt =====
-- The theorems on the queries, their cache and the data loader, at two coins.
use mathlib.Core.List.{Permᴰ}
use mathlib.Core.List.Permᴰ
use holdex_backend_cqrs.Prelude.{
  ℕ, ◌+◌, ◌*◌, ◌≤◌, String, ◌≡◌, refl, inl, inr, Bool-cases, leb, All-weaken, All-perm, List, [],
  ◌∷◌, map, pos, ℤ, arith, lookup, exists, str_eq, if◌then◌else◌,
}
use holdex_backend_cqrs.Result.{ok}
use holdex_backend_cqrs.Tables.{SummaryRow, PriceRow, Db, empty_db}
use holdex_backend_cqrs.World.{World}
use holdex_backend_cqrs.Domain.Market.{NewDataFetchedPayload}
use holdex_backend_cqrs.Projection.ReadModel.{MarketSummary}
use holdex_backend_cqrs.Projection.Queries.{PricePoint, Ordering, point_of_row, get_price_histories}
use holdex_backend_cqrs.Projection.Queries.Batching.{
  present, Descending, IsOrdering, IsRecent, get_price_histories-IsRecent,
}
use holdex_backend_cqrs.Query.CachedRepo.{second, Times}
use holdex_backend_cqrs.Api.Graphql.Dataloader.{Dataloader, new_dataloader, load, dispatch}
use holdex_backend_cqrs.Api.Graphql.Dataloader.Waiting.{Reachable, created, loaded}
use holdex_backend_cqrs.Api.Graphql.Dataloader.Delivery.{Served}
use holdex_backend_cqrs.Api.Graphql.Dataloader.FromReadModel.{
  fetch_histories, IsHistory, dispatch_histories,
}
use holdex_backend_cqrs.Examples.{price, noon, start_world, document}

-- An insertion sort, the newest row first.
abbrev insert_newest : PriceRow → List PriceRow → List PriceRow
insert_newest r [] = r ∷ []
insert_newest r (s ∷ rows) =
    let rest = insert_newest r rows in
    if leb s.recorded_at r.recorded_at then r ∷ s ∷ rows else s ∷ rest

abbrev newest_first_of : List PriceRow → List PriceRow
newest_first_of [] = []
newest_first_of (r ∷ rows) = insert_newest r (newest_first_of rows)

insert_newest-perm : (r : PriceRow) (rows : List PriceRow) → Permᴰ (insert_newest r rows) (r ∷ rows)
insert_newest-perm r [] = Permᴰ.refl _
insert_newest-perm r (s ∷ rows) = elim (Bool-cases (leb s.recorded_at r.recorded_at)) [
  | inl y ↦ rw y (Permᴰ.refl _)
  | inr n ↦ rw n (Permᴰ.trans (Permᴰ.cons refl (insert_newest-perm r rows)) (Permᴰ.swap refl refl))
]

newest_first_of-perm : (rows : List PriceRow) → Permᴰ (newest_first_of rows) rows
newest_first_of-perm [] = Permᴰ.refl _
newest_first_of-perm (r ∷ rows) =
    Permᴰ.trans (insert_newest-perm r (newest_first_of rows))
      (Permᴰ.cons refl (newest_first_of-perm rows))

insert_newest-Descending :
    (r : PriceRow) (rows : List PriceRow) → Descending rows → Descending (insert_newest r rows)
insert_newest-Descending r [] h = (tt, tt)
insert_newest-Descending r (s ∷ rows) h = elim (Bool-cases (leb s.recorded_at r.recorded_at)) [
  | inl y ↦ rw y (
    (
      ground (arith, y),
      All-weaken (λ (t : PriceRow). t.recorded_at ≤ s.recorded_at)
          (λ (t : PriceRow). t.recorded_at ≤ r.recorded_at) rows (λ t le. ground (arith, le, y))
          h.0,
    ),
    h,
  )
  | inr n ↦ rw n (
    All-perm (λ (t : PriceRow). t.recorded_at ≤ s.recorded_at) (insert_newest-perm r rows)
        (ground (arith, n), h.0),
    insert_newest-Descending r rows h.1,
  )
]

newest_first_of-Descending : (rows : List PriceRow) → Descending (newest_first_of rows)
newest_first_of-Descending [] = tt
newest_first_of-Descending (r ∷ rows) =
    insert_newest-Descending r (newest_first_of rows) (newest_first_of-Descending rows)

-- Summaries come as they are stored.
abbrev pub as_stored : Ordering
as_stored = record {
  float_of = λ x. x;
  by_market_cap = λ limit offset rows. rows;
  newest_first = λ limit rows. newest_first_of rows;
  newest_in_window = newest_first_of;
  arrange = λ rows. rows;
}

as_stored-IsOrdering : IsOrdering as_stored
as_stored-IsOrdering = record {
  newest = newest_first_of-perm;
  descending = newest_first_of-Descending;
  arranged = λ rows. Permᴰ.refl rows;
}

abbrev pub summary : String → MarketSummary
summary coin_id = record {
  coin_id = coin_id;
  symbol = "btc";
  name = "Bitcoin";
  current_price = price;
  market_cap = price;
  volume_24h = price;
  price_change_24h = 0;
  last_updated = noon;
}

abbrev pub row : String → SummaryRow
row coin_id = record {
  coin_id = coin_id;
  symbol = "btc";
  name = "Bitcoin";
  current_price = price;
  market_cap = price;
  volume_24h = price;
  price_change_24h = 0;
  last_updated = noon;
}

abbrev price_row : ℕ → String → PriceRow
price_row id coin_id = record { id = id; coin_id = coin_id; price = price; recorded_at = noon + id }

abbrev two_coins : Db
two_coins = record empty_db {
  summaries = row "bitcoin" ∷ row "ethereum" ∷ [];
  history = price_row 1 "bitcoin" ∷ price_row 2 "ethereum" ∷ price_row 3 "bitcoin" ∷ [];
}

abbrev pub coins_world : World
coins_world = record start_world { db = two_coins }

get_price_histories-IsRecent_example :
    (m : List (String × List PricePoint)) × (points : List PricePoint) × (chosen : List PriceRow)
    × (get_price_histories as_stored ("bitcoin" ∷ "ethereum" ∷ []) (pos 1) coins_world
        ≡ (ok m, coins_world))
    × (lookup "bitcoin" m ≡ present points)
    × IsRecent 1 "bitcoin" two_coins chosen
    × Permᴰ points (
        if exists (λ d. str_eq d "bitcoin") ("bitcoin" ∷ "ethereum" ∷ [])
        then map (point_of_row as_stored) chosen
        else [])
get_price_histories-IsRecent_example =
    get_price_histories-IsRecent as_stored "bitcoin" ("ethereum" ∷ []) (pos 1) coins_world "bitcoin"
      as_stored-IsOrdering refl

-- The coin was cached a second before the call, when it was in the table already.
abbrev pub times : Times
times = record { first_get = noon; second_get = noon + 1; set_at = noon + 2 }

abbrev pub decimal : ℤ → String
decimal n = "100"

abbrev always : ℕ → Db
always t = two_coins

abbrev cached_world : World
cached_world = record coins_world {
  cache =
      ("cache:summary:bitcoin", record { document = document; expires_at = noon + 9 * second })
      ∷ [];
}

-- Two loads in one batch.
abbrev two_loads : Dataloader
two_loads = (load "ethereum" (pos 10) (load "bitcoin" (pos 10) (new_dataloader (pos 0))).1).1

abbrev pub show : ℕ → String
show t = "2023-11-14T22:13:20Z"

two_loads-Reachable : Reachable (IsHistory as_stored show coins_world) show two_loads
two_loads-Reachable = loaded "ethereum" (pos 10) (loaded "bitcoin" (pos 10) (created (pos 0)))

dispatch_histories_example :
    Served
      (IsHistory as_stored show coins_world)
      two_loads.listeners
      (dispatch show (λ groups. groups) (fetch_histories as_stored show coins_world) two_loads).0
dispatch_histories_example =
    dispatch_histories as_stored show coins_world (λ groups. groups) two_loads as_stored-IsOrdering
      refl (λ groups. Permᴰ.refl groups) two_loads-Reachable

-- A new quote for the coin that is cached.
abbrev new_quote : NewDataFetchedPayload
new_quote = record {
  coin_id = "bitcoin";
  symbol = "btc";
  name = "Bitcoin";
  current_price = price;
  market_cap = price;
  volume_24h = price;
  price_change_24h = price;
  last_updated = noon + 5 * second;
}

abbrev new_row : SummaryRow
new_row = record (row "bitcoin") { price_change_24h = price; last_updated = noon + 5 * second }
