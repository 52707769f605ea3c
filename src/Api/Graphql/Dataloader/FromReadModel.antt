-- ===== src/Api/Graphql/Dataloader/FromReadModel.antt =====
-- The loader on the queries of the read model: a batched load against the table.
use mathlib.Core.List.{Permᴰ}
use holdex_backend_cqrs.Prelude.{
  ℕ, String, ◌≡◌, refl, ap, subst, ◌∙◌, List, [], ◌∷◌, map, arith, if◌then◌else◌,
}
use holdex_backend_cqrs.Result.{ok}
use holdex_backend_cqrs.Tables.{PriceRow}
use holdex_backend_cqrs.World.{World}
use holdex_backend_cqrs.Projection.Queries.{
  PricePoint, Ordering, limit_of, point_of_row, get_price_histories,
}
use holdex_backend_cqrs.Projection.Queries.Batching.{
  IsOrdering, IsRecent, present, get_price_histories-IsRecent,
}
use holdex_backend_cqrs.Api.Graphql.Dataloader.{
  DataloaderKey, Answer, Dataloader, Groups, point_of, points_in, answer_in, dispatch,
}
use holdex_backend_cqrs.Api.Graphql.Dataloader.Waiting.{Fetch, IsBatch, Reachable}
use holdex_backend_cqrs.Api.Graphql.Dataloader.Delivery.{Served, dispatch-Served}

module _ (q : Ordering) (format_utc : ℕ → String) (w : World) where
  -- GetPriceHistories in a world.
  abbrev pub fetch_histories : Fetch
  fetch_histories coins limit = (get_price_histories q coins limit w).0

  -- The newest points of the coin in the table, in some order.
  abbrev pub IsHistory : DataloaderKey → Answer → Type 0
  IsHistory k answer =
      (points : List PricePoint) × (chosen : List PriceRow) × (answer
        ≡ ok (map (point_of format_utc) points))
      × IsRecent (limit_of k.limit) k.coin_id w.db chosen
      × Permᴰ points (map (point_of_row q) chosen)

  points_in-present :
      (points : List PricePoint)
      → points_in format_utc (present points) ≡ map (point_of format_utc) points
  points_in-present [] = refl
  points_in-present (p ∷ ps) = refl

  pub fetch_histories-IsBatch :
      IsOrdering q → w.faults ≡ [] → IsBatch IsHistory format_utc fetch_histories
  fetch_histories-IsBatch h none_left [] limit c m = absurd (ground arith)
  fetch_histories-IsBatch h none_left (d ∷ ds) limit c m =
      let (found, points, chosen, batch, at_c, recent, p) =
        get_price_histories-IsRecent q d ds limit w c h none_left in
      (
        points,
        chosen,
        ap (λ r. answer_in format_utc r.0 c) batch
            ∙ ap (λ o. ok (points_in format_utc o)) at_c
            ∙ ap ok (points_in-present points),
        recent,
        subst (λ b. Permᴰ points (if b then map (point_of_row q) chosen else [])) m p,
      )

  -- A dispatch on the read model itself, without the cache, where no call fails and the database orders
  -- rows as documented, sends one answer to each load that waits, and nothing else: the newest points
  -- of its coin, as many as its limit or else all, in some order. This holds of every loader that loads and such dispatches reach,
  -- in whatever order the groups of coins are fetched.
  pub dispatch_histories :
      (order : Groups → Groups) (dl : Dataloader)
      → IsOrdering q
      → w.faults ≡ []
      → ((gs : Groups) → Permᴰ (order gs) gs)
      → Reachable IsHistory format_utc dl
      → Served IsHistory dl.listeners (dispatch format_utc order fetch_histories dl).0
  dispatch_histories order dl h none_left ranges r =
      (dispatch-Served format_utc IsHistory order fetch_histories dl ranges
        (fetch_histories-IsBatch h none_left) r).0
