-- ===== src/Query/CachedRepo/Invalidation.antt =====
-- The projector's deletion of a cached summary, and the next query through the cache.
use Prim.Native.String.{◌++◌ as concat}
use holdex_backend_cqrs.Prelude.{
  ℕ, ◌*◌, String, ◌≡◌, refl, sym, ap, subst, ◌∙◌, Bool, true, false, not, inl, inr, Bool-cases,
  Option-cases, none, some, List, [], ◌∷◌, arith, str_eq, eq_refl, ℤ, lookup, select,
}
use holdex_backend_cqrs.Result.{ok}
use holdex_backend_cqrs.Tables.{Columns, SummaryRow}
use holdex_backend_cqrs.World.{World, CacheEntry, Exec, ◌>>◌, pure}
use holdex_backend_cqrs.World.Bind.{next, fault?-nil, later-nil}
use holdex_backend_cqrs.Domain.{BaseEvent}
use holdex_backend_cqrs.Domain.Market.{market_event, NewDataFetchedPayload}
use holdex_backend_cqrs.Projection.ReadModel.{
  summary_row, upsert, update_market_summary, add_price_history,
}
use holdex_backend_cqrs.Projection.Projector.{project, summary_of, invalidate}
use holdex_backend_cqrs.Projection.Projector.Frames.{project-eq_ok}
use holdex_backend_cqrs.Projection.Projector.Summaries.{coin_id-summary_row}
use holdex_backend_cqrs.Projection.Queries.{Ordering, find_row, summary_of_row, get_market_summary}
use holdex_backend_cqrs.Projection.Queries.ReadBack.{get_market_summary-found, find_row-upsert}
use holdex_backend_cqrs.Query.Documents.{Codec, summary_codec}
use holdex_backend_cqrs.Query.CachedRepo.{
  second, Times, cache_get, cache_set, read_through, summary_key, cached_market_summary,
}

abbrev without_key : String → List (String × CacheEntry) → List (String × CacheEntry)
without_key key cache = select (λ entry. not (str_eq entry.0 key)) cache

lookup-without_key :
    (key : String) (cache : List (String × CacheEntry)) → lookup key (without_key key cache) ≡ none
lookup-without_key key [] = refl
lookup-without_key key (e ∷ m) = elim (Bool-cases (str_eq e.0 key)) [
  | inl y ↦ rw y (lookup-without_key key m)
  | inr n ↦ rw n (rw n (lookup-without_key key m))
]

next-nil : (w : World) → w.faults ≡ [] → next w ≡ w
next-nil w h = ap (λ fs. record w { faults = fs }) (later-nil w h)

-- What a projection that no fault disturbs does to the cache.
project-cache :
    (pg : Columns) (b : BaseEvent) (p : NewDataFetchedPayload) (w : World)
    → (project pg (market_event b p) w).0 ≡ ok tt
    → w.faults ≡ []
    → ((project pg (market_event b p) w).1.cache
        ≡ without_key (concat "cache:summary:" p.coin_id) w.cache)
      × ((project pg (market_event b p) w).1.faults ≡ [])
unfolding project update_market_summary add_price_history invalidate
project-cache pg b p w h none_left = elim (Option-cases (summary_row pg (summary_of p))) [
  | inl x ↦ absurd (ground arith)
  | inr (s, x) ↦ elim (Option-cases (pg.numeric_20_8 p.current_price)) [
    | inl y ↦ absurd (ground arith)
    | inr (n, y) ↦ (ground arith, ground arith)
  ]
]

module _ {A : Type 0} (codec : Codec A) (has_redis : Bool) (key : String) where
  cache_get-miss :
      (now : ℕ) (w : World)
      → lookup key w.cache ≡ none
      → w.faults ≡ []
      → cache_get codec has_redis key now w ≡ (ok none, w)
  unfolding cache_get
  cache_get-miss now w absent none_left = go has_redis
    where
      go : (redis : Bool) → cache_get codec redis key now w ≡ (ok none, w)
      go false = refl
      go true =
          rw (fault?-nil w none_left) (rw absent (ap (λ v. (ok none, v)) (next-nil w none_left)))

  set-pure :
      (a : A) (ttl now : ℕ) (v : World)
      → ((cache_set codec has_redis key a ttl now >> pure a) v).0 ≡ ok a
  unfolding cache_set
  set-pure a ttl now v = go has_redis
    where
      go : (redis : Bool) → ((cache_set codec redis key a ttl now >> pure a) v).0 ≡ ok a
      go false = refl
      go true = refl

  -- A key that is not there is answered by the query.
  pub read_through-miss :
      (ttl : ℕ) (times : Times) (query : Exec A) (a : A) (w : World)
      → lookup key w.cache ≡ none
      → w.faults ≡ []
      → (query w).0 ≡ ok a
      → (read_through codec has_redis key ttl times query w).0 ≡ ok a
  unfolding read_through
  read_through-miss ttl times query a w absent none_left answered =
      rw (cache_get-miss times.first_get w absent none_left) (
        rw (cache_get-miss times.second_get w absent none_left)
          (rw answered (set-pure a ttl times.set_at (query w).1)))

-- The cached summary of a coin that the cache does not hold is the one of its row.
pub cached_market_summary-found :
    (q : Ordering) (has_redis : Bool) (itoa : ℤ → String) (times : Times) (coin_id : String)
    (row : SummaryRow) (v : World)
    → lookup (summary_key has_redis itoa q coin_id) v.cache ≡ none
    → v.faults ≡ []
    → find_row coin_id v.db.summaries ≡ some row
    → (cached_market_summary has_redis itoa q coin_id times v).0 ≡ ok (summary_of_row q row)
unfolding cached_market_summary
cached_market_summary-found q has_redis itoa times coin_id row v absent none_left found =
    read_through-miss summary_codec has_redis (summary_key has_redis itoa q coin_id) (10 * second)
      times (get_market_summary q coin_id) (summary_of_row q row) v absent none_left
      (get_market_summary-found q coin_id row v none_left found)

-- After a projection of a coin that succeeded, the cache does not hold the coin, and the table does.
pub project-find_row :
    (pg : Columns) (b : BaseEvent) (p : NewDataFetchedPayload) (row : SummaryRow) (w : World)
    → w.faults ≡ []
    → summary_row pg (summary_of p) ≡ some row
    → (project pg (market_event b p) w).0 ≡ ok tt
    → (lookup (concat "cache:summary:" p.coin_id) (project pg (market_event b p) w).1.cache ≡ none)
      × ((project pg (market_event b p) w).1.faults ≡ [])
      × (find_row p.coin_id (project pg (market_event b p) w).1.db.summaries ≡ some row)
project-find_row pg b p row w none_left is_row projected =
    let (deleted, none_after) = project-cache pg b p w projected none_left in
    let (s, is_s, upserted) = project-eq_ok pg b p w projected in
    let same : s ≡ row = ground (arith, sym is_s ∙ is_row) in
    let named : row.coin_id ≡ p.coin_id = coin_id-summary_row pg (summary_of p) is_row in
    let here : str_eq row.coin_id p.coin_id ≡ true =
      subst (λ c. str_eq c p.coin_id ≡ true) (sym named) (eq_refl p.coin_id) in
    (
      ap (lookup (concat "cache:summary:" p.coin_id)) deleted
          ∙ lookup-without_key (concat "cache:summary:" p.coin_id) w.cache,
      none_after,
      ap (find_row p.coin_id) (upserted ∙ ap (λ r. upsert r w.db.summaries) same)
          ∙ find_row-upsert p.coin_id row w.db.summaries
          ∙ (rw here),
    )
