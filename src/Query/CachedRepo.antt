-- ===== src/Query/CachedRepo.antt =====
-- internal/query/cached_repo.go and internal/cache/redis.go: queries that read through the cache. A
-- key lives in Redis until its time to live is over. singleflight is not under the repository: its
-- `Do` runs the function, or hands a caller the result of a run for the same key, and a run is what
-- is modelled. `fmt.Sprintf` of a number is a parameter. Times are in nanoseconds.
pub mod Staleness
pub mod Recent
pub mod Invalidation
use Prim.Native.String.{◌++◌ as concat}
use holdex_backend_cqrs.Prelude.{
  ℕ, ◌+◌, ◌*◌, ◌^◌, String, Bool, true, false, Option, none, some, List, [], ◌∷◌, ◌++◌, ltb,
  if◌then◌else◌, ℤ, lookup, insert,
}
use holdex_backend_cqrs.Json.{Json}
use holdex_backend_cqrs.Result.{ok}
use holdex_backend_cqrs.World.{World, CacheEntry, Exec, ◌>>=◌, ◌>>◌, pure, fault?}
use holdex_backend_cqrs.World.Bind.{next}
use holdex_backend_cqrs.Projection.ReadModel.{MarketSummary}
use holdex_backend_cqrs.Projection.Queries.{
  PricePoint, Ordering, get_market_summaries, get_market_summary, get_price_history,
  get_price_histories,
}
use holdex_backend_cqrs.Query.Documents.{Codec, summary_codec, summaries_codec, points_codec}

abbrev pub second : ℕ
second = 10 ^ 9

-- The time of each call in one query, in their order.
pub record Times : Type 0 where
  pub first_get : ℕ
  pub second_get : ℕ
  pub set_at : ℕ

module _ {A : Type 0} (codec : Codec A) where
  -- What `Get` finds at a key: a document that is alive and can be read.
  abbrev pub find_live : ℕ → Option CacheEntry → Option A
  find_live now none = none
  find_live now (some e) = if ltb now e.expires_at then codec.unmarshal e.document else none

  -- Get of redis.go. The callers treat an error as a miss.
  unfoldable pub cache_get : Bool → String → ℕ → Exec (Option A)
  cache_get false key now w = (ok none, w)
  cache_get true key now w =
      if fault? w.faults
      then (ok none, next w)
      else (ok (find_live now (lookup key w.cache)), next w)

  abbrev pub store_document : String → ℕ → Option Json → World → World
  store_document key expires_at none w = w
  store_document key expires_at (some j) w = if fault? w.faults then next w else record (next w) {
    cache = insert key (record { document = j; expires_at = expires_at }) w.cache;
  }

  -- Set of redis.go. The callers log an error and go on.
  unfoldable pub cache_set : Bool → String → A → ℕ → ℕ → Exec (Unit {0})
  cache_set false key a ttl now w = (ok tt, w)
  cache_set true key a ttl now w = (ok tt, store_document key (now + ttl) (codec.marshal a) w)

  abbrev pub otherwise : Option A → Exec A → Exec A
  otherwise none m = m
  otherwise (some a) m = pure a

  abbrev pub query_and_store : Bool → String → ℕ → Times → Exec A → Exec A
  query_and_store has_redis key ttl times query = do
    result ← query
    cache_set has_redis key result ttl times.set_at
    pure result

  -- The shape of the cached queries: Get, and under singleflight Get again, the query, and Set.
  unfoldable pub read_through : Bool → String → ℕ → Times → Exec A → Exec A
  unfolding cache_get cache_set
  read_through has_redis key ttl times query = do
    found ← cache_get has_redis key times.first_get
    otherwise found (do
      found_again ← cache_get has_redis key times.second_get
      otherwise found_again (query_and_store has_redis key ttl times query))

module _ (has_redis : Bool) (itoa : ℤ → String) (q : Ordering) where
  abbrev pub summaries_key : ℤ → ℤ → String
  summaries_key limit offset =
      concat "cache:summaries:" (concat (itoa limit) (concat ":" (itoa offset)))

  abbrev pub summary_key : String → String
  summary_key coin_id = concat "cache:summary:" coin_id

  abbrev pub history_key : String → ℤ → String
  history_key coin_id limit = concat "cache:history:" (concat coin_id (concat ":" (itoa limit)))

  unfoldable pub cached_market_summaries : ℤ → ℤ → Times → Exec (List MarketSummary)
  unfolding read_through
  cached_market_summaries limit offset times =
      read_through summaries_codec has_redis (summaries_key limit offset) (10 * second) times
        (get_market_summaries q limit offset)

  unfoldable pub cached_market_summary : String → Times → Exec MarketSummary
  unfolding read_through
  cached_market_summary coin_id times =
      read_through summary_codec has_redis (summary_key coin_id) (10 * second) times
        (get_market_summary q coin_id)

  unfoldable pub cached_price_history : String → ℤ → Times → Exec (List PricePoint)
  unfolding read_through
  cached_price_history coin_id limit times =
      read_through points_codec has_redis (history_key coin_id limit) (30 * second) times
        (get_price_history q coin_id limit)

  abbrev pub History : Type 0
  History = List (String × List PricePoint)

  -- One coin of a loop of lookups: into the result if it is found, and among the misses if not.
  abbrev pub sort_hit :
      String → Option (List PricePoint) → History × List String → History × List String
  sort_hit coin_id none (hits, misses) = (hits, misses ++ coin_id ∷ [])
  sort_hit coin_id (some points) (hits, misses) = (insert coin_id points hits, misses)

  -- The loop over the coins: the hits and the misses.
  abbrev pub get_each : List String → ℤ → ℕ → History × List String → Exec (History × List String)
  get_each [] limit now sorted = pure sorted
  get_each (c ∷ cs) limit now sorted = do
    found ← cache_get points_codec has_redis (history_key c limit) now
    get_each cs limit now (sort_hit c found sorted)

  -- The loop over what the database gave: into the result, and into the cache.
  abbrev pub set_each : History → ℤ → ℕ → History → Exec History
  set_each [] limit now result = pure result
  set_each (e ∷ es) limit now result = do
    cache_set points_codec has_redis (history_key e.0 limit) e.1 (30 * second) now
    set_each es limit now (insert e.0 e.1 result)

  abbrev pub fill_from : History → Option (List String) → ℤ → ℕ → Exec History
  fill_from hits none limit now = pure hits
  fill_from hits (some misses) limit now = do
    rows ← get_price_histories q misses limit
    set_each rows limit now hits

  abbrev pub when_any : List String → Option (List String)
  when_any [] = none
  when_any (m ∷ ms) = some (m ∷ ms)

  -- for k, v := range from { into[k] = v }
  abbrev pub merge_into : History → History → History
  merge_into into [] = into
  merge_into into (e ∷ es) = merge_into (insert e.0 e.1 into) es

  -- The function under singleflight, for the misses of the first loop.
  abbrev pub fetch_misses : List String → ℤ → Times → Exec History
  fetch_misses misses limit times = do
    (hits, still_misses) ← get_each misses limit times.second_get ([], [])
    fill_from hits (when_any still_misses) limit times.set_at

  abbrev pub merge_fetched : History → Option (List String) → ℤ → Times → Exec History
  merge_fetched hits none limit times = pure hits
  merge_fetched hits (some misses) limit times = do
    fetched ← fetch_misses misses limit times
    pure (merge_into hits fetched)

  unfoldable pub cached_price_histories : List String → ℤ → Times → Exec History
  unfolding cache_get cache_set
  cached_price_histories coin_ids limit times = do
    (hits, misses) ← get_each coin_ids limit times.first_get ([], [])
    merge_fetched hits (when_any misses) limit times
