-- ===== src/Query/CachedRepo/Recent.antt =====
-- The cached queries of one key, with the read model changing over time.
use mathlib.Core.Option
use holdex_backend_cqrs.Prelude.{
  ℕ, ◌+◌, ◌*◌, ◌≤◌, ◌<◌, String, ◌≡◌, refl, subst, ◌∙◌, Bool, some, List, map, inl, inr, Bool-cases,
  arith, ℤ,
}
use holdex_backend_cqrs.Result.{ok}
use holdex_backend_cqrs.Tables.{Db}
use holdex_backend_cqrs.World.{World, fault?}
use holdex_backend_cqrs.World.Bind.{next}
use holdex_backend_cqrs.Projection.ReadModel.{MarketSummary}
use holdex_backend_cqrs.Projection.Queries.{
  PricePoint, Ordering, find_row, summary_of_row, point_of_row, recent_rows, limit_of,
  get_price_history,
}
use holdex_backend_cqrs.Query.Documents.{summary_codec, points_codec}
use holdex_backend_cqrs.Query.Documents.RoundTrip.{summary-IsCodec, points-IsCodec}
use holdex_backend_cqrs.Query.CachedRepo.{
  second, Times, summary_key, history_key, cached_price_history,
}
use holdex_backend_cqrs.Query.CachedRepo.Staleness.{IsTimes, IsStamped, read_through-Recently}

-- The read model as it was at each time.
module _ (q : Ordering) (db_at : ℕ → Db) where
  abbrev pub SummaryAt : String → ℕ → MarketSummary → Type 0
  SummaryAt coin_id t s =
      Option.map (summary_of_row q) (find_row coin_id (db_at t).summaries) ≡ some s

  abbrev pub HistoryAt : String → ℤ → ℕ → List PricePoint → Type 0
  HistoryAt coin_id limit t points =
      map (point_of_row q) (recent_rows q (limit_of limit) (db_at t) coin_id) ≡ points

  get_price_history-eq_ok :
      (coin_id : String) (limit : ℤ) (v : World)
      → ((get_price_history q coin_id limit v).1.cache ≡ v.cache)
        × ((points : List PricePoint)
            → (get_price_history q coin_id limit v).0 ≡ ok points
            → map (point_of_row q) (recent_rows q (limit_of limit) v.db coin_id) ≡ points)
  unfolding get_price_history
  get_price_history-eq_ok coin_id limit v = elim (Bool-cases (fault? v.faults)) [
    | inl x ↦ rw x (refl, λ s h. absurd (ground arith))
    | inr x ↦ rw x (elim (Bool-cases (fault? (next v).faults)) [
      | inl y ↦ rw y (refl, λ s h. absurd (ground arith))
      | inr y ↦ rw y (refl, λ s h. ground arith)
    ])
  ]

  module _ (has_redis : Bool) (itoa : ℤ → String) (times : Times) (in_order : IsTimes times)
      (w : World) (present : w.db ≡ db_at times.set_at) where
    -- What is stored at a key was in the read model at some time, and expires a time to live after it.
    abbrev pub SummaryStamped : String → ℕ → World → Type 0
    SummaryStamped coin_id now v =
        IsStamped summary_codec summary-IsCodec (summary_key has_redis itoa q coin_id) (10 * second)
          (SummaryAt coin_id) now v

    abbrev pub HistoryStamped : String → ℤ → ℕ → World → Type 0
    HistoryStamped coin_id limit now v =
        IsStamped points_codec points-IsCodec (history_key has_redis itoa q coin_id limit)
          (30 * second) (HistoryAt coin_id limit) now v

    -- The same of GetPriceHistory and thirty seconds.
    pub cached_price_history_recent :
        (coin_id : String) (limit : ℤ) (points : List PricePoint)
        → HistoryStamped coin_id limit times.first_get w
        → (cached_price_history has_redis itoa q coin_id limit times w).0 ≡ ok points
        → ((t : ℕ) × HistoryAt coin_id limit t points
            × (times.first_get < t + 30 * second)
            × (t ≤ times.set_at))
          × HistoryStamped coin_id limit times.set_at
              (cached_price_history has_redis itoa q coin_id limit times w).1
    unfolding cached_price_history
    cached_price_history_recent coin_id limit points stamped h =
        read_through-Recently points_codec points-IsCodec
          (history_key has_redis itoa q coin_id limit) (30 * second) (HistoryAt coin_id limit) times
          (get_price_history q coin_id limit) has_redis in_order (omega arith) w
          (λ v same.
            let (kept, answers) = get_price_history-eq_ok coin_id limit v in
            (
              kept,
              λ a r.
                  subst (λ db. map (point_of_row q) (recent_rows q (limit_of limit) db coin_id) ≡ a)
                    (same ∙ present) (answers a r),
            ))
          stamped points h
