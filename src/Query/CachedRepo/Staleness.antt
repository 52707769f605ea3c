-- ===== src/Query/CachedRepo/Staleness.antt =====
-- What a query through the cache answers is not older than the time to live of its key.
use holdex_backend_cqrs.Prelude.{
  ℕ, ◌+◌, ◌≤◌, ◌<◌, String, ◌≡◌, refl, sym, ap, subst, ◌∙◌, Bool, true, false, Option, none, some,
  ◌⊎◌, inl, inr, Bool-cases, arith, ltb, ltb→lt, lookup, insert, lookup-insert, eq_refl,
}
use native.Mathlib.Nat.{le_refl}
use holdex_backend_cqrs.Result.{Result, ok}
use holdex_backend_cqrs.Json.{Json}
use holdex_backend_cqrs.Tables.{Db}
use holdex_backend_cqrs.World.{World, CacheEntry, Exec, ◌>>=◌, ◌>>◌, pure, fault?, continue}
use holdex_backend_cqrs.World.Bind.{next, bind-eq_ok}
use holdex_backend_cqrs.Query.Documents.{Codec, IsCodec}
use holdex_backend_cqrs.Query.CachedRepo.{
  Times, find_live, cache_get, store_document, cache_set, otherwise, query_and_store, read_through,
}

-- The calls of one query follow each other in time.
pub record IsTimes (times : Times) : Type 0 where
  pub get_twice : times.first_get ≤ times.second_get
  pub get_before_set : times.second_get ≤ times.set_at

module _ {A : Type 0} (codec : Codec A) (law : IsCodec codec) (key : String) (ttl : ℕ)
    (Answers : ℕ → A → Type 0) where
  -- What is stored at the key is an answer of the past, and expires a time to live after it.
  abbrev pub Stamp : ℕ → Option CacheEntry → Type 0
  Stamp now none = Unit
  Stamp now (some e) =
      (t : ℕ) × (a : A) × (codec.marshal a ≡ some e.document)
      × Answers t a
      × (e.expires_at ≡ t + ttl)
      × (t ≤ now)

  abbrev pub IsStamped : ℕ → World → Type 0
  IsStamped now w = Stamp now (lookup key w.cache)

  -- An answer not older than the time to live at the beginning of the query.
  abbrev pub IsRecent : Times → A → Type 0
  IsRecent times a = (t : ℕ) × Answers t a × (times.first_get < t + ttl) × (t ≤ times.set_at)

  Stamp-le : (now later : ℕ) (o : Option CacheEntry) → now ≤ later → Stamp now o → Stamp later o
  Stamp-le now later none h stamped = tt
  Stamp-le now later (some e) h (t, a, written, answered, expires, past) =
      (t, a, written, answered, expires, omega arith)

  IsStamped-le :
      (now later : ℕ) (v w : World)
      → now ≤ later
      → v.cache ≡ w.cache
      → IsStamped now w
      → IsStamped later v
  IsStamped-le now later v w h same stamped =
      subst (λ m. Stamp later (lookup key m)) (sym same)
        (Stamp-le now later (lookup key w.cache) h stamped)

  find_live-IsRecent :
      (times : Times) (asked now : ℕ) (o : Option CacheEntry) (a : A)
      → Stamp now o
      → now ≤ times.set_at
      → times.first_get ≤ asked
      → find_live codec asked o ≡ some a
      → IsRecent times a
  find_live-IsRecent times asked now none a stamped before after found = absurd (ground arith)
  find_live-IsRecent times asked now (some e) a (t, b, written, answered, expires, past) before
        after found =
      elim (Bool-cases (ltb asked e.expires_at)) [
        | inl y ↦
            let read : some b ≡ some a = sym (law.unmarshal-marshal b written) ∙ (rw y at found) in
            let same : b ≡ a = ground arith in
            (
              t,
              subst (λ x. Answers t x) same answered,
              omega (arith, ltb→lt asked e.expires_at y),
              omega arith,
            )
        | inr n ↦ absurd (ground arith)
      ]

  -- `Get` reads the entry or misses, and changes neither the tables nor the cache.
  cache_get-cases :
      (has_redis : Bool) (now : ℕ) (w : World)
      → (o : Option A) × (v : World) × (cache_get codec has_redis key now w ≡ (ok o, v))
        × (v.cache ≡ w.cache)
        × (v.db ≡ w.db)
        × ((o ≡ none) ⊎ (o ≡ find_live codec now (lookup key w.cache)))
  unfolding cache_get
  cache_get-cases false now w = (none, w, refl, refl, refl, inl refl)
  cache_get-cases true now w = elim (Bool-cases (fault? w.faults)) [
    | inl x ↦ (none, next w, rw x, refl, refl, inl refl)
    | inr x ↦ (find_live codec now (lookup key w.cache), next w, rw x, refl, refl, inr refl)
  ]

  store-IsStamped :
      (now : ℕ) (a : A) (o : Option Json) (w : World)
      → codec.marshal a ≡ o
      → Answers now a
      → IsStamped now w
      → IsStamped now (store_document codec key (now + ttl) o w)
  store-IsStamped now a none w written answered stamped = stamped
  store-IsStamped now a (some j) w written answered stamped = elim (Bool-cases (fault? w.faults)) [
    | inl x ↦ rw x stamped
    | inr x ↦ rw x (
        let entry : CacheEntry = record { document = j; expires_at = now + ttl } in
        let found : lookup key (insert key entry w.cache) ≡ some entry =
          lookup-insert key key entry w.cache ∙ (rw (eq_refl key)) in
        subst (λ o. Stamp now o) (sym found) (now, a, written, answered, refl, le_refl now))
  ]

  module _ (times : Times) (query : Exec A) (has_redis : Bool) (in_order : IsTimes times)
      (lives : 0 < ttl) where
    -- A query that leaves the cache alone, and answers what is true when its result is stored.
    abbrev pub IsQuery : Db → Type 0
    IsQuery db =
        (v : World)
        → v.db ≡ db
        → ((query v).1.cache ≡ v.cache) × ((a : A) → (query v).0 ≡ ok a → Answers times.set_at a)

    abbrev pub Recently : Result A × World → Type 0
    Recently r = (a : A) → r.0 ≡ ok a → IsRecent times a × IsStamped times.set_at r.1

    set_then-IsStamped :
        (redis : Bool) (b : A) (v : World)
        → Answers times.set_at b
        → IsStamped times.set_at v
        → let r = (cache_set codec redis key b ttl times.set_at >> pure b) v in
          (r.0 ≡ ok b) × IsStamped times.set_at r.1
    unfolding cache_set
    set_then-IsStamped false b v answered stamped = (refl, stamped)
    set_then-IsStamped true b v answered stamped =
        (refl, store-IsStamped times.set_at b (codec.marshal b) v refl answered stamped)

    query_and_store-Recently :
        (w : World)
        → IsQuery w.db
        → IsStamped times.second_get w
        → Recently (query_and_store codec has_redis key ttl times query w)
    query_and_store-Recently w is_query stamped a h =
        let (b, h1, h2, q1) =
          bind-eq_ok query
            (λ result. cache_set codec has_redis key result ttl times.set_at >> pure result) w h in
        let v = (query w).1 in
        let (same_cache, answers) = is_query w refl in
        let (r, kept) = set_then-IsStamped has_redis b v (answers b h1) (
          IsStamped-le times.second_get times.set_at v w in_order.get_before_set same_cache
            stamped) in
        let same : b ≡ a = ground (arith, sym r ∙ h2) in
        (
          (
            times.set_at,
            subst (λ x. Answers times.set_at x) same (answers b h1),
            omega (arith, in_order.get_twice, in_order.get_before_set),
            le_refl times.set_at,
          ),
          subst (λ p. IsStamped times.set_at p.1) (sym q1) kept,
        )

    hit-IsRecent :
        (o : Option A) (asked : ℕ) (v : World) (a : A)
        → IsStamped times.first_get v
        → times.first_get ≤ times.set_at
        → times.first_get ≤ asked
        → (o ≡ none) ⊎ (o ≡ find_live codec asked (lookup key v.cache))
        → o ≡ some a
        → IsRecent times a
    hit-IsRecent o asked v a stamped before after (inl missed) e = absurd (ground arith)
    hit-IsRecent o asked v a stamped before after (inr found) e =
        find_live-IsRecent times asked times.first_get (lookup key v.cache) a stamped before after
          (sym found ∙ e)

    otherwise-Recently :
        (o : Option A) (m : Exec A) (w : World)
        → ((a : A) → o ≡ some a → IsRecent times a)
        → IsStamped times.set_at w
        → (o ≡ none → Recently (m w))
        → Recently (otherwise codec o m w)
    otherwise-Recently none m w found stamped missed a h = missed refl a h
    otherwise-Recently (some b) m w found stamped missed a h =
        let same : b ≡ a = ground arith in (found a (ap some same), stamped)

    -- If what is stored at the key is an answer of the past that expires a time to live after it, so
    -- it is after a query through the cache; and what that query answers was true at some time that
    -- is less than the time to live before its beginning, or later.
    pub read_through-Recently :
        (w : World)
        → IsQuery w.db
        → IsStamped times.first_get w
        → Recently (read_through codec has_redis key ttl times query w)
    unfolding read_through
    read_through-Recently w is_query stamped =
        let (o, v, got, same_cache, same_db, found) = cache_get-cases has_redis times.first_get w in
        let (o', v', got', same_cache', same_db', found') =
          cache_get-cases has_redis times.second_get v in
        let qs = query_and_store codec has_redis key ttl times query in
        let inner : Exec A =
          cache_get codec has_redis key times.second_get >>= λ f. otherwise codec f qs in
        let first = in_order.get_twice in
        let last = in_order.get_before_set in
        let stamped_v =
          IsStamped-le times.first_get times.first_get v w (le_refl times.first_get) same_cache
            stamped in
        let stamped_v' =
          IsStamped-le times.first_get times.second_get v' v first same_cache' stamped_v in
        let recent = λ (a : A) (e : o ≡ some a).
          hit-IsRecent o times.first_get w a stamped (omega arith) (le_refl times.first_get) found
            e in
        let recent' = λ (a : A) (e : o' ≡ some a).
          hit-IsRecent o' times.second_get v a stamped_v (omega arith) first found' e in
        let is_query' = subst (λ db. IsQuery db) (sym (same_db' ∙ same_db)) is_query in
        subst (λ r. Recently (continue (λ f. otherwise codec f inner) r.0 r.1)) (sym got)
          (otherwise-Recently o inner v recent
            (IsStamped-le times.first_get times.set_at v v (omega arith) refl stamped_v)
            (λ missed.
              subst (λ r. Recently (continue (λ f. otherwise codec f qs) r.0 r.1)) (sym got')
                (otherwise-Recently o' qs v' recent'
                  (IsStamped-le times.second_get times.set_at v' v' last refl stamped_v')
                  (λ missed'. query_and_store-Recently v' is_query' stamped_v'))))
