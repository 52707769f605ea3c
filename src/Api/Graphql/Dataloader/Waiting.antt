-- ===== src/Api/Graphql/Dataloader/Waiting.antt =====
-- The states that a loader reaches by loads and dispatches: what waits has its key in the next batch,
-- and what the cache holds was an answer.
use holdex_backend_cqrs.Prelude.{
  ℕ, String, ◌≡◌, refl, subst, Bool, true, Option, none, some, List, [], ◌∷◌, ◌++◌, ◌⊎◌, inl, inr,
  Bool-cases, Option-cases, arith, str_eq, eq_refl, exists, All, All-append, All-map, ℤ,
}
use holdex_backend_cqrs.Result.{Result, ok, err}
use holdex_backend_cqrs.Projection.Queries.{PricePoint}
use holdex_backend_cqrs.Api.Graphql.Dataloader.{
  DataloaderKey, key_eq, Point, Answer, Dataloader, new_dataloader, find_cached, set_cached, found,
  waiting, is_empty, answer_or_wait, load, Groups, group_keys, answer_in, cache_answer, distribute,
  fetch_groups, dispatch,
}
use holdex_backend_cqrs.Api.Graphql.Dataloader.Grouping.{int_eq_iff, key_eq→eq}

abbrev pub Fetch : Type 0
Fetch = List String → ℤ → Result (List (String × List PricePoint))

abbrev pub key_of : String → ℤ → DataloaderKey
key_of coin limit = record { coin_id = coin; limit = limit }

key_eq_refl : (k : DataloaderKey) → key_eq k k ≡ true
key_eq_refl k = rw (eq_refl k.coin_id, (int_eq_iff k.limit k.limit).1 refl)

-- Every load that waits has its key in the batch.
abbrev pub IsWaiting : Dataloader → Type 0
IsWaiting dl = All (λ l. exists (λ j. key_eq j l.0) dl.keys ≡ true) dl.listeners

exists-append :
    {A : Type 0} (p : A → Bool) (xs ys : List A) → exists p xs ≡ true → exists p (xs ++ ys) ≡ true
exists-append p [] ys h = absurd (ground arith)
exists-append p (x ∷ xs) ys h = elim (Bool-cases (p x)) [
  | inl y ↦ rw y
  | inr n ↦ rw n (exists-append p xs ys (rw n at h))
]

exists-snoc :
    {A : Type 0} (p : A → Bool) (xs : List A) (y : A) → p y ≡ true → exists p (xs ++ y ∷ []) ≡ true
exists-snoc p [] y h = rw h
exists-snoc p (x ∷ xs) y h = elim (Bool-cases (p x)) [
  | inl e ↦ rw e
  | inr n ↦ rw n (exists-snoc p xs y h)
]

module _ (Fits : DataloaderKey → Answer → Type 0) where
  abbrev pub IsCached : List (DataloaderKey × List Point) → Type 0
  IsCached cache = All (λ e. Fits e.0 (ok e.1)) cache

  abbrev pub IsLoader : Dataloader → Type 0
  IsLoader dl = IsWaiting dl × IsCached dl.cache

  find_cached-Fits :
      (k : DataloaderKey) (cache : List (DataloaderKey × List Point)) (points : List Point)
      → IsCached cache
      → find_cached k cache ≡ some points
      → Fits k (ok points)
  find_cached-Fits k [] points c h = absurd (ground arith)
  find_cached-Fits k (e ∷ m) points c h = elim (Bool-cases (key_eq e.0 k)) [
    | inl y ↦
        let same : e.1 ≡ points = ground arith in
        subst (λ p. Fits k (ok p)) same (subst (λ j. Fits j (ok e.1)) (key_eq→eq e.0 k y) c.0)
    | inr n ↦ find_cached-Fits k m points c.1 (rw n at h)
  ]

  set_cached-IsCached :
      (k : DataloaderKey) (points : List Point) (cache : List (DataloaderKey × List Point))
      → Fits k (ok points)
      → IsCached cache
      → IsCached (set_cached k points cache)
  set_cached-IsCached k points [] f c = (f, tt)
  set_cached-IsCached k points (e ∷ m) f c = elim (Bool-cases (key_eq e.0 k)) [
    | inl y ↦ rw y (f, c.1)
    | inr n ↦ rw n (c.0, set_cached-IsCached k points m f c.1)
  ]

  cache_answer-IsCached :
      (k : DataloaderKey) (answer : Answer) (cache : List (DataloaderKey × List Point))
      → Fits k answer
      → IsCached cache
      → IsCached (cache_answer k answer cache)
  cache_answer-IsCached k (ok points) cache f c = set_cached-IsCached k points cache f c
  cache_answer-IsCached k (err e) cache f c = c

  answer_or_wait-IsLoader :
      (k : DataloaderKey) (dl : Dataloader) (o : Option (List Point))
      → IsLoader dl
      → IsLoader (answer_or_wait k dl o).1
  answer_or_wait-IsLoader k dl (some points) h = h
  answer_or_wait-IsLoader k dl none (waits, cached) = (
    All-append (λ l. exists (λ j. key_eq j l.0) (dl.keys ++ k ∷ []) ≡ true) dl.listeners
        ((k, dl.next_channel) ∷ [])
        (All-map (λ l. exists-append (λ j. key_eq j l.0) dl.keys (k ∷ [])) dl.listeners waits)
        (exists-snoc (λ j. key_eq j k) dl.keys k (key_eq_refl k), tt),
    cached,
  )

  module _ (format_utc : ℕ → String) where
    -- What is known of the answers to a batch, for each coin that it asks for.
    abbrev pub IsBatch : Fetch → Type 0
    IsBatch fetch =
        (coins : List String) (limit : ℤ) (c : String)
        → exists (λ d. str_eq d c) coins ≡ true
        → Fits (key_of c limit) (answer_in format_utc (fetch coins limit) c)

    pub batch_fits :
        (limit : ℤ) (res : Result (List (String × List PricePoint))) (cs : List String)
        → ((c : String)
            → exists (λ d. str_eq d c) cs ≡ true
            → Fits (key_of c limit) (answer_in format_utc res c))
        → All (λ c. Fits (key_of c limit) (answer_in format_utc res c)) cs
    batch_fits limit res [] h = tt
    batch_fits limit res (c ∷ cs) h =
        (h c (rw (eq_refl c)), batch_fits limit res cs (λ d m. h d (ground (arith, m))))

    distribute-IsCached :
        (limit : ℤ) (res : Result (List (String × List PricePoint))) (cs : List String)
        (ls : List (DataloaderKey × ℕ)) (cache : List (DataloaderKey × List Point))
        → All (λ c. Fits (key_of c limit) (answer_in format_utc res c)) cs
        → IsCached cache
        → IsCached (distribute format_utc limit res cs ls cache).1
    distribute-IsCached limit res [] ls cache f h = h
    distribute-IsCached limit res (c ∷ cs) ls cache f h =
        distribute-IsCached limit res cs ls
          (cache_answer (key_of c limit) (answer_in format_utc res c) cache) f.1
          (cache_answer-IsCached (key_of c limit) (answer_in format_utc res c) cache f.0 h)

    fetch_groups-IsCached :
        (fetch : Fetch) (gs : Groups) (ls : List (DataloaderKey × ℕ))
        (cache : List (DataloaderKey × List Point))
        → IsBatch fetch
        → IsCached cache
        → IsCached (fetch_groups format_utc fetch gs ls cache).1
    fetch_groups-IsCached fetch [] ls cache b h = h
    fetch_groups-IsCached fetch (g ∷ gs) ls cache b h =
        fetch_groups-IsCached fetch gs ls (distribute format_utc g.0 (fetch g.1 g.0) g.1 ls cache).1
          b
          (distribute-IsCached g.0 (fetch g.1 g.0) g.1 ls cache
            (batch_fits g.0 (fetch g.1 g.0) g.1 (b g.1 g.0)) h)

    -- The states of a loader whose batches are answered as `Fits` says.
    pub data Reachable : Dataloader → Type 0 where
      created : (wait : ℤ) → Reachable (new_dataloader wait)
      loaded :
          (c : String) (limit : ℤ) {dl : Dataloader} → Reachable dl → Reachable (load c limit dl).1
      dispatched :
          (order : Groups → Groups) (fetch : Fetch) {dl : Dataloader}
          → IsBatch fetch
          → Reachable dl
          → Reachable (dispatch format_utc order fetch dl).1

    pub Reachable-IsLoader : (dl : Dataloader) → Reachable dl → IsLoader dl
    unfolding new_dataloader load dispatch
    Reachable-IsLoader dl (created wait) = (tt, tt)
    Reachable-IsLoader dl (loaded c limit {dl = dl'} r) =
        answer_or_wait-IsLoader (key_of c limit) dl' (find_cached (key_of c limit) dl'.cache)
          (Reachable-IsLoader dl' r)
    Reachable-IsLoader dl (dispatched order fetch {dl = dl'} b r) = (
      tt,
      fetch_groups-IsCached fetch (order (group_keys dl'.keys [] [])) dl'.listeners dl'.cache b
          (Reachable-IsLoader dl' r).1,
    )

    -- A load of a reachable loader is answered from the cache with what fits its key, and changes
    -- nothing; or it waits on a channel of its own, and its key is in the next batch.
    pub load_answers :
        (c : String) (limit : ℤ) (dl : Dataloader)
        → Reachable dl
        → ((points : List Point) × ((load c limit dl).0 ≡ found points)
            × ((load c limit dl).1 ≡ dl)
            × Fits (key_of c limit) (ok points))
          ⊎ (((load c limit dl).0 ≡ waiting dl.next_channel (is_empty dl.keys))
              × ((load c limit dl).1.listeners
                  ≡ dl.listeners ++ (key_of c limit, dl.next_channel) ∷ [])
              × (exists (λ k. key_eq k (key_of c limit)) (load c limit dl).1.keys ≡ true))
    unfolding load
    load_answers c limit dl r =
        let k = key_of c limit in
        elim (Option-cases (find_cached k dl.cache)) [
          | inl e ↦ inr (
            rw (e, load),
            rw (e, load),
            rw (e, load) (exists-snoc (λ j. key_eq j k) dl.keys k (key_eq_refl k)),
          )
          | inr (points, e) ↦ inl (
            points,
            rw (e, load),
            rw (e, load),
            find_cached-Fits k dl.cache points (Reachable-IsLoader dl r).1 e,
          )
        ]
