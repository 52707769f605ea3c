-- ===== src/Api/Graphql/Dataloader/Delivery.antt =====
-- What a dispatch sends: each load that waits is answered once, and no other is.
use mathlib.Core.List.{Permᴰ, append_assoc}
use mathlib.Core.List.Permᴰ
use holdex_backend_cqrs.Prelude.{
  ℕ, suc, ◌+◌, String, ◌≡◌, refl, sym, subst, ◌∙◌, true, List, [], ◌∷◌, ◌++◌, inl, inr, Bool-cases,
  arith, eq_iff, exists, All, All-append, All-map, if◌then◌else◌, ℤ,
}
use holdex_backend_cqrs.Result.{Result}
use holdex_backend_cqrs.Projection.Queries.{PricePoint}
use holdex_backend_cqrs.Api.Graphql.Dataloader.{
  int_eq, DataloaderKey, key_eq, Point, Answer, Dataloader, Groups, group_keys, answer_in,
  cache_answer, send_to, distribute, fetch_groups, dispatch,
}
use holdex_backend_cqrs.Api.Graphql.Dataloader.Waiting.{
  Fetch, key_of, IsBatch, batch_fits, Reachable, Reachable-IsLoader,
}
use holdex_backend_cqrs.Api.Graphql.Dataloader.Grouping.{
  int_eq_iff, key_eq→eq, occurrences, count, count-perm, count-group_keys_all,
}

-- The sends for a list of answered keys.
abbrev flood : List (DataloaderKey × Answer) → List (DataloaderKey × ℕ) → List (ℕ × Answer)
flood [] ls = []
flood (p ∷ ps) ls = send_to p.0 p.1 ls ++ flood ps ls

flood-append :
    (ps qs : List (DataloaderKey × Answer)) (ls : List (DataloaderKey × ℕ))
    → flood (ps ++ qs) ls ≡ flood ps ls ++ flood qs ls
flood-append [] qs ls = refl
flood-append (p ∷ ps) qs ls =
    rw (flood-append ps qs ls, append_assoc (send_to p.0 p.1 ls) (flood ps ls) (flood qs ls))

-- How often a key is answered.
abbrev tally : DataloaderKey → List (DataloaderKey × Answer) → ℕ
tally k [] = 0
tally k (p ∷ ps) = let rest = tally k ps in if key_eq k p.0 then suc rest else rest

tally-append :
    (k : DataloaderKey) (ps qs : List (DataloaderKey × Answer))
    → tally k (ps ++ qs) ≡ tally k ps + tally k qs
tally-append k [] qs = omega arith
tally-append k (p ∷ ps) qs = ground (arith, tally-append k ps qs)

rest_none : (n : ℕ) → suc n ≡ 1 → n ≡ 0
rest_none n h = omega (arith, h)

flood-none :
    (l : DataloaderKey × ℕ) (ls : List (DataloaderKey × ℕ)) (ps : List (DataloaderKey × Answer))
    → tally l.0 ps ≡ 0
    → flood ps (l ∷ ls) ≡ flood ps ls
flood-none l ls [] h = refl
flood-none l ls (p ∷ ps) h = elim (Bool-cases (key_eq l.0 p.0)) [
  | inl y ↦ absurd (ground arith)
  | inr n ↦ rw (n, flood-none l ls ps (rw n at h))
]

module _ (Fits : DataloaderKey → Answer → Type 0) where
  -- One answer that fits for each of the listeners, in any order.
  abbrev pub Served : List (DataloaderKey × ℕ) → List (ℕ × Answer) → Type 0
  Served [] sent = sent ≡ []
  Served (l ∷ ls) sent =
      (answer : Answer) × (rest : List (ℕ × Answer)) × Permᴰ sent ((l.1, answer) ∷ rest)
      × Fits l.0 answer
      × Served ls rest

  flood-one :
      (l : DataloaderKey × ℕ) (ls : List (DataloaderKey × ℕ)) (ps : List (DataloaderKey × Answer))
      → tally l.0 ps ≡ 1
      → All (λ p. Fits p.0 p.1) ps
      → (answer : Answer) × Permᴰ (flood ps (l ∷ ls)) ((l.1, answer) ∷ flood ps ls)
        × Fits l.0 answer
  flood-one l ls [] h fit = absurd (ground arith)
  flood-one l ls (p ∷ ps) h fit = elim (Bool-cases (key_eq l.0 p.0)) [
    | inl y ↦ (
      p.1,
      rw (y, flood-none l ls ps (rest_none _ (rw y at h))) (Permᴰ.refl _),
      subst (λ k. Fits k p.1) (sym (key_eq→eq l.0 p.0 y)) fit.0,
    )
    | inr n ↦
        let (answer, p', fits) = flood-one l ls ps (rw n at h) fit.1 in
        (
          answer,
          rw n (
              Permᴰ.trans (Permᴰ.append_left (send_to p.0 p.1 ls) p')
                (Permᴰ.middle (l.1, answer) (send_to p.0 p.1 ls) (flood ps ls))),
          fits,
        )
  ]

  flood-nobody : (ps : List (DataloaderKey × Answer)) → flood ps [] ≡ []
  flood-nobody [] = refl
  flood-nobody (p ∷ ps) = flood-nobody ps

  flood-Served :
      (ps : List (DataloaderKey × Answer)) (ls : List (DataloaderKey × ℕ))
      → All (λ p. Fits p.0 p.1) ps
      → All (λ l. tally l.0 ps ≡ 1) ls
      → Served ls (flood ps ls)
  flood-Served ps [] fit h = flood-nobody ps
  flood-Served ps (l ∷ ls) fit h =
      let (answer, p', fits) = flood-one l ls ps h.0 fit in
      (answer, flood ps ls, p', fits, flood-Served ps ls fit h.1)

-- The answered keys of one batch, and of a list of groups.
abbrev batch_answers :
    ℤ
    → Result (List (String × List PricePoint))
    → (ℕ → String)
    → List String
    → List (DataloaderKey × Answer)
batch_answers limit res format_utc [] = []
batch_answers limit res format_utc (c ∷ cs) =
    (key_of c limit, answer_in format_utc res c) ∷ batch_answers limit res format_utc cs

abbrev all_answers : Fetch → (ℕ → String) → Groups → List (DataloaderKey × Answer)
all_answers fetch format_utc [] = []
all_answers fetch format_utc (g ∷ gs) =
    batch_answers g.0 (fetch g.1 g.0) format_utc g.1 ++ all_answers fetch format_utc gs

module _ (format_utc : ℕ → String) where
  distribute-flood :
      (limit : ℤ) (res : Result (List (String × List PricePoint))) (cs : List String)
      (ls : List (DataloaderKey × ℕ)) (cache : List (DataloaderKey × List Point))
      → (distribute format_utc limit res cs ls cache).0
        ≡ flood (batch_answers limit res format_utc cs) ls
  distribute-flood limit res [] ls cache = refl
  distribute-flood limit res (c ∷ cs) ls cache = rw (
      distribute-flood limit res cs ls
        (cache_answer (key_of c limit) (answer_in format_utc res c) cache))

  fetch_groups-flood :
      (fetch : Fetch) (gs : Groups) (ls : List (DataloaderKey × ℕ))
      (cache : List (DataloaderKey × List Point))
      → (fetch_groups format_utc fetch gs ls cache).0 ≡ flood (all_answers fetch format_utc gs) ls
  fetch_groups-flood fetch [] ls cache = refl
  fetch_groups-flood fetch (g ∷ gs) ls cache = rw (
    distribute-flood g.0 (fetch g.1 g.0) g.1 ls cache,
    fetch_groups-flood fetch gs ls (distribute format_utc g.0 (fetch g.1 g.0) g.1 ls cache).1,
    flood-append (batch_answers g.0 (fetch g.1 g.0) format_utc g.1)
        (all_answers fetch format_utc gs) ls,
  )

  tally-batch_answers :
      (k : DataloaderKey) (limit : ℤ) (res : Result (List (String × List PricePoint)))
      (cs : List String)
      → tally k (batch_answers limit res format_utc cs)
        ≡ (if int_eq limit k.limit then occurrences k.coin_id cs else 0)
  tally-batch_answers k limit res [] = ground arith
  tally-batch_answers k limit res (c ∷ cs) = ground (
    arith,
    tally-batch_answers k limit res cs,
    eq_iff c k.coin_id,
    eq_iff k.coin_id c,
    int_eq_iff limit k.limit,
    int_eq_iff k.limit limit,
  )

  tally-all_answers :
      (k : DataloaderKey) (fetch : Fetch) (gs : Groups)
      → tally k (all_answers fetch format_utc gs) ≡ count k gs
  tally-all_answers k fetch [] = refl
  tally-all_answers k fetch (g ∷ gs) =
      tally-append k (batch_answers g.0 (fetch g.1 g.0) format_utc g.1)
        (all_answers fetch format_utc gs)
      ∙ (rw (tally-batch_answers k g.0 (fetch g.1 g.0) g.1, tally-all_answers k fetch gs))

  fits_in :
      (Fits : DataloaderKey → Answer → Type 0) (limit : ℤ)
      (res : Result (List (String × List PricePoint))) (cs : List String)
      → All (λ c. Fits (key_of c limit) (answer_in format_utc res c)) cs
      → All (λ p. Fits p.0 p.1) (batch_answers limit res format_utc cs)
  fits_in Fits limit res [] h = tt
  fits_in Fits limit res (c ∷ cs) h = (h.0, fits_in Fits limit res cs h.1)

  groups_fit :
      (Fits : DataloaderKey → Answer → Type 0) (fetch : Fetch)
      → IsBatch Fits format_utc fetch
      → (gs : Groups) → All (λ p. Fits p.0 p.1) (all_answers fetch format_utc gs)
  groups_fit Fits fetch h [] = tt
  groups_fit Fits fetch h (g ∷ gs) =
      All-append _ (batch_answers g.0 (fetch g.1 g.0) format_utc g.1) _
        (fits_in Fits g.0 (fetch g.1 g.0) g.1
          (batch_fits Fits format_utc g.0 (fetch g.1 g.0) g.1 (h g.1 g.0)))
        (groups_fit Fits fetch h gs)

  each_once :
      (fetch : Fetch) (gs : Groups) (ls : List (DataloaderKey × ℕ))
      → All (λ l. count l.0 gs ≡ 1) ls
      → All (λ l. tally l.0 (all_answers fetch format_utc gs) ≡ 1) ls
  each_once fetch gs = All-map (λ l e. tally-all_answers l.0 fetch gs ∙ e)

  each_counted :
      (order : Groups → Groups) (keys : List DataloaderKey) (ls : List (DataloaderKey × ℕ))
      → ((gs : Groups) → Permᴰ (order gs) gs)
      → All (λ l. exists (λ j. key_eq j l.0) keys ≡ true) ls
      → All (λ l. count l.0 (order (group_keys keys [] [])) ≡ 1) ls
  each_counted order keys ls h =
      All-map (λ l e. count-perm l.0 (h _) ∙ count-group_keys_all l.0 keys e) ls

  -- A dispatch of a reachable loader sends each load that waits one answer that fits its key, sends
  -- nothing else, and leaves no key and no listener.
  pub dispatch-Served :
      (Fits : DataloaderKey → Answer → Type 0) (order : Groups → Groups) (fetch : Fetch)
      (dl : Dataloader)
      → ((gs : Groups) → Permᴰ (order gs) gs)
      → IsBatch Fits format_utc fetch
      → Reachable Fits format_utc dl
      → Served Fits dl.listeners (dispatch format_utc order fetch dl).0
        × ((dispatch format_utc order fetch dl).1.keys ≡ [])
        × ((dispatch format_utc order fetch dl).1.listeners ≡ [])
  unfolding dispatch
  dispatch-Served Fits order fetch dl h fits reached =
      let gs = order (group_keys dl.keys [] []) in
      (
        subst (Served Fits dl.listeners) (sym (fetch_groups-flood fetch gs dl.listeners dl.cache)) (
            flood-Served Fits (all_answers fetch format_utc gs) dl.listeners
              (groups_fit Fits fetch fits gs)
              (each_once fetch gs dl.listeners (
                each_counted order dl.keys dl.listeners h
                  (Reachable-IsLoader Fits format_utc dl reached).0))),
        refl,
        refl,
      )
