-- ===== src/Projection/Queries/Batching.antt =====
-- GetPriceHistories against the table: a batch gives each coin its newest points.
use mathlib.Core.List.{Permᴰ, append-nil, append_assoc}
use holdex_backend_cqrs.Prelude.{
  ℕ, zero, suc, ◌≤◌, ◌⊎◌, length, take, drop, take-append-drop, String, ◌≡◌, refl, sym, ap, subst,
  ◌∙◌, Bool, true, false, Option, none, some, List, [], ◌∷◌, ◌++◌, map, inl, inr, Bool-cases, arith,
  str_eq, eq_iff, select, exists, All, lookup, insert, lookup-insert, if◌then◌else◌, ℤ,
  select-append, select-perm, map-perm, All-perm, All-take, select-All, select-All_refused,
  All-select_self, All-map,
}
use holdex_backend_cqrs.Result.{ok}
use holdex_backend_cqrs.Tables.{PriceRow, Db}
use holdex_backend_cqrs.World.{World}
use holdex_backend_cqrs.Projection.Queries.{
  PricePoint, Ordering, limit_of, of_coin, point_of_row, window_of, distinct, windows, or_empty,
  add_rows, get_price_histories,
}

-- A map entry is there as soon as it has a point.
abbrev pub present : List PricePoint → Option (List PricePoint)
present [] = none
present (p ∷ ps) = some (p ∷ ps)

-- No row stands before one that is newer.
abbrev pub Descending : List PriceRow → Type 0
Descending [] = Unit
Descending (r ∷ rows) = All (λ (s : PriceRow). s.recorded_at ≤ r.recorded_at) rows × Descending rows

-- Of the rows of a coin some were chosen: at most the limit and, if any are left out, as many as the
-- limit; and none that is left out is newer than one that was chosen.
abbrev pub IsRecent : ℕ → String → Db → List PriceRow → Type 0
IsRecent limit coin_id db chosen =
    (others : List PriceRow) × Permᴰ (chosen ++ others) (select (of_coin coin_id) db.history)
    × (length chosen ≤ limit)
    × ((others ≡ []) ⊎ (length chosen ≡ limit))
    × All (λ (r : PriceRow). All (λ (s : PriceRow). s.recorded_at ≤ r.recorded_at) others) chosen

length-take_le : (n : ℕ) (rows : List PriceRow) → length (take n rows) ≤ n
length-take_le zero rows = omega arith
length-take_le (suc n) [] = omega arith
length-take_le (suc n) (r ∷ rows) = omega (arith, length-take_le n rows)

drop-nil_or_full : (n : ℕ) (rows : List PriceRow) → (drop n rows ≡ []) ⊎ (length (take n rows) ≡ n)
drop-nil_or_full zero rows = inr refl
drop-nil_or_full (suc n) [] = inl refl
drop-nil_or_full (suc n) (r ∷ rows) = elim (drop-nil_or_full n rows) [
  | inl x ↦ inl x
  | inr x ↦ inr (ap suc x)
]

All-drop : (P : PriceRow → Type 0) (n : ℕ) (rows : List PriceRow) → All P rows → All P (drop n rows)
All-drop P zero rows h = h
All-drop P (suc n) [] h = tt
All-drop P (suc n) (r ∷ rows) h = All-drop P n rows h.1

newer-take :
    (n : ℕ) (rows : List PriceRow)
    → Descending rows
    → All
        (λ (r : PriceRow). All (λ (s : PriceRow). s.recorded_at ≤ r.recorded_at) (drop n rows))
        (take n rows)
newer-take zero rows h = tt
newer-take (suc n) [] h = tt
newer-take (suc n) (r ∷ rows) h = (All-drop _ n rows h.0, newer-take n rows h.1)

module _ (q : Ordering) where
  abbrev pub points_of : String → List PriceRow → List PricePoint
  points_of coin_id rows = map (point_of_row q) (select (of_coin coin_id) rows)

  abbrev grown : Option (List PricePoint) → List PricePoint → Option (List PricePoint)
  grown o [] = o
  grown o (p ∷ ps) = some (or_empty q o ++ p ∷ ps)

  grown-some : (xs ps : List PricePoint) → grown (some xs) ps ≡ some (xs ++ ps)
  grown-some xs [] = rw (append-nil xs)
  grown-some xs (p ∷ ps) = refl

  lookup-add_rows :
      (coin_id : String) (rows : List PriceRow) (res : List (String × List PricePoint))
      → lookup coin_id (add_rows q rows res) ≡ grown (lookup coin_id res) (points_of coin_id rows)
  lookup-add_rows coin_id [] res = refl
  lookup-add_rows coin_id (r ∷ rs) res =
      let points = or_empty q (lookup r.coin_id res) ++ point_of_row q r ∷ [] in
      lookup-add_rows coin_id rs (insert r.coin_id points res)
      ∙ ap (λ o. grown o (points_of coin_id rs)) (lookup-insert r.coin_id coin_id points res)
      ∙ (elim (Bool-cases (str_eq r.coin_id coin_id)) [
        | inl y ↦ rw y (
            grown-some points (points_of coin_id rs)
            ∙ ap some (
                append_assoc (or_empty q (lookup r.coin_id res)) (point_of_row q r ∷ [])
                  (points_of coin_id rs)
                ∙ ap (λ k. or_empty q (lookup k res) ++ point_of_row q r ∷ points_of coin_id rs)
                    ((eq_iff r.coin_id coin_id).0 y)))
        | inr n ↦ rw n
      ])

  -- What is documented of the two orderings: they only arrange the rows, and a window numbers no row
  -- before one that is newer.
  pub record IsOrdering : Type 0 where
    pub newest : (rows : List PriceRow) → Permᴰ (q.newest_in_window rows) rows
    pub descending : (rows : List PriceRow) → Descending (q.newest_in_window rows)
    pub arranged : (rows : List PriceRow) → Permᴰ (q.arrange rows) rows

  window_of-All :
      IsOrdering
      → (limit : ℕ) (db : Db) (d : String) → All (λ r. of_coin d r ≡ true) (window_of q limit db d)
  window_of-All h limit db d = All-take _ limit _ (
      All-perm _ (h.newest (select (of_coin d) db.history))
        (All-select_self (of_coin d) db.history))

  of_coin-other :
      (c d : String) (r : PriceRow) → str_eq d c ≡ false → of_coin d r ≡ true → of_coin c r ≡ false
  of_coin-other c d r n y = rw ((eq_iff r.coin_id d).0 y) n

  select-window_of :
      IsOrdering
      → (limit : ℕ) (db : Db) (c d : String)
      → select (of_coin c) (window_of q limit db d)
        ≡ (if str_eq d c then window_of q limit db c else [])
  select-window_of h limit db c d = elim (Bool-cases (str_eq d c)) [
    | inl y ↦ rw y (
        subst (λ e. select (of_coin c) (window_of q limit db e) ≡ window_of q limit db c)
          (sym ((eq_iff d c).0 y)) (select-All (of_coin c) _ (window_of-All h limit db c)))
    | inr n ↦ rw n (
        select-All_refused (of_coin c) _ (
          All-map (λ r. of_coin-other c d r n) (window_of q limit db d)
            (window_of-All h limit db d)))
  ]

  exists-distinct :
      (c : String) (cs : List String)
      → exists (λ d. str_eq d c) (distinct q cs) ≡ exists (λ d. str_eq d c) cs
  exists-distinct c [] = refl
  exists-distinct c (d ∷ cs) = elim (Bool-cases (exists (λ e. str_eq e d) cs)) [
    | inl known ↦ rw known (
        exists-distinct c cs ∙ (elim (Bool-cases (str_eq d c)) [
          | inl y ↦ rw y (subst (λ x. exists (λ e. str_eq e x) cs ≡ true) ((eq_iff d c).0 y) known)
          | inr n ↦ rw n
        ]))
    | inr unknown ↦ rw unknown (rw (exists-distinct c cs))
  ]

  select-windows :
      IsOrdering
      → (limit : ℕ) (db : Db) (c : String) (cs : List String)
      → select (of_coin c) (windows q limit db (distinct q cs))
        ≡ (if exists (λ d. str_eq d c) cs then window_of q limit db c else [])
  select-windows h limit db c [] = refl
  select-windows h limit db c (d ∷ cs) =
      let ih = select-windows h limit db c cs in
      elim (Bool-cases (exists (λ e. str_eq e d) cs)) [
        | inl known ↦ rw known (
            ih ∙ (elim (Bool-cases (str_eq d c)) [
              | inl y ↦
                  rw y
                    (rw (subst (λ x. exists (λ e. str_eq e x) cs ≡ true) ((eq_iff d c).0 y) known))
              | inr n ↦ rw n
            ]))
        | inr unknown ↦ rw unknown (
            select-append (of_coin c) (window_of q limit db d) (windows q limit db (distinct q cs))
            ∙ (rw (select-window_of h limit db c d, ih)
                (elim (Bool-cases (str_eq d c)) [
                  | inl y ↦ rw y (
                      rw
                        (subst (λ x. exists (λ e. str_eq e x) cs ≡ false) ((eq_iff d c).0 y)
                          unknown)
                        (append-nil (window_of q limit db c)))
                  | inr n ↦ rw n
                ])))
      ]

  grown-none : (ps : List PricePoint) → grown none ps ≡ present ps
  grown-none [] = refl
  grown-none (p ∷ ps) = refl

  map-if :
      (b : Bool) (rows : List PriceRow)
      → map (point_of_row q) (if b then rows else [])
        ≡ (if b then map (point_of_row q) rows else [])
  map-if true rows = refl
  map-if false rows = refl

  points_of-windows :
      IsOrdering
      → (limit : ℕ) (db : Db) (coin_id : String) (cs : List String)
      → Permᴰ (points_of coin_id (q.arrange (windows q limit db (distinct q cs)))) (
          if exists (λ d. str_eq d coin_id) cs
          then map (point_of_row q) (window_of q limit db coin_id)
          else [])
  points_of-windows h limit db coin_id cs =
      subst (λ l. Permᴰ (points_of coin_id (q.arrange (windows q limit db (distinct q cs)))) l)
        (ap (map (point_of_row q)) (select-windows h limit db coin_id cs)
          ∙ map-if _ (window_of q limit db coin_id))
        (map-perm (point_of_row q)
          (select-perm (of_coin coin_id) (h.arranged (windows q limit db (distinct q cs)))))

  window_of-IsRecent :
      IsOrdering → (limit : ℕ) (db : Db) (c : String) → IsRecent limit c db (window_of q limit db c)
  window_of-IsRecent h limit db c =
      let rows = q.newest_in_window (select (of_coin c) db.history) in
      (
        drop limit rows,
        subst (λ l. Permᴰ l (select (of_coin c) db.history)) (sym (take-append-drop limit rows))
            (h.newest (select (of_coin c) db.history)),
        length-take_le limit rows,
        drop-nil_or_full limit rows,
        newer-take limit rows (h.descending (select (of_coin c) db.history)),
      )

  -- Where no call fails and the database orders rows as documented, GetPriceHistories changes nothing
  -- and gives each of the coins its newest points, in some order: those of rows of the coin, as many
  -- as the limit or else all, of which none is older than one that is left out. A coin without points
  -- and any other coin has no entry.
  pub get_price_histories-IsRecent :
      (c : String) (cs : List String) (limit : ℤ) (w : World) (coin_id : String)
      → IsOrdering
      → w.faults ≡ []
      → (m : List (String × List PricePoint)) × (points : List PricePoint) × (chosen : List
          PriceRow)
        × (get_price_histories q (c ∷ cs) limit w ≡ (ok m, w))
        × (lookup coin_id m ≡ present points)
        × IsRecent (limit_of limit) coin_id w.db chosen
        × Permᴰ points
            (if exists (λ d. str_eq d coin_id) (c ∷ cs) then map (point_of_row q) chosen else [])
  unfolding get_price_histories
  get_price_histories-IsRecent c cs limit w coin_id h none_left =
      let rows = q.arrange (windows q (limit_of limit) w.db (distinct q (c ∷ cs))) in
      (
        add_rows q rows [],
        points_of coin_id rows,
        window_of q (limit_of limit) w.db coin_id,
        ground arith,
        lookup-add_rows coin_id rows [] ∙ grown-none (points_of coin_id rows),
        window_of-IsRecent h (limit_of limit) w.db coin_id,
        points_of-windows h (limit_of limit) w.db coin_id (c ∷ cs),
      )
