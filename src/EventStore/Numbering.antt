-- ===== src/EventStore/Numbering.antt =====
-- The versions of an aggregate are 1, 2, 3 and so on in the order of insertion, as long as events
-- are appended with the versions that follow the current one.
use mathlib.Core.List.{append-nil}
use holdex_backend_cqrs.Prelude.{
  ℕ, suc, ◌+◌, ◌≤◌, String, ◌≡◌, refl, sym, ap, subst, ◌∙◌, false, some, List, [], ◌∷◌, ◌++◌, inl,
  inr, Bool-cases, arith, str_eq, eq_iff, eq_refl, ◌==◌, if◌then◌else◌, length, exists, last?,
  select-append, length-append, Ascending, order_by, order_by-Ascending,
}
use holdex_backend_cqrs.Domain.Market.{Event, base}
use holdex_backend_cqrs.Tables.{
  Columns, EventRow, Db, of_aggregate, rows_of, has_version, max_version, latest_row,
}
use holdex_backend_cqrs.EventStore.{event_row}
use holdex_backend_cqrs.EventStore.Append.{with_event, Inserts}

-- Versions n + 1, n + 2, ...
abbrev pub Numbered : ℕ → List EventRow → Type 0
Numbered n [] = Unit
Numbered n (r ∷ rs) = (r.version ≡ suc n) × Numbered (suc n) rs

abbrev pub IsNumbered : List EventRow → Type 0
IsNumbered rows = (agg_id : String) → Numbered 0 (rows_of agg_id rows)

-- Events of one aggregate with the versions that follow n.
abbrev pub Consecutive : String → ℕ → List Event → Type 0
Consecutive agg_id n [] = Unit
Consecutive agg_id n (e ∷ es) =
    ((base e).agg_id ≡ agg_id) × ((base e).vers ≡ suc n) × Consecutive agg_id (suc n) es

max_version-Numbered :
    (n : ℕ) (r : EventRow) (rs : List EventRow)
    → Numbered n (r ∷ rs)
    → max_version (r ∷ rs) ≡ n + length (r ∷ rs)
max_version-Numbered n r [] h = ground arith
max_version-Numbered n r (s ∷ rs) h = ground (arith, max_version-Numbered (suc n) s rs h.1)

pub max_version-eq-length : (rs : List EventRow) → Numbered 0 rs → max_version rs ≡ length rs
max_version-eq-length [] h = refl
max_version-eq-length (r ∷ rs) h = omega (arith, max_version-Numbered 0 r rs h)

Numbered-Ascending :
    (n : ℕ) (rs : List EventRow) → Numbered n rs → Ascending (λ r. r.version) (suc n) rs
Numbered-Ascending n [] h = tt
Numbered-Ascending n (r ∷ rs) h = (
  omega arith,
  subst (λ v. Ascending (λ s. s.version) (suc v) rs) (sym h.0) (Numbered-Ascending (suc n) rs h.1),
)

-- ORDER BY version is the order of insertion.
pub order_by-Numbered : (rs : List EventRow) → Numbered 0 rs → order_by (λ r. r.version) rs ≡ rs
order_by-Numbered rs h = order_by-Ascending (λ r. r.version) 1 rs (Numbered-Ascending 0 rs h)

last?-Numbered :
    (n : ℕ) (r : EventRow) (rs : List EventRow)
    → Numbered n (r ∷ rs)
    → (t : EventRow) × (last? (r ∷ rs) ≡ some t) × (t.version ≡ n + length (r ∷ rs))
last?-Numbered n r [] h = (r, refl, omega (arith, h.0))
last?-Numbered n r (s ∷ rs) h =
    let (t, is_last, v) = last?-Numbered (suc n) s rs h.1 in (t, is_last, omega (arith, v))

-- ORDER BY version DESC LIMIT 1 is the row that was inserted last.
pub latest_row-Numbered : (n : ℕ) (rs : List EventRow) → Numbered n rs → latest_row rs ≡ last? rs
latest_row-Numbered n [] h = refl
latest_row-Numbered n (r ∷ []) h = refl
latest_row-Numbered n (r ∷ s ∷ rs) h =
    let (t, is_last, v) = last?-Numbered (suc n) s rs h.1 in
    ground (arith, latest_row-Numbered (suc n) (s ∷ rs) h.1, is_last, v, h.0)

pub Numbered-snoc :
    (n : ℕ) (rs : List EventRow) (x : EventRow)
    → Numbered n rs
    → x.version ≡ suc (n + length rs)
    → Numbered n (rs ++ x ∷ [])
Numbered-snoc n [] x h e = (omega arith, tt)
Numbered-snoc n (r ∷ rs) x h e = (h.0, Numbered-snoc (suc n) rs x h.1 (omega arith))

-- A version past the last one is free.
pub has_version-rows_of :
    (agg_id : String) (v : ℕ) (rows : List EventRow)
    → has_version agg_id v rows ≡ exists (λ r. r.version == v) (rows_of agg_id rows)
has_version-rows_of agg_id v [] = refl
has_version-rows_of agg_id v (r ∷ rs) = ground (arith, has_version-rows_of agg_id v rs)

pub fresh-Numbered :
    (n v : ℕ) (rs : List EventRow)
    → Numbered n rs
    → suc (n + length rs) ≤ v
    → exists (λ r. r.version == v) rs ≡ false
fresh-Numbered n v [] h l = refl
fresh-Numbered n v (r ∷ rs) h l = ground (arith, fresh-Numbered (suc n) v rs h.1)

-- The version after the current one is free.
pub has_version-suc_max :
    (agg_id : String) (rows : List EventRow)
    → IsNumbered rows
    → has_version agg_id (suc (max_version (rows_of agg_id rows))) rows ≡ false
has_version-suc_max agg_id rows h =
    has_version-rows_of agg_id _ rows
    ∙ fresh-Numbered 0 _ (rows_of agg_id rows) (h agg_id)
        (omega (arith, max_version-eq-length (rows_of agg_id rows) (h agg_id)))

rows_of-snoc :
    (agg_id : String) (rows : List EventRow) (x : EventRow)
    → rows_of agg_id (rows ++ x ∷ []) ≡ (
        if str_eq x.aggregate_id agg_id then rows_of agg_id rows ++ x ∷ [] else rows_of agg_id rows)
rows_of-snoc agg_id rows x =
    select-append (of_aggregate agg_id) rows (x ∷ [])
    ∙ (elim (Bool-cases (str_eq x.aggregate_id agg_id)) [
      | inl y ↦ rw y
      | inr n ↦ rw n (append-nil (rows_of agg_id rows))
    ])

rows_of-snoc_same :
    (rows : List EventRow) (x : EventRow)
    → rows_of x.aggregate_id (rows ++ x ∷ []) ≡ rows_of x.aggregate_id rows ++ x ∷ []
rows_of-snoc_same rows x = rows_of-snoc x.aggregate_id rows x ∙ (rw (eq_refl x.aggregate_id))

-- A row with the version after the current one of its aggregate.
pub IsNumbered-snoc :
    (rows : List EventRow) (x : EventRow)
    → IsNumbered rows
    → x.version ≡ suc (max_version (rows_of x.aggregate_id rows))
    → IsNumbered (rows ++ x ∷ [])
IsNumbered-snoc rows x h v a = elim (Bool-cases (str_eq x.aggregate_id a)) [
  | inl y ↦
      subst (λ b. Numbered 0 (rows_of b (rows ++ x ∷ []))) ((eq_iff x.aggregate_id a).0 y)
        (rw (rows_of-snoc_same rows x) (
          Numbered-snoc 0 (rows_of x.aggregate_id rows) x (h x.aggregate_id) (
            omega
              (arith, v, max_version-eq-length (rows_of x.aggregate_id rows) (h x.aggregate_id)))))
  | inr n ↦ rw (rows_of-snoc a rows x) (rw n (h a))
]

max_version-snoc :
    (rows : List EventRow) (x : EventRow)
    → IsNumbered rows
    → x.version ≡ suc (max_version (rows_of x.aggregate_id rows))
    → max_version (rows_of x.aggregate_id (rows ++ x ∷ []))
      ≡ suc (max_version (rows_of x.aggregate_id rows))
max_version-snoc rows x h v =
    let before = rows_of x.aggregate_id rows in
    omega (
      arith,
      max_version-eq-length _ (IsNumbered-snoc rows x h v x.aggregate_id),
      max_version-eq-length before (h x.aggregate_id),
      ap length (rows_of-snoc_same rows x),
      length-append {0} before (x ∷ []),
    )

-- Appending events of one aggregate with the versions that follow its current one keeps every
-- aggregate numbered.
pub Inserts-IsNumbered :
    (pg : Columns) (agg_id : String) (es : List Event) (d d' : Db)
    → IsNumbered d.events
    → Consecutive agg_id (max_version (rows_of agg_id d.events)) es
    → Inserts pg es d d'
    → IsNumbered d'.events
Inserts-IsNumbered pg agg_id [] d d' h c i = rw i h
Inserts-IsNumbered pg agg_id (e ∷ es) d d' h (is_agg, v, rest) (j, serialized, fresh, i) =
    let x = event_row pg d.next_event_id e in
    let follows : x.version ≡ suc (max_version (rows_of x.aggregate_id d.events)) = rw is_agg v in
    Inserts-IsNumbered pg agg_id es (with_event pg e j d) d' (IsNumbered-snoc d.events x h follows)
      (subst (λ n. Consecutive agg_id n es)
        (sym (
          subst
            (λ a.
              max_version (rows_of a (d.events ++ x ∷ [])) ≡ suc (max_version (rows_of a d.events)))
            is_agg (max_version-snoc d.events x h follows)))
        rest)
      i
