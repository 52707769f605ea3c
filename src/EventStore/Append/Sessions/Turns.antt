-- ===== src/EventStore/Append/Sessions/Turns.antt =====
-- The turn of a session of AppendEvents: its rows continue the numbering of its aggregate.
use mathlib.Core.List.{append-nil, append_assoc}
use holdex_backend_cqrs.Prelude.{
  ℕ, suc, ◌≡◌, ◌≢◌, refl, sym, ap, subst, ◌∙◌, String, false, some, List, [], ◌∷◌, ◌++◌, inl, inr,
  Bool-cases, arith, str_eq, eq_iff, length, length-append, All, All-append, select-append,
}
use holdex_backend_cqrs.Domain.Market.{Event, base}
use holdex_backend_cqrs.Tables.{
  Columns, EventRow, OutboxRow, of_aggregate, rows_of, has_version, max_version,
}
use holdex_backend_cqrs.EventStore.{event_row}
use holdex_backend_cqrs.EventStore.Numbering.{
  Numbered, IsNumbered, Consecutive, max_version-eq-length, Numbered-snoc, has_version-rows_of,
  fresh-Numbered,
}
use holdex_backend_cqrs.EventStore.Append.Sessions.{
  AppendSession, outside, waiting, holding, writing, lock_of,
}

abbrev pub Owned : String → List EventRow → Type 0
Owned agg_id rows = All (λ (r : EventRow). r.aggregate_id ≡ agg_id) rows

-- A session past its check has continued the numbering of its aggregate, and goes on with it.
abbrev pub IsInTurn : List EventRow → AppendSession → Type 0
IsInTurn committed outside = Unit
IsInTurn committed (waiting agg_id expected events) = Consecutive agg_id expected events
IsInTurn committed (holding agg_id expected events) = Consecutive agg_id expected events
IsInTurn committed (writing agg_id left rows entries) =
    Owned agg_id rows
    × Numbered 0 (rows_of agg_id committed ++ rows)
    × Consecutive agg_id (length (rows_of agg_id committed ++ rows)) left

rows_of-Owned :
    (agg_id : String) (rows : List EventRow) → Owned agg_id rows → rows_of agg_id rows ≡ rows
rows_of-Owned agg_id [] h = refl
rows_of-Owned agg_id (r ∷ rows) h =
    rw ((eq_iff r.aggregate_id agg_id).1 h.0) (ap (λ l. r ∷ l) (rows_of-Owned agg_id rows h.1))

rows_of-others :
    (agg_id other : String) (rows : List EventRow)
    → Owned other rows
    → other ≢ agg_id
    → rows_of agg_id rows ≡ []
rows_of-others agg_id other [] h apart = refl
rows_of-others agg_id other (r ∷ rows) h apart = elim (Bool-cases (str_eq r.aggregate_id agg_id)) [
  | inl y ↦ absurd (apart (sym h.0 ∙ (eq_iff r.aggregate_id agg_id).0 y))
  | inr n ↦ rw n (rows_of-others agg_id other rows h.1 apart)
]

-- The rows of an aggregate after a commit: those of its own session, and none of another one.
rows_of-commit :
    (agg_id : String) (committed rows : List EventRow)
    → Owned agg_id rows
    → rows_of agg_id (committed ++ rows) ≡ rows_of agg_id committed ++ rows
rows_of-commit agg_id committed rows h =
    select-append (of_aggregate agg_id) committed rows
    ∙ ap (λ l. rows_of agg_id committed ++ l) (rows_of-Owned agg_id rows h)

rows_of-commit_other :
    (agg_id other : String) (committed rows : List EventRow)
    → Owned other rows
    → other ≢ agg_id
    → rows_of agg_id (committed ++ rows) ≡ rows_of agg_id committed
rows_of-commit_other agg_id other committed rows h apart =
    select-append (of_aggregate agg_id) committed rows
    ∙ ap (λ l. rows_of agg_id committed ++ l) (rows_of-others agg_id other rows h apart)
    ∙ append-nil (rows_of agg_id committed)

pub commit-IsNumbered :
    (agg_id : String) (committed rows : List EventRow)
    → Owned agg_id rows
    → Numbered 0 (rows_of agg_id committed ++ rows)
    → IsNumbered committed
    → IsNumbered (committed ++ rows)
commit-IsNumbered agg_id committed rows owned numbered h a = elim (Bool-cases (str_eq agg_id a)) [
  | inl y ↦
      subst (λ b. Numbered 0 (rows_of b (committed ++ rows))) ((eq_iff agg_id a).0 y)
        (rw (rows_of-commit agg_id committed rows owned) numbered)
  | inr n ↦
      rw
        (rows_of-commit_other a agg_id committed rows owned
          (λ e. absurd (ground (arith, (eq_iff agg_id a).1 e))))
        (h a)
]

-- A commit of another aggregate's rows takes nobody out of turn.
pub IsInTurn-commit :
    (other : String) (committed rows : List EventRow) (p : AppendSession)
    → Owned other rows
    → ((a : String) → lock_of p ≡ some a → other ≢ a)
    → IsInTurn committed p
    → IsInTurn (committed ++ rows) p
IsInTurn-commit other committed rows outside owned apart h = tt
IsInTurn-commit other committed rows (waiting agg_id expected events) owned apart h = h
IsInTurn-commit other committed rows (holding agg_id expected events) owned apart h = h
IsInTurn-commit other committed rows (writing agg_id left own entries) owned apart h =
    rw (rows_of-commit_other agg_id other committed rows owned (apart agg_id refl)) h

module _ (pg : Columns) where
  pub inserted-IsInTurn :
      (committed : List EventRow) (agg_id : String) (e : Event) (left : List Event)
      (rows : List EventRow) (entries entries' : List OutboxRow) (id : ℕ)
      → IsInTurn committed (writing agg_id (e ∷ left) rows entries)
      → IsInTurn committed (writing agg_id left (rows ++ event_row pg id e ∷ []) entries')
  inserted-IsInTurn committed agg_id e left rows entries entries' id
        (owned, numbered, (is_agg, v, follow)) =
      let before = rows_of agg_id committed in
      let x = event_row pg id e in
      let longer : length (before ++ (rows ++ x ∷ [])) ≡ suc (length (before ++ rows)) = omega (
        arith,
        ap length (append_assoc before rows (x ∷ [])),
        length-append (before ++ rows) (x ∷ []),
      ) in
      (
        All-append (λ (r : EventRow). r.aggregate_id ≡ agg_id) rows (x ∷ []) owned (is_agg, tt),
        subst (λ l. Numbered 0 l) (append_assoc before rows (x ∷ []))
            (Numbered-snoc 0 (before ++ rows) x numbered (omega (arith, v))),
        subst (λ n. Consecutive agg_id n left) (sym longer) follow,
      )

pub check-IsInTurn :
    (committed : List EventRow) (agg_id : String) (expected : ℕ) (events : List Event)
    → IsNumbered committed
    → max_version (rows_of agg_id committed) ≡ expected
    → Consecutive agg_id expected events
    → IsInTurn committed (writing agg_id events [] [])
check-IsInTurn committed agg_id expected events numbered accepted follow =
    let rows = rows_of agg_id committed in
    let at : expected ≡ length (rows ++ []) =
      sym accepted
      ∙ max_version-eq-length rows (numbered agg_id)
      ∙ ap length (sym (append-nil rows)) in
    (
      tt,
      subst (λ l. Numbered 0 l) (sym (append-nil rows)) (numbered agg_id),
      subst (λ n. Consecutive agg_id n events) at follow,
    )

-- The next insertion of a session has the version after the current one of its aggregate, by the
-- committed rows and its own, and does not violate the unique constraint.
abbrev pub NextIsFree : List EventRow → AppendSession → Type 0
NextIsFree committed outside = Unit
NextIsFree committed (waiting agg_id expected events) = Unit
NextIsFree committed (holding agg_id expected events) = Unit
NextIsFree committed (writing agg_id [] rows entries) = Unit
NextIsFree committed (writing agg_id (e ∷ left) rows entries) =
    ((base e).vers ≡ suc (max_version (rows_of (base e).agg_id (committed ++ rows))))
    × (has_version (base e).agg_id (base e).vers (committed ++ rows) ≡ false)

pub IsInTurn-NextIsFree :
    (committed : List EventRow) (p : AppendSession) → IsInTurn committed p → NextIsFree committed p
IsInTurn-NextIsFree committed outside h = tt
IsInTurn-NextIsFree committed (waiting agg_id expected events) h = tt
IsInTurn-NextIsFree committed (holding agg_id expected events) h = tt
IsInTurn-NextIsFree committed (writing agg_id [] rows entries) h = tt
IsInTurn-NextIsFree committed (writing agg_id (e ∷ left) rows entries)
      (owned, numbered, (is_agg, v, follow)) =
    let all_rows = rows_of-commit agg_id committed rows owned in
    let before = rows_of agg_id committed ++ rows in
    subst
      (λ a.
        ((base e).vers ≡ suc (max_version (rows_of a (committed ++ rows))))
        × (has_version a (base e).vers (committed ++ rows) ≡ false))
      (sym is_agg)
      (
        rw all_rows (omega (arith, v, max_version-eq-length before numbered)),
        has_version-rows_of agg_id (base e).vers (committed ++ rows)
            ∙ (rw all_rows (fresh-Numbered 0 (base e).vers before numbered (omega (arith, v)))),
      )
