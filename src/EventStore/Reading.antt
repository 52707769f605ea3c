-- ===== src/EventStore/Reading.antt =====
-- LoadEvents and GetLatestEvent of store.go: what a successful read has read.
use holdex_backend_cqrs.Prelude.{
  String, ◌≡◌, refl, sym, ap, ◌∙◌, Option, none, some, List, [], inl, inr, Bool-cases, Option-cases,
  order_by, arith,
}
use holdex_backend_cqrs.Result.{ok, query_failed, iteration_failed, deserialize_failed}
use holdex_backend_cqrs.Domain.Market.{Event}
use holdex_backend_cqrs.Tables.{EventRow, rows_of, latest_row}
use holdex_backend_cqrs.World.{World, Exec, ◌>>=◌, ◌>>◌, gets, from_option, attempt, fault?}
use holdex_backend_cqrs.World.Bind.{next, attempt_then-eq_ok, attempt_fault_free}
use holdex_backend_cqrs.EventStore.{load_row, load_rows, load_events, load_latest, get_latest_event}

from_option-eq_ok :
    {A : Type 0} (o : Option A) (w : World) {a : A}
    → (from_option deserialize_failed o w).0 ≡ ok a
    → o ≡ some a
from_option-eq_ok none w h = absurd (ground arith)
from_option-eq_ok (some b) w h = ground arith

-- The events of a successful load are those of the aggregate's rows in the order of versions.
pub load_events-eq_ok :
    (agg_id : String) (w : World) {es : List Event}
    → (load_events agg_id w).0 ≡ ok es
    → load_rows agg_id (order_by (λ r. r.version) (rows_of agg_id w.db.events)) ≡ some es
unfolding load_events
load_events-eq_ok agg_id w h =
    let read : Exec (List Event) =
      gets (λ db. order_by (λ r. r.version) (rows_of agg_id db.events)) >>= λ rows.
      from_option deserialize_failed (load_rows agg_id rows) in
    let (h1, q1) = attempt_then-eq_ok query_failed (attempt iteration_failed >> read) w h in
    let (h2, q2) = attempt_then-eq_ok iteration_failed read (next w) h1 in
    from_option-eq_ok _ (next (next w)) h2

-- What `GetLatestEvent` makes of the row that it has found.
abbrev pub LatestOf : String → Option EventRow → Option Event → Type 0
LatestOf agg_id none latest = latest ≡ none
LatestOf agg_id (some r) latest = (e : Event) × (load_row agg_id r ≡ some e) × (latest ≡ some e)

pub LatestOf-some :
    (agg_id : String) (row : Option EventRow) (t : EventRow) {e : Event} {latest : Option Event}
    → LatestOf agg_id row latest
    → row ≡ some t
    → load_row agg_id t ≡ some e
    → latest ≡ some e
LatestOf-some agg_id none t h is_row loads = absurd (ground arith)
LatestOf-some agg_id (some r) t (f, loads', is_f) is_row loads =
    let same_row : r ≡ t = cc in is_f ∙ sym loads' ∙ ap (load_row agg_id) same_row ∙ loads

load_latest-eq_ok :
    (agg_id : String) (row : Option EventRow) (w : World) {latest : Option Event}
    → (load_latest agg_id row w).0 ≡ ok latest
    → LatestOf agg_id row latest
unfolding load_latest
load_latest-eq_ok agg_id none w h = ground arith
load_latest-eq_ok agg_id (some r) w h = elim (Option-cases (load_row agg_id r)) [
  | inl x ↦ absurd (ground arith)
  | inr (e, x) ↦ (e, x, ground arith)
]

pub get_latest_event-eq_ok :
    (agg_id : String) (w : World) {latest : Option Event}
    → (get_latest_event agg_id w).0 ≡ ok latest
    → LatestOf agg_id (latest_row (rows_of agg_id w.db.events)) latest
unfolding get_latest_event
get_latest_event-eq_ok agg_id w h =
    let read : Exec (Option Event) =
      gets (λ db. latest_row (rows_of agg_id db.events)) >>= λ row. load_latest agg_id row in
    let (h1, q1) = attempt_then-eq_ok query_failed read w h in
    load_latest-eq_ok agg_id (latest_row (rows_of agg_id w.db.events)) (next w) h1

load_latest_of :
    (agg_id : String) (row : Option EventRow) (w : World) (latest : Option Event)
    → LatestOf agg_id row latest
    → load_latest agg_id row w ≡ (ok latest, w)
unfolding load_latest
load_latest_of agg_id none w latest h = rw h
load_latest_of agg_id (some r) w latest (e, x, y) = ground arith

-- Where no statement fails, a readable latest row is read, and reading changes nothing.
pub get_latest_event_fault_free :
    (agg_id : String) (w : World) (latest : Option Event)
    → w.faults ≡ []
    → LatestOf agg_id (latest_row (rows_of agg_id w.db.events)) latest
    → get_latest_event agg_id w ≡ (ok latest, w)
unfolding get_latest_event
get_latest_event_fault_free agg_id w latest none_left h =
    attempt_fault_free query_failed _ w none_left
    ∙ load_latest_of agg_id (latest_row (rows_of agg_id w.db.events)) w latest h

load_latest-frame :
    (agg_id : String) (row : Option EventRow) (w : World) → (load_latest agg_id row w).1 ≡ w
unfolding load_latest
load_latest-frame agg_id none w = refl
load_latest-frame agg_id (some r) w = elim (Option-cases (load_row agg_id r)) [
  | inl x ↦ rw x
  | inr (e, x) ↦ rw x
]

-- A read uses up a fault and changes nothing else, whether it fails or not.
pub get_latest_event-frame : (agg_id : String) (w : World) → (get_latest_event agg_id w).1 ≡ next w
unfolding get_latest_event
get_latest_event-frame agg_id w = elim (Bool-cases (fault? w.faults)) [
  | inl x ↦ rw x
  | inr x ↦ rw x (load_latest-frame agg_id (latest_row (rows_of agg_id w.db.events)) (next w))
]
