-- ===== src/EventStore/Append.antt =====
-- AppendEvents of store.go against a description of what an append adds to the tables.
pub mod Sessions
use holdex_backend_cqrs.Prelude.{
  ℕ, String, ◌≡◌, ◌∙◌, ◌≢◌, refl, sym, false, some, List, [], ◌∷◌, inl, inr, ℤ, pos, negsuc, arith,
  Bool-cases, Option-cases, subst, ◌==◌, ==_iff,
}
use holdex_backend_cqrs.Result.{
  Error, ok, err, version_conflict, lock_failed, version_query_failed, commit_failed, begin_failed,
}
use holdex_backend_cqrs.Json.{Json}
use holdex_backend_cqrs.Domain.Market.{Event, base}
use holdex_backend_cqrs.Tables.{Columns, Db, rows_of, has_version, max_version}
use holdex_backend_cqrs.World.{
  World, Exec, ◌>>=◌, ◌>>◌, gets, rollback, fault?, transaction, attempt,
}
use holdex_backend_cqrs.World.Bind.{
  bind-eq_ok, next, attempt_then-eq_ok, attempt_fault_free, attempt_last_fault_free,
  require_then-eq_ok, transaction-eq_err, transaction-eq_ok,
}
use holdex_backend_cqrs.EventStore.{
  serialize_event, check_version, take_event_id, add_event, add_outbox, insert_event, insert_events,
  append_body, append_events,
}

-- One event with its outbox entry, which carries the id of its row.
abbrev pub with_event : Columns → Event → Json → Db → Db
with_event pg e j db =
    add_outbox db.next_event_id j (add_event pg db.next_event_id e (take_event_id db))

-- What an append of these events makes of the tables: each event has a version that its aggregate
-- does not have yet, and brings one row and one outbox entry, in order.
abbrev pub Inserts : Columns → List Event → Db → Db → Type 0
Inserts pg [] before after = after ≡ before
Inserts pg (e ∷ es) before after =
    (j : Json) × (serialize_event e ≡ some j)
    × (has_version (base e).agg_id (base e).vers before.events ≡ false)
    × Inserts pg es (with_event pg e j before) after

-- An expected version below 0 asks for no check.
abbrev pub Accepts : ℤ → ℕ → Type 0
Accepts (negsuc n) current = Unit
Accepts (pos n) current = current ≡ n

module _ (pg : Columns) where
  insert_event-eq_ok :
      (e : Event) (w : World)
      → (insert_event pg e w).0 ≡ ok tt
      → (j : Json) × (serialize_event e ≡ some j)
        × (has_version (base e).agg_id (base e).vers w.db.events ≡ false)
        × ((insert_event pg e w).1.db ≡ with_event pg e j w.db)
  unfolding insert_event
  insert_event-eq_ok e w h = elim (Option-cases (serialize_event e)) [
    | inl x ↦ absurd (ground arith)
    | inr (j, x) ↦ (j, x, ground arith, ground arith)
  ]

  insert_events-eq_ok :
      (es : List Event) (w : World)
      → (insert_events pg es w).0 ≡ ok tt
      → Inserts pg es w.db (insert_events pg es w).1.db
  unfolding insert_events
  insert_events-eq_ok [] w h = refl
  insert_events-eq_ok (e ∷ es) w h =
      let (u, first, rest, step) = bind-eq_ok (insert_event pg e) (λ _. insert_events pg es) w h in
      let (j, serialized, fresh, added) = insert_event-eq_ok e w first in
      (
        j,
        serialized,
        fresh,
        rw step (
            subst (λ d. Inserts pg es d (insert_events pg es (insert_event pg e w).1).1.db) added
              (insert_events-eq_ok es (insert_event pg e w).1 rest)),
      )

  check_version_then-eq_ok :
      (expected : ℤ) (current : ℕ) (k : Exec (Unit {0})) (w : World)
      → ((check_version expected current >> k) w).0 ≡ ok tt
      → Accepts expected current
        × ((k w).0 ≡ ok tt)
        × ((check_version expected current >> k) w ≡ k w)
  unfolding check_version
  check_version_then-eq_ok (negsuc n) current k w h = (tt, h, refl)
  check_version_then-eq_ok (pos n) current k w h =
      let (same, r, q) = require_then-eq_ok (current == n) (version_conflict n current) k w h in
      ((==_iff current n).0 same, r, q)

  append_body-eq_ok :
      (agg_id : String) (expected : ℤ) (es : List Event) (w : World)
      → (append_body pg agg_id expected es w).0 ≡ ok tt
      → Accepts expected (max_version (rows_of agg_id w.db.events))
        × Inserts pg es w.db (append_body pg agg_id expected es w).1.db
  unfolding append_body
  append_body-eq_ok agg_id expected es w h =
      let current = max_version (rows_of agg_id w.db.events) in
      let commit : Exec (Unit {0}) = attempt commit_failed in
      let save : Exec (Unit {0}) = insert_events pg es >> commit in
      let check : Exec (Unit {0}) = gets (λ db. max_version (rows_of agg_id db.events)) >>= λ c.
      check_version expected c >> save in
      let w2 = next (next w) in
      let (h1, q1) = attempt_then-eq_ok lock_failed (attempt version_query_failed >> check) w h in
      let (h2, q2) = attempt_then-eq_ok version_query_failed check (next w) h1 in
      let (accepted, h3, q3) = check_version_then-eq_ok expected current save w2 h2 in
      let (u, h4, h5, q4) = bind-eq_ok (insert_events pg es) (λ _. commit) w2 h3 in
      (
        accepted,
        subst (λ r. Inserts pg es w.db r.1.db) (sym (q1 ∙ q2 ∙ q3 ∙ q4))
            (insert_events-eq_ok es w2 h4),
      )

  -- An append of at least one event that succeeds was accepted at the aggregate's current
  -- version, and has added its events with their outbox entries, and nothing else, to the
  -- tables.
  pub append_events-Inserts :
      (agg_id : String) (expected : ℤ) (e : Event) (es : List Event) (w : World)
      → (append_events pg agg_id expected (e ∷ es) w).0 ≡ ok tt
      → Accepts expected (max_version (rows_of agg_id w.db.events))
        × Inserts pg (e ∷ es) w.db (append_events pg agg_id expected (e ∷ es) w).1.db
  unfolding append_events
  append_events-Inserts agg_id expected e es w h =
      let body = append_body pg agg_id expected (e ∷ es) in
      let (h1, q1) = attempt_then-eq_ok begin_failed (transaction body) w h in
      let (h2, q2) = transaction-eq_ok body (next w) h1 in
      let (accepted, inserted) = append_body-eq_ok agg_id expected (e ∷ es) (next w) h2 in
      (accepted, rw q1 (subst (λ v. Inserts pg (e ∷ es) w.db v.db) (sym q2) inserted))

  -- An append that fails, whatever the error, leaves every table as it was: only the ids that it
  -- drew are used up.
  pub append_events_atomic :
      (agg_id : String) (expected : ℤ) (es : List Event) (w : World) {x : Error}
      → (append_events pg agg_id expected es w).0 ≡ err x
      → (append_events pg agg_id expected es w).1.db
        ≡ rollback w.db (append_events pg agg_id expected es w).1.db
  unfolding append_events
  append_events_atomic agg_id expected [] w h = refl
  append_events_atomic agg_id expected (e ∷ es) w h = elim (Bool-cases (fault? w.faults)) [
    | inl x ↦ rw x
    | inr x ↦
        rw x (transaction-eq_err (append_body pg agg_id expected (e ∷ es)) (next w) (rw x at h))
  ]

  insert_event_fault_free :
      (e : Event) (j : Json) (w : World)
      → w.faults ≡ []
      → serialize_event e ≡ some j
      → has_version (base e).agg_id (base e).vers w.db.events ≡ false
      → insert_event pg e w ≡ (ok tt, record w { db = with_event pg e j w.db })
  unfolding insert_event
  insert_event_fault_free e j w none_left serialized fresh = ground arith

  insert_events_fault_free :
      (es : List Event) (w : World) (d : Db)
      → w.faults ≡ []
      → Inserts pg es w.db d
      → insert_events pg es w ≡ (ok tt, record w { db = d })
  unfolding insert_events
  insert_events_fault_free [] w d none_left h = ground arith
  insert_events_fault_free (e ∷ es) w d none_left (j, serialized, fresh, h) =
      rw (insert_event_fault_free e j w none_left serialized fresh)
        (insert_events_fault_free es (record w { db = with_event pg e j w.db }) d none_left h)

  check_version-Accepts :
      (expected : ℤ) (current : ℕ) (k : Exec (Unit {0})) (w : World)
      → Accepts expected current
      → (check_version expected current >> k) w ≡ k w
  unfolding check_version
  check_version-Accepts (negsuc n) current k w h = refl
  check_version-Accepts (pos n) current k w h = rw ((==_iff current n).1 h)

  append_body_fault_free :
      (agg_id : String) (expected : ℤ) (es : List Event) (w : World) (d : Db)
      → w.faults ≡ []
      → Accepts expected (max_version (rows_of agg_id w.db.events))
      → Inserts pg es w.db d
      → append_body pg agg_id expected es w ≡ (ok tt, record w { db = d })
  unfolding append_body
  append_body_fault_free agg_id expected es w d none_left accepted inserted =
      let current = max_version (rows_of agg_id w.db.events) in
      let save : Exec (Unit {0}) = insert_events pg es >> attempt commit_failed in
      attempt_fault_free lock_failed _ w none_left
      ∙ attempt_fault_free version_query_failed _ w none_left
      ∙ check_version-Accepts expected current save w accepted
      ∙ (rw (insert_events_fault_free es w d none_left inserted)
          (attempt_last_fault_free commit_failed (record w { db = d }) none_left))

  -- Where no statement fails, an append of at least one event that is accepted at the current
  -- version, of events with versions that are free and with documents, succeeds and has added
  -- them.
  pub append_events_succeeds :
      (agg_id : String) (expected : ℤ) (e : Event) (es : List Event) (w : World) (d : Db)
      → w.faults ≡ []
      → Accepts expected (max_version (rows_of agg_id w.db.events))
      → Inserts pg (e ∷ es) w.db d
      → append_events pg agg_id expected (e ∷ es) w ≡ (ok tt, record w { db = d })
  unfolding append_events transaction
  append_events_succeeds agg_id expected e es w d none_left accepted inserted =
      attempt_fault_free begin_failed _ w none_left
      ∙ (rw (append_body_fault_free agg_id expected (e ∷ es) w d none_left accepted inserted))

  -- Where no statement fails, an append of at least one event at another version than the
  -- current one is refused with both versions, and changes nothing.
  pub append_events_conflict :
      (agg_id : String) (n : ℕ) (e : Event) (es : List Event) (w : World)
      → w.faults ≡ []
      → max_version (rows_of agg_id w.db.events) ≢ n
      → append_events pg agg_id (pos n) (e ∷ es) w
        ≡ (err (version_conflict n (max_version (rows_of agg_id w.db.events))), w)
  unfolding append_events transaction append_body check_version
  append_events_conflict agg_id n e es w none_left other = ground arith
