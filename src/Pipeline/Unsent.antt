-- ===== src/Pipeline/Unsent.antt =====
-- Recording sends nothing: ProcessMarketData leaves the channel alone, and draws ids of the outbox.
use holdex_backend_cqrs.Prelude.{
  ℕ, ◌≡◌, refl, sym, ap, subst, ◌∙◌, ◌≤◌, String, Option, List, [], ◌∷◌, inl, inr, Option-cases, ℤ,
  pos, negsuc, ◌==◌, arith, true,
}
use holdex_backend_cqrs.Json.{Json}
use holdex_backend_cqrs.Result.{
  lock_failed, version_query_failed, commit_failed, begin_failed, version_conflict,
}
use holdex_backend_cqrs.Domain.Market.{Event, fetch, handle_command, apply}
use holdex_backend_cqrs.Tables.{Columns, Db, rows_of, max_version}
use holdex_backend_cqrs.World.{World, Exec, ◌>>=◌, ◌>>◌, gets, attempt, transaction, lift}
use holdex_backend_cqrs.World.Frames.{
  Preserves, Preserves-bind, Preserves-then, Preserves-require, Preserves-transaction,
}
use holdex_backend_cqrs.EventStore.{
  serialize_event, check_version, insert_event, insert_events, append_body, append_events,
  get_latest_event,
}
use holdex_backend_cqrs.EventStore.Reading.{get_latest_event-frame}
use holdex_backend_cqrs.Aggregator.Coingecko.{MarketData}
use holdex_backend_cqrs.Aggregator.Processor.{hydrate, command_of, save, process_market_data}

-- The messages are these, and the outbox has drawn at least the ids below this one.
abbrev pub Since : List Json → ℕ → World → Type 0
Since bus n w = (w.bus ≡ bus) × (n ≤ w.db.next_outbox_id)

-- A call that leaves the channel and the ids of the outbox alone.
module _ (bus : List Json) (n : ℕ) (pg : Columns) where
  insert_event-Since : (e : Event) → Preserves (Since bus n) (insert_event pg e)
  unfolding insert_event
  insert_event-Since e w (same, le) = elim (Option-cases (serialize_event e)) [
    | inl x ↦ (ground (arith, same), ground (arith, le))
    | inr (j, x) ↦ (ground (arith, same), ground (arith, le))
  ]

  insert_events-Since : (es : List Event) → Preserves (Since bus n) (insert_events pg es)
  unfolding insert_events
  insert_events-Since [] w p = p
  insert_events-Since (e ∷ es) w p =
      Preserves-then (Since bus n) (insert_event pg e) (insert_events pg es) (insert_event-Since e)
        (insert_events-Since es) w p

  check_version-Since :
      (expected : ℤ) (current : ℕ) → Preserves (Since bus n) (check_version expected current)
  unfolding check_version
  check_version-Since (negsuc k) current w p = p
  check_version-Since (pos k) current w p =
      Preserves-require (Since bus n) (current == k) (version_conflict k current) w p

  append_body-Since :
      (agg_id : String) (expected : ℤ) (es : List Event)
      → Preserves (Since bus n) (append_body pg agg_id expected es)
  unfolding append_body
  append_body-Since agg_id expected es =
      let S : World → Type 0 = Since bus n in
      let commit : Exec (Unit {0}) = attempt commit_failed in
      let save : Exec (Unit {0}) = insert_events pg es >> commit in
      let check : ℕ → Exec (Unit {0}) = λ c. check_version expected c >> save in
      let read : Exec ℕ = gets (λ db. max_version (rows_of agg_id db.events)) in
      let saved =
        Preserves-then S (insert_events pg es) commit (insert_events-Since es) (λ w p. p) in
      let checked =
        Preserves-bind S read check (λ w p. p)
          (λ c.
            Preserves-then S (check_version expected c) save (check_version-Since expected c)
              saved) in
      Preserves-then S (attempt lock_failed) (attempt version_query_failed >> (read >>= check))
        (λ w p. p)
        (Preserves-then S (attempt version_query_failed) (read >>= check) (λ w p. p) checked)

  append_events-Since :
      (agg_id : String) (expected : ℤ) (es : List Event)
      → Preserves (Since bus n) (append_events pg agg_id expected es)
  unfolding append_events
  append_events-Since agg_id expected [] w p = p
  append_events-Since agg_id expected (e ∷ es) w p =
      Preserves-then (Since bus n) (attempt begin_failed)
        (transaction (append_body pg agg_id expected (e ∷ es))) (λ w p. p)
        (Preserves-transaction (Since bus n) (append_body pg agg_id expected (e ∷ es))
          (λ before v p. p) (append_body-Since agg_id expected (e ∷ es)))
        w p

  get_latest_event-Since : (agg_id : String) → Preserves (Since bus n) (get_latest_event agg_id)
  get_latest_event-Since agg_id w p =
      let frame = get_latest_event-frame agg_id w in
      (
        ap (λ (v : World). v.bus) frame ∙ p.0,
        subst (λ (db : Db). n ≤ db.next_outbox_id) (sym (ap (λ (v : World). v.db) frame)) p.1,
      )

  process_market_data-Since :
      (now : ℕ) (d : MarketData) → Preserves (Since bus n) (process_market_data pg now d)
  unfolding process_market_data save
  process_market_data-Since now d =
      let finish : Option Event → Exec (Unit {0}) = λ latest.
        lift (handle_command (hydrate d.id latest) (fetch (command_of d)) now) >>= λ e.
        save pg (apply (hydrate d.id latest) e true) in
      Preserves-bind (Since bus n) (get_latest_event d.id) finish (get_latest_event-Since d.id)
        (λ latest.
          Preserves-bind (Since bus n)
            (lift (handle_command (hydrate d.id latest) (fetch (command_of d)) now))
            (λ e. save pg (apply (hydrate d.id latest) e true)) (λ w p. p)
            (λ e. append_events-Since _ _ _))

-- Recording sends no message, and draws ids of the outbox.
pub process_market_data-bus :
    (pg : Columns) (now : ℕ) (d : MarketData) (w : World)
    → (process_market_data pg now d w).1.bus ≡ w.bus
process_market_data-bus pg now d w =
    (process_market_data-Since w.bus w.db.next_outbox_id pg now d w (refl, omega arith)).0

pub process_market_data-ids :
    (pg : Columns) (now : ℕ) (d : MarketData) (w : World)
    → w.db.next_outbox_id ≤ (process_market_data pg now d w).1.db.next_outbox_id
process_market_data-ids pg now d w =
    (process_market_data-Since w.bus w.db.next_outbox_id pg now d w (refl, omega arith)).1
