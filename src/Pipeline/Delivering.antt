-- ===== src/Pipeline/Delivering.antt =====
-- Whatever the parts do, in any order and with any failures: the event of every row of the table has
-- its message in the outbox or among those that were published.
use mathlib.Core.List.{Memᴰ}
use mathlib.Core.List.Memᴰ
use holdex_backend_cqrs.Prelude.{
  ℕ, ◌+◌, ◌≡◌, ◌<◌, refl, sym, subst, Bool, none, some, List, [], ◌∷◌, ◌++◌, ◌⊎◌, inl, inr, All,
  All-append, All-select, All-weaken, Ascending, Ascending-snoc, arith,
}
use holdex_backend_cqrs.Json.{Json}
use holdex_backend_cqrs.Domain.Market.{Event}
use holdex_backend_cqrs.Tables.{Columns, EventRow, OutboxRow, Db}
use holdex_backend_cqrs.World.{World}
use holdex_backend_cqrs.World.Bind.{Result-cases}
use holdex_backend_cqrs.EventStore.{serialize_event, event_row}
use holdex_backend_cqrs.EventStore.Append.{with_event}
use holdex_backend_cqrs.EventStore.Outbox.{Batch, publish_batch}
use holdex_backend_cqrs.EventStore.Outbox.Batch.{IsSettled, publish_batch-IsSettled}
use holdex_backend_cqrs.EventStore.Outbox.Drain.{by_id}
use holdex_backend_cqrs.EventStore.Outbox.Delivery.{publish_batch-IsCarried, settled-Ascending}
use holdex_backend_cqrs.Aggregator.Coingecko.{MarketData}
use holdex_backend_cqrs.Aggregator.Processor.{process_market_data}
use holdex_backend_cqrs.Aggregator.Processor.Recording.{
  process_market_data-Inserts, process_market_data_atomic,
}
use holdex_backend_cqrs.Projection.Projector.{round}
use holdex_backend_cqrs.Projection.Projector.Progressing.{round-events}
use holdex_backend_cqrs.Server.{prune_at}
use holdex_backend_cqrs.Pipeline.Unsent.{process_market_data-bus, process_market_data-ids}
use holdex_backend_cqrs.Pipeline.Frames.{carried, round-carried, prune_at-carried}
use holdex_backend_cqrs.Pipeline.Integrity.{
  Operation, recording, publishing, projecting, pruning, perform, perform_all,
}

module _ (pg : Columns) where
  -- The row has an entry that is in this outbox or whose message is among these.
  abbrev pub IsDelivered : List OutboxRow → List Json → EventRow → Type 0
  IsDelivered outbox bus row =
      (r : OutboxRow) × (e : Event) × (row ≡ event_row pg r.event_id e)
      × (serialize_event e ≡ some r.payload)
      × (Memᴰ r outbox ⊎ Memᴰ r.payload bus)

  pub record Complete (events : List EventRow) (outbox : List OutboxRow) (next_id : ℕ)
      (bus : List Json) : Type 0 where
    pub ordered : Ascending by_id 0 outbox
    pub drawn : All (λ (r : OutboxRow). r.id < next_id) outbox
    pub delivered : All (IsDelivered outbox bus) events

  abbrev pub IsComplete : World → Type 0
  IsComplete w = Complete w.db.events w.db.outbox w.db.next_outbox_id w.bus

  IsComplete-same :
      (v w : World)
      → v.db.events ≡ w.db.events
      → carried v ≡ carried w
      → IsComplete w
      → IsComplete v
  IsComplete-same v w same_events same_carried h =
      subst (λ rows. Complete rows v.db.outbox v.db.next_outbox_id v.bus) (sym same_events)
        (subst (λ c. Complete w.db.events c.0 c.1 c.2) (sym same_carried) h)

  with_event-Complete :
      (e : Event) (j : Json) (db : Db) (bus : List Json)
      → serialize_event e ≡ some j
      → Complete db.events db.outbox db.next_outbox_id bus
      → Complete
          (with_event pg e j db).events
          (with_event pg e j db).outbox
          (with_event pg e j db).next_outbox_id
          bus
  with_event-Complete e j db bus serialized h =
      let r : OutboxRow = record {
        id = db.next_outbox_id;
        event_id = db.next_event_id;
        payload = j;
      } in
      record {
        ordered = Ascending-snoc by_id 0 db.outbox r h.ordered h.drawn (omega arith);
        drawn =
            All-append (λ (s : OutboxRow). s.id < db.next_outbox_id + 1) db.outbox (r ∷ [])
              (All-weaken (λ (s : OutboxRow). s.id < db.next_outbox_id)
                (λ (s : OutboxRow). s.id < db.next_outbox_id + 1) db.outbox
                (λ s lt. omega (arith, lt)) h.drawn)
              (omega arith, tt);
        delivered =
            All-append (IsDelivered (db.outbox ++ r ∷ []) bus) db.events _
              (All-weaken (IsDelivered db.outbox bus) (IsDelivered (db.outbox ++ r ∷ []) bus)
                db.events
                (λ row (s, f, is_row, written, where_it_is). (
                  s,
                  f,
                  is_row,
                  written,
                  elim where_it_is [ inl m ↦ inl (Memᴰ.append_left (r ∷ []) m) | inr m ↦ inr m ],
                ))
                h.delivered)
              ((r, e, refl, serialized, inl (Memᴰ.append_right db.outbox (Memᴰ.head refl))), tt);
      }

  recording-IsComplete :
      (now : ℕ) (d : MarketData) (w : World)
      → IsComplete w
      → IsComplete (process_market_data pg now d w).1
  recording-IsComplete now d w h =
      let v = (process_market_data pg now d w).1 in
      let on_bus = process_market_data-bus pg now d w in
      elim (Result-cases (process_market_data pg now d w).0) [
        | inl (u, r) ↦
            let (e, made, (j, serialized, fresh, is_after)) =
              process_market_data-Inserts pg now d w r in
            subst (λ bus. Complete v.db.events v.db.outbox v.db.next_outbox_id bus) (sym on_bus)
              (subst (λ (db : Db). Complete db.events db.outbox db.next_outbox_id w.bus)
                (sym is_after) (with_event-Complete e j w.db w.bus serialized h))
        | inr (x, r) ↦
            let rolled_back = process_market_data_atomic pg now d w r in
            let drawn = process_market_data-ids pg now d w in
            let kept : Complete w.db.events w.db.outbox v.db.next_outbox_id w.bus = record {
              ordered = h.ordered;
              drawn =
                  All-weaken (λ (s : OutboxRow). s.id < w.db.next_outbox_id)
                    (λ (s : OutboxRow). s.id < v.db.next_outbox_id) w.db.outbox
                    (λ s lt. omega (arith, lt, drawn)) h.drawn;
              delivered = h.delivered;
            } in
            subst (λ bus. Complete v.db.events v.db.outbox v.db.next_outbox_id bus) (sym on_bus)
              (subst (λ (db : Db). Complete db.events db.outbox db.next_outbox_id w.bus)
                (sym rolled_back) kept)
      ]

  -- The tables that a batch leaves.
  settled-drawn :
      (sent rest : List OutboxRow) (before : Db) (batch : Batch) (after : Db)
      → IsSettled sent rest before batch after
      → All (λ (r : OutboxRow). r.id < before.next_outbox_id) before.outbox
      → (after.events ≡ before.events)
        × All (λ (r : OutboxRow). r.id < after.next_outbox_id) after.outbox
  settled-drawn sent rest before (count, none) after (all_sent, deleted, counted) h =
      rw deleted (refl, All-select _ _ before.outbox h)
  settled-drawn sent rest before (count, some e) after (counted, inl (unchanged, error)) h =
      rw unchanged (refl, h)
  settled-drawn sent rest before (count, some e) after (counted, inr (deleted, failed)) h =
      rw deleted (refl, All-select _ _ before.outbox h)

  publishing-IsComplete :
      (locked : ℕ → Bool) (w : World) → IsComplete w → IsComplete (publish_batch locked w).1
  publishing-IsComplete locked w h =
      let (sent, rest, is_all, on_bus, settled) = publish_batch-IsSettled locked w in
      let (same, drawn) = settled-drawn sent rest w.db _ _ settled h.drawn in
      let v = (publish_batch locked w).1 in
      record {
        ordered = settled-Ascending sent rest w.db _ v.db h.ordered settled;
        drawn = drawn;
        delivered =
            subst (λ rows. All (IsDelivered v.db.outbox v.bus) rows) (sym same)
              (All-weaken (IsDelivered w.db.outbox w.bus) (IsDelivered v.db.outbox v.bus)
                w.db.events
                (λ row (r, e, is_row, written, where_it_is).
                  (r, e, is_row, written, publish_batch-IsCarried locked w r h.ordered where_it_is))
                h.delivered);
      }

  perform-IsComplete : (o : Operation) (w : World) → IsComplete w → IsComplete (perform pg o w)
  perform-IsComplete (recording now d) w h = recording-IsComplete now d w h
  perform-IsComplete (publishing locked) w h = publishing-IsComplete locked w h
  perform-IsComplete (projecting l) w h =
      IsComplete-same (round pg l w).1 w (round-events pg l w) (round-carried pg l w) h
  perform-IsComplete (pruning now) w h =
      let (same_carried, same_events) = prune_at-carried now w in
      IsComplete-same (prune_at now w) w same_events same_carried h

  -- From a complete world, and so from an empty one, any operations with any failures, locks and
  -- loops lead to a complete one: the event of each row of the table has an entry that is in the
  -- outbox or a message that was published, and the ids of the outbox increase.
  pub perform_all-IsComplete :
      (os : List Operation) (w : World) → IsComplete w → IsComplete (perform_all pg os w)
  perform_all-IsComplete [] w h = h
  perform_all-IsComplete (o ∷ os) w h =
      perform_all-IsComplete os (perform pg o w) (perform-IsComplete o w h)
