-- ===== src/Pipeline/Integrity.antt =====
-- Whatever the parts do, in any order and with any failures: what is in the outbox or was published
-- belongs to an event of the table.
use mathlib.Core.List.{Memᴰ}
use mathlib.Core.List.Memᴰ
use holdex_backend_cqrs.Prelude.{
  ℕ, ◌≡◌, refl, sym, ap, subst, String, Bool, none, some, List, [], ◌∷◌, ◌++◌, inl, inr, Bool-cases,
  All, All-append, All-take, All-select, All-weaken, All-before, All-order_by,
}
use holdex_backend_cqrs.Json.{Json}
use holdex_backend_cqrs.Domain.Market.{Event}
use holdex_backend_cqrs.Tables.{Columns, EventRow, OutboxRow, Db}
use holdex_backend_cqrs.World.{World}
use holdex_backend_cqrs.World.Bind.{Result-cases}
use holdex_backend_cqrs.EventStore.{serialize_event, deserialize_raw_json, event_row}
use holdex_backend_cqrs.EventStore.Codec.{deserialize-serialize_event}
use holdex_backend_cqrs.EventStore.Outbox.{Batch, pending, publish_batch}
use holdex_backend_cqrs.EventStore.Outbox.Batch.{payloads, IsSettled, publish_batch-IsSettled}
use holdex_backend_cqrs.EventStore.Subscription.{matches, receive}
use holdex_backend_cqrs.Aggregator.Coingecko.{MarketData}
use holdex_backend_cqrs.Aggregator.Processor.{process_market_data}
use holdex_backend_cqrs.Aggregator.Processor.Recording.{
  recorded, process_market_data-Inserts, process_market_data_atomic,
}
use holdex_backend_cqrs.Aggregator.Processor.Log.{IsMarketLog, process_market_data-IsMarketLog}
use holdex_backend_cqrs.Projection.Projector.{Loop, round}
use holdex_backend_cqrs.Projection.Projector.Progressing.{round-events}
use holdex_backend_cqrs.Pipeline.Unsent.{process_market_data-bus}
use holdex_backend_cqrs.Pipeline.Frames.{carried, round-carried, prune_at-carried}
use holdex_backend_cqrs.Server.{prune_at}

-- One thing that a part of the program does.
pub data Operation : Type 0 where
  recording : ℕ → MarketData → Operation
  publishing : (ℕ → Bool) → Operation
  projecting : Loop → Operation
  pruning : ℕ → Operation

abbrev pub perform : Columns → Operation → World → World
perform pg (recording now d) w = (process_market_data pg now d w).1
perform pg (publishing locked) w = (publish_batch locked w).1
perform pg (projecting l) w = (round pg l w).1
perform pg (pruning now) w = prune_at now w

abbrev pub perform_all : Columns → List Operation → World → World
perform_all pg [] w = w
perform_all pg (o ∷ os) w = perform_all pg os (perform pg o w)

module _ (pg : Columns) where
  -- A message that was written for an event of the table, and is read back as this event.
  abbrev pub IsRecorded : List EventRow → Json → Type 0
  IsRecorded rows j =
      (e : Event) × (id : ℕ) × Memᴰ (event_row pg id e) rows
      × (serialize_event e ≡ some j)
      × (deserialize_raw_json j ≡ some e)

  -- The same of an entry of the outbox, whose event is the one that its foreign key names.
  abbrev pub IsEntry : List EventRow → OutboxRow → Type 0
  IsEntry rows r =
      (e : Event) × Memᴰ (event_row pg r.event_id e) rows
      × (serialize_event e ≡ some r.payload)
      × (deserialize_raw_json r.payload ≡ some e)

  pub record Sound (w : World) : Type 0 where
    pub log : IsMarketLog w.db.events
    pub entries : All (IsEntry w.db.events) w.db.outbox
    pub messages : All (IsRecorded w.db.events) w.bus

  All-payloads :
      (rows : List EventRow) (rs : List OutboxRow)
      → All (IsEntry rows) rs
      → All (IsRecorded rows) (payloads rs)
  All-payloads rows [] h = tt
  All-payloads rows (r ∷ rs) ((e, m, serialized, read), h) =
      ((e, r.event_id, m, serialized, read), All-payloads rows rs h)

  IsRecorded-append :
      (rows more : List EventRow) (j : Json) → IsRecorded rows j → IsRecorded (rows ++ more) j
  IsRecorded-append rows more j (e, id, m, serialized, read) =
      (e, id, Memᴰ.append_left more m, serialized, read)

  -- The same events, entries from the former ones, and these messages.
  Sound-of :
      (v w : World)
      → v.db.events ≡ w.db.events
      → All (IsEntry w.db.events) v.db.outbox
      → All (IsRecorded w.db.events) v.bus
      → Sound w
      → Sound v
  Sound-of v w same entries messages h = record {
    log = subst (λ rows. IsMarketLog rows) (sym same) h.log;
    entries = subst (λ rows. All (IsEntry rows) v.db.outbox) (sym same) entries;
    messages = subst (λ rows. All (IsRecorded rows) v.bus) (sym same) messages;
  }

  Sound-same : (v w : World) → v.db.events ≡ w.db.events → carried v ≡ carried w → Sound w → Sound v
  Sound-same v w same_events same_carried h =
      Sound-of v w same_events
        (subst (λ rows. All (IsEntry w.db.events) rows) (sym (ap (λ c. c.0) same_carried))
          h.entries)
        (subst (λ bus. All (IsRecorded w.db.events) bus) (sym (ap (λ c. c.2) same_carried))
          h.messages)
        h

  recording-Sound :
      (now : ℕ) (d : MarketData) (w : World) → Sound w → Sound (process_market_data pg now d w).1
  recording-Sound now d w h = elim (Result-cases (process_market_data pg now d w).0) [
    | inl (u, r) ↦
        let (e, made, (j, serialized, fresh, is_after)) =
          process_market_data-Inserts pg now d w r in
        let row = event_row pg w.db.next_event_id e in
        let weaken = IsRecorded-append w.db.events (row ∷ []) in
        let this : IsRecorded (w.db.events ++ row ∷ []) j = (
          e,
          w.db.next_event_id,
          Memᴰ.append_right w.db.events (Memᴰ.head refl),
          serialized,
          deserialize-serialize_event d.id _ (recorded d) now made serialized,
        ) in
        record {
          log = process_market_data-IsMarketLog pg now d w h.log;
          entries =
              subst (λ (db : Db). All (IsEntry db.events) db.outbox) (sym is_after)
                (All-append (IsEntry (w.db.events ++ row ∷ [])) w.db.outbox _
                  (All-weaken (IsEntry w.db.events) _ w.db.outbox
                    (λ s (f, m, written, read). (f, Memᴰ.append_left (row ∷ []) m, written, read))
                    h.entries)
                  ((this.0, this.2, this.3, this.4), tt));
          messages =
              subst (λ (db : Db). All (IsRecorded db.events) (process_market_data pg now d w).1.bus)
                (sym is_after)
                (subst (λ bus. All (IsRecorded (w.db.events ++ row ∷ [])) bus)
                  (sym (process_market_data-bus pg now d w))
                  (All-weaken (IsRecorded w.db.events) _ w.bus weaken h.messages));
        }
    | inr (x, r) ↦
        let rolled_back = process_market_data_atomic pg now d w r in
        Sound-of (process_market_data pg now d w).1 w (ap (λ (db : Db). db.events) rolled_back)
          (subst (λ rows. All (IsEntry w.db.events) rows)
            (sym (ap (λ (db : Db). db.outbox) rolled_back)) h.entries)
          (subst (λ bus. All (IsRecorded w.db.events) bus)
            (sym (process_market_data-bus pg now d w)) h.messages)
          h
  ]

  -- The tables that a batch leaves: the same events, and some of the entries.
  settled-tables :
      (P : OutboxRow → Type 0) (sent rest : List OutboxRow) (before : Db) (batch : Batch)
      (after : Db)
      → IsSettled sent rest before batch after
      → All P before.outbox
      → (after.events ≡ before.events) × All P after.outbox
  settled-tables P sent rest before (count, none) after (all_sent, deleted, counted) h =
      rw deleted (refl, All-select P _ before.outbox h)
  settled-tables P sent rest before (count, some e) after (counted, inl (unchanged, error)) h =
      rw unchanged (refl, h)
  settled-tables P sent rest before (count, some e) after (counted, inr (deleted, failed)) h =
      rw deleted (refl, All-select P _ before.outbox h)

  pending-All :
      (P : OutboxRow → Type 0) (locked : ℕ → Bool) (db : Db)
      → All P db.outbox
      → All P (pending locked db)
  pending-All P locked db h =
      All-take P 100 _ (All-select P _ _ (All-order_by P (λ r. r.id) db.outbox h))

  publishing-Sound : (locked : ℕ → Bool) (w : World) → Sound w → Sound (publish_batch locked w).1
  publishing-Sound locked w h =
      let P : OutboxRow → Type 0 = IsEntry w.db.events in
      let (sent, rest, is_all, on_bus, settled) = publish_batch-IsSettled locked w in
      let (same, entries) = settled-tables P sent rest w.db _ _ settled h.entries in
      let taken = subst (λ rows. All P rows) (sym is_all) (pending-All P locked w.db h.entries) in
      Sound-of (publish_batch locked w).1 w same entries
        (subst (λ bus. All (IsRecorded w.db.events) bus) (sym on_bus)
          (All-append (IsRecorded w.db.events) w.bus (payloads sent) h.messages
            (All-payloads w.db.events sent (All-before P sent rest taken))))
        h

  perform-Sound : (o : Operation) (w : World) → Sound w → Sound (perform pg o w)
  perform-Sound (recording now d) w h = recording-Sound now d w h
  perform-Sound (publishing locked) w h = publishing-Sound locked w h
  perform-Sound (projecting l) w h =
      Sound-same (round pg l w).1 w (round-events pg l w) (round-carried pg l w) h
  perform-Sound (pruning now) w h =
      let (same_carried, same_events) = prune_at-carried now w in
      Sound-same (prune_at now w) w same_events same_carried h

  perform_all-Sound : (os : List Operation) (w : World) → Sound w → Sound (perform_all pg os w)
  perform_all-Sound [] w h = h
  perform_all-Sound (o ∷ os) w h = perform_all-Sound os (perform pg o w) (perform-Sound o w h)

  -- An event that some row of the table was written for.
  abbrev pub HasRow : List EventRow → Event → Type 0
  HasRow rows e = (id : ℕ) × Memᴰ (event_row pg id e) rows

  receive-HasRow :
      (types : List String) (rows : List EventRow) (js : List Json)
      → All (IsRecorded rows) js
      → All (HasRow rows) (receive types js)
  unfolding receive
  receive-HasRow types rows [] h = tt
  receive-HasRow types rows (j ∷ js) ((e, id, m, serialized, read), h) =
      rw read (elim (Bool-cases (matches types e)) [
        | inl y ↦ rw y ((id, m), receive-HasRow types rows js h)
        | inr n ↦ rw n (receive-HasRow types rows js h)
      ])

  -- From a sound world, and so from an empty one, any operations with any failures, locks and loops
  -- lead to a sound one: the log is numbered and readable, every entry of the outbox was written
  -- for the event of the table that its foreign key names, and every message of the channel for an
  -- event of the table. What a subscriber receives of the
  -- messages are events of the table.
  pub perform_all-integrity :
      (os : List Operation) (w : World) (types : List String)
      → Sound w
      → Sound (perform_all pg os w)
        × All (HasRow (perform_all pg os w).db.events) (receive types (perform_all pg os w).bus)
  perform_all-integrity os w types h =
      let h' = perform_all-Sound os w h in
      (
        h',
        receive-HasRow types (perform_all pg os w).db.events (perform_all pg os w).bus h'.messages,
      )
