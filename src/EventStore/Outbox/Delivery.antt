-- ===== src/EventStore/Outbox/Delivery.antt =====
-- At-least-once delivery: no entry leaves the outbox without having been published.
use mathlib.Core.List.{Memᴰ}
use mathlib.Core.List.Memᴰ
use holdex_backend_cqrs.Prelude.{
  ℕ, suc, ◌≡◌, refl, sym, ap, subst, ◌∙◌, Bool, true, none, some, List, [], ◌∷◌, ◌++◌, ◌⊎◌, inl,
  inr, Bool-cases, arith, exists, ◌==◌, ==_iff, Ascending, Mem-take, Mem-select, select-Mem, le-Mem,
  order_by-Ascending, select-Ascending,
}
use holdex_backend_cqrs.Json.{Json}
use holdex_backend_cqrs.Tables.{OutboxRow, Db}
use holdex_backend_cqrs.World.{World}
use holdex_backend_cqrs.EventStore.Outbox.{
  OutboxPublisher, pending, delete_ids, Batch, publish_batch, next_interval, start,
}
use holdex_backend_cqrs.EventStore.Outbox.Batch.{ids, payloads, IsSettled, publish_batch-IsSettled}
use holdex_backend_cqrs.EventStore.Outbox.Drain.{by_id}

-- Rows of an outbox with increasing ids are known by their ids.
Mem-unique :
    {r s : OutboxRow} (lo : ℕ) (rs : List OutboxRow)
    → Ascending by_id lo rs
    → Memᴰ r rs
    → Memᴰ s rs
    → r.id ≡ s.id
    → r ≡ s
Mem-unique lo [] a m n h = elim m [ ]
Mem-unique lo (x ∷ rs) a (Memᴰ.head e) (Memᴰ.head f) h = e ∙ sym f
Mem-unique lo (x ∷ rs) a (Memᴰ.head e) (Memᴰ.tail n) h =
    absurd (omega (arith, le-Mem by_id (suc x.id) rs a.1 n, ap by_id e))
Mem-unique lo (x ∷ rs) a (Memᴰ.tail m) (Memᴰ.head f) h =
    absurd (omega (arith, le-Mem by_id (suc x.id) rs a.1 m, ap by_id f))
Mem-unique lo (x ∷ rs) a (Memᴰ.tail m) (Memᴰ.tail n) h = Mem-unique (suc x.id) rs a.1 m n h

-- A deleted id is that of a row that was sent.
Mem-ids :
    (i : ℕ) (sent : List OutboxRow)
    → exists (λ j. j == i) (ids sent) ≡ true
    → (s : OutboxRow) × Memᴰ s sent × (s.id ≡ i)
Mem-ids i [] h = absurd (ground arith)
Mem-ids i (s ∷ sent) h = elim (Bool-cases (s.id == i)) [
  | inl y ↦ (s, Memᴰ.head refl, (==_iff s.id i).0 y)
  | inr n ↦ let (t, m, e) = Mem-ids i sent (rw n at h) in (t, Memᴰ.tail m, e)
]

Mem-payloads : {r : OutboxRow} (rs : List OutboxRow) → Memᴰ r rs → Memᴰ r.payload (payloads rs)
Mem-payloads [] m = elim m [ ]
Mem-payloads (x ∷ rs) (Memᴰ.head e) = Memᴰ.head (ap (λ (s : OutboxRow). s.payload) e)
Mem-payloads (x ∷ rs) (Memᴰ.tail m) = Memᴰ.tail (Mem-payloads rs m)

pending-Mem :
    {r : OutboxRow} (locked : ℕ → Bool) (db : Db)
    → Ascending by_id 0 db.outbox
    → Memᴰ r (pending locked db)
    → Memᴰ r db.outbox
pending-Mem {r} locked db a m =
    subst (λ rs. Memᴰ r rs) (order_by-Ascending by_id 0 db.outbox a)
      (Mem-select _ _ (Mem-take 100 _ m))

delete_ids-Mem :
    (r : OutboxRow) (sent rest : List OutboxRow) (locked : ℕ → Bool) (db : Db) (bus : List Json)
    → Ascending by_id 0 db.outbox
    → sent ++ rest ≡ pending locked db
    → Memᴰ r db.outbox
    → Memᴰ r (delete_ids (ids sent) db).outbox ⊎ Memᴰ r.payload (bus ++ payloads sent)
delete_ids-Mem r sent rest locked db bus a is_all m =
    elim (Bool-cases (exists (λ j. j == r.id) (ids sent))) [
      | inl y ↦
          let (s, is_sent, same_id) = Mem-ids r.id sent y in
          let in_outbox =
            pending-Mem locked db a
              (subst (λ rs. Memᴰ s rs) is_all (Memᴰ.append_left rest is_sent)) in
          let same = Mem-unique 0 db.outbox a in_outbox m same_id in
          inr (
            Memᴰ.append_right bus (
              subst (λ (t : OutboxRow). Memᴰ t.payload (payloads sent)) same
                (Mem-payloads sent is_sent)))
      | inr n ↦ inl (select-Mem _ db.outbox m (rw n))
    ]

-- What holds of an entry that has been written: it is in the outbox, or its message was published.
abbrev pub IsCarried : OutboxRow → World → Type 0
IsCarried r w = Memᴰ r w.db.outbox ⊎ Memᴰ r.payload w.bus

settled-Mem :
    (r : OutboxRow) (sent rest : List OutboxRow) (locked : ℕ → Bool) (w : World) (batch : Batch)
    (after : Db)
    → Ascending by_id 0 w.db.outbox
    → sent ++ rest ≡ pending locked w.db
    → IsSettled sent rest w.db batch after
    → Memᴰ r w.db.outbox
    → Memᴰ r after.outbox ⊎ Memᴰ r.payload (w.bus ++ payloads sent)
settled-Mem r sent rest locked w (count, none) after a is_all (all_sent, deleted, counted) m =
    rw deleted (delete_ids-Mem r sent rest locked w.db w.bus a is_all m)
settled-Mem r sent rest locked w (count, some e) after a is_all (counted, inl (unchanged, error))
      m =
    inl (rw unchanged m)
settled-Mem r sent rest locked w (count, some e) after a is_all (counted, inr (deleted, failed)) m =
    rw deleted (delete_ids-Mem r sent rest locked w.db w.bus a is_all m)

-- Whatever fails, and whatever rows others hold, a batch loses no entry.
pub publish_batch-IsCarried :
    (locked : ℕ → Bool) (w : World) (r : OutboxRow)
    → Ascending by_id 0 w.db.outbox
    → IsCarried r w
    → IsCarried r (publish_batch locked w).1
publish_batch-IsCarried locked w r a carried =
    let (sent, rest, is_all, on_bus, settled) = publish_batch-IsSettled locked w in
    let (batch, w') = publish_batch locked w in
    elim carried [
      | inl m ↦ elim (settled-Mem r sent rest locked w batch w'.db a is_all settled m) [
        | inl stays ↦ inl stays
        | inr published ↦ inr (rw on_bus published)
      ]
      | inr published ↦ inr (rw on_bus (Memᴰ.append_left (payloads sent) published))
    ]

pub settled-Ascending :
    (sent rest : List OutboxRow) (before : Db) (batch : Batch) (after : Db)
    → Ascending by_id 0 before.outbox
    → IsSettled sent rest before batch after
    → Ascending by_id 0 after.outbox
settled-Ascending sent rest before (count, none) after a (all_sent, deleted, counted) =
    rw deleted (select-Ascending by_id 0 _ before.outbox a)
settled-Ascending sent rest before (count, some e) after a (counted, inl (unchanged, error)) =
    rw unchanged a
settled-Ascending sent rest before (count, some e) after a (counted, inr (deleted, failed)) =
    rw deleted (select-Ascending by_id 0 _ before.outbox a)

-- In an outbox with increasing ids the publisher's loop loses no entry: over any rounds, any
-- faults and any locks of others, an entry that is in the outbox or was published still is one
-- or the other.
pub start-IsCarried :
    (p : OutboxPublisher) (rounds : List (ℕ → Bool)) (current : ℕ) (w : World) (r : OutboxRow)
    → Ascending by_id 0 w.db.outbox
    → IsCarried r w
    → IsCarried r (start p rounds current w).1
unfolding start
start-IsCarried p [] current w r a carried = carried
start-IsCarried p (locked ∷ rounds) current w r a carried =
    let (sent, rest, is_all, on_bus, settled) = publish_batch-IsSettled locked w in
    let (batch, w') = publish_batch locked w in
    start-IsCarried p rounds (next_interval p current batch) w' r
      (settled-Ascending sent rest w.db batch w'.db a settled)
      (publish_batch-IsCarried locked w r a carried)
