-- ===== src/EventStore/Outbox/Batch.antt =====
-- publishBatch of outbox.go, on every branch.
use mathlib.Core.List.{append-nil, append_assoc}
use holdex_backend_cqrs.Prelude.{
  ℕ, suc, ◌≡◌, refl, sym, ap, subst, ◌∙◌, Bool, true, false, none, some, List, [], ◌∷◌, ◌++◌, map,
  ◌⊎◌, inl, inr, Bool-cases, arith, length, select,
}
use holdex_backend_cqrs.Json.{Json}
use holdex_backend_cqrs.Result.{
  Error, publish_failed, begin_failed, query_failed, iteration_failed, commit_failed, delete_failed,
}
use holdex_backend_cqrs.Tables.{OutboxRow, Db}
use holdex_backend_cqrs.World.{World, fault?, rollback}
use holdex_backend_cqrs.World.Bind.{next}
use holdex_backend_cqrs.EventStore.Outbox.{
  Batch, pending, delete_ids, send, publish_records, commit_batch, delete_batch, publish_pending,
  publish_batch,
}

abbrev pub ids : List OutboxRow → List ℕ
ids rows = map (λ (r : OutboxRow). r.id) rows

abbrev pub payloads : List OutboxRow → List Json
payloads rows = map (λ (r : OutboxRow). r.payload) rows

-- The loop has published a first part of the records, in order, and all of them if none failed.
publish_records-prefix :
    (rs : List OutboxRow) (w : World)
    → (sent : List OutboxRow) × (rest : List OutboxRow) × (sent ++ rest ≡ rs)
      × ((publish_records rs w).0.0 ≡ ids sent)
      × ((publish_records rs w).0.1 ≡ false → rest ≡ [])
      × ((publish_records rs w).1.bus ≡ w.bus ++ payloads sent)
      × ((publish_records rs w).1.db ≡ w.db)
unfolding publish_records
publish_records-prefix [] w = ([], [], refl, refl, λ h. refl, sym (append-nil w.bus), refl)
publish_records-prefix (r ∷ rs) w = elim (Bool-cases (fault? w.faults)) [
  | inl x ↦ (
    [],
    r ∷ rs,
    refl,
    rw x,
    rw x (λ h. absurd (ground arith)),
    rw x (sym (append-nil w.bus)),
    rw x,
  )
  | inr x ↦
      let (sent, rest, is_all, same_ids, complete, on_bus, same_db) =
        publish_records-prefix rs (send r (next w)) in
      (
        r ∷ sent,
        rest,
        ap (λ l. r ∷ l) is_all,
        rw x (ap (λ l. r.id ∷ l) same_ids),
        rw x complete,
        rw x (on_bus ∙ append_assoc w.bus (r.payload ∷ []) (payloads sent)),
        rw x same_db,
      )
]

pub select-all :
    (p : OutboxRow → Bool)
    → ((r : OutboxRow) → p r ≡ true)
    → (rs : List OutboxRow) → select p rs ≡ rs
select-all p h [] = refl
select-all p h (r ∷ rs) = rw (h r) (ap (λ l. r ∷ l) (select-all p h rs))

pub delete_ids-nil : (db : Db) → delete_ids [] db ≡ db
delete_ids-nil db = ap (λ rs. record db { outbox = rs }) (select-all _ (λ r. refl) db.outbox)

-- The errors after which a batch is rolled back: with nothing sent, those before the loop; after some
-- records, those of the DELETE and of the COMMIT.
abbrev pub RollsBack : List OutboxRow → Error → Type 0
RollsBack [] e =
    (e ≡ begin_failed) ⊎ (e ≡ query_failed) ⊎ (e ≡ iteration_failed) ⊎ (e ≡ commit_failed)
RollsBack (r ∷ sent) e = (e ≡ delete_failed) ⊎ (e ≡ commit_failed)

-- What a batch has done to the tables, with the records that it sent and those that it did not, and
-- what it counts, which is the records that were sent: on success all were sent and exactly these are
-- deleted; on an error nothing is deleted, or, if it was a publication that failed, what was sent
-- before.
abbrev pub IsSettled : List OutboxRow → List OutboxRow → Db → Batch → Db → Type 0
IsSettled sent rest before (count, none) after =
    (rest ≡ []) × (after ≡ delete_ids (ids sent) before) × (count ≡ length (sent ++ rest))
IsSettled sent rest before (count, some e) after =
    (count ≡ length sent)
    × (((after ≡ before) × RollsBack sent e)
        ⊎ ((after ≡ delete_ids (ids sent) before) × (e ≡ publish_failed)))

commit-RollsBack : (sent : List OutboxRow) → RollsBack sent commit_failed
commit-RollsBack [] = inr (inr (inr refl))
commit-RollsBack (r ∷ sent) = inr refl

length-ids : (sent : List OutboxRow) → length (ids sent) ≡ length sent
length-ids [] = refl
length-ids (r ∷ sent) = ap suc (length-ids sent)

commit_batch-IsSettled :
    (sent rest : List OutboxRow) (before : Db) (published : ℕ) (failed : Bool) (w : World)
    → w.db ≡ delete_ids (ids sent) before
    → (failed ≡ false → rest ≡ [])
    → published ≡ length sent
    → let r = commit_batch before published (length (sent ++ rest)) failed w in
      (r.1.bus ≡ w.bus) × IsSettled sent rest before r.0 r.1.db
unfolding commit_batch
commit_batch-IsSettled sent rest before published failed w deleted complete counted =
    elim (Bool-cases (fault? w.faults)) [
      | inl x ↦ rw x (refl, (counted, inl (ap (rollback before) deleted, commit-RollsBack sent)))
      | inr x ↦ rw x (elim (Bool-cases failed) [
        | inl y ↦ rw y (refl, (counted, inr (deleted, refl)))
        | inr n ↦ rw n (refl, (complete n, deleted, refl))
      ])
    ]

delete_batch-IsSettled :
    (sent rest : List OutboxRow) (failed : Bool) (w : World)
    → (failed ≡ false → rest ≡ [])
    → let r = delete_batch (ids sent) (length (sent ++ rest)) failed w in
      (r.1.bus ≡ w.bus) × IsSettled sent rest w.db r.0 r.1.db
unfolding delete_batch
delete_batch-IsSettled [] rest failed w complete =
    commit_batch-IsSettled [] rest w.db 0 failed w (sym (delete_ids-nil w.db)) complete refl
delete_batch-IsSettled (s ∷ sent) rest failed w complete = elim (Bool-cases (fault? w.faults)) [
  | inl x ↦ rw x (refl, (length-ids (s ∷ sent), inl (refl, inl refl)))
  | inr x ↦ rw x (
      commit_batch-IsSettled (s ∷ sent) rest w.db _ failed
        (record (next w) { db = delete_ids (ids (s ∷ sent)) w.db }) refl complete
        (length-ids (s ∷ sent)))
]

publish_pending-IsSettled :
    (rs : List OutboxRow) (w : World)
    → (sent : List OutboxRow) × (rest : List OutboxRow) × (sent ++ rest ≡ rs)
      × ((publish_pending rs w).1.bus ≡ w.bus ++ payloads sent)
      × IsSettled sent rest w.db (publish_pending rs w).0 (publish_pending rs w).1.db
unfolding publish_pending
publish_pending-IsSettled [] w =
    ([], [], refl, sym (append-nil w.bus), (refl, sym (delete_ids-nil w.db), refl))
publish_pending-IsSettled (r ∷ rs) w =
    let (sent, rest, is_all, same_ids, complete, on_bus, same_db) =
      publish_records-prefix (r ∷ rs) w in
    let failed = (publish_records (r ∷ rs) w).0.1 in
    let w' = (publish_records (r ∷ rs) w).1 in
    let (same_bus, settled) = delete_batch-IsSettled sent rest failed w' complete in
    let q : publish_pending (r ∷ rs) w ≡ delete_batch (ids sent) (length (sent ++ rest)) failed w' =
      ap (λ l. delete_batch l (length (r ∷ rs)) failed w') same_ids
      ∙ ap (λ (l : List OutboxRow). delete_batch (ids sent) (length l) failed w') (sym is_all) in
    (
      sent,
      rest,
      is_all,
      ap (λ (p : Batch × World). p.1.bus) q ∙ same_bus ∙ on_bus,
      subst (λ (p : Batch × World). IsSettled sent rest w.db p.0 p.1.db) (sym q)
          (subst
            (λ db.
              IsSettled sent rest db (delete_batch (ids sent) (length (sent ++ rest)) failed w').0
                (delete_batch (ids sent) (length (sent ++ rest)) failed w').1.db)
            same_db settled),
    )

-- On every branch a batch sends a first part of the pending entries to the channel, in the order
-- of their ids, and counts what it has sent. Without an error all were sent, and exactly these are
-- deleted. If a publication failed, the tables are without the entries that were sent; after any
-- other error they are as before, and an error before the loop has sent nothing.
pub publish_batch-IsSettled :
    (locked : ℕ → Bool) (w : World)
    → (sent : List OutboxRow) × (rest : List OutboxRow) × (sent ++ rest ≡ pending locked w.db)
      × ((publish_batch locked w).1.bus ≡ w.bus ++ payloads sent)
      × IsSettled sent rest w.db (publish_batch locked w).0 (publish_batch locked w).1.db
unfolding publish_batch
publish_batch-IsSettled locked w = elim (Bool-cases (fault? w.faults)) [
  | inl x ↦
      rw x ([], pending locked w.db, refl, sym (append-nil w.bus), (refl, inl (refl, inl refl)))
  | inr x ↦ rw x (elim (Bool-cases (fault? (next w).faults)) [
    | inl y ↦
        rw y (
          [],
          pending locked w.db,
          refl,
          sym (append-nil w.bus),
          (refl, inl (refl, inr (inl refl))),
        )
    | inr y ↦ rw y (elim (Bool-cases (fault? (next (next w)).faults)) [
      | inl z ↦ rw z (
        [],
        pending locked w.db,
        refl,
        sym (append-nil w.bus),
        (refl, inl (refl, inr (inr (inl refl)))),
      )
      | inr z ↦ rw z (publish_pending-IsSettled (pending locked w.db) (next (next (next w))))
    ])
  ])
]
