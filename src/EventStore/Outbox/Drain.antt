-- ===== src/EventStore/Outbox/Drain.antt =====
-- Where nothing fails and no other publisher holds rows, rounds of `Start` empty the outbox in order.
use mathlib.Core.List.{append-nil, append_assoc}
use native.Mathlib.Nat.{zero-add, add-zero, suc-add}
use holdex_backend_cqrs.Prelude.{
  ℕ, zero, suc, ◌+◌, ◌*◌, ◌≤◌, ◌<◌, ◌≡◌, refl, sym, ap, ◌∙◌, Bool, true, false, not, none, List, [],
  ◌∷◌, ◌++◌, arith, length, take, drop, select, exists, ◌==◌, ==_refl, Ascending,
  order_by-Ascending, Ascending-le, replicate,
}
use holdex_backend_cqrs.Tables.{OutboxRow, Db}
use holdex_backend_cqrs.World.{World}
use holdex_backend_cqrs.World.Bind.{later-nil, fault?-nil}
use holdex_backend_cqrs.EventStore.Outbox.{
  OutboxPublisher, pending, delete_ids, send, publish_records, commit_batch, delete_batch,
  publish_pending, publish_batch, next_interval, start,
}
use holdex_backend_cqrs.EventStore.Outbox.Batch.{ids, payloads, select-all, delete_ids-nil}

abbrev pub by_id : OutboxRow → ℕ
by_id r = r.id

abbrev pub unlocked : ℕ → Bool
unlocked i = false

-- An id below all the others is not among them.
exists-Ascending :
    (i lo : ℕ) (rs : List OutboxRow)
    → Ascending by_id lo rs
    → i < lo
    → (n : ℕ) → exists (λ j. j == i) (ids (take n rs)) ≡ false
exists-Ascending i lo rs a h zero = refl
exists-Ascending i lo [] a h (suc n) = refl
exists-Ascending i lo (r ∷ rs) a h (suc n) =
    ground (arith, exists-Ascending i (suc r.id) rs a.1 (omega arith) n, a.0)

-- Ids from a list of smaller ones can be left out of a deletion.
select-skip :
    (i lo : ℕ) (is : List ℕ) (rs : List OutboxRow)
    → Ascending by_id lo rs
    → i < lo
    → select (λ r. not (exists (λ j. j == r.id) (i ∷ is))) rs
      ≡ select (λ r. not (exists (λ j. j == r.id) is)) rs
select-skip i lo is [] a h = refl
select-skip i lo is (r ∷ rs) a h =
    ground (arith, select-skip i (suc r.id) is rs a.1 (omega arith), a.0)

select-none : (rs : List OutboxRow) → select (λ r. not (exists (λ j. j == r.id) [])) rs ≡ rs
select-none rs = select-all _ (λ r. refl) rs

-- Deleting the ids of the first n rows leaves the rows behind them.
select-take :
    (lo n : ℕ) (rs : List OutboxRow)
    → Ascending by_id lo rs
    → select (λ r. not (exists (λ j. j == r.id) (ids (take n rs)))) rs ≡ drop n rs
select-take lo zero rs a = select-none rs
select-take lo (suc n) [] a = refl
select-take lo (suc n) (r ∷ rs) a = rw (==_refl r.id) (
    select-skip r.id (suc r.id) (ids (take n rs)) rs a.1 (omega arith)
    ∙ select-take (suc r.id) n rs a.1)

publish_records_fault_free :
    (rs : List OutboxRow) (w : World)
    → w.faults ≡ []
    → publish_records rs w ≡ ((ids rs, false), record w { bus = w.bus ++ payloads rs })
unfolding publish_records
publish_records_fault_free [] w h = rw (append-nil w.bus)
publish_records_fault_free (r ∷ rs) w h = rw (fault?-nil w h) (
    rw (later-nil w h) (
      rw (publish_records_fault_free rs (send r w) h)
        (rw (append_assoc w.bus (r.payload ∷ []) (payloads rs)))))

commit_batch_fault_free :
    (before : Db) (published records : ℕ) (w : World)
    → w.faults ≡ []
    → commit_batch before published records false w ≡ ((records, none), w)
unfolding commit_batch
commit_batch_fault_free before published records w h = rw (fault?-nil w h) (rw (later-nil w h))

delete_batch_fault_free :
    (is : List ℕ) (records : ℕ) (w : World)
    → w.faults ≡ []
    → delete_batch is records false w ≡ ((records, none), record w { db = delete_ids is w.db })
unfolding delete_batch
delete_batch_fault_free [] records w h =
    commit_batch_fault_free w.db 0 records w h
    ∙ ap (λ db. ((records, none), record w { db = db })) (sym (delete_ids-nil w.db))
delete_batch_fault_free (i ∷ is) records w h = rw (fault?-nil w h) (
    rw (later-nil w h)
      (commit_batch_fault_free w.db _ records (record w { db = delete_ids (i ∷ is) w.db }) h))

-- The world after a batch that nothing disturbs, by the rows that it takes and those behind them.
abbrev pub after_batch : ℕ → World → World
after_batch n w = record w {
  bus = w.bus ++ payloads (take n w.db.outbox);
  db = record w.db { outbox = drop n w.db.outbox };
}

publish_pending_fault_free :
    (rs : List OutboxRow) (w : World)
    → w.faults ≡ []
    → publish_pending rs w
      ≡ ((length rs, none), record w { bus = w.bus ++ payloads rs; db = delete_ids (ids rs) w.db })
unfolding publish_pending
publish_pending_fault_free [] w h =
    rw (append-nil w.bus) (ap (λ db. ((0, none), record w { db = db })) (sym (delete_ids-nil w.db)))
publish_pending_fault_free (r ∷ rs) w h =
    ap (λ (p : (List ℕ × Bool) × World). delete_batch p.0.0 (length (r ∷ rs)) p.0.1 p.1)
      (publish_records_fault_free (r ∷ rs) w h)
    ∙ delete_batch_fault_free (ids (r ∷ rs)) (length (r ∷ rs))
        (record w { bus = w.bus ++ payloads (r ∷ rs) }) h

pending-Ascending :
    (db : Db) → Ascending by_id 0 db.outbox → pending unlocked db ≡ take 100 db.outbox
pending-Ascending db a =
    rw (order_by-Ascending by_id 0 db.outbox a) (rw (select-all (λ r. true) (λ r. refl) db.outbox))

-- A batch that nothing disturbs publishes the first hundred entries, in order, and deletes them.
pub publish_batch_fault_free :
    (w : World)
    → w.faults ≡ []
    → Ascending by_id 0 w.db.outbox
    → publish_batch unlocked w ≡ ((length (take 100 w.db.outbox), none), after_batch 100 w)
unfolding publish_batch
publish_batch_fault_free w h a =
    simp (fault?-nil w h, later-nil w h)
      (ap (λ (rs : List OutboxRow). publish_pending rs w) (pending-Ascending w.db a)
        ∙ publish_pending_fault_free (take 100 w.db.outbox) w h
        ∙ ap
            (λ (rs : List OutboxRow). (
              (length (take 100 w.db.outbox), none),
              record w {
                bus = w.bus ++ payloads (take 100 w.db.outbox);
                db = record w.db { outbox = rs };
              },
            ))
            (select-take 0 100 w.db.outbox a))

drop-Ascending :
    (lo n : ℕ) (rs : List OutboxRow) → Ascending by_id lo rs → Ascending by_id lo (drop n rs)
drop-Ascending lo zero rs a = a
drop-Ascending lo (suc n) [] a = a
drop-Ascending lo (suc n) (r ∷ rs) a =
    Ascending-le by_id lo (suc r.id) (drop n rs) (omega (arith, a.0))
      (drop-Ascending (suc r.id) n rs a.1)

-- Two batches in a row are one batch of both sizes.
take-drop-payloads :
    (m n : ℕ) (rs : List OutboxRow)
    → payloads (take m rs) ++ payloads (take n (drop m rs)) ≡ payloads (take (m + n) rs)
take-drop-payloads zero n rs = rw zero-add
take-drop-payloads (suc m) zero [] = rw add-zero
take-drop-payloads (suc m) (suc n) [] = rw suc-add
take-drop-payloads (suc m) n (r ∷ rs) =
    rw suc-add (ap (λ l. r.payload ∷ l) (take-drop-payloads m n rs))

drop-drop : (m n : ℕ) (rs : List OutboxRow) → drop n (drop m rs) ≡ drop (m + n) rs
drop-drop zero n rs = rw zero-add
drop-drop (suc m) zero [] = rw add-zero
drop-drop (suc m) (suc n) [] = rw suc-add
drop-drop (suc m) n (r ∷ rs) = rw suc-add (drop-drop m n rs)

after_batch-after_batch :
    (m n : ℕ) (w : World) → after_batch n (after_batch m w) ≡ after_batch (m + n) w
after_batch-after_batch m n w =
    simp (append_assoc, take-drop-payloads m n w.db.outbox, drop-drop m n w.db.outbox)

-- Rounds of `Start` that nothing disturbs publish a hundred entries each, in the order of their
-- ids, and delete them, whatever the intervals.
pub start_rounds :
    (p : OutboxPublisher) (rounds : ℕ) (current : ℕ) (w : World)
    → w.faults ≡ []
    → Ascending by_id 0 w.db.outbox
    → (start p (replicate rounds unlocked) current w).1 ≡ after_batch (100 * rounds) w
unfolding start
start_rounds p zero current w h a = ap (λ bus. record w { bus = bus }) (sym (append-nil w.bus))
start_rounds p (suc n) current w h a =
    let w1 = after_batch 100 w in
    ap (λ b. (start p (replicate n unlocked) (next_interval p current b.0) b.1).1)
      (publish_batch_fault_free w h a)
    ∙ start_rounds p n (next_interval p current (length (take 100 w.db.outbox), none)) w1 h
        (drop-Ascending 0 100 w.db.outbox a)
    ∙ after_batch-after_batch 100 (100 * n) w
    ∙ ap (λ k. after_batch k w) (let e : 100 + 100 * n ≡ 100 * suc n = omega arith in e)

take-all : (n : ℕ) (rs : List OutboxRow) → length rs ≤ n → take n rs ≡ rs
take-all zero [] h = refl
take-all (suc n) [] h = refl
take-all zero (r ∷ rs) h = absurd (omega arith)
take-all (suc n) (r ∷ rs) h = ap (λ l. r ∷ l) (take-all n rs (omega arith))

drop-all : (n : ℕ) (rs : List OutboxRow) → length rs ≤ n → drop n rs ≡ []
drop-all zero [] h = refl
drop-all (suc n) [] h = refl
drop-all zero (r ∷ rs) h = absurd (omega arith)
drop-all (suc n) (r ∷ rs) h = drop-all n rs (omega arith)

-- In an outbox with increasing ids and at most a hundred entries for each round, rounds that no
-- fault and no lock disturbs empty the outbox: the channel has then received every entry's
-- payload once, in the order of the ids.
pub start_drains :
    (p : OutboxPublisher) (rounds : ℕ) (current : ℕ) (w : World)
    → w.faults ≡ []
    → Ascending by_id 0 w.db.outbox
    → length w.db.outbox ≤ 100 * rounds
    → let w' = (start p (replicate rounds unlocked) current w).1 in
      (w'.db.outbox ≡ []) × (w'.bus ≡ w.bus ++ payloads w.db.outbox)
start_drains p rounds current w h a enough = rw (start_rounds p rounds current w h a) (
  drop-all (100 * rounds) w.db.outbox enough,
  ap (λ rs. w.bus ++ payloads rs) (take-all (100 * rounds) w.db.outbox enough),
)
