-- ===== src/EventStore/Outbox/Workers/Ledger.antt =====
-- The account of publishers that work at once on one outbox: what is written, published, rolled back
-- and held balances for each id, in every state that their actions reach.
use mathlib.Core.List.{append-nil, append_assoc, map-append}
use holdex_backend_cqrs.Prelude.{
  ℕ, zero, suc, ◌+◌, ◌≤◌, ◌≡◌, refl, sym, ap, ◌∙◌, inl, inr, Bool-cases, List, [], ◌∷◌, ◌++◌, arith,
  ◌==◌, ==_iff, replicate,
}
use holdex_backend_cqrs.Json.{Json}
use holdex_backend_cqrs.Tables.{OutboxRow, Db}
use holdex_backend_cqrs.EventStore.Outbox.{pending}
use holdex_backend_cqrs.EventStore.Outbox.Batch.{payloads}
use holdex_backend_cqrs.EventStore.Outbox.Workers.{
  Worker, idle, publishing, held, locked_by, Shared, new_row, WorkerStep, append, claim, publish,
  commit, abort, WorkerSteps, none_yet, then_step, at_start,
}
use holdex_backend_cqrs.EventStore.Outbox.Workers.Counting.{
  times, times_held, times_sent, times-append, times_held-split, times_sent-split, sent_le_held,
  times-pending, times-delete_ids,
}

-- The account of one id. It is written once at the most, and then stands in the outbox or has left
-- it; workers hold it at most as often as it stands there.
pub record Ledger (i : ℕ) (s : Shared) : Type 0 where
  pub fresh : s.db.next_outbox_id ≤ i → times i s.written ≡ 0
  pub once : times i s.written ≤ 1
  pub kept : times i s.db.outbox ≤ times i s.written
  pub owned : times_held i s.workers ≤ times i s.db.outbox
  pub balanced :
      times i s.published + times i s.db.outbox
      ≡ times i s.rolled_back + times_sent i s.workers + times i s.written

module _ (i : ℕ) where
  idle_workers :
      (n : ℕ) → (times_held i (replicate n idle) ≡ 0) × (times_sent i (replicate n idle) ≡ 0)
  idle_workers zero = (refl, refl)
  idle_workers (suc n) = let (h, t) = idle_workers n in (omega (arith, h), omega (arith, t))

  at_start-Ledger : (n : ℕ) (db : Db) (bus : List Json) → Ledger i (at_start n db bus)
  at_start-Ledger n db bus =
      let (h, t) = idle_workers n in
      record {
        fresh = λ _. refl;
        once = omega arith;
        kept = omega arith;
        owned = omega (arith, h);
        balanced = omega (arith, t);
      }

  -- One worker of the list, by what it holds and has sent and what the others do.
  module _ (s : Shared) (before after : List Worker) (p : Worker)
      (at : s.workers ≡ before ++ p ∷ after) where
    held_at : times_held i s.workers ≡ times i (held p) + times_held i (before ++ after)
    held_at = ap (times_held i) at ∙ times_held-split i before after p

    sent_at : times_sent i s.workers ≡ times_sent i (p ∷ []) + times_sent i (before ++ after)
    sent_at = ap (times_sent i) at ∙ times_sent-split i before after p ∙ (omega arith)

  append-Ledger :
      (s : Shared) (event_id : ℕ) (payload : Json)
      → Ledger i s
      → Ledger i (record s {
        db = record s.db {
          outbox = s.db.outbox ++ new_row event_id payload s.db ∷ [];
          next_outbox_id = s.db.next_outbox_id + 1;
        };
        written = s.written ++ new_row event_id payload s.db ∷ [];
      })
  append-Ledger s event_id payload l =
      let r = new_row event_id payload s.db in
      let in_outbox = times-append i s.db.outbox (r ∷ []) in
      let in_written = times-append i s.written (r ∷ []) in
      elim (Bool-cases (s.db.next_outbox_id == i)) [
        | inl y ↦
            let is_next = (==_iff s.db.next_outbox_id i).0 y in
            let none_before = l.fresh (omega (arith, is_next)) in
            record {
              fresh = λ past. absurd (omega (arith, past, is_next));
              once = ground (arith, in_written, none_before);
              kept = ground (arith, in_written, in_outbox, l.kept);
              owned = ground (arith, in_outbox, l.owned);
              balanced = ground (arith, in_outbox, in_written, l.balanced);
            }
        | inr n ↦ record {
          fresh = λ past. ground (arith, in_written, l.fresh (omega (arith, past)));
          once = ground (arith, in_written, l.once);
          kept = ground (arith, in_written, in_outbox, l.kept);
          owned = ground (arith, in_outbox, l.owned);
          balanced = ground (arith, in_outbox, in_written, l.balanced);
        }
      ]

  -- Every action keeps the account.
  pub WorkerStep-Ledger : (s : Shared) {t : Shared} → WorkerStep s t → Ledger i s → Ledger i t
  WorkerStep-Ledger s (append event_id payload) l = append-Ledger s event_id payload l
  WorkerStep-Ledger s (claim before after at) l =
      let rows = pending (locked_by (before ++ after)) s.db in
      let held_before = held_at s before after idle at in
      let free = times-pending i (before ++ after) s.db (omega (arith, held_before, l.owned)) in
      record {
        fresh = l.fresh;
        once = l.once;
        kept = l.kept;
        owned = omega (arith, free, times_held-split i before after (publishing [] rows));
        balanced = omega (
          arith,
          l.balanced,
          sent_at s before after idle at,
          times_sent-split i before after (publishing [] rows),
        );
      }
  WorkerStep-Ledger s (publish before after sent left r at) l = record {
    fresh = l.fresh;
    once = l.once;
    kept = l.kept;
    owned = omega (
      arith,
      l.owned,
      held_at s before after (publishing sent (r ∷ left)) at,
      times_held-split i before after (publishing (sent ++ r ∷ []) left),
      times-append i sent (r ∷ left),
      times-append i (sent ++ r ∷ []) left,
      times-append i sent (r ∷ []),
      times-append i (r ∷ []) left,
    );
    balanced = omega (
      arith,
      l.balanced,
      sent_at s before after (publishing sent (r ∷ left)) at,
      times_sent-split i before after (publishing (sent ++ r ∷ []) left),
      times-append i s.published (r ∷ []),
      times-append i sent (r ∷ []),
    );
  }
  WorkerStep-Ledger s (commit before after sent left at) l =
      let held_before = held_at s before after (publishing sent left) at in
      let parts = times-append i sent left in
      let deleted =
        times-delete_ids i sent s.db (omega (arith, held_before, parts, l.owned))
          (omega (arith, l.kept, l.once)) in
      record {
        fresh = l.fresh;
        once = l.once;
        kept = omega (arith, deleted, l.kept);
        owned =
            omega
              (arith, deleted, held_before, parts, l.owned, times_held-split i before after idle);
        balanced = omega (
          arith,
          deleted,
          l.balanced,
          sent_at s before after (publishing sent left) at,
          times_sent-split i before after idle,
        );
      }
  WorkerStep-Ledger s (abort before after sent left at) l = record {
    fresh = l.fresh;
    once = l.once;
    kept = l.kept;
    owned = omega (
      arith,
      l.owned,
      held_at s before after (publishing sent left) at,
      times_held-split i before after idle,
    );
    balanced = omega (
      arith,
      l.balanced,
      sent_at s before after (publishing sent left) at,
      times_sent-split i before after idle,
      times-append i s.rolled_back sent,
    );
  }

WorkerSteps-Ledger : (i : ℕ) {s t : Shared} → WorkerSteps s t → Ledger i s → Ledger i t
WorkerSteps-Ledger i none_yet l = l
WorkerSteps-Ledger i (then_step {t = t} steps step) l =
    WorkerStep-Ledger i t step (WorkerSteps-Ledger i steps l)

WorkerStep-bus :
    (s : Shared) {t : Shared} (bus : List Json)
    → WorkerStep s t
    → s.bus ≡ bus ++ payloads s.published
    → t.bus ≡ bus ++ payloads t.published
WorkerStep-bus s bus (append event_id payload) h = h
WorkerStep-bus s bus (claim before after at) h = h
WorkerStep-bus s bus (publish before after sent left r at) h =
    ap (λ b. b ++ r.payload ∷ []) h
    ∙ append_assoc bus (payloads s.published) (r.payload ∷ [])
    ∙ ap (λ b. bus ++ b) (sym (map-append (λ (x : OutboxRow). x.payload) s.published (r ∷ [])))
WorkerStep-bus s bus (commit before after sent left at) h = h
WorkerStep-bus s bus (abort before after sent left at) h = h

WorkerSteps-bus :
    (n : ℕ) (db : Db) (bus : List Json) {t : Shared}
    → WorkerSteps (at_start n db bus) t
    → t.bus ≡ bus ++ payloads t.published
WorkerSteps-bus n db bus none_yet = sym (append-nil bus)
WorkerSteps-bus n db bus (then_step {t = t} steps step) =
    WorkerStep-bus t bus step (WorkerSteps-bus n db bus steps)

-- However the actions of any number of workers and of appends are interleaved, and whichever
-- transactions are rolled back, an entry is never held by two workers, its message is published
-- at most once more than it was rolled back after a publication, and an entry that was written
-- stands in the outbox or was published. The channel has the published messages and no others.
pub WorkerSteps-Accounted :
    (n : ℕ) (db : Db) (bus : List Json) (t : Shared) (i : ℕ)
    → WorkerSteps (at_start n db bus) t
    → (times_held i t.workers ≤ 1)
      × (times i t.published ≤ times i t.rolled_back + 1)
      × (times i t.written ≤ times i t.db.outbox + times i t.published)
      × (t.bus ≡ bus ++ payloads t.published)
WorkerSteps-Accounted n db bus t i steps =
    let l = WorkerSteps-Ledger i steps (at_start-Ledger i n db bus) in
    (
      omega (arith, l.owned, l.kept, l.once),
      omega (arith, l.balanced, sent_le_held i t.workers, l.owned, l.once),
      omega (arith, l.balanced),
      WorkerSteps-bus n db bus steps,
    )
