-- ===== src/EventStore/Outbox/Interval.antt =====
-- The adaptive polling interval of `Start` in outbox.go.
use holdex_backend_cqrs.Prelude.{ℕ, ◌≤◌, ◌<◌, none, some, List, [], ◌∷◌, Bool, All, arith}
use holdex_backend_cqrs.World.{World}
use holdex_backend_cqrs.EventStore.Outbox.{
  OutboxPublisher, Batch, publish_batch, next_interval, start, max_interval,
}

-- A wait is neither zero nor longer than the maximum.
abbrev pub IsWait : ℕ → Type 0
IsWait i = (0 < i) × (i ≤ max_interval)

next_interval-IsWait :
    (p : OutboxPublisher) (current : ℕ) (batch : Batch)
    → IsWait p.poll_interval
    → IsWait current
    → IsWait (next_interval p current batch)
unfolding next_interval
next_interval-IsWait p current (count, some e) hp hc = omega arith
next_interval-IsWait p current (count, none) hp hc = ground arith

-- If the poll interval and the first interval are positive and at most two seconds, so is every
-- interval that the publisher waits, whatever the batches return.
pub start-IsWait :
    (p : OutboxPublisher) (rounds : List (ℕ → Bool)) (current : ℕ) (w : World)
    → IsWait p.poll_interval
    → IsWait current
    → All IsWait (start p rounds current w).0
unfolding start
start-IsWait p [] current w hp hc = tt
start-IsWait p (locked ∷ rounds) current w hp hc =
    let (batch, w') = publish_batch locked w in
    let wait = next_interval-IsWait p current batch hp hc in
    (wait, start-IsWait p rounds (next_interval p current batch) w' hp wait)
