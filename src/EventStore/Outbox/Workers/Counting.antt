-- ===== src/EventStore/Outbox/Workers/Counting.antt =====
-- How often rows of an id occur in lists of rows, and in what workers hold.
use holdex_backend_cqrs.Prelude.{
  ℕ, zero, suc, ◌+◌, ◌≤◌, ◌≡◌, refl, ap, Bool, true, false, not, inl, inr, Bool-cases, List, [],
  ◌∷◌, ◌++◌, arith, ◌==◌, ==_iff, if◌then◌else◌, exists, select, take, order_by, insert_by,
}
use holdex_backend_cqrs.Tables.{OutboxRow, Db}
use holdex_backend_cqrs.EventStore.Outbox.{pending, delete_ids}
use holdex_backend_cqrs.EventStore.Outbox.Batch.{ids}
use holdex_backend_cqrs.EventStore.Outbox.Workers.{Worker, idle, publishing, held, locked_by}

-- The number of rows with an id.
abbrev pub times : ℕ → List OutboxRow → ℕ
times i [] = 0
times i (r ∷ rs) = let rest = times i rs in if r.id == i then suc rest else rest

-- The number of rows with an id that workers hold, and that they have published of these.
abbrev pub times_held : ℕ → List Worker → ℕ
times_held i [] = 0
times_held i (p ∷ ps) = times i (held p) + times_held i ps

abbrev pub sent_by : Worker → List OutboxRow
sent_by idle = []
sent_by (publishing sent left) = sent

abbrev pub times_sent : ℕ → List Worker → ℕ
times_sent i [] = 0
times_sent i (p ∷ ps) = times i (sent_by p) + times_sent i ps

module _ (i : ℕ) where
  pub times-append : (xs ys : List OutboxRow) → times i (xs ++ ys) ≡ times i xs + times i ys
  times-append [] ys = omega arith
  times-append (x ∷ xs) ys = ground (arith, times-append xs ys)

  pub times_held-split :
      (before after : List Worker) (p : Worker)
      → times_held i (before ++ p ∷ after) ≡ times i (held p) + times_held i (before ++ after)
  times_held-split [] after p = refl
  times_held-split (b ∷ before) after p = omega (arith, times_held-split before after p)

  pub times_sent-split :
      (before after : List Worker) (p : Worker)
      → times_sent i (before ++ p ∷ after) ≡ times i (sent_by p) + times_sent i (before ++ after)
  times_sent-split [] after p = refl
  times_sent-split (b ∷ before) after p = omega (arith, times_sent-split before after p)

  -- The published rows are among the held ones.
  pub sent_le_held : (ps : List Worker) → times_sent i ps ≤ times_held i ps
  sent_le_held [] = omega arith
  sent_le_held (idle ∷ ps) = omega (arith, sent_le_held ps)
  sent_le_held (publishing sent left ∷ ps) = omega (arith, sent_le_held ps, times-append sent left)

  times-take : (n : ℕ) (rs : List OutboxRow) → times i (take n rs) ≤ times i rs
  times-take zero rs = omega arith
  times-take (suc n) [] = omega arith
  times-take (suc n) (r ∷ rs) = ground (arith, times-take n rs)

  -- A selection by the id keeps all rows of an id, or none.
  times-select :
      (p : ℕ → Bool) (rs : List OutboxRow)
      → times i (select (λ (r : OutboxRow). p r.id) rs) ≡ (if p i then times i rs else 0)
  times-select p [] = ground arith
  times-select p (r ∷ rs) = elim (Bool-cases (r.id == i)) [
    | inl y ↦
        let same : r.id ≡ i = (==_iff r.id i).0 y in ground (arith, times-select p rs, ap p same)
    | inr n ↦ ground (arith, times-select p rs)
  ]

  times-insert_by :
      (r : OutboxRow) (rs : List OutboxRow)
      → times i (insert_by (λ (s : OutboxRow). s.id) r rs) ≡ times i (r ∷ rs)
  times-insert_by r [] = refl
  times-insert_by r (s ∷ rs) = ground (arith, times-insert_by r rs)

  times-order_by :
      (rs : List OutboxRow) → times i (order_by (λ (s : OutboxRow). s.id) rs) ≡ times i rs
  times-order_by [] = refl
  times-order_by (r ∷ rs) =
      ground (arith, times-insert_by r (order_by (λ (s : OutboxRow). s.id) rs), times-order_by rs)

  times-exists :
      (rs : List OutboxRow) → exists (λ (r : OutboxRow). r.id == i) rs ≡ false → times i rs ≡ 0
  times-exists [] h = refl
  times-exists (r ∷ rs) h = elim (Bool-cases (r.id == i)) [
    | inl y ↦ absurd (ground arith)
    | inr n ↦ rw n (times-exists rs (rw n at h))
  ]

  -- What is not locked is not held.
  times_held-locked_by : (ps : List Worker) → locked_by ps i ≡ false → times_held i ps ≡ 0
  times_held-locked_by [] h = refl
  times_held-locked_by (p ∷ ps) h =
      elim (Bool-cases (exists (λ (r : OutboxRow). r.id == i) (held p))) [
        | inl y ↦ absurd (ground arith)
        | inr n ↦ omega (arith, times-exists (held p) n, times_held-locked_by ps (rw n at h))
      ]

  -- A claim takes no row that others hold, and no more rows than there are.
  pub times-pending :
      (ps : List Worker) (db : Db)
      → times_held i ps ≤ times i db.outbox
      → times i (pending (locked_by ps) db) + times_held i ps ≤ times i db.outbox
  times-pending ps db h =
      let sorted = order_by (λ (r : OutboxRow). r.id) db.outbox in
      let free = λ (j : ℕ). not (locked_by ps j) in
      let taken = times-take 100 (select (λ (r : OutboxRow). free r.id) sorted) in
      let selected = times-select free sorted in
      let counted = times-order_by db.outbox in
      elim (Bool-cases (locked_by ps i)) [
        | inl y ↦ ground (arith, taken, selected, counted)
        | inr n ↦ ground (arith, taken, selected, counted, times_held-locked_by ps n)
      ]

  exists-ids :
      (rs : List OutboxRow)
      → exists (λ j. j == i) (ids rs) ≡ exists (λ (r : OutboxRow). r.id == i) rs
  exists-ids [] = refl
  exists-ids (r ∷ rs) = rw (exists-ids rs) refl

  exists-times :
      (rs : List OutboxRow)
      → exists (λ (r : OutboxRow). r.id == i) rs ≡ true
      → suc zero ≤ times i rs
  exists-times [] h = absurd (ground arith)
  exists-times (r ∷ rs) h = elim (Bool-cases (r.id == i)) [
    | inl y ↦ ground arith
    | inr n ↦ rw n (exists-times rs (rw n at h))
  ]

  -- Where each id stands once in the outbox, a deletion of rows of it takes away each one once.
  pub times-delete_ids :
      (sent : List OutboxRow) (db : Db)
      → times i sent ≤ times i db.outbox
      → times i db.outbox ≤ 1
      → times i (delete_ids (ids sent) db).outbox + times i sent ≡ times i db.outbox
  times-delete_ids sent db h unique =
      let kept = λ (j : ℕ). not (exists (λ k. k == j) (ids sent)) in
      let selected = times-select kept db.outbox in
      elim (Bool-cases (exists (λ (r : OutboxRow). r.id == i) sent)) [
        | inl y ↦ ground (arith, selected, exists-ids sent, exists-times sent y)
        | inr n ↦ ground (arith, selected, exists-ids sent, times-exists sent n)
      ]
