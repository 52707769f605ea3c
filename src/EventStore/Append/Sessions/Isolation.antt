-- ===== src/EventStore/Append/Sessions/Isolation.antt =====
-- What the advisory lock of AppendEvents gives: appends to one aggregate do not come between each
-- other, however the sessions are interleaved.
use holdex_backend_cqrs.Prelude.{
  ℕ, ◌≡◌, ◌≢◌, refl, sym, ap, subst, ◌∙◌, String, false, none, some, List, [], ◌∷◌, ◌++◌, inl, inr,
  Bool-cases, arith, ◌==◌, ==_iff,
}
use holdex_backend_cqrs.Tables.{Columns, EventRow, OutboxRow, Db}
use holdex_backend_cqrs.EventStore.{event_row}
use holdex_backend_cqrs.EventStore.Numbering.{IsNumbered}
use holdex_backend_cqrs.EventStore.Append.Sessions.{
  AppendSession, outside, waiting, holding, writing, lock_of, Concurrent, with_session, commit_rows,
  entry_of, Action, begin, lock, check, insert, commit, draw, roll_back, Actions, none_yet,
  then_action, all_outside,
}
use holdex_backend_cqrs.EventStore.Append.Sessions.Turns.{
  IsInTurn, commit-IsNumbered, IsInTurn-commit, inserted-IsInTurn, check-IsInTurn, NextIsFree,
  IsInTurn-NextIsFree,
}

-- Two sessions that hold locks hold different keys.
abbrev Excludes : (String → ℕ) → AppendSession → AppendSession → Type 0
Excludes lock_key p q =
    (a : String) → (b : String) → lock_of p ≡ some a → lock_of q ≡ some b → lock_key a ≢ lock_key b

record Isolated (lock_key : String → ℕ) (s : Concurrent) : Type 0 where
  numbered : IsNumbered s.db.events
  turn : (i : ℕ) → IsInTurn s.db.events (s.sessions i)
  exclusive : (i j : ℕ) → (i == j ≡ false) → Excludes lock_key (s.sessions i) (s.sessions j)

module _ (f : ℕ → AppendSession) (i : ℕ) (p : AppendSession) where
  with_session-each :
      (P : AppendSession → Type 0) → P p → ((j : ℕ) → P (f j)) → (j : ℕ) → P (with_session f i p j)
  with_session-each P here others j = elim (Bool-cases (i == j)) [
    | inl y ↦ rw y here
    | inr n ↦ rw n (others j)
  ]

  -- A session changes and locks no key that another one holds.
  with_session-exclusive :
      (lock_key : String → ℕ)
      → ((j : ℕ) → (i == j ≡ false) → Excludes lock_key p (f j))
      → ((j k : ℕ) → (j == k ≡ false) → Excludes lock_key (f j) (f k))
      → (j k : ℕ) → (j == k ≡ false)
      → Excludes lock_key (with_session f i p j) (with_session f i p k)
  with_session-exclusive lock_key changed others j k apart = elim (Bool-cases (i == j)) [
    | inl y ↦ elim (Bool-cases (i == k)) [
      | inl z ↦ absurd (ground (arith, ==_iff i j, ==_iff i k, ==_iff j k))
      | inr n ↦ rw y (rw n (changed k n))
    ]
    | inr m ↦ elim (Bool-cases (i == k)) [
      | inl z ↦ rw m (rw z (λ a b is_a is_b same. changed j m b a is_b is_a (sym same)))
      | inr n ↦ rw m (rw n (others j k apart))
    ]
  ]

module _ (lock_key : String → ℕ) (p q : AppendSession) where
  Excludes-none : (other : AppendSession) → lock_of p ≡ none → Excludes lock_key p other
  Excludes-none other unlocked a b is_a = absurd (ground (arith, sym unlocked ∙ is_a))

  -- The lock of the session stays as it is.
  Excludes-same :
      (other : AppendSession)
      → lock_of p ≡ lock_of q
      → Excludes lock_key q other
      → Excludes lock_key p other
  Excludes-same other same h a b is_a = h a b (sym same ∙ is_a)

module _ (pg : Columns) (lock_key : String → ℕ) where
  -- A session goes on over the same committed rows.
  session-Isolated :
      (s : Concurrent) (i : ℕ) (p : AppendSession)
      → Isolated lock_key s
      → IsInTurn s.db.events p
      → ((j : ℕ) → (i == j ≡ false) → Excludes lock_key p (s.sessions j))
      → Isolated lock_key (record s { sessions = with_session s.sessions i p })
  session-Isolated s i p h turn excluded = record {
    numbered = h.numbered;
    turn = with_session-each s.sessions i p (IsInTurn s.db.events) turn h.turn;
    exclusive = with_session-exclusive s.sessions i p lock_key excluded h.exclusive;
  }

  turn_of :
      (s : Concurrent) (i : ℕ) {p : AppendSession}
      → Isolated lock_key s
      → s.sessions i ≡ p
      → IsInTurn s.db.events p
  turn_of s i h at = subst (λ p. IsInTurn s.db.events p) at (h.turn i)

  same_lock :
      (s : Concurrent) (i : ℕ) (p : AppendSession) {q : AppendSession}
      → Isolated lock_key s
      → s.sessions i ≡ q
      → lock_of p ≡ lock_of q
      → (j : ℕ) → (i == j ≡ false)
      → Excludes lock_key p (s.sessions j)
  same_lock s i p h at same j apart =
      Excludes-same lock_key p (s.sessions i) (s.sessions j) (same ∙ ap lock_of (sym at))
        (h.exclusive i j apart)

  commit-Isolated :
      (s : Concurrent) (i : ℕ) (agg_id : String) (rows : List EventRow) (entries : List OutboxRow)
      → s.sessions i ≡ writing agg_id [] rows entries
      → Isolated lock_key s
      → Isolated lock_key (record {
        db = commit_rows rows entries s.db;
        sessions = with_session s.sessions i outside;
      })
  commit-Isolated s i agg_id rows entries at h =
      let (owned, numbered, done) = turn_of s i h at in
      record {
        numbered = commit-IsNumbered agg_id s.db.events rows owned numbered h.numbered;
        turn = λ j. elim (Bool-cases (i == j)) [
          | inl y ↦ rw y tt
          | inr n ↦ rw n (
              IsInTurn-commit agg_id s.db.events rows (s.sessions j) owned
                (λ a is_a same.
                  same_lock s i (writing agg_id [] rows entries) h at refl j n agg_id a refl is_a
                    (ap lock_key same))
                (h.turn j))
        ];
        exclusive =
            with_session-exclusive s.sessions i outside lock_key
              (λ j apart. Excludes-none lock_key outside outside (s.sessions j) refl) h.exclusive;
      }

  Action-Isolated :
      (s : Concurrent) {t : Concurrent}
      → Action pg lock_key s t
      → Isolated lock_key s
      → Isolated lock_key t
  Action-Isolated s (begin i agg_id expected events at follow) h =
      session-Isolated s i (waiting agg_id expected events) h follow (λ j apart.
        Excludes-none lock_key (waiting agg_id expected events) outside (s.sessions j) refl)
  Action-Isolated s (lock i agg_id expected events at free) h =
      session-Isolated s i (holding agg_id expected events) h (turn_of s i h at)
        (λ j apart a b is_a is_b same. free j b is_b cc)
  Action-Isolated s (check i agg_id expected events at accepted) h =
      session-Isolated s i (writing agg_id events [] []) h
        (check-IsInTurn s.db.events agg_id expected events h.numbered accepted (turn_of s i h at))
        (same_lock s i (writing agg_id events [] []) h at refl)
  Action-Isolated s (insert i agg_id e left rows entries j at fresh serialized) h =
      let p =
        writing agg_id left (rows ++ event_row pg s.db.next_event_id e ∷ [])
          (entries ++ entry_of e j s.db ∷ []) in
      let i' =
        session-Isolated s i p h
          (inserted-IsInTurn pg s.db.events agg_id e left rows entries
            (entries ++ entry_of e j s.db ∷ []) s.db.next_event_id (turn_of s i h at))
          (same_lock s i p h at refl) in
      record { numbered = i'.numbered; turn = i'.turn; exclusive = i'.exclusive }
  Action-Isolated s (commit i agg_id rows entries at) h =
      commit-Isolated s i agg_id rows entries at h
  Action-Isolated s draw h = record {
    numbered = h.numbered;
    turn = h.turn;
    exclusive = h.exclusive;
  }
  Action-Isolated s (roll_back i) h =
      session-Isolated s i outside h tt
        (λ j apart. Excludes-none lock_key outside outside (s.sessions j) refl)

  Actions-Isolated :
      {s t : Concurrent} → Actions pg lock_key s t → Isolated lock_key s → Isolated lock_key t
  Actions-Isolated none_yet h = h
  Actions-Isolated (then_action {t = t} actions action) h =
      Action-Isolated t action (Actions-Isolated actions h)

  all_outside-Isolated : (db : Db) → IsNumbered db.events → Isolated lock_key (all_outside db)
  all_outside-Isolated db numbered = record {
    numbered = numbered;
    turn = λ i. tt;
    exclusive = λ i j apart. Excludes-none lock_key outside outside outside refl;
  }

-- However sessions of AppendEvents interleave, each with events that follow its expected version,
-- the committed events of each aggregate stay numbered 1, 2, 3, ...; and a session that has passed its
-- check never meets a version that is taken.
pub Actions-NextIsFree :
    (pg : Columns) (lock_key : String → ℕ) (db : Db) (s : Concurrent) (i : ℕ)
    → IsNumbered db.events
    → Actions pg lock_key (all_outside db) s
    → IsNumbered s.db.events × NextIsFree s.db.events (s.sessions i)
Actions-NextIsFree pg lock_key db s i numbered actions =
    let h = Actions-Isolated pg lock_key actions (all_outside-Isolated pg lock_key db numbered) in
    (h.numbered, IsInTurn-NextIsFree s.db.events (s.sessions i) (h.turn i))
