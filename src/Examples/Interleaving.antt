-- ===== src/Examples/Interleaving.antt =====
-- The theorems on interleaved sessions of AppendEvents, at one session for each of two coins.
use holdex_backend_cqrs.Prelude.{
  ℕ, ◌≡◌, ◌≢◌, refl, sym, subst, none, String, some, List, [], ◌∷◌, ◌==◌, arith, str_eq,
  if◌then◌else◌, inl, inr, Bool-cases,
}
use holdex_backend_cqrs.Json.{Json, text, timestamp, object, field, end, base64, int}
use holdex_backend_cqrs.Domain.Market.{Event, market_event, payload_of}
use holdex_backend_cqrs.Tables.{empty_db}
use holdex_backend_cqrs.EventStore.{serialize_event, event_row}
use holdex_backend_cqrs.EventStore.Numbering.{IsNumbered}
use holdex_backend_cqrs.EventStore.Append.Sessions.{
  outside, waiting, lock_of, Concurrent, with_session, begin, lock, check, insert, commit, Actions,
  none_yet, then_action, all_outside,
}
use holdex_backend_cqrs.EventStore.Append.Sessions.Turns.{NextIsFree}
use holdex_backend_cqrs.EventStore.Append.Sessions.Isolation.{Actions-NextIsFree}
use holdex_backend_cqrs.Aggregator.Processor.{command_of}
use holdex_backend_cqrs.Projection.ReadModel.{new_events}
use holdex_backend_cqrs.Examples.{exact, noon, bitcoin, document, quote, message}
use holdex_backend_cqrs.Examples.Recording.{quote-serialize}

abbrev ethereum_quote : Event
ethereum_quote =
    market_event
      (record {
        type = "NewDataFetched";
        agg_id = "ethereum";
        agg_type = "Market";
        vers = 1;
        time = noon;
        payload = document;
      })
      (payload_of (command_of bitcoin))

abbrev key : String → ℕ
key agg_id = if str_eq agg_id "bitcoin" then 0 else 1

abbrev two_quotes : List Event
two_quotes = quote 1 ∷ quote 2 ∷ []

abbrev ethereum_message : Json
ethereum_message = object (
    field "type" (text "NewDataFetched") (
      field "aggregate_id" (text "ethereum") (
        field "version" (int 1)
          (field "timestamp" (timestamp noon) (field "data" (base64 document) end)))))

ethereum-serialize : serialize_event ethereum_quote ≡ some ethereum_message
unfolding serialize_event
ethereum-serialize = refl

none_no_lock : {a : String} → none ≡ some a → ⊥
none_no_lock h = absurd (ground (arith, h))

abbrev Run : Type 0
Run = (s : Concurrent) × Actions exact key (all_outside empty_db) s

bitcoin_free :
    (j : ℕ) (other : String)
    → lock_of (with_session (λ i. outside) 0 (waiting "bitcoin" 0 two_quotes) j) ≡ some other
    → key other ≢ key "bitcoin"
bitcoin_free j other h = elim (Bool-cases (0 == j)) [
  | inl y ↦ absurd (none_no_lock (rw y at h))
  | inr n ↦ absurd (none_no_lock (rw n at h))
]

-- The session 0 takes the lock of bitcoin and passes its check.
abbrev bitcoin_checked : Run
bitcoin_checked = (
  _,
  then_action
      (then_action
        (then_action none_yet (begin 0 "bitcoin" 0 two_quotes refl (refl, refl, (refl, refl, tt))))
        (lock 0 "bitcoin" 0 two_quotes refl bitcoin_free))
      (check 0 "bitcoin" 0 two_quotes refl refl),
)

-- No other key than that of bitcoin is taken.
ethereum_free :
    (j : ℕ) (other : String)
    → lock_of
        (with_session bitcoin_checked.0.sessions 1 (waiting "ethereum" 0 (ethereum_quote ∷ [])) j)
      ≡ some other
    → key other ≢ key "ethereum"
ethereum_free j other h = elim (Bool-cases (1 == j)) [
  | inl y ↦ absurd (none_no_lock (rw y at h))
  | inr n ↦ elim (Bool-cases (0 == j)) [
    | inl y ↦
        let held : some "bitcoin" ≡ some other = simp (n, y) at h in
        let is_bitcoin : "bitcoin" ≡ other = cc in
        λ same. absurd (omega (arith, subst (λ a. key a ≡ 1) (sym is_bitcoin) same))
    | inr m ↦ absurd (none_no_lock (simp (n, m) at h))
  ]
]

-- The session 1 gets the lock of ethereum, inserts its row under the id 2, and commits before the
-- session 0, which has inserted the first of its two rows under the id 1.
abbrev ethereum_first : Run
ethereum_first = (
  _,
  then_action
      (then_action
        (then_action
          (then_action
            (then_action
              (then_action bitcoin_checked.1
                (begin 1 "ethereum" 0 (ethereum_quote ∷ []) refl (refl, refl, tt)))
              (lock 1 "ethereum" 0 (ethereum_quote ∷ []) refl ethereum_free))
            (check 1 "ethereum" 0 (ethereum_quote ∷ []) refl refl))
          (insert 0 "bitcoin" (quote 1) (quote 2 ∷ []) [] [] (message 1) refl refl
            (quote-serialize 1)))
        (insert 1 "ethereum" ethereum_quote [] [] [] ethereum_message refl refl ethereum-serialize))
      (commit 1 "ethereum" _ _ refl),
)

Actions-NextIsFree_example :
    IsNumbered ethereum_first.0.db.events
    × NextIsFree ethereum_first.0.db.events (ethereum_first.0.sessions 0)
Actions-NextIsFree_example =
    Actions-NextIsFree exact key empty_db ethereum_first.0 0 (λ agg_id. tt) ethereum_first.1

abbrev bitcoin_last : Run
bitcoin_last = (
  _,
  then_action
      (then_action ethereum_first.1
        (insert 0 "bitcoin" (quote 2) [] _ _ (message 2) refl refl (quote-serialize 2)))
      (commit 0 "bitcoin" _ _ refl),
)

-- A projector that has read the first commit, and so saved the id 2, does not find the row with the
-- id 1 when it is committed.
overtaken :
    (bitcoin_last.0.db.events
      ≡ event_row exact 2 ethereum_quote
        ∷ event_row exact 1 (quote 1)
        ∷ event_row exact 3 (quote 2)
        ∷ [])
    × (new_events 2 100 bitcoin_last.0.db ≡ event_row exact 3 (quote 2) ∷ [])
overtaken = (refl, refl)
