-- ===== src/EventStore/Subscription.antt =====
-- Subscribe of store.go: the events that a subscriber receives. One element of the list of
-- connections is one turn of the outer loop; a cancelled context ends the list, and the messages of
-- the last connection, early. Durations are in nanoseconds.
pub mod Delivering
use holdex_backend_cqrs.Prelude.{
  ℕ, ◌*◌, ◌^◌, String, Bool, true, Option, none, some, List, [], ◌∷◌, ◌++◌, str_eq, ltb,
  if◌then◌else◌, exists,
}
use holdex_backend_cqrs.Json.{Json}
use holdex_backend_cqrs.Domain.Market.{Event, base}
use holdex_backend_cqrs.EventStore.{deserialize_raw_json}

-- The subscription is refused, or established until the channel closes after these messages.
pub data Connection : Type 0 where
  refused : Connection
  established : List Json → Connection

abbrev pub first_backoff : ℕ
first_backoff = 100 * 10 ^ 6

abbrev pub max_backoff : ℕ
max_backoff = 5 * 10 ^ 9

-- No filter matches every event.
unfoldable pub matches : List String → Event → Bool
matches [] event = true
matches (t ∷ types) event = exists (λ et. str_eq (base event).type et) (t ∷ types)

abbrev pub deliver : List String → Option Event → List Event → List Event
deliver types none rest = rest
deliver types (some event) rest = if matches types event then event ∷ rest else rest

-- The loop over the messages of a connection.
unfoldable pub receive : List String → List Json → List Event
unfolding matches
receive types [] = []
receive types (j ∷ js) = let rest = receive types js in deliver types (deserialize_raw_json j) rest

abbrev pub next_backoff : ℕ → ℕ
next_backoff backoff =
    let doubled = backoff * 2 in if ltb max_backoff doubled then max_backoff else doubled

-- The events sent on the channel of the subscriber, and the times slept.
unfoldable pub subscribe : List String → List Connection → ℕ → List Event × List ℕ
unfolding receive
subscribe types [] backoff = ([], [])
subscribe types (refused ∷ cs) backoff =
    let (events, slept) = subscribe types cs (next_backoff backoff) in (events, backoff ∷ slept)
subscribe types (established js ∷ cs) backoff =
    let (events, slept) = subscribe types cs first_backoff in
    (receive types js ++ events, 10 ^ 9 ∷ slept)
