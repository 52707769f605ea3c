-- ===== src/EventStore/Subscription/Delivering.antt =====
-- What a subscriber receives of the messages that the outbox publishes, and how long it waits.
use mathlib.Core.List.{Memᴰ}
use holdex_backend_cqrs.Prelude.{
  ℕ, ◌≤◌, ◌≡◌, refl, sym, ap, subst, ◌∙◌, true, false, ◌⊎◌, str_eq, eq_iff, exists, Filtered,
  select-Filtered, String, some, List, [], ◌∷◌, ◌++◌, inl, inr, Bool-cases, Option-cases, arith,
  select, All, if◌then◌else◌,
}
use holdex_backend_cqrs.Json.{Json}
use holdex_backend_cqrs.Domain.Market.{
  Event, base, NewDataFetchedPayload, new_new_data_fetched_event,
}
use holdex_backend_cqrs.EventStore.{serialize_event, deserialize_raw_json}
use holdex_backend_cqrs.EventStore.Codec.{deserialize-serialize_event}
use holdex_backend_cqrs.EventStore.Subscription.{
  Connection, refused, established, first_backoff, max_backoff, matches, receive, next_backoff,
  subscribe,
}

-- Documents written for events that NewNewDataFetchedEvent has made.
abbrev pub Written : List Event → List Json → Type 0
Written [] [] = Unit
Written [] (j ∷ js) = ⊥
Written (e ∷ es) [] = ⊥
Written (e ∷ es) (j ∷ js) =
    ((coin_id : String) × (version : ℕ) × (p : NewDataFetchedPayload) × (now : ℕ)
      × (new_new_data_fetched_event coin_id version p now ≡ some e)
      × (serialize_event e ≡ some j))
    × Written es js

-- The messages of all connections, in order.
abbrev pub messages : List Connection → List Json
messages [] = []
messages (refused ∷ cs) = messages cs
messages (established js ∷ cs) = js ++ messages cs

receive-append :
    (types : List String) (js ks : List Json)
    → receive types (js ++ ks) ≡ receive types js ++ receive types ks
unfolding receive
receive-append types [] ks = refl
receive-append types (j ∷ js) ks = elim (Option-cases (deserialize_raw_json j)) [
  | inl x ↦ rw x (receive-append types js ks)
  | inr (e, x) ↦ rw x (elim (Bool-cases (matches types e)) [
    | inl y ↦ rw y (ap (λ es. e ∷ es) (receive-append types js ks))
    | inr n ↦ rw n (receive-append types js ks)
  ])
]

receive-messages :
    (types : List String) (cs : List Connection) (backoff : ℕ)
    → (subscribe types cs backoff).0 ≡ receive types (messages cs)
unfolding subscribe
receive-messages types [] backoff = refl
receive-messages types (refused ∷ cs) backoff = receive-messages types cs (next_backoff backoff)
receive-messages types (established js ∷ cs) backoff =
    ap (λ es. receive types js ++ es) (receive-messages types cs first_backoff)
    ∙ sym (receive-append types js (messages cs))

receive-Written :
    (types : List String) (es : List Event) (js : List Json)
    → Written es js
    → receive types js ≡ select (matches types) es
unfolding receive
receive-Written types [] [] h = refl
receive-Written types [] (j ∷ js) h = absurd h
receive-Written types (e ∷ es) [] h = absurd h
receive-Written types (e ∷ es) (j ∷ js) ((coin_id, version, p, now, made, written), h) =
    rw (deserialize-serialize_event coin_id version p now made written)
      (ap (λ rest. if matches types e then e ∷ rest else rest) (receive-Written types es js h))

-- If the messages of all connections together are documents of events that NewNewDataFetchedEvent
-- has made, the subscriber receives exactly those events that match its types, in their order,
-- whichever connections are refused or broken off between them.
pub subscribe-select :
    (types : List String) (cs : List Connection) (backoff : ℕ) (es : List Event)
    → Written es (messages cs)
    → (subscribe types cs backoff).0 ≡ select (matches types) es
subscribe-select types cs backoff es h =
    receive-messages types cs backoff ∙ receive-Written types es (messages cs) h

-- What a subscriber asks for: every event, if it names no types, and else the events of these types.
abbrev pub Wants : List String → Event → Type 0
Wants types e = (types ≡ []) ⊎ Memᴰ (base e).type types

exists-Mem :
    (t : String) (types : List String) → exists (λ et. str_eq t et) types ≡ true → Memᴰ t types
exists-Mem t [] h = absurd (ground arith)
exists-Mem t (u ∷ types) h = elim (Bool-cases (str_eq t u)) [
  | inl y ↦ Memᴰ.head ((eq_iff t u).0 y)
  | inr n ↦ Memᴰ.tail (exists-Mem t types (rw n at h))
]

Mem-exists :
    (t : String) (types : List String) → Memᴰ t types → exists (λ et. str_eq t et) types ≡ true
Mem-exists t [] m = elim m [ ]
Mem-exists t (u ∷ types) (Memᴰ.head e) = rw ((eq_iff t u).1 e)
Mem-exists t (u ∷ types) (Memᴰ.tail m) = ground (arith, Mem-exists t types m)

matches-Wants : (types : List String) (e : Event) → matches types e ≡ true → Wants types e
unfolding matches
matches-Wants [] e h = inl refl
matches-Wants (t ∷ types) e h = inr (exists-Mem (base e).type (t ∷ types) h)

unmatched : (types : List String) (e : Event) → matches types e ≡ false → ¬ Wants types e
unfolding matches
unmatched [] e h wants = absurd (ground arith)
unmatched (t ∷ types) e h (inl none_named) = absurd (ground arith)
unmatched (t ∷ types) e h (inr m) =
    absurd (ground (arith, Mem-exists (base e).type (t ∷ types) m, h))

-- If the messages that the connections deliver are together documents of events that
-- NewNewDataFetchedEvent has made, the subscriber receives those of these events whose type it has
-- named, or all if it has named none, in their order, and drops the others, whichever connections are
-- refused or broken off between them.
pub subscribe-Filtered :
    (types : List String) (cs : List Connection) (backoff : ℕ) (es : List Event)
    → Written es (messages cs)
    → Filtered (Wants types) es (subscribe types cs backoff).0
subscribe-Filtered types cs backoff es h =
    subst (λ received. Filtered (Wants types) es received)
      (sym (subscribe-select types cs backoff es h))
      (select-Filtered (Wants types) (matches types) (matches-Wants types) (unmatched types) es)

-- If the first backoff is between a tenth of a second and five seconds, so is every wait before a
-- new connection.
pub subscribe-waits :
    (types : List String) (cs : List Connection) (backoff : ℕ)
    → first_backoff ≤ backoff
    → backoff ≤ max_backoff
    → All (λ t. (first_backoff ≤ t) × (t ≤ max_backoff)) (subscribe types cs backoff).1
unfolding subscribe
subscribe-waits types [] backoff lo hi = tt
subscribe-waits types (refused ∷ cs) backoff lo hi =
    ((lo, hi), subscribe-waits types cs (next_backoff backoff) (ground arith) (ground arith))
subscribe-waits types (established js ∷ cs) backoff lo hi =
    ((omega arith, omega arith), subscribe-waits types cs first_backoff (omega arith) (omega arith))
