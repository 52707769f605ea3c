-- ===== src/Domain.antt =====
-- internal/domain/event.go and internal/domain/aggregate.go: what every event carries, and the
-- bookkeeping that every aggregate embeds. A pointer method returns the new record.
-- `time.Time` is its nanoseconds since 1970, `time.Now()` an argument; `[]byte` payloads are the
-- JSON documents of Json.antt, and a version is a natural number (`NewMarketAggregate` starts at 0
-- and `HandleCommand` adds 1).
pub mod Market
use holdex_backend_cqrs.Prelude.{ℕ, ◌+◌, String, List, [], ◌∷◌, ◌++◌}
use holdex_backend_cqrs.Json.{Json}

pub record BaseEvent : Type 0 where
  pub type : String
  pub agg_id : String
  pub agg_type : String
  pub vers : ℕ
  pub time : ℕ
  pub payload : Json

unfoldable pub new_base_event : String → String → String → ℕ → Json → ℕ → BaseEvent
new_base_event agg_id agg_type event_type version payload now = record {
  type = event_type;
  agg_id = agg_id;
  agg_type = agg_type;
  vers = version;
  time = now;
  payload = payload;
}

-- `E` is the interface type `domain.Event`, whose values the market package defines.
pub record BaseAggregateRoot (E : Type 0) : Type 0 where
  pub id_str : String
  pub type_str : String
  pub vers : ℕ
  pub uncommitted_events : List E

module _ {E : Type 0} where
  unfoldable pub increment_version : BaseAggregateRoot E → BaseAggregateRoot E
  increment_version a = record a { vers = a.vers + 1 }

  unfoldable pub get_uncommitted_events : BaseAggregateRoot E → List E
  get_uncommitted_events a = a.uncommitted_events

  unfoldable pub clear_uncommitted_events : BaseAggregateRoot E → BaseAggregateRoot E
  clear_uncommitted_events a = record a { uncommitted_events = [] }

  unfoldable pub raise_event : E → BaseAggregateRoot E → BaseAggregateRoot E
  raise_event event a = record a { uncommitted_events = a.uncommitted_events ++ event ∷ [] }
