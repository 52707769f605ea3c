-- ===== src/Api/Streaming.antt =====
-- What a loop that streams market updates meets: its select on the context and the channel of events.
use holdex_backend_cqrs.Prelude.{Bool, Option, none, some, List, [], ◌∷◌}
use holdex_backend_cqrs.Domain.Market.{Event, base_event, market_event, NewDataFetchedPayload}

-- A turn of the loop: the context is done, the channel is closed, or an event arrives; of an event
-- that is passed on, the flag says if the client takes it.
pub data Turn : Type 0 where
  context_done channel_closed : Turn
  received : Event → Bool → Turn

-- How a loop ends, if it ends in the turns that are looked at.
pub data Ending : Type 0 where
  finished cancelled send_failed still_running : Ending

-- `ev.(market.MarketEvent)`
abbrev pub market_payload : Event → Option NewDataFetchedPayload
market_payload (base_event b) = none
market_payload (market_event b p) = some p

module _ {A : Type 0} where
  abbrev pub cons_option : Option A → List A → List A
  cons_option none xs = xs
  cons_option (some x) xs = x ∷ xs

abbrev pub payloads : List Event → List NewDataFetchedPayload
payloads [] = []
payloads (e ∷ es) = cons_option (market_payload e) (payloads es)

-- The events that arrive before the loop's last turn.
abbrev pub arrived : List Turn → List Event
arrived [] = []
arrived (context_done ∷ ts) = []
arrived (channel_closed ∷ ts) = []
arrived (received e taken ∷ ts) = e ∷ arrived ts
