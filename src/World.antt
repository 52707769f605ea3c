-- ===== src/World.antt =====
-- What the operations act on: the database, the Redis channel, and the faults to come. Each call of
-- a service may fail, and the world says which ones do: `attempt` takes the next entry of `faults`,
-- and after the last one nothing fails.
pub mod Bind
pub mod Frames
use holdex_backend_cqrs.Prelude.{
  ℕ, String, Bool, true, false, Option, none, some, List, [], ◌∷◌, if◌then◌else◌,
}
use holdex_backend_cqrs.Json.{Json}
use holdex_backend_cqrs.Result.{Error, Result, ok, err}
use holdex_backend_cqrs.Tables.{Db}

-- A document in Redis, until its time to live is over.
pub record CacheEntry : Type 0 where
  pub document : Json
  pub expires_at : ℕ

pub record World : Type 0 where
  pub db : Db
  -- the messages published on the channel `holdex_events`, the oldest first
  pub bus : List Json
  -- the keys of the cache, with what is stored at them
  pub cache : List (String × CacheEntry)
  pub faults : List Bool

abbrev pub Exec : Type 0 → Type 0
Exec A = World → Result A × World

module _ {A B : Type 0} where
  abbrev pub continue : (A → Exec B) → Result A → Exec B
  continue f (ok a) w = f a w
  continue f (err e) w = (err e, w)

  infixl 5 ◌>>=◌
  abbrev pub ◌>>=◌ : Exec A → (A → Exec B) → Exec B
  ◌>>=◌ m f w = let (r, w') = m w in continue f r w'

module _ {B : Type 0} where
  infixl 5 ◌>>◌
  abbrev pub ◌>>◌ : Exec (Unit {0}) → Exec B → Exec B
  m >> n = m >>= λ _. n

module _ {A : Type 0} where
  abbrev pub pure : A → Exec A
  pure a w = (ok a, w)

  abbrev pub raise : Error → Exec A
  raise e w = (err e, w)

  abbrev pub gets : (Db → A) → Exec A
  gets f w = (ok (f w.db), w)

  abbrev pub lift : Result A → Exec A
  lift r w = (r, w)

  abbrev pub from_option : Error → Option A → Exec A
  from_option e none = raise e
  from_option e (some a) = pure a

abbrev pub modify : (Db → Db) → Exec (Unit {0})
modify f w = (ok tt, record w { db = f w.db })

abbrev pub require : Bool → Error → Exec (Unit {0})
require true e = pure tt
require false e = raise e

-- The outcome of a call, and the faults after it.
abbrev pub fault? : List Bool → Bool
fault? [] = false
fault? (b ∷ bs) = b

abbrev pub later : List Bool → List Bool
later [] = []
later (b ∷ bs) = bs

abbrev pub attempt : Error → Exec (Unit {0})
attempt e w = (if fault? w.faults then err e else ok tt, record w { faults = later w.faults })

-- A rolled back transaction leaves the tables as they were. Sequences are not rolled back.
abbrev pub rollback : Db → Db → Db
rollback before after = record before {
  next_event_id = after.next_event_id;
  next_outbox_id = after.next_outbox_id;
  next_history_id = after.next_history_id;
}

module _ {A : Type 0} where
  abbrev settle : Db → Result A × World → Result A × World
  settle before (ok a, w) = (ok a, w)
  settle before (err e, w) = (err e, record w { db = rollback before w.db })

  -- pool.Begin with the deferred tx.Rollback: the body ends in a commit, or in an error.
  unfoldable pub transaction : Exec A → Exec A
  transaction body w = settle w.db (body w)
