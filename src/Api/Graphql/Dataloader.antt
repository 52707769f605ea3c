-- ===== src/Api/Graphql/Dataloader.antt =====
-- api/graphql/dataloader.go: the loads of one request, batched. A load and a dispatch are steps of the
-- loader under its mutex; a channel is the number of the load that waits on it. Formatting a time is
-- a parameter, and so is what the query service answers to a batch.
pub mod Waiting
pub mod Grouping
pub mod Delivery
pub mod FromReadModel
use holdex_backend_cqrs.Prelude.{
  ℕ, zero, suc, ◌+◌, ◌*◌, ◌^◌, String, Bool, true, false, ◌&&◌, Option, none, some, List, [], ◌∷◌,
  ◌++◌, map, str_eq, ◌==◌, if◌then◌else◌, ℤ, pos, negsuc, select, exists, lookup,
}
use holdex_backend_cqrs.Result.{Error, Result, ok, err}
use holdex_backend_cqrs.Projection.Queries.{PricePoint}

abbrev pub int_eq : ℤ → ℤ → Bool
int_eq (pos a) (pos b) = a == b
int_eq (negsuc a) (negsuc b) = a == b
int_eq _ _ = false

pub record DataloaderKey : Type 0 where
  pub coin_id : String
  pub limit : ℤ

abbrev pub key_eq : DataloaderKey → DataloaderKey → Bool
key_eq j k = str_eq j.coin_id k.coin_id && int_eq j.limit k.limit

-- `PricePoint` of the schema.
pub record Point : Type 0 where
  pub price : ℕ
  pub recorded_at : String

abbrev pub Answer : Type 0
Answer = Result (List Point)

pub record Dataloader : Type 0 where
  pub cache : List (DataloaderKey × List Point)
  pub keys : List DataloaderKey
  pub listeners : List (DataloaderKey × ℕ)
  pub next_channel : ℕ
  pub wait : ℕ

unfoldable pub new_dataloader : ℤ → Dataloader
new_dataloader wait = record {
  cache = [];
  keys = [];
  listeners = [];
  next_channel = 0;
  wait = elim wait [ negsuc n ↦ 5 * 10 ^ 6 | pos n ↦ if n == 0 then 5 * 10 ^ 6 else n ];
}

abbrev pub find_cached : DataloaderKey → List (DataloaderKey × List Point) → Option (List Point)
find_cached k [] = none
find_cached k (e ∷ m) = let rest = find_cached k m in if key_eq e.0 k then some e.1 else rest

abbrev pub set_cached :
    DataloaderKey
    → List Point
    → List (DataloaderKey × List Point)
    → List (DataloaderKey × List Point)
set_cached k v [] = (k, v) ∷ []
set_cached k v (e ∷ m) =
    let rest = set_cached k v m in if key_eq e.0 k then (k, v) ∷ m else e ∷ rest

-- A load is answered at once, or waits on a channel; the first one that waits starts a dispatch.
pub data Loaded : Type 0 where
  found : List Point → Loaded
  waiting : ℕ → Bool → Loaded

abbrev pub is_empty : List DataloaderKey → Bool
is_empty [] = true
is_empty (k ∷ ks) = false

-- `Load` after its lookup in the cache, up to its select.
abbrev pub answer_or_wait : DataloaderKey → Dataloader → Option (List Point) → Loaded × Dataloader
answer_or_wait key dl (some points) = (found points, dl)
answer_or_wait key dl none = (
  waiting dl.next_channel (is_empty dl.keys),
  record dl {
    listeners = dl.listeners ++ (key, dl.next_channel) ∷ [];
    keys = dl.keys ++ key ∷ [];
    next_channel = dl.next_channel + 1;
  },
)

unfoldable pub load : String → ℤ → Dataloader → Loaded × Dataloader
load coin_id limit dl =
    let key : DataloaderKey = record { coin_id = coin_id; limit = limit } in
    answer_or_wait key dl (find_cached key dl.cache)

abbrev pub Groups : Type 0
Groups = List (ℤ × List String)

-- coinIDsByLimit[limit] = append(coinIDsByLimit[limit], coin)
abbrev pub add_coin : ℤ → String → Groups → Groups
add_coin limit coin [] = (limit, coin ∷ []) ∷ []
add_coin limit coin (g ∷ gs) =
    let rest = add_coin limit coin gs in
    if int_eq g.0 limit then (g.0, g.1 ++ coin ∷ []) ∷ gs else g ∷ rest

-- The loop over the keys, each of them once.
unfoldable pub group_keys : List DataloaderKey → List DataloaderKey → Groups → Groups
group_keys [] seen groups = groups
group_keys (k ∷ ks) seen groups =
    let rest = group_keys ks (k ∷ seen) (add_coin k.limit k.coin_id groups) in
    let skip = group_keys ks seen groups in if exists (λ j. key_eq j k) seen then skip else rest

abbrev pub cache_answer :
    DataloaderKey → Answer → List (DataloaderKey × List Point) → List (DataloaderKey × List Point)
cache_answer key (err e) cache = cache
cache_answer key (ok points) cache = set_cached key points cache

-- The sends to the listeners of one key.
abbrev pub send_to : DataloaderKey → Answer → List (DataloaderKey × ℕ) → List (ℕ × Answer)
send_to key answer [] = []
send_to key answer (l ∷ ls) =
    let rest = send_to key answer ls in if key_eq l.0 key then (l.1, answer) ∷ rest else rest

module _ (format_utc : ℕ → String) where
  abbrev pub point_of : PricePoint → Point
  point_of p = record { price = p.price; recorded_at = format_utc p.recorded_at }

  abbrev pub points_in : Option (List PricePoint) → List Point
  points_in none = []
  points_in (some points) = map point_of points

  -- The answer to the listeners of a coin, from that to the batch.
  abbrev pub answer_in : Result (List (String × List PricePoint)) → String → Answer
  answer_in (err e) coin = err e
  answer_in (ok res) coin = ok (points_in (lookup coin res))

  abbrev pub Sent : Type 0
  Sent = List (ℕ × Answer) × List (DataloaderKey × List Point)

  -- The loop over the coins of a batch: what is sent, and the cache after it.
  abbrev pub distribute :
      ℤ
      → Result (List (String × List PricePoint))
      → List String
      → List (DataloaderKey × ℕ)
      → List (DataloaderKey × List Point)
      → Sent
  distribute limit res [] listeners cache = ([], cache)
  distribute limit res (coin ∷ coins) listeners cache =
      let key : DataloaderKey = record { coin_id = coin; limit = limit } in
      let answer = answer_in res coin in
      let (sent, after) = distribute limit res coins listeners (cache_answer key answer cache) in
      (send_to key answer listeners ++ sent, after)

  -- The loop over the groups; `fetch` is GetPriceHistories with its own timeout.
  abbrev pub fetch_groups :
      (List String → ℤ → Result (List (String × List PricePoint)))
      → Groups
      → List (DataloaderKey × ℕ)
      → List (DataloaderKey × List Point)
      → Sent
  fetch_groups fetch [] listeners cache = ([], cache)
  fetch_groups fetch (g ∷ gs) listeners cache =
      let (sent, after) = distribute g.0 (fetch g.1 g.0) g.1 listeners cache in
      let (more, last) = fetch_groups fetch gs listeners after in (sent ++ more, last)

  -- `dispatch` after its sleep: the sends, and the loader. `order` is the order in which Go ranges
  -- over a map.
  unfoldable pub dispatch :
      (Groups → Groups)
      → (List String → ℤ → Result (List (String × List PricePoint)))
      → Dataloader
      → List (ℕ × Answer) × Dataloader
  unfolding group_keys
  dispatch order fetch dl =
      let (sent, cache) =
        fetch_groups fetch (order (group_keys dl.keys [] [])) dl.listeners dl.cache in
      (sent, record dl { keys = []; listeners = []; cache = cache })
