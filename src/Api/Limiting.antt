-- ===== src/Api/Limiting.antt =====
-- api/handler.go: the rate limiter by address, its sweeper, and the middleware that asks it. Each
-- request and each sweep is one step, since the maps are read and written under the mutex. The token
-- bucket of golang.org/x/time/rate and the functions of net and strings are parameters. Times are in
-- nanoseconds.
pub mod Isolation
use holdex_backend_cqrs.Prelude.{
  ℕ, ◌+◌, ◌*◌, ◌^◌, String, Bool, true, false, not, Option, none, some, List, [], ◌∷◌, str_eq, ltb,
  if◌then◌else◌,
}

pub record LimiterEntry (L : Type 0) : Type 0 where
  pub limiter : L
  pub last_seen : ℕ

-- `ips`, a map from addresses.
abbrev pub Ips : Type 0 → Type 0
Ips L = String → Option (LimiterEntry L)

pub record Request : Type 0 where
  -- the header X-Forwarded-For, empty if it is not set
  pub forwarded_for : String
  pub remote_addr : String

pub record Network : Type 0 where
  -- the trimmed last part between commas
  pub last_part : String → String
  pub split_host_port : String → Option String

abbrev pub second : ℕ
second = 10 ^ 9

abbrev host_of : Network → String → String
host_of net addr = elim (net.split_host_port addr) [ none ↦ addr | some host ↦ host ]

-- The address that a request counts for.
unfoldable pub client_ip : Network → Bool → Request → String
client_ip net trust_proxy r =
    let ip =
      if trust_proxy
      then (if str_eq r.forwarded_for "" then r.forwarded_for else net.last_part r.forwarded_for)
      else "" in
    if str_eq ip "" then host_of net r.remote_addr else ip

abbrev pub max_age : ℕ
max_age = 600 * second

module _ {L : Type 0} where
  abbrev pub set_entry : String → LimiterEntry L → Ips L → Ips L
  set_entry ip entry ips other = if str_eq ip other then some entry else ips other

  abbrev pub keep_fresh : ℕ → Option (LimiterEntry L) → Option (LimiterEntry L)
  keep_fresh now none = none
  keep_fresh now (some entry) = if ltb (entry.last_seen + max_age) now then none else some entry

  -- One tick of `startSweeper`.
  unfoldable pub sweep : ℕ → Ips L → Ips L
  sweep now ips ip = keep_fresh now (ips ip)

  -- The entry that `GetLimiter` finds or makes, by what the map holds.
  unfoldable pub get_limiter : L → Option (LimiterEntry L) → ℕ → LimiterEntry L
  get_limiter new_limiter none now = record { limiter = new_limiter; last_seen = now }
  get_limiter new_limiter (some entry) now =
      if ltb (entry.last_seen + second) now then record entry { last_seen = now } else entry

  -- GetLimiter and Allow for one address: whether the request may pass.
  unfoldable pub serve : L → (L → ℕ → Bool × L) → String → ℕ → Ips L → Bool × Ips L
  unfolding get_limiter
  serve new_limiter allow ip now ips =
      let entry = get_limiter new_limiter (ips ip) now in
      let (passes, limiter) = allow entry.limiter now in
      (passes, set_entry ip (record entry { limiter = limiter }) ips)
