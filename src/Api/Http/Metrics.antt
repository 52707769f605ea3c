-- ===== src/Api/Http/Metrics.antt =====
-- api/handler.go: a request through the whole handler, the counters of its middleware, the routes, the
-- rate limiter and the handlers behind it. gqlgen, the playground and promhttp are parameters, by the
-- calls of WriteHeader that they make. The status label is strconv.Itoa of the status, here the number.
pub mod Answering
pub mod Counting
use holdex_backend_cqrs.Prelude.{
  ℕ, suc, ◌+◌, ◌-◌, String, Bool, true, false, ◌&&◌, Option, none, some, List, [], ◌∷◌, ◌++◌,
  str_eq, ◌==◌, if◌then◌else◌,
}
use holdex_backend_cqrs.Api.Limiting.{Request, Network, client_ip, LimiterEntry, Ips, serve}
use holdex_backend_cqrs.Api.Http.{
  Endpoint, playground, graphql_query, metrics, healthz, route, normalize_path, counted_status,
  check_health,
}

-- A time series of http_requests_total, by its labels.
pub record Series : Type 0 where
  pub path : String
  pub method : String
  pub status : ℕ

abbrev pub series_eq : Series → Series → Bool
series_eq s t = str_eq s.path t.path && (str_eq s.method t.method && s.status == t.status)

-- An observation of http_request_duration_seconds.
pub record Observation : Type 0 where
  pub path : String
  pub method : String
  pub duration : ℕ

abbrev pub Counters : Type 0
Counters = List (Series × ℕ)

-- WithLabelValues(...).Inc()
unfoldable pub inc : Series → Counters → Counters
inc s [] = (s, 1) ∷ []
inc s (e ∷ m) = let rest = inc s m in if series_eq e.0 s then (e.0, suc e.1) ∷ m else e ∷ rest

abbrev pub value : Series → Counters → ℕ
value s [] = 0
value s (e ∷ m) = let rest = value s m in if series_eq e.0 s then e.1 else rest

pub record HttpRequest : Type 0 where
  pub path : String
  pub method : String
  pub origin : Request
  -- when it arrives, and when it is answered
  pub arrives : ℕ
  pub answered : ℕ

-- What the handlers of other packages write, and what the pings of the health check find.
pub record Handlers : Type 0 where
  pub serve_playground : HttpRequest → List ℕ
  pub serve_graphql : HttpRequest → List ℕ
  pub serve_metrics : HttpRequest → List ℕ
  pub postgres_up : HttpRequest → Bool
  pub redis_up : HttpRequest → Bool

pub record HttpState (L : Type 0) : Type 0 where
  pub ips : Ips L
  pub requests_total : Counters
  pub durations : List Observation

-- The labels under which an answered request is counted.
abbrev pub series_of : HttpRequest → List ℕ → Series
series_of r codes = record {
  path = normalize_path r.path;
  method = r.method;
  status = counted_status codes;
}

module _ {L : Type 0} (new_limiter : L) (allow : L → ℕ → Bool × L) (net : Network)
    (trust_proxy : Bool) (handlers : Handlers) where
  -- RateLimitMiddleware around a handler: the codes written, and the limiters after it.
  unfoldable pub limited : (HttpRequest → List ℕ) → HttpRequest → Ips L → List ℕ × Ips L
  limited handler r ips =
      let (passes, ips') =
        serve new_limiter allow (client_ip net trust_proxy r.origin) r.arrives ips in
      (if passes then handler r else 429 ∷ [], ips')

  unfoldable pub dispatch_to : Endpoint → HttpRequest → Ips L → List ℕ × Ips L
  unfolding limited
  dispatch_to playground r ips = limited handlers.serve_playground r ips
  dispatch_to graphql_query r ips = limited handlers.serve_graphql r ips
  dispatch_to metrics r ips = (handlers.serve_metrics r, ips)
  dispatch_to healthz r ips =
      ((check_health (handlers.postgres_up r) (handlers.redis_up r)).0 ∷ [], ips)

  -- PrometheusMiddleware around the mux.
  unfoldable pub handle_request : HttpRequest → HttpState L → List ℕ × HttpState L
  unfolding dispatch_to inc
  handle_request r s =
      let (codes, ips') = dispatch_to (route r.path) r s.ips in
      (
        codes,
        record {
          ips = ips';
          requests_total = inc (series_of r codes) s.requests_total;
          durations =
              s.durations
              ++ record {
                path = normalize_path r.path;
                method = r.method;
                duration = r.answered - r.arrives;
              }
                ∷ [];
        },
      )

  -- The requests one after the other, and the codes that each was answered with.
  unfoldable pub handle_requests :
      List HttpRequest → HttpState L → List (HttpRequest × List ℕ) × HttpState L
  handle_requests [] s = ([], s)
  handle_requests (r ∷ rs) s =
      let (codes, s') = handle_request r s in
      let (answers, s'') = handle_requests rs s' in ((r, codes) ∷ answers, s'')
