-- ===== src/Api/Http.antt =====
-- api/handler.go: the routes, the health check, and the labels of the metrics. http.ServeMux sends a
-- path to the pattern that is equal to it, and to `/` if there is none.
pub mod Labels
pub mod Metrics
pub mod Tracing
use text.Mathlib.Text.{starts_with}
use holdex_backend_cqrs.Prelude.{
  ℕ, String, ◌≡◌, refl, Bool, true, false, ◌||◌, ◌⊎◌, inl, inr, Bool-cases, List, [], ◌∷◌, str_eq,
  eq_iff, if◌then◌else◌, arith, subst, exists,
}

pub data Endpoint : Type 0 where
  playground graphql_query metrics healthz : Endpoint

unfoldable pub route : String → Endpoint
route path =
    if str_eq path "/v1/playground"
    then playground
    else if str_eq path "/v1/query"
    then graphql_query
    else if str_eq path "/metrics"
    then metrics
    else if str_eq path "/query"
    then graphql_query
    else if str_eq path "/healthz"
    then healthz
    else playground

-- The path that a request is counted under.
unfoldable pub normalize_path : String → String
normalize_path path =
    if starts_with path "/v1/query" || starts_with path "/query"
    then "/v1/query"
    else if starts_with path "/v1/playground" || str_eq path "/"
    then "/v1/playground"
    else if str_eq path "/metrics"
    then "/metrics"
    else if str_eq path "/healthz"
    then "/healthz"
    else "other"

-- The status that is counted: that of the last call of WriteHeader, and 200 without one.
abbrev pub recorded_status : ℕ → List ℕ → ℕ
recorded_status status [] = status
recorded_status status (code ∷ codes) = recorded_status code codes

unfoldable pub counted_status : List ℕ → ℕ
counted_status codes = recorded_status 200 codes

-- The health check: a ping of PostgreSQL, and if it succeeds one of Redis.
unfoldable pub check_health : Bool → Bool → ℕ × String
check_health false redis = (503, "Service Unavailable\n")
check_health true false = (503, "Service Unavailable\n")
check_health true true = (200, "OK")
