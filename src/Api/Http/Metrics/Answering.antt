-- ===== src/Api/Http/Metrics/Answering.antt =====
-- One request through the handler of api/handler.go: who answers it, and which counter goes up.
use holdex_backend_cqrs.Prelude.{
  ℕ, String, ◌≡◌, ◌≢◌, Bool, true, false, ◌⊎◌, some, List, [], ◌∷◌, last?,
}
use holdex_backend_cqrs.Api.Limiting.{Network, client_ip, Ips, serve}
use holdex_backend_cqrs.Api.Http.Metrics.{HttpRequest, Handlers}

-- The status of a reply: the last one written, and 200 if none was.
abbrev pub IsStatus : List ℕ → ℕ → Type 0
IsStatus [] status = status ≡ 200
IsStatus (code ∷ codes) status = last? (code ∷ codes) ≡ some status

-- Paths that no other handler is registered for.
abbrev pub IsPage : String → Type 0
IsPage path = (path ≢ "/v1/query") × (path ≢ "/query") × (path ≢ "/metrics") × (path ≢ "/healthz")

module _ {L : Type 0} (new_limiter : L) (allow : L → ℕ → Bool × L) (net : Network)
    (trust_proxy : Bool) (handlers : Handlers) where
  -- What the rate limiter says to the request, by the address it comes from, and its state after it.
  abbrev pub Limiter : HttpRequest → Ips L → Bool → Ips L → Type 0
  Limiter r ips passes ips' =
      serve new_limiter allow (client_ip net trust_proxy r.origin) r.arrives ips ≡ (passes, ips')

  -- How a request is answered, by its path: the statuses written, and the limiters after it.
  pub data Answered (r : HttpRequest) (ips : Ips L) : List ℕ → Ips L → Type 0 where
    by_graphql :
        {ips' : Ips L}
        → (r.path ≡ "/v1/query") ⊎ (r.path ≡ "/query")
        → Limiter r ips true ips'
        → Answered r ips (handlers.serve_graphql r) ips'
    by_playground :
        {ips' : Ips L}
        → IsPage r.path
        → Limiter r ips true ips'
        → Answered r ips (handlers.serve_playground r) ips'
    too_many :
        {ips' : Ips L}
        → r.path ≢ "/metrics"
        → r.path ≢ "/healthz"
        → Limiter r ips false ips'
        → Answered r ips (429 ∷ []) ips'
    by_metrics : r.path ≡ "/metrics" → Answered r ips (handlers.serve_metrics r) ips
    healthy :
        r.path ≡ "/healthz"
        → handlers.postgres_up r ≡ true
        → handlers.redis_up r ≡ true
        → Answered r ips (200 ∷ []) ips
    unhealthy :
        r.path ≡ "/healthz"
        → (handlers.postgres_up r ≡ false) ⊎ (handlers.redis_up r ≡ false)
        → Answered r ips (503 ∷ []) ips

  AnsweredAs : HttpRequest → Ips L → List ℕ × Ips L → Type 0
  AnsweredAs r ips a = Answered r ips a.0 a.1
