-- ===== src/Examples/Limiting.antt =====
-- The theorems on the rate limiter and the metrics at a concrete token bucket: two requests for each address.
use holdex_backend_cqrs.Prelude.{
  ℕ, zero, suc, String, ◌*◌, ◌^◌, ◌≡◌, refl, Bool, true, false, none, List, [], ◌∷◌, select,
}
use holdex_backend_cqrs.Api.Limiting.{Ips, Request, Network, client_ip, get_limiter, serve, sweep}
use holdex_backend_cqrs.Api.Http.{route}
use holdex_backend_cqrs.Api.Http.Metrics.{
  HttpRequest, Handlers, HttpState, inc, limited, dispatch_to, handle_request, handle_requests,
}
use holdex_backend_cqrs.Api.Limiting.Isolation.{
  Step, request, tick, answers, concerns, answers-select,
}

abbrev tokens : ℕ → ℕ → Bool × ℕ
tokens zero now = (false, zero)
tokens (suc n) now = (true, n)

abbrev network : Network
network = record { last_part = λ s. s; split_host_port = λ s. none }

abbrev from_first : Request
from_first = record { forwarded_for = ""; remote_addr = "10.0.0.1" }

abbrev from_second : Request
from_second = record { forwarded_for = "10.0.0.1"; remote_addr = "10.0.0.2" }

abbrev empty_ips : Ips ℕ
empty_ips ip = none

abbrev traffic : List Step
traffic =
    request from_first 1
    ∷ request from_second 2
    ∷ request from_first 3
    ∷ request from_first 4
    ∷ tick (700 * 10 ^ 9)
    ∷ request from_first (700 * 10 ^ 9)
    ∷ []

first_answers :
    answers 2 tokens network false "10.0.0.1" traffic empty_ips ≡ true ∷ true ∷ false ∷ true ∷ []
unfolding client_ip get_limiter serve sweep
first_answers = refl

answers-select_example :
    answers 2 tokens network false "10.0.0.1" traffic empty_ips
    ≡ answers 2 tokens network false "10.0.0.1"
        (select (concerns 2 tokens network false "10.0.0.1") traffic)
        empty_ips
answers-select_example =
    answers-select 2 tokens network false "10.0.0.1" traffic empty_ips empty_ips refl

abbrev answering : Handlers
answering = record {
  serve_playground = λ r. 200 ∷ [];
  serve_graphql = λ r. [];
  serve_metrics = λ r. 200 ∷ [];
  postgres_up = λ r. true;
  redis_up = λ r. false;
}

abbrev asked : String → ℕ → HttpRequest
asked path at = record {
  path = path;
  method = "GET";
  origin = from_first;
  arrives = at;
  answered = suc at;
}

abbrev no_metrics : HttpState ℕ
no_metrics = record { ips = empty_ips; requests_total = []; durations = [] }

-- The third request of an address in a second is refused.
abbrev after_two : HttpState ℕ
after_two =
    (handle_requests 2 tokens network false answering (asked "/v1/query" 1 ∷ asked "/" 2 ∷ [])
      no_metrics).1

refused_third :
    (handle_request 2 tokens network false answering (asked "/v1/query" 3) after_two).0 ≡ 429 ∷ []
unfolding handle_request handle_requests dispatch_to limited route serve get_limiter client_ip inc
refused_third = refl
