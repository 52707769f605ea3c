-- ===== src/Api/Http/Tracing.antt =====
-- api/handler.go: the middleware that puts a span around each HTTP request. Contexts, headers and the
-- propagator of OpenTelemetry are parameters.
use Prim.Native.String.{◌++◌ as concat}
use holdex_backend_cqrs.Prelude.{ℕ, String, Bool, List, [], ◌∷◌}
use holdex_backend_cqrs.Api.Limiting.{Network}
use holdex_backend_cqrs.Api.Http.Metrics.{HttpRequest, HttpState, Handlers, handle_request}
use holdex_backend_cqrs.Api.Grpc.Tracing.{SpanAction, started, ended}

-- propagation.TraceContext on the headers of HTTP, and the context of a span that was started.
pub record Propagator (C H : Type 0) : Type 0 where
  pub extract : C → H → C
  pub inject : C → H → H
  pub with_span : C → String → C

abbrev pub span_name : HttpRequest → String
span_name r = concat r.method (concat " " r.path)

module _ {C H : Type 0} (propagator : Propagator C H) where
  abbrev pub http_span_context : C → H → HttpRequest → C
  http_span_context ctx headers r =
      propagator.with_span (propagator.extract ctx headers) (span_name r)

module _ {C H S : Type 0} (propagator : Propagator C H) where
  -- OTelTracingMiddleware around a handler: what the handler does in the context of the span, the
  -- headers of the reply, and the span.
  abbrev pub traced_http :
      (C → HttpRequest → S → List ℕ × S)
      → C
      → H
      → H
      → HttpRequest
      → S
      → (List ℕ × S) × H × List SpanAction
  traced_http handler ctx headers reply_headers r s =
      let ctx' = http_span_context propagator ctx headers r in
      (handler ctx' r s, propagator.inject ctx' reply_headers, started (span_name r) ∷ ended ∷ [])

module _ {C H L : Type 0} (propagator : Propagator C H) (new_limiter : L) (allow : L → ℕ → Bool × L)
    (net : Network) (trust_proxy : Bool) (handlers : Handlers) where
  -- The handler that NewHTTPHandler returns.
  abbrev pub http_handler :
      C → H → H → HttpRequest → HttpState L → (List ℕ × HttpState L) × H × List SpanAction
  http_handler =
      traced_http propagator (λ ctx. handle_request new_limiter allow net trust_proxy handlers)
