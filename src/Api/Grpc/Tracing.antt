-- ===== src/Api/Grpc/Tracing.antt =====
-- api/grpc/interceptors.go: the interceptors that put a span around each call, and the carrier of the
-- trace context. Contexts, metadata and the propagator of OpenTelemetry are parameters. A span is the
-- list of what is done to it.
use holdex_backend_cqrs.Prelude.{◌≡◌, refl, ap, String, Option, none, some, List, [], ◌∷◌, last?}
use holdex_backend_cqrs.Result.{Error, Result, ok, err}
use holdex_backend_cqrs.World.{World, Exec}

-- metadata.MD of google.golang.org/grpc.
pub record Metadata (M : Type 0) : Type 0 where
  pub new : M
  pub get : M → String → List String
  pub set : M → String → List String → M
  pub keys_of : M → List String

abbrev pub first_value : List String → String
first_value [] = ""
first_value (v ∷ vs) = v

-- metadataCarrier
module _ {M : Type 0} (md : Metadata M) where
  unfoldable pub carrier_get : M → String → String
  carrier_get m key = first_value (md.get m key)

  unfoldable pub carrier_set : M → String → String → M
  carrier_set m key value = md.set m key (value ∷ [])

  abbrev pub carrier_keys : M → List String
  carrier_keys m = md.keys_of m

  -- metadata.FromIncomingContext, or metadata without entries.
  abbrev pub incoming : Option M → M
  incoming none = md.new
  incoming (some m) = m

  -- Where a value that was set is found under its key, so it is through the carrier.
  pub carrier_get-carrier_set :
      ((m : M) (key : String) (vs : List String) → md.get (md.set m key vs) key ≡ vs)
      → (m : M) (key value : String) → carrier_get (carrier_set m key value) key ≡ value
  unfolding carrier_get carrier_set
  carrier_get-carrier_set get_set m key value = ap first_value (get_set m key (value ∷ []))

pub data SpanAction : Type 0 where
  started : String → SpanAction
  error_recorded : Error → SpanAction
  status_set : Error → SpanAction
  ended : SpanAction

module _ {A : Type 0} where
  -- What is done to the span after the handler, by its result.
  abbrev pub after_handler : Result A → List SpanAction
  after_handler (ok a) = ended ∷ []
  after_handler (err e) = error_recorded e ∷ status_set e ∷ ended ∷ []

module _ {C M : Type 0} (md : Metadata M) (extract : C → M → C) (with_span : C → String → C) where
  -- The context in which the handler runs.
  abbrev pub span_context : C → Option M → String → C
  span_context ctx m full_method = with_span (extract ctx (incoming md m)) full_method

module _ {C M A : Type 0} (md : Metadata M) (extract : C → M → C) (with_span : C → String → C) where
  -- Both interceptors: the handler's result, and the span.
  unfoldable pub traced :
      (C → Exec A) → C → Option M → String → World → (Result A × World) × List SpanAction
  traced handler ctx m full_method w =
      let (result, w') = handler (span_context md extract with_span ctx m full_method) w in
      ((result, w'), started full_method ∷ after_handler result)

  span-ended : (result : Result A) (a : SpanAction) → last? (a ∷ after_handler result) ≡ some ended
  span-ended (ok x) a = refl
  span-ended (err e) a = refl

  -- A call is answered as the handler answers it in the context of the span, and the span is ended,
  -- whether the handler fails or not.
  pub traced-handler :
      (handler : C → Exec A) (ctx : C) (m : Option M) (full_method : String) (w : World)
      → ((traced handler ctx m full_method w).0
          ≡ handler (span_context md extract with_span ctx m full_method) w)
        × (last? (traced handler ctx m full_method w).1 ≡ some ended)
  unfolding traced
  traced-handler handler ctx m full_method w = (
    refl,
    span-ended (handler (span_context md extract with_span ctx m full_method) w).0
        (started full_method),
  )
