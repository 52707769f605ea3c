-- ===== src/Api/Agreement.antt =====
-- The GraphQL and the gRPC interface against each other.
use holdex_backend_cqrs.Prelude.{
  ℕ, String, ◌≡◌, ◌≢◌, refl, ap, ◌∙◌, Bool, true, false, inl, inr, Bool-cases, Option, none, some,
  List, [], ◌∷◌, map, str_eq, eq_iff, if◌then◌else◌, ℤ, pos,
}
use holdex_backend_cqrs.Result.{Error, Result, ok, err}
use holdex_backend_cqrs.World.{World, pure, continue}
use holdex_backend_cqrs.Domain.Market.{NewDataFetchedPayload}
use holdex_backend_cqrs.Projection.Queries.{Ordering, get_market_summaries, get_price_history}
use holdex_backend_cqrs.Query.Service.{Service, new_service, read_model}
use holdex_backend_cqrs.Api.Streaming.{
  Turn, context_done, channel_closed, received, Ending, market_payload,
}
use holdex_backend_cqrs.Api.Graphql.Dataloader.{Point}
use holdex_backend_cqrs.Api.Graphql.Resolvers.{
  Summary, resolved_summary, local_point_of, resolve_market_summaries, resolve_market_summary,
  resolve_price_history, payload_summary, push_update, pass_update, market_price_updated,
}
use holdex_backend_cqrs.Api.Grpc.{
  PbMarketSummary, PbPricePoint, Status, internal_server_error, market_summary_not_found,
  price_history_not_found, is_no_rows, respond, map_summary_to_pb, point_to_pb,
  rpc_market_summaries, rpc_market_summary, rpc_price_history, send_update, handle_update,
  stream_market_updates,
}

abbrev or_zero : Option ℕ → ℕ
or_zero none = 0
or_zero (some n) = n

-- An answer of the one interface as the other one writes it.
abbrev pub pb_of_summary : Summary → PbMarketSummary
pb_of_summary s = record {
  coin_id = s.coin_id;
  symbol = s.symbol;
  name = s.name;
  current_price = s.current_price;
  market_cap = or_zero s.market_cap;
  volume_24h = or_zero s.volume_24h;
  price_change_24h = or_zero s.price_change_24h;
  last_updated = s.last_updated;
}

abbrev pub pb_of_point : Point → PbPricePoint
pb_of_point p = record { price = p.price; recorded_at = p.recorded_at }

-- The statuses of the queries' errors.
abbrev pub summary_status : String → Error → Status
summary_status coin_id e =
    if is_no_rows e then market_summary_not_found coin_id else internal_server_error

abbrev pub history_status : String → Error → Status
history_status coin_id e =
    if is_no_rows e then price_history_not_found coin_id else internal_server_error

module _ {A B C : Type 0} (f : A → B) (g : B → C) where
  map-map : (xs : List A) → map (λ a. g (f a)) xs ≡ map g (map f xs)
  map-map [] = refl
  map-map (x ∷ xs) = rw (map-map xs)

  -- A converted result that is converted once more before the response.
  respond-continue :
      (h : A → C) (status : Error → Status) (r : Result A × World)
      → ((a : A) → h a ≡ g (f a))
      → respond h status r ≡ respond g status (continue (λ a w. pure (f a) w) r.0 r.1)
  respond-continue h status (ok a, w) e = rw (e a)
  respond-continue h status (err x, w) e = refl

-- A filter of the one interface for one of the other.
abbrev pub filter_of : Option String → String
filter_of none = ""
filter_of (some coin_id) = coin_id

module _ (format : ℕ → String) where
  queries_agree :
      (s : Service) (coin_id : String) (limit offset : ℤ) (w : World)
      → (rpc_market_summaries format s limit offset w
          ≡ respond
              (map pb_of_summary)
              (λ e. internal_server_error)
              (resolve_market_summaries format s (some limit) (some offset) w))
        × (rpc_market_summary format s coin_id w
            ≡ respond pb_of_summary
                (summary_status coin_id)
                (resolve_market_summary format s coin_id w))
        × (rpc_price_history format s coin_id limit w
            ≡ respond
                (map pb_of_point)
                (history_status coin_id)
                (resolve_price_history format s coin_id (some limit) w))
  unfolding rpc_market_summaries rpc_market_summary rpc_price_history resolve_market_summaries
      resolve_market_summary resolve_price_history
  queries_agree s coin_id limit offset w = (
    respond-continue (map (resolved_summary format)) (map pb_of_summary)
        (map (map_summary_to_pb format)) (λ e. internal_server_error)
        (s.repo.get_market_summaries limit offset w)
        (map-map (resolved_summary format) pb_of_summary),
    respond-continue (resolved_summary format) pb_of_summary (map_summary_to_pb format)
        (summary_status coin_id) (s.repo.get_market_summary coin_id w) (λ a. refl),
    respond-continue (map (local_point_of format)) (map pb_of_point) (map (point_to_pb format))
        (history_status coin_id) (s.repo.get_price_history coin_id limit w)
        (map-map (local_point_of format) pb_of_point),
  )

  -- On the read model itself, a GraphQL query without arguments is answered as a gRPC request of
  -- zeros.
  pub defaults_agree :
      (q : Ordering) (coin_id : String) (w : World)
      → (rpc_market_summaries format (new_service (read_model q)) (pos 0) (pos 0) w
          ≡ respond
              (map pb_of_summary)
              (λ e. internal_server_error)
              (resolve_market_summaries format (new_service (read_model q)) none none w))
        × (rpc_price_history format (new_service (read_model q)) coin_id (pos 0) w
            ≡ respond
                (map pb_of_point)
                (history_status coin_id)
                (resolve_price_history format (new_service (read_model q)) coin_id none w))
  unfolding rpc_market_summaries rpc_price_history resolve_market_summaries resolve_price_history
      get_market_summaries get_price_history
  defaults_agree q coin_id w = (
    respond-continue (map (resolved_summary format)) (map pb_of_summary)
        (map (map_summary_to_pb format)) (λ e. internal_server_error)
        (get_market_summaries q (pos 100) (pos 0) w)
        (map-map (resolved_summary format) pb_of_summary),
    respond-continue (map (local_point_of format)) (map pb_of_point) (map (point_to_pb format))
        (history_status coin_id) (get_price_history q coin_id (pos 100) w)
        (map-map (local_point_of format) pb_of_point),
  )

  not_empty : (c : String) → some c ≢ some "" → str_eq c "" ≡ false
  not_empty c ne = elim (Bool-cases (str_eq c "")) [
    | inl y ↦ absurd (ne (ap some ((eq_iff c "").0 y)))
    | inr n ↦ n
  ]

  send-push :
      (taken : Bool) (s : Summary) (sent : List PbMarketSummary × Ending)
      (passed : List Summary × Ending)
      → sent.0 ≡ map pb_of_summary passed.0
      → (send_update taken (pb_of_summary s) sent).0
        ≡ map pb_of_summary (push_update taken s passed).0
  send-push false s sent passed h = refl
  send-push true s sent passed h = ap (λ l. pb_of_summary s ∷ l) h

  handle-pass :
      (coin_id : Option String) (o : Option NewDataFetchedPayload) (taken : Bool)
      (sent : List PbMarketSummary × Ending) (passed : List Summary × Ending)
      → coin_id ≢ some ""
      → sent.0 ≡ map pb_of_summary passed.0
      → (handle_update format (filter_of coin_id) o taken sent).0
        ≡ map pb_of_summary (pass_update format coin_id o taken passed).0
  handle-pass coin_id none taken sent passed ne h = h
  handle-pass none (some p) taken sent passed ne h =
      send-push taken (payload_summary format p) sent passed h
  handle-pass (some c) (some p) taken sent passed ne h =
      let named : str_eq c "" ≡ false = not_empty c ne in
      elim (Bool-cases (str_eq c p.coin_id)) [
        | inl y ↦ rw (named, y) (send-push taken (payload_summary format p) sent passed h)
        | inr n ↦ rw (named, n) h
      ]

  streams_agree :
      (coin_id : Option String) (ts : List Turn)
      → coin_id ≢ some ""
      → (stream_market_updates format (filter_of coin_id) ts).0
        ≡ map pb_of_summary (market_price_updated format coin_id ts).0
  unfolding stream_market_updates market_price_updated
  streams_agree coin_id [] ne = refl
  streams_agree coin_id (context_done ∷ ts) ne = refl
  streams_agree coin_id (channel_closed ∷ ts) ne = refl
  streams_agree coin_id (received e taken ∷ ts) ne =
      handle-pass coin_id (market_payload e) taken
        (stream_market_updates format (filter_of coin_id) ts)
        (market_price_updated format coin_id ts) ne (streams_agree coin_id ts ne)

-- Where the clock of the server is in UTC, so that both interfaces format each time alike, they agree:
-- a gRPC request is answered as the GraphQL query of the same arguments, written as a gRPC message,
-- with the errors as statuses; and a stream sends what the subscription sends, whatever events arrive
-- and however the clients end it. A subscription to the empty coin is excepted, for the empty filter
-- of a stream asks for every coin.
pub interfaces_agree :
    (format_utc format : ℕ → String) (s : Service) (coin_id : String) (filter : Option String)
    (limit offset : ℤ) (w : World) (ts : List Turn)
    → ((t : ℕ) → format_utc t ≡ format t)
    → filter ≢ some ""
    → (rpc_market_summaries format_utc s limit offset w
        ≡ respond
            (map pb_of_summary)
            (λ e. internal_server_error)
            (resolve_market_summaries format s (some limit) (some offset) w))
      × (rpc_market_summary format_utc s coin_id w
          ≡ respond pb_of_summary
              (summary_status coin_id)
              (resolve_market_summary format s coin_id w))
      × (rpc_price_history format_utc s coin_id limit w
          ≡ respond
              (map pb_of_point)
              (history_status coin_id)
              (resolve_price_history format s coin_id (some limit) w))
      × ((stream_market_updates format_utc (filter_of filter) ts).0
          ≡ map pb_of_summary (market_price_updated format filter ts).0)
interfaces_agree format_utc format s coin_id filter limit offset w ts in_utc ne =
    let same : format_utc ≡ format = λ i t. in_utc t i in
    let (summaries, one, history) = queries_agree format s coin_id limit offset w in
    (
      ap (λ f. rpc_market_summaries f s limit offset w) same ∙ summaries,
      ap (λ f. rpc_market_summary f s coin_id w) same ∙ one,
      ap (λ f. rpc_price_history f s coin_id limit w) same ∙ history,
      ap (λ f. (stream_market_updates f (filter_of filter) ts).0) same
          ∙ streams_agree format filter ts ne,
    )
