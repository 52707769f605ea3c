-- ===== src/Api/Grpc/Updates.antt =====
-- What a stream of market updates sends, against the events that arrive.
use holdex_backend_cqrs.Prelude.{
  ℕ, suc, ◌<◌, String, ◌≡◌, refl, ap, Bool, true, false, not, ◌⊎◌, inl, inr, Bool-cases, Option,
  none, some, List, [], ◌∷◌, map, arith, length, take, select, sym, str_eq, eq_iff, Filtered,
  select-Filtered,
}
use holdex_backend_cqrs.Domain.Market.{Event, NewDataFetchedPayload}
use holdex_backend_cqrs.Api.Streaming.{
  Turn, context_done, channel_closed, received, Ending, send_failed, market_payload, payloads,
  cons_option, arrived,
}
use holdex_backend_cqrs.Api.Grpc.{
  PbMarketSummary, payload_to_pb, is_filtered_out, send_update, handle_update,
  stream_market_updates,
}

length-map :
    (f : NewDataFetchedPayload → PbMarketSummary) (ps : List NewDataFetchedPayload)
    → length (map f ps) ≡ length ps
length-map f [] = refl
length-map f (p ∷ ps) = ap suc (length-map f ps)

module _ (format_utc : ℕ → String) (filter : String) where
  -- What the subscriber asks for, of the payloads of these events.
  abbrev pub wanted : List Event → List PbMarketSummary
  wanted events =
      map (payload_to_pb format_utc)
        (select (λ p. not (is_filtered_out filter p)) (payloads events))

  abbrev IsStream : List PbMarketSummary → List PbMarketSummary × Ending → Type 0
  IsStream all stream =
      (stream.0 ≡ all)
      ⊎ ((n : ℕ) × (n < length all) × (stream.0 ≡ take n all) × (stream.1 ≡ send_failed))

  send_update-IsStream :
      (taken : Bool) (s : PbMarketSummary) (all : List PbMarketSummary)
      (rest : List PbMarketSummary × Ending)
      → IsStream all rest
      → IsStream (s ∷ all) (send_update taken s rest)
  send_update-IsStream false s all rest h = inr (0, omega arith, refl, refl)
  send_update-IsStream true s all rest (inl e) = inl (ap (λ l. s ∷ l) e)
  send_update-IsStream true s all rest (inr (n, lt, e, f)) =
      inr (suc n, omega (arith, lt), ap (λ l. s ∷ l) e, f)

  handle_update-IsStream :
      (o : Option NewDataFetchedPayload) (taken : Bool) (ps : List NewDataFetchedPayload)
      (rest : List PbMarketSummary × Ending)
      → IsStream
          (map (payload_to_pb format_utc) (select (λ p. not (is_filtered_out filter p)) ps))
          rest
      → IsStream
          (map
            (payload_to_pb format_utc)
            (select (λ p. not (is_filtered_out filter p)) (cons_option o ps)))
          (handle_update format_utc filter o taken rest)
  handle_update-IsStream none taken ps rest h = h
  handle_update-IsStream (some p) taken ps rest h = elim (Bool-cases (is_filtered_out filter p)) [
    | inl y ↦ rw y h
    | inr n ↦ rw n (send_update-IsStream taken (payload_to_pb format_utc p) _ rest h)
  ]

  -- All of the payloads that the filter keeps, or a first part of them up to a Send that failed.
  stream_market_updates-eq_wanted :
      (ts : List Turn)
      → ((stream_market_updates format_utc filter ts).0 ≡ wanted (arrived ts))
        ⊎ ((n : ℕ) × (n < length (wanted (arrived ts)))
            × ((stream_market_updates format_utc filter ts).0 ≡ take n (wanted (arrived ts)))
            × ((stream_market_updates format_utc filter ts).1 ≡ send_failed))
  unfolding stream_market_updates
  stream_market_updates-eq_wanted [] = inl refl
  stream_market_updates-eq_wanted (context_done ∷ ts) = inl refl
  stream_market_updates-eq_wanted (channel_closed ∷ ts) = inl refl
  stream_market_updates-eq_wanted (received e taken ∷ ts) =
      handle_update-IsStream (market_payload e) taken (payloads (arrived ts))
        (stream_market_updates format_utc filter ts) (stream_market_updates-eq_wanted ts)

-- What a client asks for: the coin that it names, and with an empty name every coin.
abbrev pub Asks : String → NewDataFetchedPayload → Type 0
Asks filter p = (filter ≡ "") ⊎ (p.coin_id ≡ filter)

kept-Asks :
    (filter : String) (p : NewDataFetchedPayload)
    → not (is_filtered_out filter p) ≡ true
    → Asks filter p
kept-Asks filter p h = elim (Bool-cases (str_eq filter "")) [
  | inl y ↦ inl ((eq_iff filter "").0 y)
  | inr n ↦ elim (Bool-cases (str_eq filter p.coin_id)) [
    | inl y ↦ inr (sym ((eq_iff filter p.coin_id).0 y))
    | inr m ↦ absurd (ground (arith, h, n, m))
  ]
]

filtered_out-Asks :
    (filter : String) (p : NewDataFetchedPayload)
    → not (is_filtered_out filter p) ≡ false
    → ¬ Asks filter p
filtered_out-Asks filter p h (inl empty) = absurd (ground (arith, h, (eq_iff filter "").1 empty))
filtered_out-Asks filter p h (inr named) =
    absurd (ground (arith, h, (eq_iff filter p.coin_id).1 (sym named)))

-- StreamMarketUpdates sends the payloads of the coin that the client names, and of every coin if the
-- name is empty, among the events that arrive, as messages, in their order and each once; or a Send
-- has failed, and what was sent is a shorter first part of them.
pub stream_market_updates-Filtered :
    (format_utc : ℕ → String) (filter : String) (ts : List Turn)
    → (asked : List NewDataFetchedPayload) × Filtered (Asks filter) (payloads (arrived ts)) asked
      × (((stream_market_updates format_utc filter ts).0 ≡ map (payload_to_pb format_utc) asked)
          ⊎ ((n : ℕ) × (n < length asked)
              × ((stream_market_updates format_utc filter ts).0
                  ≡ take n (map (payload_to_pb format_utc) asked))
              × ((stream_market_updates format_utc filter ts).1 ≡ send_failed)))
stream_market_updates-Filtered format_utc filter ts =
    let all = payloads (arrived ts) in
    let asked = select (λ p. not (is_filtered_out filter p)) all in
    (
      asked,
      select-Filtered (Asks filter) (λ p. not (is_filtered_out filter p)) (kept-Asks filter)
          (filtered_out-Asks filter) all,
      elim (stream_market_updates-eq_wanted format_utc filter ts) [
        | inl e ↦ inl e
        | inr (n, lt, e, f) ↦
            inr (n, omega (arith, lt, length-map (payload_to_pb format_utc) asked), e, f)
      ],
    )
