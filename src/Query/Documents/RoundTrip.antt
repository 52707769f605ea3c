-- ===== src/Query/Documents/RoundTrip.antt =====
-- What the cache stores is read back as it was.
use holdex_backend_cqrs.Prelude.{◌≡◌, some, List, [], ◌∷◌, inl, inr, Option-cases, arith}
use holdex_backend_cqrs.Json.{
  Json, Elements, write_elements, write_slice, read_elements, read_slice,
}
use holdex_backend_cqrs.Projection.ReadModel.{MarketSummary}
use holdex_backend_cqrs.Projection.Queries.{PricePoint}
use holdex_backend_cqrs.Query.Documents.{
  marshal_summary, unmarshal_summary, marshal_point, unmarshal_point, Codec, IsCodec, summary_codec,
  summaries_codec, points_codec,
}

pub unmarshal-marshal_summary :
    (s : MarketSummary) {j : Json} → marshal_summary s ≡ some j → unmarshal_summary j ≡ some s
unfolding marshal_summary unmarshal_summary
unmarshal-marshal_summary s h = ground arith

pub unmarshal-marshal_point :
    (p : PricePoint) {j : Json} → marshal_point p ≡ some j → unmarshal_point j ≡ some p
unfolding marshal_point unmarshal_point
unmarshal-marshal_point p h = ground arith

module _ {A : Type 0} (c : Codec A) (law : IsCodec c) where
  read_elements-write :
      (xs : List A) {js : Elements}
      → write_elements c.marshal xs ≡ some js
      → read_elements c.unmarshal js ≡ some xs
  read_elements-write [] h = ground arith
  read_elements-write (x ∷ xs) h = elim (Option-cases (c.marshal x)) [
    | inl n ↦ absurd (ground arith)
    | inr (j, y) ↦ elim (Option-cases (write_elements c.marshal xs)) [
      | inl n ↦ absurd (ground arith)
      | inr (js, z) ↦ ground (arith, law.unmarshal-marshal x y, read_elements-write xs z)
    ]
  ]

  pub read_slice-write_slice :
      (xs : List A) {j : Json}
      → write_slice c.marshal xs ≡ some j
      → read_slice c.unmarshal j ≡ some xs
  read_slice-write_slice [] h = ground arith
  read_slice-write_slice (x ∷ xs) h = elim (Option-cases (write_elements c.marshal (x ∷ xs))) [
    | inl n ↦ absurd (ground arith)
    | inr (js, z) ↦ ground (arith, read_elements-write (x ∷ xs) z)
  ]

-- The codecs of the cached values satisfy the law of a codec.
pub summary-IsCodec : IsCodec summary_codec
summary-IsCodec = record { unmarshal-marshal = λ s h. unmarshal-marshal_summary s h }

abbrev point_codec : Codec PricePoint
point_codec = record { marshal = marshal_point; unmarshal = unmarshal_point }

pub summaries-IsCodec : IsCodec summaries_codec
summaries-IsCodec = record {
  unmarshal-marshal = λ xs h. read_slice-write_slice summary_codec summary-IsCodec xs h;
}

pub points-IsCodec : IsCodec points_codec
points-IsCodec = record {
  unmarshal-marshal = λ xs h.
      read_slice-write_slice point_codec
        (record { unmarshal-marshal = λ p k. unmarshal-marshal_point p k }) xs h;
}
