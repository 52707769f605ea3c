-- ===== src/Api/Http/Metrics/Counting.antt =====
-- The counters of api/handler.go against the requests that were answered.
use holdex_backend_cqrs.Prelude.{
  ℕ, suc, ◌+◌, ◌≡◌, refl, Bool, true, inl, inr, Bool-cases, List, [], ◌∷◌, arith, eq_iff, ==_iff,
  if◌then◌else◌, All,
}
use holdex_backend_cqrs.Api.Limiting.{Network}
use holdex_backend_cqrs.Api.Http.{route}
use holdex_backend_cqrs.Api.Http.Labels.{is_label, normalize_path-route}
use holdex_backend_cqrs.Api.Http.Metrics.{
  Series, series_eq, Counters, inc, value, HttpRequest, Handlers, HttpState, dispatch_to, series_of,
  handle_request, handle_requests,
}

series_eq_trans : (a b t : Series) → series_eq a b ≡ true → series_eq a t ≡ series_eq b t
series_eq_trans a b t h =
    ground (arith, eq_iff a.path b.path, eq_iff a.method b.method, ==_iff a.status b.status)

series_eq-join :
    (a b t : Series) → series_eq a t ≡ true → series_eq b t ≡ true → series_eq a b ≡ true
series_eq-join a b t h k = ground (
  arith,
  eq_iff a.path t.path,
  eq_iff b.path t.path,
  eq_iff a.path b.path,
  eq_iff a.method t.method,
  eq_iff b.method t.method,
  eq_iff a.method b.method,
  ==_iff a.status t.status,
  ==_iff b.status t.status,
  ==_iff a.status b.status,
)

pub value-inc :
    (s t : Series) (m : Counters)
    → value t (inc s m) ≡ (if series_eq s t then suc (value t m) else value t m)
unfolding inc
value-inc s t [] = refl
value-inc s t (e ∷ m) = elim (Bool-cases (series_eq e.0 s)) [
  | inl y ↦ rw y (
      rw (series_eq_trans e.0 s t y)
        (elim (Bool-cases (series_eq s t)) [ inl z ↦ rw z refl | inr z ↦ rw z refl ]))
  | inr n ↦ rw n (elim (Bool-cases (series_eq e.0 t)) [
    | inl z ↦ elim (Bool-cases (series_eq s t)) [
      | inl x ↦ absurd (ground (arith, series_eq-join e.0 s t z x))
      | inr x ↦ rw (z, x) refl
    ]
    | inr z ↦ rw z (value-inc s t m)
  ])
]

-- The number of requests that were answered under the labels of a series.
abbrev pub times_answered : Series → List (HttpRequest × List ℕ) → ℕ
times_answered s [] = 0
times_answered s (a ∷ rest) =
    let n = times_answered s rest in if series_eq (series_of a.0 a.1) s then suc n else n

module _ {L : Type 0} (new_limiter : L) (allow : L → ℕ → Bool × L) (net : Network)
    (trust_proxy : Bool) (handlers : Handlers) where
  -- After any requests each counter has gone up by the number of requests that were answered under
  -- its labels, and each of these has one of five paths.
  pub handle_requests-times_answered :
      (rs : List HttpRequest) (h : HttpState L) (s : Series)
      → (value s (handle_requests new_limiter allow net trust_proxy handlers rs h).1.requests_total
          ≡ value s h.requests_total
            + times_answered s (handle_requests new_limiter allow net trust_proxy handlers rs h).0)
        × All
            (λ (a : HttpRequest × List ℕ). is_label (series_of a.0 a.1).path ≡ true)
            (handle_requests new_limiter allow net trust_proxy handlers rs h).0
  unfolding handle_requests handle_request
  handle_requests-times_answered [] h s = (omega arith, tt)
  handle_requests-times_answered (r ∷ rs) h s =
      let (codes, ips) =
        dispatch_to new_limiter allow net trust_proxy handlers (route r.path) r h.ips in
      let (h1, named) =
        handle_requests-times_answered rs
          (handle_request new_limiter allow net trust_proxy handlers r h).1 s in
      (
        ground (arith, h1, value-inc (series_of r codes) s h.requests_total),
        ((normalize_path-route r.path).0, named),
      )
