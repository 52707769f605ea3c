-- ===== src/Api/Http/Labels.antt =====
-- The labels of the metrics against the routes.
use text.Mathlib.Text.{starts_with}
use holdex_backend_cqrs.Prelude.{
  String, ◌≡◌, refl, sym, subst, Bool, true, false, ◌||◌, ◌⊎◌, inl, inr, Bool-cases, [], ◌∷◌,
  str_eq, eq_iff, if◌then◌else◌, exists,
}
use holdex_backend_cqrs.Api.Http.{
  Endpoint, playground, graphql_query, metrics, healthz, route, normalize_path,
}

abbrev pub is_label : String → Bool
is_label l =
    exists (λ k. str_eq k l)
      ("/v1/query" ∷ "/v1/playground" ∷ "/metrics" ∷ "/healthz" ∷ "other" ∷ [])

is_label-if :
    (b : Bool) (k l : String)
    → is_label k ≡ true
    → is_label l ≡ true
    → is_label (if b then k else l) ≡ true
is_label-if true k l h h' = h
is_label-if false k l h h' = h'

abbrev pub label_of : Endpoint → String
label_of playground = "/v1/playground"
label_of graphql_query = "/v1/query"
label_of metrics = "/metrics"
label_of healthz = "/healthz"

abbrev IsLabelled : String → Type 0
IsLabelled path = (route path ≡ playground) ⊎ (normalize_path path ≡ label_of (route path))

at_path : (p path : String) → str_eq path p ≡ true → IsLabelled p → IsLabelled path
at_path p path h labelled = subst IsLabelled (sym ((eq_iff path p).0 h)) labelled

-- Whatever path is asked for, it is counted under one of five labels; and a path that is served by
-- anything but the playground is counted under the label of what serves it.
pub normalize_path-route :
    (path : String)
    → (is_label (normalize_path path) ≡ true)
      × ((route path ≡ playground) ⊎ (normalize_path path ≡ label_of (route path)))
unfolding normalize_path route
normalize_path-route path = (
  is_label-if (starts_with path "/v1/query" || starts_with path "/query") "/v1/query" _ refl (
      is_label-if (starts_with path "/v1/playground" || str_eq path "/") "/v1/playground" _ refl (
        is_label-if (str_eq path "/metrics") "/metrics" _ refl
          (is_label-if (str_eq path "/healthz") "/healthz" _ refl refl))),
  elim (Bool-cases (str_eq path "/v1/playground")) [
    | inl y ↦ at_path "/v1/playground" path y (inl refl)
    | inr a ↦ elim (Bool-cases (str_eq path "/v1/query")) [
      | inl y ↦ at_path "/v1/query" path y (inr refl)
      | inr b ↦ elim (Bool-cases (str_eq path "/metrics")) [
        | inl y ↦ at_path "/metrics" path y (inr refl)
        | inr c ↦ elim (Bool-cases (str_eq path "/query")) [
          | inl y ↦ at_path "/query" path y (inr refl)
          | inr d ↦ elim (Bool-cases (str_eq path "/healthz")) [
            | inl y ↦ at_path "/healthz" path y (inr refl)
            | inr e ↦ inl (rw (a, b, c, d, e))
          ]
        ]
      ]
    ]
  ],
)
