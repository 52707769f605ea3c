-- ===== src/Prelude/Assoc.antt =====
-- Maps from texts as association lists, with the law of their lookups.
use mathlib.Core.Path.{◌≡◌, refl}
use mathlib.Core.Option.{Option, none, some}
use mathlib.Core.List.{List, [], ◌∷◌}
use native.Mathlib.Omega.{arith}
use text.Mathlib.Text.{◌==◌ as str_eq}
use text.Mathlib.TextEquality.{eq_iff}
use holdex_backend_cqrs.Prelude.Tests.{if◌then◌else◌}
use Prim.Native.String.{String}

module _ {V : Type 0} where
  abbrev pub lookup : String → List (String × V) → Option V
  lookup k [] = none
  lookup k (e ∷ m) = let rest = lookup k m in if str_eq e.0 k then some e.1 else rest

  -- An assignment `m[k] = v`: a new key comes last.
  abbrev pub insert : String → V → List (String × V) → List (String × V)
  insert k v [] = (k, v) ∷ []
  insert k v (e ∷ m) = let rest = insert k v m in if str_eq e.0 k then (k, v) ∷ m else e ∷ rest

  pub lookup-insert :
      (k j : String) (v : V) (m : List (String × V))
      → lookup j (insert k v m) ≡ (if str_eq k j then some v else lookup j m)
  lookup-insert k j v [] = refl
  lookup-insert k j v (e ∷ m) =
      ground (arith, eq_iff k j, eq_iff e.0 k, eq_iff e.0 j, lookup-insert k j v m)
