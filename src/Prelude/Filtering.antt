-- ===== src/Prelude/Filtering.antt =====
-- The part of a list on which a condition holds, as a relation of the two lists.
use mathlib.Core.Path.{◌≡◌}
use mathlib.Core.Logic.{inl, inr}
use mathlib.Core.Bool.{Bool, true, false}
use mathlib.Core.List.{List, [], ◌∷◌}
use holdex_backend_cqrs.Prelude.Tests.{Bool-cases}
use holdex_backend_cqrs.Prelude.Lists.{select}

module _ {A : Type 0} (P : A → Type 0) where
  -- In their order, those that satisfy the condition are kept, and the others are dropped.
  pub data Filtered : List A → List A → Type 0 where
    none_left : Filtered [] []
    kept : {x : A} {xs ys : List A} → P x → Filtered xs ys → Filtered (x ∷ xs) (x ∷ ys)
    dropped : {x : A} {xs ys : List A} → ¬ P x → Filtered xs ys → Filtered (x ∷ xs) ys

  pub select-Filtered :
      (p : A → Bool)
      → ((x : A) → p x ≡ true → P x)
      → ((x : A) → p x ≡ false → ¬ P x)
      → (xs : List A) → Filtered xs (select p xs)
  select-Filtered p holds fails [] = none_left
  select-Filtered p holds fails (x ∷ xs) = elim (Bool-cases (p x)) [
    | inl y ↦ rw y (kept (holds x y) (select-Filtered p holds fails xs))
    | inr n ↦ rw n (dropped (fails x n) (select-Filtered p holds fails xs))
  ]
