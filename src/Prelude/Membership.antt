-- ===== src/Prelude/Membership.antt =====
-- Membership in what selections, cuts and orderings leave of a list with increasing keys.
use Prim.Native.Nat.{ℕ, zero, suc, ◌≤◌}
use mathlib.Core.Path.{◌≡◌, sym, ap, ◌∙◌, subst}
use mathlib.Core.Logic.{inl, inr}
use mathlib.Core.Bool.{Bool, true}
use mathlib.Core.List.{List, [], ◌∷◌, Memᴰ}
use mathlib.Core.List.Memᴰ
use native.Mathlib.Omega.{arith}
use holdex_backend_cqrs.Prelude.Tests.{Bool-cases}
use holdex_backend_cqrs.Prelude.Lists.{take, select, Ascending}

module _ {ℓ} {A : Type ℓ} where
  pub Mem-take : {r : A} (n : ℕ) (xs : List A) → Memᴰ r (take n xs) → Memᴰ r xs
  Mem-take zero xs m = elim m [ ]
  Mem-take (suc n) [] m = elim m [ ]
  Mem-take (suc n) (x ∷ xs) (Memᴰ.head e) = Memᴰ.head e
  Mem-take (suc n) (x ∷ xs) (Memᴰ.tail m) = Memᴰ.tail (Mem-take n xs m)

  pub Mem-select : {r : A} (p : A → Bool) (xs : List A) → Memᴰ r (select p xs) → Memᴰ r xs
  Mem-select p [] m = m
  Mem-select p (x ∷ xs) m = elim (Bool-cases (p x)) [
    | inl y ↦ elim (Memᴰ.cases_cons (rw y at m)) [
      | inl e ↦ Memᴰ.head e
      | inr t ↦ Memᴰ.tail (Mem-select p xs t)
    ]
    | inr n ↦ Memᴰ.tail (Mem-select p xs (rw n at m))
  ]

  pub select-Mem :
      {r : A} (p : A → Bool) (xs : List A) → Memᴰ r xs → p r ≡ true → Memᴰ r (select p xs)
  select-Mem p [] m h = elim m [ ]
  select-Mem p (x ∷ xs) (Memᴰ.head e) h = rw (sym (ap p e) ∙ h) (Memᴰ.head e)
  select-Mem p (x ∷ xs) (Memᴰ.tail m) h = elim (Bool-cases (p x)) [
    | inl y ↦ rw y (Memᴰ.tail (select-Mem p xs m h))
    | inr n ↦ rw n (select-Mem p xs m h)
  ]

module _ {ℓ} {A : Type ℓ} (key : A → ℕ) where
  pub le-Mem : {r : A} (lo : ℕ) (xs : List A) → Ascending key lo xs → Memᴰ r xs → lo ≤ key r
  le-Mem lo [] a m = elim m [ ]
  le-Mem lo (x ∷ xs) a (Memᴰ.head e) = subst (λ s. lo ≤ key s) (sym e) a.0
  le-Mem lo (x ∷ xs) a (Memᴰ.tail m) = omega (arith, le-Mem (suc (key x)) xs a.1 m, a.0)
