-- ===== src/Prelude/Lists.antt =====
-- Lists measured and cut by native numbers, and the list functions that SQL clauses need.
use Prim.Native.Nat.{ℕ, zero, suc, ◌+◌, ◌≤◌, ◌<◌}
use mathlib.Core.Path.{◌≡◌, refl}
use mathlib.Core.Logic.{inl, inr}
use mathlib.Core.Bool.{Bool, true, false}
use mathlib.Core.List.{List, [], ◌∷◌, ◌++◌}
use mathlib.Core.Option.{Option, none, some}
use native.Mathlib.Omega.{arith}
use holdex_backend_cqrs.Prelude.Tests.{if◌then◌else◌, leb, Bool-cases}

module _ {ℓ} {A : Type ℓ} where
  abbrev pub length : List A → ℕ
  length [] = 0
  length (x ∷ xs) = suc (length xs)

  abbrev pub take : ℕ → List A → List A
  take zero xs = []
  take (suc n) [] = []
  take (suc n) (x ∷ xs) = x ∷ take n xs

  abbrev pub drop : ℕ → List A → List A
  drop zero xs = xs
  drop (suc n) [] = []
  drop (suc n) (x ∷ xs) = drop n xs

  abbrev pub replicate : ℕ → A → List A
  replicate zero x = []
  replicate (suc n) x = x ∷ replicate n x

  -- The rows that a Boolean condition selects.
  abbrev pub select : (A → Bool) → List A → List A
  select p [] = []
  select p (x ∷ xs) = let rest = select p xs in if p x then x ∷ rest else rest

  abbrev pub exists : (A → Bool) → List A → Bool
  exists p [] = false
  exists p (x ∷ xs) = if p x then true else exists p xs

  abbrev pub last? : List A → Option A
  last? [] = none
  last? (x ∷ []) = some x
  last? (x ∷ y ∷ xs) = last? (y ∷ xs)

  -- A predicate of every element, and of every element against the later ones.
  abbrev pub All {κ} : (A → Type κ) → List A → Type κ
  All P [] = Unit
  All P (x ∷ xs) = P x × All P xs

module _ {ℓ} {A : Type ℓ} where
  pub length-append : (xs ys : List A) → length (xs ++ ys) ≡ length xs + length ys
  length-append [] ys = omega arith
  length-append (x ∷ xs) ys = omega (arith, length-append xs ys)

  pub take-append-drop : (n : ℕ) (xs : List A) → take n xs ++ drop n xs ≡ xs
  take-append-drop zero xs = refl
  take-append-drop (suc n) [] = refl
  take-append-drop (suc n) (x ∷ xs) = rw (take-append-drop n xs)

  pub All-append {κ} : (P : A → Type κ) (xs ys : List A) → All P xs → All P ys → All P (xs ++ ys)
  All-append P [] ys hx hy = hy
  All-append P (x ∷ xs) ys hx hy = (hx.0, All-append P xs ys hx.1 hy)

  pub All-map {κ} : {P Q : A → Type κ} (f : (x : A) → P x → Q x) (xs : List A) → All P xs → All Q xs
  All-map f [] h = h
  All-map f (x ∷ xs) h = (f x h.0, All-map f xs h.1)

  pub select-append :
      (p : A → Bool) (xs ys : List A) → select p (xs ++ ys) ≡ select p xs ++ select p ys
  select-append p [] ys = refl
  select-append p (x ∷ xs) ys = ground (arith, select-append p xs ys)

module _ {ℓ} {A : Type ℓ} (key : A → ℕ) where
  -- ORDER BY key ASC: a stable insertion sort.
  abbrev pub insert_by : A → List A → List A
  insert_by x [] = x ∷ []
  insert_by x (y ∷ ys) =
      let rest = insert_by x ys in if leb (key x) (key y) then x ∷ y ∷ ys else y ∷ rest

  abbrev pub order_by : List A → List A
  order_by [] = []
  order_by (x ∷ xs) = insert_by x (order_by xs)

  -- Keys that increase strictly from a bound on, and stay below another.
  abbrev pub Ascending : ℕ → List A → Type 0
  Ascending lo [] = Unit
  Ascending lo (x ∷ xs) = (lo ≤ key x) × Ascending (suc (key x)) xs

  pub Ascending-le : (lo lo' : ℕ) (xs : List A) → lo ≤ lo' → Ascending lo' xs → Ascending lo xs
  Ascending-le lo lo' [] h a = tt
  Ascending-le lo lo' (x ∷ xs) h a = (omega arith, a.1)

  pub select-Ascending :
      (lo : ℕ) (p : A → Bool) (xs : List A) → Ascending lo xs → Ascending lo (select p xs)
  select-Ascending lo p [] a = tt
  select-Ascending lo p (x ∷ xs) a = elim (Bool-cases (p x)) [
    | inl y ↦ rw y (a.0, select-Ascending (suc (key x)) p xs a.1)
    | inr n ↦ rw n (
        Ascending-le lo (suc (key x)) (select p xs) (omega (arith, a.0))
          (select-Ascending (suc (key x)) p xs a.1))
  ]

  insert_by-Ascending : (x : A) (xs : List A) → Ascending (suc (key x)) xs → insert_by x xs ≡ x ∷ xs
  insert_by-Ascending x [] a = refl
  insert_by-Ascending x (y ∷ ys) a = ground arith

  -- A table whose keys increase is its own ordering.
  pub order_by-Ascending : (lo : ℕ) (xs : List A) → Ascending lo xs → order_by xs ≡ xs
  order_by-Ascending lo [] a = refl
  order_by-Ascending lo (x ∷ xs) a =
      rw (order_by-Ascending (suc (key x)) xs a.1) (insert_by-Ascending x xs a.1)

  pub Ascending-snoc :
      (lo : ℕ) (xs : List A) (x : A)
      → Ascending lo xs
      → All (λ y. key y < key x) xs
      → lo ≤ key x
      → Ascending lo (xs ++ x ∷ [])
  Ascending-snoc lo [] x a b h = (h, tt)
  Ascending-snoc lo (y ∷ ys) x a b h = (a.0, Ascending-snoc (suc (key y)) ys x a.1 b.1 b.0)
