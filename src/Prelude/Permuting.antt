-- ===== src/Prelude/Permuting.antt =====
-- What a permutation does to a selection, to an image and to a predicate of every element.
use mathlib.Core.Path.{◌≡◌, refl, sym, ap, subst, ◌∙◌}
use mathlib.Core.Logic.{inl, inr}
use mathlib.Core.Bool.{Bool, true, false}
use mathlib.Core.List.{List, [], ◌∷◌, ◌++◌, map, Permᴰ}
use mathlib.Core.List.Permᴰ
use holdex_backend_cqrs.Prelude.Tests.{Bool-cases, leb}
use holdex_backend_cqrs.Prelude.Lists.{select, All, take, insert_by, order_by}
use Prim.Native.Nat.{ℕ, zero, suc}

module _ {ℓ} {A : Type ℓ} where
  pub All-perm {κ} : (P : A → Type κ) {xs ys : List A} → Permᴰ xs ys → All P ys → All P xs
  All-perm P Permᴰ.nil h = tt
  All-perm P (Permᴰ.cons e p) h = (subst P (sym e) h.0, All-perm P p h.1)
  All-perm P (Permᴰ.swap e f) h = (subst P (sym e) h.1.0, (subst P (sym f) h.0, h.1.1))
  All-perm P (Permᴰ.trans p r) h = All-perm P p (All-perm P r h)

  pub All-take {κ} : (P : A → Type κ) (n : ℕ) (xs : List A) → All P xs → All P (take n xs)
  All-take P zero xs h = tt
  All-take P (suc n) [] h = tt
  All-take P (suc n) (x ∷ xs) h = (h.0, All-take P n xs h.1)

  pub All-select {κ} :
      (P : A → Type κ) (p : A → Bool) (xs : List A) → All P xs → All P (select p xs)
  All-select P p [] h = tt
  All-select P p (x ∷ xs) h = elim (Bool-cases (p x)) [
    | inl y ↦ rw y (h.0, All-select P p xs h.1)
    | inr n ↦ rw n (All-select P p xs h.1)
  ]

  pub All-weaken {κ ν} :
      (P : A → Type κ) (Q : A → Type ν) (xs : List A) → ((a : A) → P a → Q a) → All P xs → All Q xs
  All-weaken P Q [] f h = tt
  All-weaken P Q (x ∷ xs) f h = (f x h.0, All-weaken P Q xs f h.1)

  pub All-before {κ} : (P : A → Type κ) (xs ys : List A) → All P (xs ++ ys) → All P xs
  All-before P [] ys h = tt
  All-before P (x ∷ xs) ys h = (h.0, All-before P xs ys h.1)

  All-insert_by {κ} :
      (P : A → Type κ) (key : A → ℕ) (x : A) (xs : List A)
      → P x
      → All P xs
      → All P (insert_by key x xs)
  All-insert_by P key x [] hx h = (hx, tt)
  All-insert_by P key x (y ∷ ys) hx h = elim (Bool-cases (leb (key x) (key y))) [
    | inl t ↦ rw t (hx, h)
    | inr f ↦ rw f (h.0, All-insert_by P key x ys hx h.1)
  ]

  pub All-order_by {κ} :
      (P : A → Type κ) (key : A → ℕ) (xs : List A) → All P xs → All P (order_by key xs)
  All-order_by P key [] h = tt
  All-order_by P key (x ∷ xs) h =
      All-insert_by P key x (order_by key xs) h.0 (All-order_by P key xs h.1)

  select-swap :
      (p : A → Bool) (a b : A) (l : List A) → Permᴰ (select p (a ∷ b ∷ l)) (select p (b ∷ a ∷ l))
  select-swap p a b l = elim (Bool-cases (p a)) [
    | inl x ↦ elim (Bool-cases (p b)) [
      | inl y ↦ rw (x, y) (Permᴰ.swap refl refl)
      | inr y ↦ rw (x, y) (Permᴰ.refl _)
    ]
    | inr x ↦ rw x (Permᴰ.refl _)
  ]

  pub select-perm :
      (p : A → Bool) {xs ys : List A} → Permᴰ xs ys → Permᴰ (select p xs) (select p ys)
  select-perm p Permᴰ.nil = Permᴰ.nil
  select-perm p (Permᴰ.cons {a} {b} e r) = elim (Bool-cases (p a)) [
    | inl y ↦ rw y (rw (ap p (sym e) ∙ y) (Permᴰ.cons e (select-perm p r)))
    | inr n ↦ rw n (rw (ap p (sym e) ∙ n) (select-perm p r))
  ]
  select-perm p (Permᴰ.swap {a} {b} {a'} {b'} {l} e f) =
      subst (λ x. Permᴰ (select p (a ∷ b ∷ l)) (select p (x ∷ b' ∷ l))) f
        (subst (λ x. Permᴰ (select p (a ∷ b ∷ l)) (select p (b ∷ x ∷ l))) e (select-swap p a b l))
  select-perm p (Permᴰ.trans r s) = Permᴰ.trans (select-perm p r) (select-perm p s)

  -- A condition of every element selects everything, and one of none selects nothing.
  pub select-All : (p : A → Bool) (xs : List A) → All (λ x. p x ≡ true) xs → select p xs ≡ xs
  select-All p [] h = refl
  select-All p (x ∷ xs) h = rw h.0 (ap (λ l. x ∷ l) (select-All p xs h.1))

  pub select-All_refused :
      (p : A → Bool) (xs : List A) → All (λ x. p x ≡ false) xs → select p xs ≡ []
  select-All_refused p [] h = refl
  select-All_refused p (x ∷ xs) h = rw h.0 (select-All_refused p xs h.1)

  pub All-select_self : (p : A → Bool) (xs : List A) → All (λ x. p x ≡ true) (select p xs)
  All-select_self p [] = tt
  All-select_self p (x ∷ xs) = elim (Bool-cases (p x)) [
    | inl y ↦ rw y (y, All-select_self p xs)
    | inr n ↦ rw n (All-select_self p xs)
  ]

module _ {ℓ κ} {A : Type ℓ} {B : Type κ} where
  pub map-perm : (f : A → B) {xs ys : List A} → Permᴰ xs ys → Permᴰ (map f xs) (map f ys)
  map-perm f Permᴰ.nil = Permᴰ.nil
  map-perm f (Permᴰ.cons e r) = Permᴰ.cons (ap f e) (map-perm f r)
  map-perm f (Permᴰ.swap e g) = Permᴰ.swap (ap f e) (ap f g)
  map-perm f (Permᴰ.trans r s) = Permᴰ.trans (map-perm f r) (map-perm f s)
