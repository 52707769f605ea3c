-- ===== src/World/Bind.antt =====
-- What a successful or failed sequence of calls says of its parts.
use holdex_backend_cqrs.Prelude.{
  ◌≡◌, refl, Bool, true, false, ◌⊎◌, inl, inr, Bool-cases, arith, List, [], ◌∷◌,
}
use holdex_backend_cqrs.Result.{Error, Result, ok, err}
use holdex_backend_cqrs.Tables.{Db}
use holdex_backend_cqrs.World.{
  World, Exec, ◌>>=◌, ◌>>◌, rollback, transaction, attempt, require, fault?, later, continue,
  settle,
}

pub Result-cases :
    {A : Type 0} (r : Result A) → ((a : A) × (r ≡ ok a)) ⊎ ((e : Error) × (r ≡ err e))
Result-cases (ok a) = inl (a, refl)
Result-cases (err e) = inr (e, refl)

module _ {A B : Type 0} where
  continue-eq_ok :
      (f : A → Exec B) (r : Result A) (w : World) {b : B}
      → (continue f r w).0 ≡ ok b
      → (a : A) × (r ≡ ok a) × ((f a w).0 ≡ ok b) × (continue f r w ≡ f a w)
  continue-eq_ok f (ok a) w h = (a, refl, h, refl)
  continue-eq_ok f (err e) w h = absurd (ground arith)

  pub bind_of_ok :
      (m : Exec A) (f : A → Exec B) (w : World) {a : A} → (m w).0 ≡ ok a → (m >>= f) w ≡ f a (m w).1
  bind_of_ok m f w h = rw h

  pub bind_of_err :
      (m : Exec A) (f : A → Exec B) (w : World) {e : Error}
      → (m w).0 ≡ err e
      → (m >>= f) w ≡ (err e, (m w).1)
  bind_of_err m f w h = rw h

  -- A sequence succeeds only if its first part does, and then goes on from there.
  pub bind-eq_ok :
      (m : Exec A) (f : A → Exec B) (w : World) {b : B}
      → ((m >>= f) w).0 ≡ ok b
      → (a : A) × ((m w).0 ≡ ok a) × ((f a (m w).1).0 ≡ ok b) × ((m >>= f) w ≡ f a (m w).1)
  bind-eq_ok m f w h = continue-eq_ok f (m w).0 (m w).1 h

module _ {A : Type 0} where
  settle-eq_err :
      (before : Db) (r : Result A) (w : World) {e : Error}
      → (settle before (r, w)).0 ≡ err e
      → (settle before (r, w)).1.db ≡ rollback before (settle before (r, w)).1.db
  settle-eq_err before (ok a) w h = absurd (ground arith)
  settle-eq_err before (err e) w h = refl

  settle-eq_ok :
      (before : Db) (r : Result A) (w : World) {a : A}
      → (settle before (r, w)).0 ≡ ok a
      → (r ≡ ok a) × ((settle before (r, w)).1 ≡ w)
  settle-eq_ok before (ok a) w h = (h, refl)
  settle-eq_ok before (err e) w h = absurd (ground arith)

  -- A transaction that fails leaves the tables as they were.
  pub transaction-eq_err :
      (m : Exec A) (w : World) {e : Error}
      → (transaction m w).0 ≡ err e
      → (transaction m w).1.db ≡ rollback w.db (transaction m w).1.db
  unfolding transaction
  transaction-eq_err m w h = settle-eq_err w.db (m w).0 (m w).1 h

  -- One that succeeds has done what its body did.
  pub transaction-eq_ok :
      (m : Exec A) (w : World) {a : A}
      → (transaction m w).0 ≡ ok a
      → ((m w).0 ≡ ok a) × ((transaction m w).1 ≡ (m w).1)
  unfolding transaction
  transaction-eq_ok m w h = settle-eq_ok w.db (m w).0 (m w).1 h

-- The world after a call that did not fail.
abbrev pub next : World → World
next w = record w { faults = later w.faults }

module _ {B : Type 0} where
  pub attempt_then-eq_ok :
      (e : Error) (k : Exec B) (w : World) {b : B}
      → ((attempt e >> k) w).0 ≡ ok b
      → ((k (next w)).0 ≡ ok b) × ((attempt e >> k) w ≡ k (next w))
  attempt_then-eq_ok e k w h = elim (Bool-cases (fault? w.faults)) [
    | inl x ↦ absurd (ground arith)
    | inr x ↦ (rw x at h, rw x)
  ]

  pub require_then-eq_ok :
      (c : Bool) (e : Error) (k : Exec B) (w : World) {b : B}
      → ((require c e >> k) w).0 ≡ ok b
      → (c ≡ true) × ((k w).0 ≡ ok b) × ((require c e >> k) w ≡ k w)
  require_then-eq_ok true e k w h = (refl, h, refl)
  require_then-eq_ok false e k w h = absurd (ground arith)

  attempt-nil :
      (e : Error) (k : Exec B) (w : World) (fs : List Bool)
      → fs ≡ []
      → (attempt e >> k) (record w { faults = fs }) ≡ k (record w { faults = fs })
  attempt-nil e k w [] h = refl
  attempt-nil e k w (f ∷ fs) h = absurd (ground arith)

  -- Where no fault is left, a call succeeds and leaves the world alone.
  pub attempt_fault_free :
      (e : Error) (k : Exec B) (w : World) → w.faults ≡ [] → (attempt e >> k) w ≡ k w
  attempt_fault_free e k w h = attempt-nil e k w w.faults h

attempt-nil_last :
    (e : Error) (w : World) (fs : List Bool)
    → fs ≡ []
    → attempt e (record w { faults = fs }) ≡ (ok tt, record w { faults = fs })
attempt-nil_last e w [] h = refl
attempt-nil_last e w (f ∷ fs) h = absurd (ground arith)

-- The same for a call that ends a sequence.
pub attempt_last_fault_free : (e : Error) (w : World) → w.faults ≡ [] → attempt e w ≡ (ok tt, w)
attempt_last_fault_free e w h = attempt-nil_last e w w.faults h

pub later-nil : (w : World) → w.faults ≡ [] → later w.faults ≡ w.faults
later-nil w h = rw h

pub fault?-nil : (w : World) → w.faults ≡ [] → fault? w.faults ≡ false
fault?-nil w h = rw h
