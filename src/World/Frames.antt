-- ===== src/World/Frames.antt =====
-- Calls that leave a part of the world alone.
use holdex_backend_cqrs.Prelude.{◌≡◌, refl, ◌∙◌, Bool, true, false}
use holdex_backend_cqrs.Result.{Error, Result, ok, err}
use holdex_backend_cqrs.Tables.{Db}
use holdex_backend_cqrs.World.{
  World, Exec, ◌>>=◌, ◌>>◌, continue, require, transaction, settle, rollback,
}

module _ {T : Type 0} (f : World → T) where
  abbrev pub Keeps : {A : Type 0} → Exec A → Type 0
  Keeps m = (w : World) → f (m w).1 ≡ f w

  Keeps-continue :
      {A B : Type 0} (k : A → Exec B) (r : Result A) (w : World)
      → ((a : A) → Keeps (k a))
      → f (continue k r w).1 ≡ f w
  Keeps-continue k (ok a) w h = h a w
  Keeps-continue k (err e) w h = refl

  pub Keeps-bind :
      {A B : Type 0} (m : Exec A) (k : A → Exec B)
      → Keeps m
      → ((a : A) → Keeps (k a))
      → Keeps (m >>= k)
  Keeps-bind m k hm hk w = Keeps-continue k (m w).0 (m w).1 hk ∙ hm w

  pub Keeps-then :
      {B : Type 0} (m : Exec (Unit {0})) (k : Exec B) → Keeps m → Keeps k → Keeps (m >> k)
  Keeps-then m k hm hk = Keeps-bind m (λ _. k) hm (λ _. hk)

-- Calls after which a condition on the world still holds.
module _ (P : World → Type 0) where
  abbrev pub Preserves : {A : Type 0} → Exec A → Type 0
  Preserves m = (w : World) → P w → P (m w).1

  Preserves-continue :
      {A B : Type 0} (k : A → Exec B) (r : Result A) (w : World)
      → ((a : A) → Preserves (k a))
      → P w
      → P (continue k r w).1
  Preserves-continue k (ok a) w h p = h a w p
  Preserves-continue k (err e) w h p = p

  pub Preserves-bind :
      {A B : Type 0} (m : Exec A) (k : A → Exec B)
      → Preserves m
      → ((a : A) → Preserves (k a))
      → Preserves (m >>= k)
  Preserves-bind m k hm hk w p = Preserves-continue k (m w).0 (m w).1 hk (hm w p)

  pub Preserves-then :
      {B : Type 0} (m : Exec (Unit {0})) (k : Exec B)
      → Preserves m
      → Preserves k
      → Preserves (m >> k)
  Preserves-then m k hm hk = Preserves-bind m (λ _. k) hm (λ _. hk)

  pub Preserves-require : (c : Bool) (e : Error) → Preserves (require c e)
  Preserves-require true e w p = p
  Preserves-require false e w p = p

  Preserves-settle :
      {A : Type 0} (before : Db) (r : Result A) (w : World)
      → ((v : World) → P v → P (record v { db = rollback before v.db }))
      → P w
      → P (settle before (r, w)).1
  Preserves-settle before (ok a) w h p = p
  Preserves-settle before (err e) w h p = h w p

  -- A transaction preserves what a rollback preserves.
  pub Preserves-transaction :
      {A : Type 0} (m : Exec A)
      → ((before : Db) (v : World) → P v → P (record v { db = rollback before v.db }))
      → Preserves m
      → Preserves (transaction m)
  unfolding transaction
  Preserves-transaction m h hm w p = Preserves-settle w.db (m w).0 (m w).1 (h w.db) (hm w p)
