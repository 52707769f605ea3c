-- ===== src/Database/Migration/Repeating.antt =====
-- A second run of RunMigrations finds nothing to do.
use mathlib.Core.List.{append-nil}
use holdex_backend_cqrs.Prelude.{
  String, ◌≡◌, refl, sym, ap, subst, ◌∙◌, true, Option, none, some, List, [], ◌∷◌, ◌++◌, inl, inr,
  Bool-cases, arith, str_eq, eq_refl, All,
}
use holdex_backend_cqrs.World.{fault?, later}
use holdex_backend_cqrs.Database.Migration.{
  MigrationError, Directory, Session, recorded, is_among, rest_of, in_turn, apply_one,
  run_migrations,
}
use holdex_backend_cqrs.Database.Migration.Applying.{
  Migrated, Stayed, in_turn-none, run_migrations-RunSplit,
}

is_among-snoc :
    (v w : String) (vs : List String) → is_among v vs ≡ true → is_among v (vs ++ w ∷ []) ≡ true
is_among-snoc v w [] h = absurd (ground arith)
is_among-snoc v w (u ∷ vs) h = elim (Bool-cases (str_eq u v)) [
  | inl y ↦ rw y
  | inr n ↦ rw n (is_among-snoc v w vs (rw n at h))
]

is_among-snoc_self : (v : String) (vs : List String) → is_among v (vs ++ v ∷ []) ≡ true
is_among-snoc_self v [] = rw (eq_refl v)
is_among-snoc_self v (u ∷ vs) = elim (Bool-cases (str_eq u v)) [
  | inl y ↦ rw y
  | inr n ↦ rw n (is_among-snoc_self v vs)
]

module _ {S : Type 0} (execute : String → S → Option S) (dir : Directory) where
  Migrated-is_among :
      (files : List String) (a b : S) (versions versions' : List String) (v : String)
      → Migrated execute dir files a versions b versions'
      → is_among v versions ≡ true
      → is_among v versions' ≡ true
  Migrated-is_among [] a b versions versions' v (p, q) h = rw q h
  Migrated-is_among (w ∷ ws) a b versions versions' v (inl (known, m)) h =
      Migrated-is_among ws a b versions versions' v m h
  Migrated-is_among (w ∷ ws) a b versions versions' v (inr (fresh, content, a', read, executed, m))
        h =
      Migrated-is_among ws a' b (versions ++ w ∷ []) versions' v m (is_among-snoc v w versions h)

  Migrated-All :
      (files : List String) (a b : S) (versions versions' : List String)
      → Migrated execute dir files a versions b versions'
      → All (λ v. is_among v versions' ≡ true) files
  Migrated-All [] a b versions versions' m = tt
  Migrated-All (w ∷ ws) a b versions versions' (inl (known, m)) = (
    Migrated-is_among ws a b versions versions' w m known,
    Migrated-All ws a b versions versions' m,
  )
  Migrated-All (w ∷ ws) a b versions versions' (inr (fresh, content, a', read, executed, m)) = (
    Migrated-is_among ws a' b (versions ++ w ∷ []) versions' w m (is_among-snoc_self w versions),
    Migrated-All ws a' b (versions ++ w ∷ []) versions' m,
  )

  rest_of-nil : (s : Session S) → s.faults ≡ [] → rest_of s ≡ s
  rest_of-nil s h = ap (λ fs. record s { faults = fs }) (ap later h ∙ sym h)

  apply_one_known :
      (v : String) (s : Session S)
      → s.faults ≡ []
      → is_among v (recorded s) ≡ true
      → apply_one execute dir v s ≡ (none, s)
  unfolding apply_one
  apply_one_known v s h known = rw (ap fault? h) (rw known (ap (λ t. (none, t)) (rest_of-nil s h)))

  files_known :
      (files : List String) (s : Session S)
      → s.faults ≡ []
      → All (λ v. is_among v (recorded s) ≡ true) files
      → in_turn (apply_one execute dir) files s ≡ (none, s)
  files_known [] s h known = refl
  files_known (v ∷ vs) s h known =
      let first = apply_one_known v s h known.0 in
      in_turn-none execute dir (apply_one execute dir) v vs s (ap (λ r. r.0) first)
      ∙ ap (λ r. in_turn (apply_one execute dir) vs r.1) first
      ∙ files_known vs s h known.1

  run_known :
      (s : Session S)
      → s.faults ≡ []
      → All (λ v. is_among v (recorded s) ≡ true) dir.up_files
      → run_migrations execute dir s ≡ (none, record s { applied = some (recorded s) })
  unfolding run_migrations
  run_known s h known =
      let t = record s { applied = some (recorded s) } in
      rw (ap fault? h) (
        rw (ap (λ fs. fault? (later fs)) h) (
          rw (ap (λ fs. fault? (later (later fs))) h) (
            ap (λ fs. in_turn (apply_one execute dir) dir.up_files (record t { faults = fs }))
              (ap (λ fs. later (later (later fs))) h ∙ sym h)
            ∙ files_known dir.up_files t h known)))

  -- After a run that returns no error, a run that no fault disturbs returns no error either, and
  -- leaves the schema and the recorded versions as they are.
  pub run_migrations_again :
      (s t : Session S)
      → run_migrations execute dir s ≡ (none, t)
      → ((run_migrations execute dir (record t { faults = [] })).0 ≡ none)
        × Stayed execute dir t (run_migrations execute dir (record t { faults = [] })).1
  run_migrations_again s t ran =
      let (done, rest, is_all, migrated, complete) = run_migrations-RunSplit execute dir s in
      let all_done : rest ≡ [] = elim complete [
        | inl e ↦ e
        | inr (e, failed) ↦ absurd (ground (arith, failed, ap (λ r. r.0) ran))
      ] in
      let all_known : All (λ v. is_among v (recorded t) ≡ true) dir.up_files =
        subst (λ fs. All (λ v. is_among v (recorded t) ≡ true) fs)
          (sym (append-nil done) ∙ ap (λ r. done ++ r) (sym all_done) ∙ is_all)
          (subst
            (λ (r : Option MigrationError × Session S).
              All (λ v. is_among v (recorded r.1) ≡ true) done)
            ran
            (Migrated-All done s.schema (run_migrations execute dir s).1.schema (recorded s)
              (recorded (run_migrations execute dir s).1) migrated)) in
      rw (run_known (record t { faults = [] }) refl all_known) (refl, (refl, refl))
