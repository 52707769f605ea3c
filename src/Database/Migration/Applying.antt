-- ===== src/Database/Migration/Applying.antt =====
-- RunMigrations of migration.go: what a run has applied, and that a second run changes nothing.
use holdex_backend_cqrs.Prelude.{
  String, ◌≡◌, refl, sym, ap, subst, true, false, Option, none, some, List, [], ◌∷◌, ◌++◌, ◌⊎◌, inl,
  inr, Bool-cases, Option-cases,
}
use holdex_backend_cqrs.World.{fault?, later}
use holdex_backend_cqrs.Database.Migration.{
  MigrationError, Run, Directory, Session, recorded, is_among, rest_of, in_turn, in_transaction,
  with_file, apply_one, run_migrations,
}

module _ {S : Type 0} (execute : String → S → Option S) (dir : Directory) where
  -- What has become of a schema and its versions: each file was skipped, for its version was
  -- recorded, or its script was executed and its version recorded, in order.
  abbrev pub Migrated : List String → S → List String → S → List String → Type 0
  Migrated [] a versions b versions' = (b ≡ a) × (versions' ≡ versions)
  Migrated (v ∷ vs) a versions b versions' =
      ((is_among v versions ≡ true) × Migrated vs a versions b versions')
      ⊎ ((is_among v versions ≡ false)
          × (content : String) × (a' : S) × (dir.read_file v ≡ some content)
          × (execute content a ≡ some a')
          × Migrated vs a' (versions ++ v ∷ []) b versions')

  -- A run that has left the schema and the versions alone.
  abbrev pub Stayed : Session S → Session S → Type 0
  Stayed s t = (t.schema ≡ s.schema) × (recorded t ≡ recorded s)

  -- A transaction has executed its script and changed the versions, or nothing has changed.
  abbrev pub Ended :
      String → (List String → List String) → Session S → Option MigrationError × Session S → Type 0
  Ended content change s r =
      ((r.0 ≡ none)
        × (execute content s.schema ≡ some r.1.schema)
        × (recorded r.1 ≡ change (recorded s)))
      ⊎ ((e : MigrationError) × (r.0 ≡ some e) × Stayed s r.1)

  pub in_transaction-Ended :
      (content : String) (change : List String → List String) (s : Session S)
      → Ended content change s (in_transaction execute dir content change s)
  unfolding in_transaction
  in_transaction-Ended content change s = elim (Bool-cases (fault? s.faults)) [
    | inl x ↦ rw x (inr (_, refl, (refl, refl)))
    | inr x ↦ rw x (elim (Bool-cases (fault? (later s.faults))) [
      | inl y ↦ rw y (inr (_, refl, (refl, refl)))
      | inr y ↦ rw y (elim (Option-cases (execute content s.schema)) [
        | inl z ↦ rw z (inr (_, refl, (refl, refl)))
        | inr (a, z) ↦ rw z (elim (Bool-cases (fault? (later (later s.faults)))) [
          | inl u ↦ rw u (inr (_, refl, (refl, refl)))
          | inr u ↦ rw u (elim (Bool-cases (fault? (later (later (later s.faults))))) [
            | inl t ↦ rw t (inr (_, refl, (refl, refl)))
            | inr t ↦ rw t (inl (refl, refl, refl))
          ])
        ])
      ])
    ])
  ]

  -- One file is skipped, or its transaction ends, or it fails before one begins.
  apply_one-cases :
      (v : String) (s : Session S)
      → (((apply_one execute dir v s).0 ≡ none)
          × (is_among v (recorded s) ≡ true)
          × Stayed s (apply_one execute dir v s).1)
        ⊎ ((is_among v (recorded s) ≡ false)
            × (content : String) × (dir.read_file v ≡ some content)
            × Ended content (λ vs. vs ++ v ∷ []) s (apply_one execute dir v s))
        ⊎ ((e : MigrationError) × ((apply_one execute dir v s).0 ≡ some e)
            × Stayed s (apply_one execute dir v s).1)
  unfolding apply_one
  apply_one-cases v s = elim (Bool-cases (fault? s.faults)) [
    | inl x ↦ rw x (inr (inr (_, refl, (refl, refl))))
    | inr x ↦ rw x (elim (Bool-cases (is_among v (recorded s))) [
      | inl y ↦ rw y (inl (refl, refl, (refl, refl)))
      | inr y ↦ rw y (elim (Option-cases (dir.read_file v)) [
        | inl z ↦ rw (z, with_file) (inr (inr (_, refl, (refl, refl))))
        | inr (content, z) ↦
            rw (z, with_file)
              (inr (
                inl (
                  refl,
                  content,
                  refl,
                  in_transaction-Ended content (λ vs. vs ++ v ∷ []) (rest_of s),
                )))
      ])
    ])
  ]

  -- What a loop over the files has done: a first part of them, which is all unless there is an error.
  abbrev pub RunSplit : List String → Session S → Option MigrationError × Session S → Type 0
  RunSplit files s r =
      (done : List String) × (rest : List String) × (done ++ rest ≡ files)
      × Migrated done s.schema (recorded s) r.1.schema (recorded r.1)
      × ((rest ≡ []) ⊎ ((e : MigrationError) × (r.0 ≡ some e)))

  Migrated-cast :
      (done : List String) (b : S) (vs' : List String) (a a' : S) (vs vs2 : List String)
      → a' ≡ a
      → vs2 ≡ vs
      → Migrated done a' vs2 b vs'
      → Migrated done a vs b vs'
  Migrated-cast done b vs' a a' vs vs2 p q m =
      subst (λ x. Migrated done x vs b vs') p (subst (λ x. Migrated done a' x b vs') q m)

  Stayed-RunSplit :
      (files : List String) (s t : Session S) (e : MigrationError)
      → Stayed s t
      → RunSplit files s (some e, t)
  Stayed-RunSplit files s t e (p, q) = ([], files, refl, (p, q), inr (e, refl))

  pub in_turn-none :
      (f : String → Run S) (v : String) (vs : List String) (s : Session S)
      → (f v s).0 ≡ none
      → in_turn f (v ∷ vs) s ≡ in_turn f vs (f v s).1
  in_turn-none f v vs s h = rw (h, in_turn)

  in_turn-some :
      (f : String → Run S) (v : String) (vs : List String) (s : Session S) {e : MigrationError}
      → (f v s).0 ≡ some e
      → in_turn f (v ∷ vs) s ≡ (some e, (f v s).1)
  in_turn-some f v vs s h = rw (h, in_turn)

  apply_all-RunSplit :
      (files : List String) (s : Session S)
      → RunSplit files s (in_turn (apply_one execute dir) files s)
  apply_all-RunSplit [] s = ([], [], refl, (refl, refl), inl refl)
  apply_all-RunSplit (v ∷ vs) s =
      let t = (apply_one execute dir v s).1 in
      let (done, rest, is_all, migrated, complete) = apply_all-RunSplit vs t in
      elim (apply_one-cases v s) [
        | inl (ok, known, (p, q)) ↦
            subst (λ r. RunSplit (v ∷ vs) s r)
              (sym (in_turn-none (apply_one execute dir) v vs s ok))
              (
                v ∷ done,
                rest,
                ap (λ l. v ∷ l) is_all,
                inl (
                  known,
                  Migrated-cast done _ _ s.schema t.schema (recorded s) (recorded t) p q migrated,
                ),
                complete,
              )
        | inr (inl (fresh, content, read, inl (ok, executed, q))) ↦
            subst (λ r. RunSplit (v ∷ vs) s r)
              (sym (in_turn-none (apply_one execute dir) v vs s ok))
              (
                v ∷ done,
                rest,
                ap (λ l. v ∷ l) is_all,
                inr (
                  fresh,
                  content,
                  t.schema,
                  read,
                  executed,
                  Migrated-cast done _ _ t.schema t.schema (recorded s ++ v ∷ []) (recorded t) refl
                      q migrated,
                ),
                complete,
              )
        | inr (inl (fresh, content, read, inr (e, failed, stayed))) ↦
            subst (λ r. RunSplit (v ∷ vs) s r)
              (sym (in_turn-some (apply_one execute dir) v vs s failed))
              (Stayed-RunSplit (v ∷ vs) s t e stayed)
        | inr (inr (e, failed, stayed)) ↦
            subst (λ r. RunSplit (v ∷ vs) s r)
              (sym (in_turn-some (apply_one execute dir) v vs s failed))
              (Stayed-RunSplit (v ∷ vs) s t e stayed)
      ]

  -- Whatever fails, RunMigrations has gone through a first part of the files in order: it has
  -- skipped the versions that were recorded, and executed and recorded the others, each whole. It
  -- has gone through all of them if it returns no error.
  pub run_migrations-RunSplit :
      (s : Session S) → RunSplit dir.up_files s (run_migrations execute dir s)
  unfolding run_migrations
  run_migrations-RunSplit s = elim (Bool-cases (fault? s.faults)) [
    | inl x ↦ rw x (Stayed-RunSplit dir.up_files s (rest_of s) _ (refl, refl))
    | inr x ↦ rw x (elim (Bool-cases (fault? (later s.faults))) [
      | inl y ↦ rw y (Stayed-RunSplit dir.up_files s (rest_of (rest_of s)) _ (refl, refl))
      | inr y ↦ rw y (elim (Bool-cases (fault? (later (later s.faults)))) [
        | inl z ↦ rw z (
            Stayed-RunSplit dir.up_files s
              (record (rest_of (rest_of (rest_of s))) { applied = some (recorded s) }) _
              (refl, refl))
        | inr z ↦ rw z (apply_all-RunSplit dir.up_files _)
      ])
    ])
  ]
