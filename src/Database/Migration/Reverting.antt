-- ===== src/Database/Migration/Reverting.antt =====
-- RollbackMigrations of migration.go: undoing what a run has applied.
use mathlib.Core.List.{append-nil, append_assoc}
use holdex_backend_cqrs.Prelude.{
  ℕ, String, ◌≡◌, refl, sym, ap, subst, ◌∙◌, Bool, true, false, not, Option, none, some, List, [],
  ◌∷◌, ◌++◌, inl, inr, Bool-cases, arith, str_eq, eq_refl, select,
}
use holdex_backend_cqrs.Database.Migration.{
  MigrationError, Directory, Session, recorded, is_among, in_turn, with_file, in_transaction,
  run_migrations, revert_one, rollback_migrations,
}
use holdex_backend_cqrs.Database.Migration.Applying.{
  Migrated, RunSplit, in_turn-none, run_migrations-RunSplit,
}

-- The elements of the first list in front of the second, the last one first.
abbrev pub reverse_onto : List String → List String → List String
reverse_onto [] tail = tail
reverse_onto (v ∷ vs) tail = reverse_onto vs (v ∷ tail)

select-snoc :
    (v : String) (vs : List String)
    → is_among v vs ≡ false
    → select (λ u. not (str_eq u v)) (vs ++ v ∷ []) ≡ vs
select-snoc v [] h = rw (eq_refl v)
select-snoc v (u ∷ vs) h = elim (Bool-cases (str_eq u v)) [
  | inl y ↦ absurd (ground arith)
  | inr n ↦ rw n (ap (λ l. u ∷ l) (select-snoc v vs (rw n at h)))
]

module _ {S : Type 0} where
  -- A session that no fault will disturb.
  abbrev pub session_at : S → List String → Session S
  session_at schema versions = record { schema = schema; applied = some versions; faults = [] }

module _ {S : Type 0} (execute : String → S → Option S) (dir : Directory) where
  -- On the schemas that a run through these files comes to from this one, the down script of each
  -- migration undoes its up script. On other schemas it need not: `CREATE TABLE IF NOT EXISTS` leaves
  -- a table that is there, and `DROP TABLE` would drop it.
  abbrev pub Reverses : List String → S → Type 0
  Reverses [] a = Unit
  Reverses (v ∷ vs) a =
      ((content : String) (a' : S)
        → dir.read_file v ≡ some content
        → execute content a ≡ some a'
        → ((down : String) × (dir.read_file (dir.down_name v) ≡ some down)
            × (execute down a' ≡ some a))
          × Reverses vs a')
      × Reverses vs a

  some_inj : {A : Type 0} (a b : A) → some a ≡ some b → a ≡ b
  some_inj a b h = ground (arith, h)

  -- A file whose two scripts are known.
  pub Reverses-cons :
      (v up down : String) (vs : List String) (a b : S)
      → dir.read_file v ≡ some up
      → execute up a ≡ some b
      → dir.read_file (dir.down_name v) ≡ some down
      → execute down b ≡ some a
      → Reverses vs b
      → Reverses vs a
      → Reverses (v ∷ vs) a
  Reverses-cons v up down vs a b is_up executed is_down undone on_b on_a = (
    λ content a' read ran.
        (let script : up ≡ content = some_inj up content (sym is_up ∙ read) in
          let result : b ≡ a' = some_inj b a' (sym executed ∙ ap (λ c. execute c a) script ∙ ran) in
          (
            (down, is_down, subst (λ s. execute down s ≡ some a) result undone),
            subst (λ s. Reverses vs s) result on_b,
          )),
    on_a,
  )

  revert_one_last :
      (v down : String) (a a' : S) (versions : List String)
      → is_among v versions ≡ false
      → dir.read_file (dir.down_name v) ≡ some down
      → execute down a' ≡ some a
      → revert_one execute dir v (session_at a' (versions ++ v ∷ []))
        ≡ (none, session_at a versions)
  unfolding revert_one in_transaction
  revert_one_last v down a a' versions fresh read executed =
      rw (read, with_file)
        (rw executed (ap (λ vs. (none, session_at a vs)) (select-snoc v versions fresh)))

  revert_Migrated :
      (files rest : List String) (a b : S) (versions versions' : List String)
      → Reverses (files ++ rest) a
      → Migrated execute dir files a versions b versions'
      → (added : List String) × (versions' ≡ versions ++ added)
        × ((tail : List String)
            → in_turn (revert_one execute dir) (reverse_onto added tail) (session_at b versions')
              ≡ in_turn (revert_one execute dir) tail (session_at a versions))
  revert_Migrated [] rest a b versions versions' undo (p, q) =
      ([], q ∙ sym (append-nil versions), λ tail. rw (p, q))
  revert_Migrated (v ∷ vs) rest a b versions versions' (here, later_ones) (inl (known, m)) =
      revert_Migrated vs rest a b versions versions' later_ones m
  revert_Migrated (v ∷ vs) rest a b versions versions' (here, later_ones)
        (inr (fresh, content, a', read, executed, m)) =
      let ((down, down_read, down_executed), undo_rest) = here content a' read executed in
      let (added, is_all, undone) =
        revert_Migrated vs rest a' b (versions ++ v ∷ []) versions' undo_rest m in
      let last = revert_one_last v down a a' versions fresh down_read down_executed in
      (
        v ∷ added,
        is_all ∙ append_assoc versions (v ∷ []) added,
        λ tail.
            undone (v ∷ tail)
            ∙ in_turn-none execute dir (revert_one execute dir) v tail
                (session_at a' (versions ++ v ∷ [])) (ap (λ r. r.0) last)
            ∙ ap (λ r. in_turn (revert_one execute dir) tail r.1) last,
      )

  rollback-in_turn :
      (broken_at : ℕ) (schema : S) (versions : List String)
      → rollback_migrations execute dir broken_at (session_at schema versions)
        ≡ in_turn (revert_one execute dir) (dir.newest_first versions) (session_at schema versions)
  unfolding rollback_migrations
  rollback-in_turn broken_at schema versions = refl

  -- Whatever RunMigrations has done from a session without versions, whether it failed or not, a
  -- rollback that no fault disturbs undoes: the schema is as before, and no version is recorded. On the
  -- schemas that the run comes to each down script must undo its up script, and the query must return
  -- the versions in the reverse of the order in which they were recorded.
  pub rollback-run_migrations :
      (s t : Session S) (e : Option MigrationError) (broken_at : ℕ)
      → Reverses dir.up_files s.schema
      → recorded s ≡ []
      → run_migrations execute dir s ≡ (e, t)
      → dir.newest_first (recorded t) ≡ reverse_onto (recorded t) []
      → rollback_migrations execute dir broken_at (session_at t.schema (recorded t))
        ≡ (none, session_at s.schema [])
  rollback-run_migrations s t e broken_at undo empty ran ordered =
      let (done, rest, is_all, migrated, complete) =
        subst (λ r. RunSplit execute dir dir.up_files s r) ran
          (run_migrations-RunSplit execute dir s) in
      let (added, is_added, undone) =
        revert_Migrated done rest s.schema t.schema (recorded s) (recorded t)
          (subst (λ fs. Reverses fs s.schema) (sym is_all) undo) migrated in
      let only_added : recorded t ≡ added = is_added ∙ ap (λ vs. vs ++ added) empty in
      rollback-in_turn broken_at t.schema (recorded t)
      ∙ ap (λ vs. in_turn (revert_one execute dir) vs (session_at t.schema (recorded t)))
          (ordered ∙ ap (λ vs. reverse_onto vs []) only_added)
      ∙ undone []
      ∙ ap (λ vs. (none, session_at s.schema vs)) empty

  -- Where the check of the table fails, and where the rows of the query break off before the first
  -- one, a rollback returns no error though it has undone nothing.
  pub rollback_unnoticed :
      (schema : S) (versions : List String) (faults : List Bool)
      → let unchecked = record (session_at schema versions) { faults = false ∷ true ∷ faults } in
        let broken = record (session_at schema versions) {
          faults = false ∷ false ∷ false ∷ true ∷ faults;
        } in
        (rollback_migrations execute dir 0 unchecked ≡ (none, record unchecked { faults = faults }))
        × (rollback_migrations execute dir 0 broken ≡ (none, record broken { faults = faults }))
  unfolding rollback_migrations
  rollback_unnoticed schema versions faults = (refl, refl)
