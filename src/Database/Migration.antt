-- ===== src/Database/Migration.antt =====
-- internal/database/migration.go: applying and rolling back the migrations of a directory. The
-- schema, and what PostgreSQL makes of a script, are parameters; so are the directory's files. A
-- session carries the faults of its calls, as a world does.
pub mod Applying
pub mod Command
pub mod Repeating
pub mod Reverting
use holdex_backend_cqrs.Prelude.{
  ℕ, String, Bool, true, false, not, Option, none, some, List, [], ◌∷◌, ◌++◌, str_eq, if◌then◌else◌,
  select, exists, take,
}
use holdex_backend_cqrs.World.{fault?, later}

pub data MigrationError : Type 0 where
  connect_failed create_table_failed glob_failed state_check_failed read_failed : MigrationError
  begin_failed execute_failed record_failed commit_failed query_failed scan_failed : MigrationError

-- What os.ReadFile, filepath.Glob and sort.Strings give for the directory: the base names of the
-- files that match `*.up.sql`, in their order, and the content of a file. `down_name` is
-- strings.Replace of `.up.sql` by `.down.sql`, and `newest_first` is ORDER BY version DESC.
pub record Directory : Type 0 where
  pub up_files : List String
  pub read_file : String → Option String
  pub down_name : String → String
  pub newest_first : List String → List String

-- `applied` is `none` before schema_migrations is created.
pub record Session (S : Type 0) : Type 0 where
  pub schema : S
  pub applied : Option (List String)
  pub faults : List Bool

abbrev pub versions_of : Option (List String) → List String
versions_of none = []
versions_of (some vs) = vs

abbrev pub is_among : String → List String → Bool
is_among v vs = exists (λ u. str_eq u v) vs

abbrev pub Run : Type 0 → Type 0
Run S = Session S → Option MigrationError × Session S

module _ {S : Type 0} where
  abbrev pub recorded : Session S → List String
  recorded s = versions_of s.applied

  abbrev pub rest_of : Session S → Session S
  rest_of s = record s { faults = later s.faults }

  -- A call that may fail with this error, and what follows it.
  abbrev pub call : MigrationError → Run S → Run S
  call e k s = if fault? s.faults then (some e, rest_of s) else k (rest_of s)

  -- One version after the other, up to the first error.
  abbrev pub in_turn : (String → Run S) → List String → Run S
  in_turn f [] s = (none, s)
  in_turn f (v ∷ vs) s = elim (f v s).0 [
    | none ↦ in_turn f vs (f v s).1
    | some e ↦ (some e, (f v s).1)
  ]

module _ {S : Type 0} (execute : String → S → Option S) (dir : Directory) where
  -- The end of a transaction: the record of the version, and the commit. A rollback leaves the
  -- session's schema and versions as they are.
  abbrev pub conclude : S → List String → Run S
  conclude schema versions =
      call record_failed
        (call commit_failed (λ s. (none, record s { schema = schema; applied = some versions })))

  -- Begin, the script, and the end.
  unfoldable pub in_transaction : String → (List String → List String) → Run S
  in_transaction content change = call begin_failed (
      call execute_failed (λ s. elim (execute content s.schema) [
        | none ↦ (some execute_failed, s)
        | some schema ↦ conclude schema (change (recorded s)) s
      ]))

  abbrev pub with_file : String → (String → Run S) → Run S
  with_file name k s = elim (dir.read_file name) [
    | none ↦ (some read_failed, s)
    | some content ↦ k content s
  ]

  unfoldable pub apply_one : String → Run S
  unfolding in_transaction
  apply_one v = call state_check_failed (λ s.
      if is_among v (recorded s)
      then (none, s)
      else with_file v (λ content. in_transaction content (λ vs. vs ++ v ∷ [])) s)

  unfoldable pub run_migrations : Run S
  unfolding apply_one
  run_migrations = call connect_failed (
      call create_table_failed (λ s.
        call glob_failed (in_turn apply_one dir.up_files)
          (record s { applied = some (recorded s) })))

  unfoldable pub revert_one : String → Run S
  unfolding in_transaction
  revert_one v =
      with_file (dir.down_name v)
        (λ content. in_transaction content (select (λ u. not (str_eq u v))))

  -- The rows of the query: an iteration that breaks off has delivered some of them, and is not
  -- told from one that ends, for `rows.Err` is not asked.
  abbrev pub delivered : ℕ → Session S → List String
  delivered broken_at s =
      let versions = dir.newest_first (recorded s) in
      if fault? s.faults then take broken_at versions else versions

  unfoldable pub revert_all : ℕ → Run S
  unfolding revert_one
  revert_all broken_at s = in_turn revert_one (delivered broken_at s) (rest_of s)

  -- A check of the table that fails counts as a table that is not there.
  unfoldable pub rollback_migrations : ℕ → Run S
  unfolding revert_all
  rollback_migrations broken_at = call connect_failed (λ s.
      if fault? s.faults then (none, rest_of s) else elim s.applied [
        | none ↦ (none, rest_of s)
        | some vs ↦ call query_failed (revert_all broken_at) (rest_of s)
      ])
