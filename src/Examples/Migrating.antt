-- ===== src/Examples/Migrating.antt =====
-- The theorems on the migrations at a directory of two.
use holdex_backend_cqrs.Prelude.{
  select, not, List, String, ◌≡◌, refl, true, false, Option, none, some, [], ◌∷◌, str_eq,
  if◌then◌else◌,
}
use holdex_backend_cqrs.Database.Migration.{
  commit_failed, Directory, Session, recorded, is_among, apply_one, in_transaction, run_migrations,
  rollback_migrations,
}
use holdex_backend_cqrs.Database.Migration.Applying.{Stayed, RunSplit, run_migrations-RunSplit}
use holdex_backend_cqrs.Database.Migration.Repeating.{run_migrations_again}
use holdex_backend_cqrs.Database.Migration.Reverting.{
  session_at, Reverses, Reverses-cons, rollback-run_migrations,
}

-- A schema is the list of its tables, and the scripts are those of the first two migrations: `CREATE
-- TABLE IF NOT EXISTS` and `DROP TABLE IF EXISTS`.
abbrev create : String → List String → List String
create table tables = if is_among table tables then tables else table ∷ tables

abbrev drop_table : String → List String → List String
drop_table table tables = select (λ t. not (str_eq t table)) tables

abbrev execute : String → List String → Option (List String)
execute script tables =
    if str_eq script "create events"
    then some (create "events" tables)
    else if str_eq script "create read models"
    then some (create "price_history" (create "market_summaries" tables))
    else if str_eq script "drop events"
    then some (drop_table "events" tables)
    else if str_eq script "drop read models"
    then some (drop_table "market_summaries" (drop_table "price_history" tables))
    else none

abbrev script_of : String → Option String
script_of name =
    if str_eq name "001_events.up.sql"
    then some "create events"
    else if str_eq name "001_events.down.sql"
    then some "drop events"
    else if str_eq name "002_read_models.up.sql"
    then some "create read models"
    else if str_eq name "002_read_models.down.sql"
    then some "drop read models"
    else none

abbrev two_files : Directory
two_files = record {
  up_files = "001_events.up.sql" ∷ "002_read_models.up.sql" ∷ [];
  read_file = script_of;
  down_name = λ name.
      if str_eq name "001_events.up.sql" then "001_events.down.sql" else "002_read_models.down.sql";
  newest_first = λ versions. "002_read_models.up.sql" ∷ "001_events.up.sql" ∷ [];
}

abbrev fresh : Session (List String)
fresh = record { schema = []; applied = none; faults = [] }

abbrev both : Session (List String)
both =
    session_at ("price_history" ∷ "market_summaries" ∷ "events" ∷ [])
      ("001_events.up.sql" ∷ "002_read_models.up.sql" ∷ [])

-- The commit of the second migration will fail.
abbrev faulty : Session (List String)
faulty = record fresh {
  faults =
      false ∷ false ∷ false ∷ false ∷ false ∷ false ∷ false ∷ false ∷ false ∷ false ∷ false ∷ false
      ∷ true ∷ [];
}

half_done :
    run_migrations execute two_files faulty
    ≡ (some commit_failed, session_at ("events" ∷ []) ("001_events.up.sql" ∷ []))
unfolding run_migrations apply_one in_transaction
half_done = refl

all_done : run_migrations execute two_files fresh ≡ (none, both)
unfolding run_migrations apply_one in_transaction
all_done = refl

down_undoes : Reverses execute two_files two_files.up_files []
down_undoes =
    Reverses-cons execute two_files "001_events.up.sql" "create events" "drop events"
      ("002_read_models.up.sql" ∷ []) [] ("events" ∷ []) refl refl refl refl
      (Reverses-cons execute two_files "002_read_models.up.sql" "create read models"
        "drop read models" [] ("events" ∷ []) ("price_history" ∷ "market_summaries" ∷ "events" ∷ [])
        refl refl refl refl tt tt)
      (Reverses-cons execute two_files "002_read_models.up.sql" "create read models"
        "drop read models" [] [] ("price_history" ∷ "market_summaries" ∷ []) refl refl refl refl tt
        tt)

run_migrations-RunSplit_example :
    RunSplit execute two_files two_files.up_files faulty (run_migrations execute two_files faulty)
run_migrations-RunSplit_example = run_migrations-RunSplit execute two_files faulty

run_migrations_again_example :
    ((run_migrations execute two_files (record both { faults = [] })).0 ≡ none)
    × Stayed execute two_files both
        (run_migrations execute two_files (record both { faults = [] })).1
run_migrations_again_example = run_migrations_again execute two_files fresh both all_done

rollback-run_migrations_example :
    rollback_migrations execute two_files 0 (session_at both.schema (recorded both))
    ≡ (none, session_at [] [])
rollback-run_migrations_example =
    rollback-run_migrations execute two_files fresh both none 0 down_undoes refl all_done refl
