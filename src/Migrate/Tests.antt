-- ===== src/Migrate/Tests.antt =====
-- A database that keeps its version, and two pending migrations out of three.
use ibis_assistant.Prelude.{◌≡◌, refl, Option, none, some, List, [], ◌∷◌}
use ibis_assistant.Effect.{Fallible, ok}
use ibis_assistant.Text.{Text, str}
use ibis_assistant.Text.Number.{ℤ, pos}
use ibis_assistant.Migrate.{
  Migration, Statement, define_migration_table, select_current, run_sql, upsert_current, VersionRow,
  no_object, version, Executor, version_of, first_version, pending, send, current_version,
  record_version, apply, migrate_with,
}
use ibis_assistant.Migrate.Log.{logged, statements, last_id, AreNewer, migrate_with-log}

abbrev run : Statement → ℤ → Fallible Text (Option (List VersionRow)) × ℤ
run define_migration_table n = (ok none, n)
run select_current n = (ok (some (no_object ∷ version n ∷ [])), n)
run (run_sql _) n = (ok none, n)
run (upsert_current v) n = (ok none, v)

abbrev database : Executor ℤ Text
database = record { execute = run }

abbrev migrations : List Migration
migrations =
    record { id = pos 1; sql = str "A" }
    ∷ record { id = pos 2; sql = str "B" }
    ∷ record { id = pos 3; sql = str "C" }
    ∷ []

abbrev sent_statements : List Statement
sent_statements =
    define_migration_table
    ∷ select_current
    ∷ run_sql (str "B")
    ∷ upsert_current (pos 2)
    ∷ run_sql (str "C")
    ∷ upsert_current (pos 3)
    ∷ []

migrated :
    migrate_with (logged database) migrations ([], pos 1) ≡ (ok (pos 3), (sent_statements, pos 3))
unfolding migrate_with apply pending current_version record_version send first_version
migrated = refl

migrate_with-log_example :
    (current : ℤ) × (rows : Option (List VersionRow)) × (newer : List Migration) × ((run
        select_current
        (run define_migration_table (pos 1)).1).0
      ≡ ok rows)
    × (version_of {E = Text} rows ≡ ok current)
    × AreNewer current migrations newer
    × (sent_statements ≡ define_migration_table ∷ select_current ∷ statements newer)
    × (pos 3 ≡ last_id current newer)
migrate_with-log_example =
    migrate_with-log database migrations (pos 3) [] sent_statements (pos 1) (pos 3) migrated
