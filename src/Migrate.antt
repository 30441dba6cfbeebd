-- ===== src/Migrate.antt =====
-- crates/ibis-db/src/migrate.rs: pending migrations are applied, each followed by its version
-- record. The executor is the database's; its rows are read as far as `current_version` looks.
pub mod Log
mod Tests
use ibis_assistant.Prelude.{
  ℕ, ◌≡◌, Bool, true, false, Option, none, some, List, [], ◌∷◌, ◌++◌, ltb, if◌then◌else◌,
}
use ibis_assistant.Effect.{Fallible, ok, err, Action}
use ibis_assistant.Text.{Text}
use ibis_assistant.Text.Number.{ℤ, pos, negsuc}

-- `>` of an `i64`
abbrev pub gt : ℤ → ℤ → Bool
gt (pos a) (pos b) = ltb b a
gt (pos a) (negsuc b) = true
gt (negsuc a) (pos b) = false
gt (negsuc a) (negsuc b) = ltb a b

pub record Migration : Type 0 where
  pub id : ℤ
  pub sql : Text

-- the statements that are sent
pub data Statement : Type 0 where
  define_migration_table select_current : Statement
  run_sql : Text → Statement
  upsert_current : ℤ → Statement

-- what a row of the version record says
pub data VersionRow : Type 0 where
  no_object no_version no_integer undecodable : VersionRow
  version : ℤ → VersionRow

pub data DbError (E : Type 0) : Type 0 where
  failed : E → DbError E
  decode : DbError E

-- what a statement gives: the rows of the first result, if that is an array
pub record Executor (S E : Type 0) : Type 0 where
  pub execute : Statement → Action S (Fallible E (Option (List VersionRow)))

-- a chain of statements: what it returns, and the world it leaves
abbrev pub AsyncResult : Type 0 → Type 0 → Type 0 → Type 0
AsyncResult S E A = Action S (Fallible (DbError E) A)

-- what follows an outcome; an error ends the run
abbrev pub on_ok :
    {S E A B : Type 0}
    → (A → AsyncResult S E B)
    → Fallible (DbError E) A × S
    → Fallible (DbError E) B × S
on_ok f (ok a, s) = f a s
on_ok f (err e, s) = (err e, s)

abbrev pub failed_with : {S E A : Type 0} → Fallible E A × S → Fallible (DbError E) A × S
failed_with (ok a, s) = (ok a, s)
failed_with (err e, s) = (err (failed e), s)

-- the first row that holds an integer; one that cannot be decoded in front of it is an error
unfoldable pub first_version : {E : Type 0} → List VersionRow → Fallible (DbError E) ℤ
first_version [] = ok (pos 0)
first_version (no_object ∷ rows) = first_version rows
first_version (no_version ∷ rows) = first_version rows
first_version (no_integer ∷ rows) = first_version rows
first_version (undecodable ∷ rows) = err decode
first_version (version n ∷ rows) = ok n

abbrev pub version_of : {E : Type 0} → Option (List VersionRow) → Fallible (DbError E) ℤ
version_of none = ok (pos 0)
version_of (some rows) = first_version rows

-- the migrations that are newer
unfoldable pub pending : ℤ → List Migration → List Migration
pending current [] = []
pending current (m ∷ ms) =
    let rest = pending current ms in if gt m.id current then m ∷ rest else rest

module _ {S E : Type 0} (exec : Executor S E) where
  unfoldable pub send : Statement → AsyncResult S E (Option (List VersionRow))
  send statement s = failed_with (exec.execute statement s)

  unfoldable pub current_version : AsyncResult S E ℤ
  current_version s = on_ok (λ rows s'. (version_of rows, s')) (send select_current s)

  unfoldable pub record_version : ℤ → AsyncResult S E (Unit {0})
  record_version v s = on_ok (λ _ s'. (ok tt, s')) (send (upsert_current v) s)

  -- the loop; `last` is the version that it returns if nothing is left
  unfoldable pub apply : List Migration → ℤ → AsyncResult S E ℤ
  apply [] last s = (ok last, s)
  apply (m ∷ ms) last s =
      on_ok (λ _ s1. on_ok (λ _ s2. apply ms m.id s2) (record_version m.id s1))
        (send (run_sql m.sql) s)

  unfoldable pub migrate_with : List Migration → AsyncResult S E ℤ
  migrate_with migrations s =
      on_ok
        (λ _ s1.
          on_ok (λ current s2. apply (pending current migrations) current s2) (current_version s1))
        (send define_migration_table s)
