-- ===== src/Slice.antt =====
-- What the claims of a project are at a commit, and what changed between two: the calls of
-- crates/ibis-search/src/memory that need git and the database, both of which are parameters.
-- ancestry.rs is here, claim_tree.rs in Slice.Tree, asof.rs in Slice.AtRef, kdiff.rs in Slice.Diff.
pub mod Tree
pub mod AtRef
pub mod Diff
mod Tests
use ibis_assistant.Prelude.{
  ℕ, ◌+◌, Bool, true, false, Option, none, some, List, [], ◌∷◌, ◌++◌, length, take, ltb, ◌==◌, ◌||◌,
  if◌then◌else◌,
}
use ibis_assistant.Effect.{Fallible, ok, err, Action, ◌>>=◌, pure}
use ibis_assistant.Text.{Text, str, is_empty}
use ibis_assistant.Text.Trim.{trim}
use ibis_assistant.Records.{format_record_id, sanitize_id}
use ibis_assistant.Git.{GitError, AncestorSet, Anchors, State, outside}
use ibis_assistant.Git
use ibis_assistant.Git.AsOf.{ClaimRow}

-- the errors that the calls here make; `context` stands for a message with the error behind it
pub data SearchError : Type 0 where
  git : GitError → SearchError
  database : Text → SearchError
  context : Text → SearchError → SearchError
  other : Text → SearchError

abbrev pub Result : Type 0 → Type 0
Result A = Fallible SearchError A

-- the `?` of Rust, in calls that read and change a world
abbrev pub try : {S A B : Type 0} → Result A → (A → Action S (Result B)) → Action S (Result B)
try (err e) next = pure (err e)
try (ok a) next = next a

abbrev pub map_err : {E A : Type 0} → (E → SearchError) → Fallible E A → Result A
map_err f (ok a) = ok a
map_err f (err e) = err (f e)

-- the columns of a memory that are read beside its claim file
pub record MemoryRow : Type 0 where
  pub owner : Text
  pub status : Text
  pub visibility : Text

-- The database: the rows of a query with a limit, and one memory by its id.
pub record Database (S : Type 0) : Type 0 where
  pub git_bound_rows : Text → ℕ → Action S (Fallible Text (List ClaimRow))
  pub memory_row : Text → Action S (Option MemoryRow)

-- What git tells of trees and files; a file is of a type `Bytes`.
pub record Trees (S Bytes : Type 0) : Type 0 where
  pub list_tree : Text → Text → Action S (Fallible GitError (List Text))
  pub file_at_ref : Text → Text → Text → Action S (Fallible GitError (Option Bytes))
  pub file_history : Text → Text → Action S (Fallible GitError (List Text))
  pub diff_paths : Text → Text → Text → Action S (Fallible GitError (List Text))
  pub merge_base : Text → Text → Text → Action S (Fallible GitError Text)

-- the fields of `SearchService` that are read, with a git anchor source
pub record Service (S Bytes : Type 0) : Type 0 where
  pub anchors : Anchors S
  pub trees : Trees S Bytes
  pub db : Option (Database S)

-- `memory::repo_record_id`
unfoldable pub repo_record_id : (Text → Text) → Text → Text
repo_record_id to_lowercase project_name =
    if is_empty (trim project_name)
    then []
    else format_record_id (str "repo") (sanitize_id to_lowercase project_name)

-- one row more than the limit is asked for, to see that there are more
unfoldable pub cut_rows : ℕ → List ClaimRow → List ClaimRow × Bool
cut_rows limit rows = if ltb limit (length rows) then (take limit rows, true) else (rows, false)

abbrev pub or_2000 : ℕ → ℕ
or_2000 limit = if limit == 0 then 2000 else limit

abbrev pub cut_result : ℕ → Fallible Text (List ClaimRow) → Result (List ClaimRow × Bool)
cut_result limit (err e) = err (context (str "query git-bound claims") (database e))
cut_result limit (ok rows) = ok (cut_rows limit rows)

module _ {S Bytes : Type 0} (service : Service S Bytes) (to_lowercase : Text → Text) where
  -- `ancestor_set_for` of the search crate
  unfoldable pub ancestor_set_for : Text → Text → Action (State S) (Result AncestorSet)
  ancestor_set_for repo_path reference =
      if is_empty (trim repo_path) || is_empty (trim reference)
      then pure (err (other (str "ancestor set requires a git anchor source, repo path, and ref")))
      else (do
        set ← Git.ancestor_set_for service.anchors repo_path reference
        pure (map_err git set))

  unfoldable pub git_bound_claims_for_project :
      Text → ℕ → Action (State S) (Result (List ClaimRow × Bool))
  unfolding cut_rows
  git_bound_claims_for_project project_name limit = elim (service.db) [
    | none ↦ pure (ok ([], false))
    | some db ↦ do
      rows ←
          outside (db.git_bound_rows (repo_record_id to_lowercase project_name) (or_2000 limit + 1))
      pure (cut_result (or_2000 limit) rows)
  ]
