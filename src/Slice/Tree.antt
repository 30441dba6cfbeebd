-- ===== src/Slice/Tree.antt =====
-- crates/ibis-search/src/memory/claim_tree.rs: the claim files of a tree, and how they are put
-- beside the claims of the database.
pub mod Merge
use ibis_assistant.Prelude.{
  ℕ, Bool, true, false, not, Option, none, some, List, [], ◌∷◌, ◌++◌, map, any, ◌&&◌, ◌||◌,
  if◌then◌else◌,
}
use ibis_assistant.Effect.{Fallible, ok, err, Action, ◌>>=◌, pure}
use ibis_assistant.Text.{Text, str, text_eq, is_empty}
use ibis_assistant.Text.Trim.{trim}
use ibis_assistant.Text.Split.{starts_with, has_suffix}
use ibis_assistant.Text.Map.{lookup, insert}
use ibis_assistant.Claims.{Claim, claims_dir}
use ibis_assistant.Claims.Parse.{parse}
use ibis_assistant.Claims.Render.{Chrono}
use ibis_assistant.Records.{format_record_id, is_safe_record_id}
use ibis_assistant.Git.{GitError}
use ibis_assistant.Git.AsOf.{AsOfClaim}
use ibis_assistant.Slice.{
  SearchError, git, context, Result, try, MemoryRow, Database, Trees, Service, map_err,
}

pub record TreeClaim (Time : Type 0) : Type 0 where
  pub path : Text
  pub claim : Claim Time

unfoldable pub is_claim_path : Text → Bool
is_claim_path path = starts_with (claims_dir ++ str "/") path && has_suffix (str ".md") path

unfoldable pub tree_claim_record_id : {Time : Type 0} → Claim Time → Text
tree_claim_record_id claim =
    let record_id = format_record_id (str "memory") claim.id in
    if not (is_safe_record_id record_id) then [] else record_id

-- a claim that was found, in front of those behind it
abbrev pub with_claim :
    {Time Error : Type 0}
    → Text
    → Fallible Error (Claim Time)
    → List (TreeClaim Time)
    → List (TreeClaim Time)
with_claim path (err _) rest = rest
with_claim path (ok claim) rest = record { path = path; claim = claim } ∷ rest

-- a file may leave no content behind: it is not there, or git fails
abbrev pub content_of : {Bytes : Type 0} → Fallible GitError (Option Bytes) → Option Bytes
content_of (ok content) = content
content_of (err _) = none

abbrev pub newest : List Text → Text
newest [] = []
newest (oid ∷ _) = oid

abbrev pub oldest : List Text → Text
oldest [] = []
oldest (oid ∷ []) = oid
oldest (_ ∷ oid ∷ history) = oldest (oid ∷ history)

abbrev pub history_end : (List Text → Text) → Fallible GitError (List Text) → Text
history_end pick (ok history) = pick history
history_end pick (err _) = []

-- The owner registry: what the row says of a claim file, or the file alone.
abbrev pub owner_of : Option MemoryRow → Text
owner_of none = []
owner_of (some row) = row.owner

abbrev pub visibility_of : Text → Option MemoryRow → Text
visibility_of in_file none = in_file
visibility_of in_file (some row) = if is_empty row.visibility then in_file else row.visibility

abbrev pub status_of : Text → Option MemoryRow → Text
status_of invalidated (some row) = row.status
status_of invalidated none = if is_empty invalidated then str "current" else str "archived"

abbrev pub is_db : {S : Type 0} → Option (Database S) → Bool
is_db none = false
is_db (some _) = true

-- a personal claim of somebody else, where there is a registry
unfoldable pub is_withheld : Bool → Text → Text → Text → Bool
is_withheld registry actor visibility owner =
    text_eq visibility (str "personal") && not (text_eq owner (trim actor)) && registry

abbrev pub seen : Text → List AsOfClaim → Bool
seen id claims = any (λ c. text_eq c.id id) claims

-- `seen` of the code holds the ids of `out`
unfoldable pub add_unseen : Option AsOfClaim → List AsOfClaim → List AsOfClaim
add_unseen none out = out
add_unseen (some entry) out = if seen entry.id out then out else out ++ entry ∷ []

module _ {S Bytes Time : Type 0} (service : Service S Bytes) (chrono : Chrono Time)
    (decode : Bytes → Text) where
  abbrev pub parse_content : Text → Option Bytes → List (TreeClaim Time) → List (TreeClaim Time)
  parse_content path none rest = rest
  parse_content path (some bytes) rest = with_claim path (parse chrono (decode bytes)) rest

  unfoldable pub read_claims : Text → Text → List Text → Action S (List (TreeClaim Time))
  read_claims repo_path reference [] = pure []
  read_claims repo_path reference (path ∷ paths) =
      if not (is_claim_path path) then read_claims repo_path reference paths else (do
        content ← service.trees.file_at_ref repo_path reference path
        rest ← read_claims repo_path reference paths
        pure (parse_content path (content_of content) rest))

  unfoldable pub tree_claim_files : Text → Text → Action S (Result (List (TreeClaim Time)))
  unfolding read_claims
  tree_claim_files repo_path reference = do
    paths ← service.trees.list_tree repo_path reference
    try (map_err (λ e. context (str "list tree at " ++ reference) (git e)) paths)
        (λ found. (do claims ← read_claims repo_path reference found; pure (ok claims)))

  unfoldable pub claim_row_by_id : Text → Action S (Option MemoryRow)
  claim_row_by_id record_id = elim (service.db) [
    | none ↦ pure none
    | some db ↦ db.memory_row record_id
  ]

  unfoldable pub file_introduced_in : Text → Text → Action S Text
  file_introduced_in repo_path path = do
    history ← service.trees.file_history repo_path path
    pure (history_end oldest history)

  unfoldable pub file_removed_in : Text → Text → Action S Text
  file_removed_in repo_path path = do
    history ← service.trees.file_history repo_path path
    pure (history_end newest history)

  -- behind the look into the registry
  unfoldable pub shown_claim :
      Text → TreeClaim Time → Text → Text → Text → Option MemoryRow → Action S (Option AsOfClaim)
  shown_claim repo_path tc invalidated actor record_id row =
      if is_withheld (is_db service.db) actor (visibility_of tc.claim.visibility row) (owner_of row)
      then pure none
      else (do
        introduced ← file_introduced_in repo_path tc.path
        pure (
            some (record {
              id = record_id;
              kind = tc.claim.kind;
              title = tc.claim.title;
              status = status_of invalidated row;
              visibility = visibility_of tc.claim.visibility row;
              owner = owner_of row;
              introduced_in = introduced;
              invalidated_at = invalidated;
              source_kind = str "claim_file";
            })))

  unfoldable pub tree_claim_as_of :
      Text → TreeClaim Time → Text → Text → Action S (Option AsOfClaim)
  tree_claim_as_of repo_path tc invalidated actor =
      let record_id = tree_claim_record_id tc.claim in
      if is_empty record_id then pure none else (do
        row ← claim_row_by_id record_id
        shown_claim repo_path tc invalidated actor record_id row)

  unfoldable pub merge_claims :
      Text → Text → List (TreeClaim Time) → List AsOfClaim → Action S (List AsOfClaim)
  merge_claims repo_path actor [] out = pure out
  merge_claims repo_path actor (tc ∷ tree) out = do
    entry ← tree_claim_as_of repo_path tc [] actor
    merge_claims repo_path actor tree (add_unseen entry out)

  unfoldable pub merge_tree_claims_into_as_of :
      Text → Text → Text → List AsOfClaim → Action S (Result (List AsOfClaim))
  merge_tree_claims_into_as_of repo_path reference actor out = do
    tree ← tree_claim_files repo_path reference
    try tree (λ claims. (do merged ← merge_claims repo_path actor claims out; pure (ok merged)))
