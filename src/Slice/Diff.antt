-- ===== src/Slice/Diff.antt =====
-- crates/ibis-search/src/memory/kdiff.rs: what changed between two refs, with the claim files of
-- both trees (`merge_tree_claims_into_diff`, claim_tree.rs).
pub mod Delta
pub mod Churn
pub mod Private
use ibis_assistant.Prelude.{
  ℕ, ◌+◌, ◌-◌, Bool, true, false, not, Option, none, some, List, [], ◌∷◌, ◌++◌, length, take, any,
  ltb, ◌==◌, ◌||◌, if◌then◌else◌,
}
use ibis_assistant.Effect.{Fallible, ok, err, Action, ◌>>=◌, pure}
use ibis_assistant.Text.{Text, str, text_eq, is_empty}
use ibis_assistant.Text.Trim.{trim}
use ibis_assistant.Text.Map.{lookup, insert}
use ibis_assistant.Claims.Render.{Chrono}
use ibis_assistant.Git.{GitError, AncestorSet, State, outside, hold_at}
use ibis_assistant.Git.AsOf.{ClaimRow, AsOfClaim, to_claim, is_hidden}
use ibis_assistant.Slice.{
  SearchError, git, context, other, Result, try, map_err, Service, ancestor_set_for,
  git_bound_claims_for_project,
}
use ibis_assistant.Slice.Tree.{
  TreeClaim, tree_claim_files, tree_claim_record_id, tree_claim_as_of, file_removed_in, seen, is_db,
}

abbrev pub knowledge_diff_default_max_claims : ℕ
knowledge_diff_default_max_claims = 200

abbrev pub knowledge_diff_max_paths : ℕ
knowledge_diff_max_paths = 500

pub data DiffMode : Type 0 where
  explicit since_divergence : DiffMode

unfoldable pub parse_mode : Text → Option DiffMode
parse_mode value =
    let mode = trim value in
    if text_eq mode (str "explicit")
    then some explicit
    else if text_eq mode (str "since_divergence")
    then some since_divergence
    else none

pub record KnowledgeDiff : Type 0 where
  pub from_ref : Text
  pub to_ref : Text
  pub added_claims : List AsOfClaim
  pub removed_claims : List AsOfClaim
  pub changed_paths : List Text
  pub truncated : Bool
  pub degraded : Bool

-- whether the claim of a row holds at a ref
unfoldable pub row_holds : AncestorSet → ClaimRow → Bool
row_holds set row = hold_at (trim row.introduced_in_oid) (trim row.invalidated_at_oid) (some set)

abbrev pub same : Bool → Bool → Bool
same true b = b
same false b = not b

-- added and removed claims
abbrev pub Delta : Type 0
Delta = List AsOfClaim × List AsOfClaim

unfoldable pub diff_rows : AncestorSet → AncestorSet → Text → List ClaimRow → Delta
unfolding row_holds
diff_rows from_set to_set actor [] = ([], [])
diff_rows from_set to_set actor (row ∷ rows) =
    let rest = diff_rows from_set to_set actor rows in
    if same (row_holds from_set row) (row_holds to_set row)
    then rest
    else if is_hidden actor row
    then rest
    else if row_holds to_set row
    then (to_claim row ∷ rest.0, rest.1)
    else (rest.0, to_claim row ∷ rest.1)

-- A `HashMap` of tree claims. Its iteration has no order; here it is that of the list.
abbrev pub TreeMap : Type 0 → Type 0
TreeMap Time = List (Text × TreeClaim Time)

unfoldable pub index_tree : {Time : Type 0} → List (TreeClaim Time) → TreeMap Time → TreeMap Time
index_tree [] set = set
index_tree (tc ∷ tree) set =
    let id = tree_claim_record_id tc.claim in
    index_tree tree (if is_empty id then set else insert id tc set)

abbrev pub has_key : {Time : Type 0} → Text → TreeMap Time → Bool
has_key id set = any (λ entry. text_eq entry.0 id) set

abbrev pub push : Option AsOfClaim → List AsOfClaim → List AsOfClaim
push none claims = claims
push (some c) claims = claims ++ c ∷ []

unfoldable pub cap_claims : ℕ → KnowledgeDiff → KnowledgeDiff
cap_claims max_claims diff =
    let keep_added =
      if ltb max_claims (length diff.added_claims) then max_claims else length diff.added_claims in
    if ltb max_claims (length diff.added_claims + length diff.removed_claims)
    then record diff {
      truncated = true;
      added_claims = take keep_added diff.added_claims;
      removed_claims = take (max_claims - keep_added) diff.removed_claims;
    }
    else diff

unfoldable pub cap_paths : KnowledgeDiff → KnowledgeDiff
cap_paths diff =
    if ltb knowledge_diff_max_paths (length diff.changed_paths)
    then record diff {
      truncated = true;
      changed_paths = take knowledge_diff_max_paths diff.changed_paths;
    }
    else diff

abbrev pub found_base : Text → Text → Fallible GitError Text → Result Text
found_base from_ref to_ref (err e) = err (context (str "resolve divergence point") (git e))
found_base from_ref to_ref (ok base) =
    if is_empty (trim base)
    then err (other (str "no common ancestor between " ++ (from_ref ++ (str " and " ++ to_ref))))
    else ok base

abbrev pub max_or_default : ℕ → ℕ
max_or_default max_claims =
    if max_claims == 0 then knowledge_diff_default_max_claims else max_claims

module _ {S Bytes Time : Type 0} (service : Service S Bytes) (chrono : Chrono Time)
    (decode : Bytes → Text) where
  -- the loop over the claims that stand in the old tree only
  unfoldable pub tree_removed :
      Text
      → Text
      → TreeMap Time
      → List AsOfClaim
      → TreeMap Time
      → List AsOfClaim
      → Action S (List AsOfClaim)
  tree_removed repo_path actor set_to hold_removed [] removed = pure removed
  tree_removed repo_path actor set_to hold_removed ((id, tc) ∷ set) removed =
      if has_key id set_to || seen id hold_removed
      then tree_removed repo_path actor set_to hold_removed set removed
      else (do
        removed_in ← file_removed_in service chrono decode repo_path tc.path
        entry ← tree_claim_as_of service chrono decode repo_path tc removed_in actor
        tree_removed repo_path actor set_to hold_removed set (push entry removed))

  -- and over those in the new tree only
  unfoldable pub tree_added :
      Text → Text → TreeMap Time → Delta → TreeMap Time → List AsOfClaim → Action S (List AsOfClaim)
  tree_added repo_path actor set_from held [] added = pure added
  tree_added repo_path actor set_from held ((id, tc) ∷ set) added =
      if has_key id set_from || seen id held.0 || seen id held.1
      then tree_added repo_path actor set_from held set added
      else (do
        entry ← tree_claim_as_of service chrono decode repo_path tc [] actor
        tree_added repo_path actor set_from held set (push entry added))

  unfoldable pub merge_trees :
      Text → Text → Delta → List (TreeClaim Time) → List (TreeClaim Time) → Action S Delta
  unfolding tree_removed tree_added index_tree
  merge_trees repo_path actor held tree_from tree_to = do
    let set_from = index_tree tree_from []
    let set_to = index_tree tree_to []
    removed ← tree_removed repo_path actor set_to held.1 set_from held.1
    added ← tree_added repo_path actor set_from held set_to held.0
    pure (added, removed)

  unfoldable pub merge_tree_claims_into_diff :
      Text → AncestorSet → AncestorSet → Text → Delta → Action S (Result Delta)
  unfolding merge_trees
  merge_tree_claims_into_diff repo_path from_set to_set actor held = do
    tree_from ← tree_claim_files service chrono decode repo_path from_set.ref_oid
    try tree_from (λ old. (do
      tree_to ← tree_claim_files service chrono decode repo_path to_set.ref_oid
      try tree_to (λ new. (do delta ← merge_trees repo_path actor held old new; pure (ok delta)))))

  -- the ref to compare from
  unfoldable pub start_ref : DiffMode → Text → Text → Text → Action S (Result Text)
  start_ref explicit repo_path from_ref to_ref = pure (ok from_ref)
  start_ref since_divergence repo_path from_ref to_ref = do
    base ← service.trees.merge_base repo_path from_ref to_ref
    pure (found_base from_ref to_ref base)

  -- behind the database: the paths, the claim files and the caps
  unfoldable pub diff_sets :
      Text → Text → ℕ → AncestorSet → AncestorSet → List ClaimRow → Action S (Result KnowledgeDiff)
  unfolding diff_rows cap_claims cap_paths merge_tree_claims_into_diff
  diff_sets repo_path actor max_claims from_set to_set rows = do
    paths ← service.trees.diff_paths repo_path from_set.ref_oid to_set.ref_oid
    try (map_err (λ e. context (str "diff paths between refs") (git e)) paths) (λ changed. (do
      delta ←
          merge_tree_claims_into_diff repo_path from_set to_set (trim actor)
            (diff_rows from_set to_set (trim actor) rows)
      try delta (λ claims. pure (
          ok (
            cap_paths (
              cap_claims (max_or_default max_claims) (record {
                from_ref = from_set.ref_oid;
                to_ref = to_set.ref_oid;
                added_claims = claims.0;
                removed_claims = claims.1;
                changed_paths = changed;
                truncated = false;
                degraded = not (is_db service.db);
              })))))))

  module _ (to_lowercase : Text → Text) where
    unfoldable pub resolve_set : Text → Text → Text → Action (State S) (Result AncestorSet)
    resolve_set what repo_path reference = do
      set ← ancestor_set_for service to_lowercase repo_path reference
      pure (map_err (context what) set)

    unfoldable pub knowledge_diff :
        Text → Text → Text → Text → Text → DiffMode → ℕ → Action (State S) (Result KnowledgeDiff)
    unfolding start_ref resolve_set diff_sets
    knowledge_diff project_name repo_path from_ref to_ref actor diff_mode max_claims =
        if is_empty (trim repo_path)
        then pure (err (other (str "knowledge_diff requires a resolvable repo path")))
        else (do
          start ← outside (start_ref diff_mode repo_path from_ref to_ref)
          try start (λ from. (do
            old ← resolve_set (str "resolve from ref") repo_path from
            try old (λ from_set. (do
              new ← resolve_set (str "resolve to ref") repo_path to_ref
              try new (λ to_set. (do
                rows ← git_bound_claims_for_project service to_lowercase project_name 0
                try rows (λ found.
                    outside (diff_sets repo_path actor max_claims from_set to_set found.0)))))))))
