-- ===== src/Slice/AtRef.antt =====
-- `as_of_claims` (crates/ibis-search/src/memory/asof.rs), and the cap on the answers at a ref
-- (`cap_at_ref_results`, claim_tree.rs).
pub mod Private
pub mod Cap
use ibis_assistant.Prelude.{
  ℕ, ◌+◌, ◌-◌, Bool, true, false, Option, none, some, List, [], ◌∷◌, ◌++◌, length, take, ltb, leb,
  if◌then◌else◌,
}
use ibis_assistant.Effect.{Fallible, ok, err, Action, ◌>>=◌, pure}
use ibis_assistant.Text.{Text, str, text_eq, is_empty}
use ibis_assistant.Text.Trim.{trim}
use ibis_assistant.Claims.Render.{Chrono}
use ibis_assistant.Git.{AncestorSet, State, outside}
use ibis_assistant.Git.AsOf.{ClaimRow, AsOfClaim, select_claims}
use ibis_assistant.Slice.{
  SearchError, other, Result, try, Service, ancestor_set_for, git_bound_claims_for_project,
}
use ibis_assistant.Slice.Tree.{TreeClaim, merge_tree_claims_into_as_of}

-- the claims, whether rows were cut, and the commit
pub record AsOf : Type 0 where
  pub claims : List AsOfClaim
  pub truncated : Bool
  pub ref_oid : Text

module _ {S Bytes Time : Type 0} (service : Service S Bytes) (chrono : Chrono Time)
    (decode : Bytes → Text) (to_lowercase : Text → Text) where
  unfoldable pub with_tree :
      Text → Text → AncestorSet → List ClaimRow × Bool → Action (State S) (Result AsOf)
  with_tree repo_path actor ancestors (rows, truncated) = do
    merged ← outside (
        merge_tree_claims_into_as_of service chrono decode repo_path ancestors.ref_oid (trim actor)
          (select_claims ancestors actor rows))
    try merged (λ claims.
        pure (ok (record { claims = claims; truncated = truncated; ref_oid = ancestors.ref_oid })))

  unfoldable pub as_of_claims : Text → Text → Text → Text → Action (State S) (Result AsOf)
  unfolding with_tree
  as_of_claims project_name repo_path reference actor =
      if is_empty (trim repo_path)
      then pure (err (other (str "as_of requires a resolvable repo path")))
      else (do
        ancestors ← ancestor_set_for service to_lowercase repo_path reference
        try ancestors (λ set. (do
          rows ← git_bound_claims_for_project service to_lowercase project_name 0
          try rows (λ found. with_tree repo_path actor set found))))

abbrev pub at_ref_result_cap : ℕ
at_ref_result_cap = 15

abbrev pub claim_file_reserved_slots : ℕ
claim_file_reserved_slots = 3

-- what the cap reads of an answer; a score is an `f64`
pub record SearchResult (Float : Type 0) : Type 0 where
  pub id : Text
  pub source_kind : Text
  pub score : Float

abbrev pub smaller : ℕ → ℕ → ℕ
smaller a b = if ltb b a then b else a

-- the drain into `tree` and `ranked`
unfoldable pub part :
    {Float : Type 0} → Bool → List (SearchResult Float) → List (SearchResult Float)
part of_tree [] = []
part of_tree (r ∷ rs) =
    let rest = part of_tree rs in
    let is_tree = text_eq r.source_kind (str "claim_file") in
    if is_tree then (if of_tree then r ∷ rest else rest) else (if of_tree then rest else r ∷ rest)

module _ {Float : Type 0} (less : Float → Float → Bool) where
  -- `sort_by` with the order turned round is stable: an answer goes behind those that are not less
  unfoldable pub insert_by_score :
      SearchResult Float → List (SearchResult Float) → List (SearchResult Float)
  insert_by_score r [] = r ∷ []
  insert_by_score r (x ∷ xs) =
      let rest = insert_by_score r xs in if less x.score r.score then r ∷ x ∷ xs else x ∷ rest

  -- the answers in `sorted` stood in front
  unfoldable pub sort_onto :
      List (SearchResult Float) → List (SearchResult Float) → List (SearchResult Float)
  unfolding insert_by_score
  sort_onto sorted [] = sorted
  sort_onto sorted (r ∷ rs) = sort_onto (insert_by_score r sorted) rs

  unfoldable pub cap_at_ref_results : List (SearchResult Float) → List (SearchResult Float)
  unfolding sort_onto part
  cap_at_ref_results results =
      if leb (length results) at_ref_result_cap
      then sort_onto [] results
      else let tree = part true results in
        let ranked = sort_onto [] (part false results) in
        let tree_floor = smaller claim_file_reserved_slots (length tree) in
        let keep_ranked = smaller (length ranked) (at_ref_result_cap - tree_floor) in
        let keep_tree = smaller (length tree) (at_ref_result_cap - keep_ranked) in
        take keep_ranked ranked ++ take keep_tree tree
