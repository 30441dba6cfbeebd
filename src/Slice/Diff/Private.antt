-- ===== src/Slice/Diff/Private.antt =====
-- Who sees what of a difference (kdiff.rs, claim_tree.rs).
use ibis_assistant.Prelude.{
  ◌≡◌, Bool, false, Option, none, some, List, [], ◌∷◌, ◌||◌, arith, inl, inr, Bool-cases,
}
use ibis_assistant.Text.{Text}
use ibis_assistant.Text.Trim.{trim}
use ibis_assistant.Claims.Render.{Chrono}
use ibis_assistant.Git.{AncestorSet}
use ibis_assistant.Git.AsOf.{ClaimRow, AsOfClaim, to_claim, is_hidden}
use ibis_assistant.Slice.{Service}
use ibis_assistant.Slice.Tree.{
  TreeClaim, is_withheld, is_db, tree_claim_as_of, file_removed_in, seen,
}
use ibis_assistant.Slice.Tree.Merge.{
  IsAllowed, AreAllowed, IsAllowedEntry, tree_claim_as_of-IsAllowed, All-append,
}
use ibis_assistant.Slice.Diff.{
  Delta, TreeMap, has_key, push, diff_rows, row_holds, same, index_tree, tree_removed, tree_added,
  merge_trees,
}

-- both lists of a difference are for the actor
abbrev pub IsAllowedDelta : Bool → Text → Delta → Type 0
IsAllowedDelta registry actor delta =
    AreAllowed registry actor delta.0 × AreAllowed registry actor delta.1

to_claim-IsAllowed :
    (registry : Bool) (actor : Text) (row : ClaimRow)
    → is_hidden (trim actor) row ≡ false
    → IsAllowed registry actor (to_claim row)
unfolding is_hidden is_withheld to_claim
to_claim-IsAllowed registry actor row h = ground arith

diff_rows-IsAllowed :
    (registry : Bool) (from_set to_set : AncestorSet) (actor : Text) (rows : List ClaimRow)
    → IsAllowedDelta registry actor (diff_rows from_set to_set (trim actor) rows)
unfolding diff_rows
diff_rows-IsAllowed registry from_set to_set actor [] = (tt, tt)
diff_rows-IsAllowed registry from_set to_set actor (row ∷ rows) =
    let rest = diff_rows-IsAllowed registry from_set to_set actor rows in
    elim (Bool-cases (same (row_holds from_set row) (row_holds to_set row))) [
      | inl e ↦ rw e rest
      | inr e ↦ elim (Bool-cases (is_hidden (trim actor) row)) [
        | inl h ↦ rw (e, h) rest
        | inr h ↦
            let allowed = to_claim-IsAllowed registry actor row h in
            elim (Bool-cases (row_holds to_set row)) [
              | inl t ↦ rw (e, h, t) ((allowed, rest.0), rest.1)
              | inr t ↦ rw (e, h, t) (rest.0, (allowed, rest.1))
            ]
      ]
    ]

push-IsAllowed :
    (registry : Bool) (actor : Text) (entry : Option AsOfClaim) (claims : List AsOfClaim)
    → IsAllowedEntry registry actor entry
    → AreAllowed registry actor claims
    → AreAllowed registry actor (push entry claims)
push-IsAllowed registry actor none claims e h = h
push-IsAllowed registry actor (some c) claims e h =
    All-append (IsAllowed registry actor) claims (c ∷ []) h (e, tt)

module _ {S Bytes Time : Type 0} (service : Service S Bytes) (chrono : Chrono Time)
    (decode : Bytes → Text) (repo_path actor : Text) where
  tree_removed-IsAllowed :
      (set_to : TreeMap Time) (held : List AsOfClaim) (set : TreeMap Time)
      (removed : List AsOfClaim) (s : S)
      → AreAllowed (is_db service.db) actor removed
      → AreAllowed
          (is_db service.db)
          actor
          (tree_removed service chrono decode repo_path actor set_to held set removed s).0
  unfolding tree_removed
  tree_removed-IsAllowed set_to held [] removed s h = h
  tree_removed-IsAllowed set_to held ((id, tc) ∷ set) removed s h =
      elim (Bool-cases (has_key id set_to || seen id held)) [
        | inl e ↦ rw e (tree_removed-IsAllowed set_to held set removed s h)
        | inr e ↦
            let gone = file_removed_in service chrono decode repo_path tc.path s in
            let entry = tree_claim_as_of service chrono decode repo_path tc gone.0 actor gone.1 in
            rw e (
              tree_removed-IsAllowed set_to held set (push entry.0 removed) entry.1 (
                push-IsAllowed (is_db service.db) actor entry.0 removed
                  (tree_claim_as_of-IsAllowed service chrono decode repo_path tc gone.0 actor
                    gone.1)
                  h))
      ]

  tree_added-IsAllowed :
      (set_from : TreeMap Time) (held : Delta) (set : TreeMap Time) (added : List AsOfClaim) (s : S)
      → AreAllowed (is_db service.db) actor added
      → AreAllowed
          (is_db service.db)
          actor
          (tree_added service chrono decode repo_path actor set_from held set added s).0
  unfolding tree_added
  tree_added-IsAllowed set_from held [] added s h = h
  tree_added-IsAllowed set_from held ((id, tc) ∷ set) added s h =
      elim (Bool-cases (has_key id set_from || seen id held.0 || seen id held.1)) [
        | inl e ↦ rw e (tree_added-IsAllowed set_from held set added s h)
        | inr e ↦
            let entry = tree_claim_as_of service chrono decode repo_path tc [] actor s in
            rw e (
              tree_added-IsAllowed set_from held set (push entry.0 added) entry.1 (
                push-IsAllowed (is_db service.db) actor entry.0 added
                  (tree_claim_as_of-IsAllowed service chrono decode repo_path tc [] actor s) h))
      ]

  -- A difference with the claim files of both trees in it has no personal claim of somebody else,
  -- where there is a database to tell the owners.
  merge_trees-IsAllowed :
      (from_set to_set : AncestorSet) (rows : List ClaimRow)
      (tree_from tree_to : List (TreeClaim Time)) (s : S)
      → IsAllowedDelta
          (is_db service.db)
          actor
          (merge_trees service chrono decode repo_path actor
            (diff_rows from_set to_set (trim actor) rows)
            tree_from
            tree_to
            s).0
  unfolding merge_trees
  merge_trees-IsAllowed from_set to_set rows tree_from tree_to s =
      let held = diff_rows from_set to_set (trim actor) rows in
      let allowed = diff_rows-IsAllowed (is_db service.db) from_set to_set actor rows in
      let set_from = index_tree tree_from [] in
      let set_to = index_tree tree_to [] in
      let removed =
        tree_removed service chrono decode repo_path actor set_to held.1 set_from held.1 s in
      (
        tree_added-IsAllowed set_from held set_to held.0 removed.1 allowed.0,
        tree_removed-IsAllowed set_to held.1 set_from held.1 s allowed.1,
      )
