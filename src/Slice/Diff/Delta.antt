-- ===== src/Slice/Diff/Delta.antt =====
-- The claims of a difference are those of the two refs (kdiff.rs, the loop over the rows).
use ibis_assistant.Prelude.{◌≡◌, refl, Bool, some, List, [], ◌∷◌, if◌then◌else◌, arith}
use ibis_assistant.Text.{Text}
use ibis_assistant.Text.Trim.{trim}
use ibis_assistant.Git.{AncestorSet, hold_at}
use ibis_assistant.Git.AsOf.{ClaimRow, AsOfClaim, to_claim, select_rows, select_claims}
use ibis_assistant.Slice.Diff.{row_holds, diff_rows}

-- whether a claim that is shown holds at a ref, by the commits that it shows
abbrev pub claim_holds : AncestorSet → AsOfClaim → Bool
claim_holds set c = hold_at c.introduced_in c.invalidated_at (some set)

-- the claims that do not hold at the other ref
unfoldable pub without_held : AncestorSet → List AsOfClaim → List AsOfClaim
without_held set [] = []
without_held set (c ∷ claims) =
    let rest = without_held set claims in if claim_holds set c then rest else c ∷ rest

module _ (from_set to_set : AncestorSet) where
  diff_rows-selected :
      (actor : Text) (rows : List ClaimRow)
      → diff_rows from_set to_set actor rows ≡ (
        without_held from_set (select_rows to_set actor rows),
        without_held to_set (select_rows from_set actor rows),
      )
  unfolding diff_rows select_rows without_held row_holds to_claim
  diff_rows-selected actor [] = refl
  diff_rows-selected actor (row ∷ rows) = ground (arith, diff_rows-selected actor rows)

  -- The claims added are those that are shown at the new ref and do not hold at the old one, and
  -- the claims removed are those that are shown at the old ref and do not hold at the new one, in
  -- the order of the rows.
  pub diff_rows-eq-select_claims :
      (actor : Text) (rows : List ClaimRow)
      → diff_rows from_set to_set (trim actor) rows ≡ (
        without_held from_set (select_claims to_set actor rows),
        without_held to_set (select_claims from_set actor rows),
      )
  unfolding select_claims
  diff_rows-eq-select_claims actor rows = diff_rows-selected (trim actor) rows
