-- ===== src/Git/AsOf.antt =====
-- The loop of `as_of_claims` (crates/ibis-search/src/memory/asof.rs) over the rows of the database:
-- which claims hold at a ref, and who may see them.
use ibis_assistant.Prelude.{
  ◌≡◌, ◌≢◌, ◌⊎◌, refl, Bool, true, false, not, some, List, [], ◌∷◌, ◌++◌, arith, ◌&&◌,
  if◌then◌else◌, inl, inr, Bool-cases, All,
}
use ibis_assistant.Text.{Text, str, text_eq, text_eq_iff}
use ibis_assistant.Text.Trim.{trim}
use ibis_assistant.Git.{AncestorSet, hold_at}

-- a row, each field as `scalar_string` and `record_id` read it
pub record ClaimRow : Type 0 where
  pub id : Text
  pub kind : Text
  pub title : Text
  pub status : Text
  pub visibility : Text
  pub owner : Text
  pub introduced_in_oid : Text
  pub invalidated_at_oid : Text

pub record AsOfClaim : Type 0 where
  pub id : Text
  pub kind : Text
  pub title : Text
  pub status : Text
  pub visibility : Text
  pub owner : Text
  pub introduced_in : Text
  pub invalidated_at : Text
  pub source_kind : Text

unfoldable pub to_claim : ClaimRow → AsOfClaim
to_claim row = record {
  id = row.id;
  kind = trim row.kind;
  title = trim row.title;
  status = trim row.status;
  visibility = trim row.visibility;
  owner = trim row.owner;
  introduced_in = trim row.introduced_in_oid;
  invalidated_at = trim row.invalidated_at_oid;
  source_kind = str "claim";
}

-- a personal claim of somebody else
unfoldable pub is_hidden : Text → ClaimRow → Bool
is_hidden actor row =
    text_eq (trim row.visibility) (str "personal") && not (text_eq (trim row.owner) actor)

-- the loop; `actor` is trimmed before it
unfoldable pub select_rows : AncestorSet → Text → List ClaimRow → List AsOfClaim
select_rows ancestors actor [] = []
select_rows ancestors actor (row ∷ rows) =
    let rest = select_rows ancestors actor rows in
    if not (hold_at (trim row.introduced_in_oid) (trim row.invalidated_at_oid) (some ancestors))
    then rest
    else if is_hidden actor row
    then rest
    else to_claim row ∷ rest

unfoldable pub select_claims : AncestorSet → Text → List ClaimRow → List AsOfClaim
select_claims ancestors actor rows = select_rows ancestors (trim actor) rows

module _ (ancestors : AncestorSet) (actor : Text) where
  -- what may be shown to the actor at the ref
  pub record IsShown (claim : AsOfClaim) : Type 0 where
    pub holds : hold_at claim.introduced_in claim.invalidated_at (some ancestors) ≡ true
    pub visible : (claim.visibility ≢ str "personal") ⊎ (claim.owner ≡ trim actor)

  to_claim-IsShown :
      (row : ClaimRow)
      → hold_at (trim row.introduced_in_oid) (trim row.invalidated_at_oid) (some ancestors) ≡ true
      → is_hidden (trim actor) row ≡ false
      → IsShown (to_claim row)
  unfolding to_claim is_hidden
  to_claim-IsShown row h v = record {
    holds = h;
    visible = ground (
      arith,
      text_eq_iff (trim row.visibility) (str "personal"),
      text_eq_iff (trim row.owner) (trim actor),
    );
  }

  select_rows-IsShown :
      (rows : List ClaimRow) → All IsShown (select_rows ancestors (trim actor) rows)
  unfolding select_rows
  select_rows-IsShown [] = tt
  select_rows-IsShown (row ∷ rows) =
      elim (Bool-cases
        (hold_at (trim row.introduced_in_oid) (trim row.invalidated_at_oid) (some ancestors))) [
          | inr fails ↦ rw fails (select_rows-IsShown rows)
          | inl holds ↦ elim (Bool-cases (is_hidden (trim actor) row)) [
            | inl hidden ↦ rw (holds, hidden) (select_rows-IsShown rows)
            | inr shown ↦
                rw (holds, shown) (to_claim-IsShown row holds shown, select_rows-IsShown rows)
          ]
        ]

  -- Every claim that is returned holds at the ref, and is the actor's own or not personal.
  pub select_claims-IsShown :
      (rows : List ClaimRow) → All IsShown (select_claims ancestors actor rows)
  unfolding select_claims
  select_claims-IsShown rows = select_rows-IsShown rows

  personal-is_hidden :
      (row : ClaimRow)
      → (trim row.visibility ≡ str "personal") × (trim row.owner ≢ trim actor)
      → is_hidden (trim actor) row ≡ true
  unfolding is_hidden
  personal-is_hidden row h = ground (
    arith,
    text_eq_iff (trim row.visibility) (str "personal"),
    text_eq_iff (trim row.owner) (trim actor),
  )

  -- Personal rows of other owners leave no trace in what the actor is shown, wherever they stand.
  personal_rows_leave_no_trace :
      (before hidden after : List ClaimRow)
      → All (λ row. (trim row.visibility ≡ str "personal") × (trim row.owner ≢ trim actor)) hidden
      → select_claims ancestors actor (before ++ (hidden ++ after))
        ≡ select_claims ancestors actor (before ++ after)
  unfolding select_claims select_rows
  personal_rows_leave_no_trace [] [] after h = refl
  personal_rows_leave_no_trace [] (row ∷ hidden) after h =
      ground (arith, personal-is_hidden row h.0, personal_rows_leave_no_trace [] hidden after h.1)
  personal_rows_leave_no_trace (row ∷ before) hidden after h =
      rw (personal_rows_leave_no_trace before hidden after h)
