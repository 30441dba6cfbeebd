-- ===== src/Slice/Tree/Merge.antt =====
-- What the claim files of a tree add to the claims of the database (claim_tree.rs).
use ibis_assistant.Prelude.{
  ◌≡◌, Bool, true, false, Option, none, some, List, [], ◌∷◌, ◌++◌, All, inl, inr, Bool-cases,
}
use ibis_assistant.Text.{Text, is_empty}
use ibis_assistant.Claims.Render.{Chrono}
use ibis_assistant.Git.AsOf.{AsOfClaim}
use ibis_assistant.Slice.{Service, MemoryRow}
use ibis_assistant.Slice.Tree.{
  TreeClaim, is_withheld, is_db, seen, shown_claim, tree_claim_as_of, claim_row_by_id,
  tree_claim_record_id, visibility_of, owner_of,
}

-- a claim that the actor may see
abbrev pub IsAllowed : Bool → Text → AsOfClaim → Type 0
IsAllowed registry actor c = is_withheld registry actor c.visibility c.owner ≡ false

abbrev pub AreAllowed : Bool → Text → List AsOfClaim → Type 0
AreAllowed registry actor claims = All (IsAllowed registry actor) claims

-- an entry, if there is one
abbrev pub IsAllowedEntry : Bool → Text → Option AsOfClaim → Type 0
IsAllowedEntry registry actor none = Unit
IsAllowedEntry registry actor (some c) = IsAllowed registry actor c

-- no id stands twice
abbrev pub AreDistinct : List AsOfClaim → Type 0
AreDistinct [] = Unit
AreDistinct (c ∷ claims) = (seen c.id claims ≡ false) × AreDistinct claims

-- each of the added claims has an id that none in front of it has, be it an old one or an added one
abbrev pub AreNew : List AsOfClaim → List AsOfClaim → Type 0
AreNew out [] = Unit
AreNew out (e ∷ new) = (seen e.id out ≡ false) × AreNew (out ++ e ∷ []) new

-- the id of an entry, if there is one, is among those of the claims
abbrev pub IsIn : Option AsOfClaim → List AsOfClaim → Type 0
IsIn none claims = Unit
IsIn (some e) claims = seen e.id claims ≡ true

pub All-append {ℓ κ} :
    {A : Type ℓ} (P : A → Type κ) (xs ys : List A) → All P xs → All P ys → All P (xs ++ ys)
All-append P [] ys h k = k
All-append P (x ∷ xs) ys h k = (h.0, All-append P xs ys h.1 k)

module _ {S Bytes Time : Type 0} (service : Service S Bytes) (chrono : Chrono Time)
    (decode : Bytes → Text) where
  shown_claim-IsAllowed :
      (repo_path : Text) (tc : TreeClaim Time) (invalidated actor id : Text)
      (row : Option MemoryRow) (s : S)
      → IsAllowedEntry
          (is_db service.db)
          actor
          (shown_claim service chrono decode repo_path tc invalidated actor id row s).0
  unfolding shown_claim
  shown_claim-IsAllowed repo_path tc invalidated actor id row s =
      elim (Bool-cases (
        is_withheld (is_db service.db) actor (visibility_of tc.claim.visibility row)
          (owner_of row))) [ inl e ↦ rw e tt | inr e ↦ rw e e ]

  pub tree_claim_as_of-IsAllowed :
      (repo_path : Text) (tc : TreeClaim Time) (invalidated actor : Text) (s : S)
      → IsAllowedEntry
          (is_db service.db)
          actor
          (tree_claim_as_of service chrono decode repo_path tc invalidated actor s).0
  unfolding tree_claim_as_of
  tree_claim_as_of-IsAllowed repo_path tc invalidated actor s =
      let id = tree_claim_record_id tc.claim in
      elim (Bool-cases (is_empty id)) [
        | inl e ↦ rw e tt
        | inr e ↦
            let row = claim_row_by_id service chrono decode id s in
            rw e (shown_claim-IsAllowed repo_path tc invalidated actor id row.0 row.1)
      ]

  -- What a merge makes of the claims before it: those stay in front, and what follows may be seen.
  pub record IsMerged (actor : Text) (out merged : List AsOfClaim) : Type 0 where
    pub new : List AsOfClaim
    pub appended : merged ≡ out ++ new
    pub allowed : AreAllowed (is_db service.db) actor new
    pub ids : AreNew out new
    pub distinct : AreDistinct out → AreDistinct merged

  -- the entry of every claim file that the actor may see is among the claims
  abbrev pub AreIn : Text → Text → List (TreeClaim Time) → List AsOfClaim → S → Type 0
  AreIn repo_path actor [] claims s = Unit
  AreIn repo_path actor (tc ∷ tree) claims s =
      let entry = tree_claim_as_of service chrono decode repo_path tc [] actor s in
      IsIn entry.0 claims × AreIn repo_path actor tree claims entry.1
