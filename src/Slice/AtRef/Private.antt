-- ===== src/Slice/AtRef/Private.antt =====
-- Who sees what of the claims at a ref (asof.rs, claim_tree.rs).
use ibis_assistant.Prelude.{◌≡◌, ◌≢◌, ◌⊎◌, All}
use ibis_assistant.Effect.{ok, err, ◌>>=◌}
use ibis_assistant.Text.{Text, str}
use ibis_assistant.Text.Trim.{trim}
use ibis_assistant.Git.AsOf.{AsOfClaim}
use ibis_assistant.Slice.{Result}
use ibis_assistant.Slice.AtRef.{AsOf}

-- a claim that is not personal, or has the actor's text as its owner
pub record IsForActor (actor : Text) (claim : AsOfClaim) : Type 0 where
  pub visible : (claim.visibility ≢ str "personal") ⊎ (claim.owner ≡ trim actor)

-- the claims of an answer
abbrev pub ClaimsForActor : Text → AsOf → Type 0
ClaimsForActor actor a = All (IsForActor actor) a.claims

-- what is returned, if anything is
abbrev pub OnOk : {A : Type 0} → (A → Type 0) → Result A → Type 0
OnOk P (ok a) = P a
OnOk P (err e) = Unit
