-- ===== src/Governance/Owners.antt =====
-- Only its owner changes a memory (crates/ibis-search/src/memory/mod.rs, share.rs).
use ibis_assistant.Prelude.{
  ◌≡◌, ◌≢◌, refl, Bool, true, false, not, List, ◌&&◌, if◌then◌else◌, arith, inl, inr, Bool-cases,
}
use ibis_assistant.Effect.{Fallible, ok, err, is_ok, Action}
use ibis_assistant.Text.{Text, text_eq, text_eq_iff}
use ibis_assistant.Text.Trim.{trim}
use ibis_assistant.Access.Actor.{Credentials, trusted}
use ibis_assistant.Governance.{
  Memory, Result, Database, is_git, authorize_memory_mutation, mutation_actor, try, archive, erase,
  share,
}
use ibis_assistant.Governance.Update.{MemoryUpdateParams, changes_claim, patch_memory}

-- nothing was done, and an error is returned
abbrev pub Refused : {S A : Type 0} → S → Result A × S → Type 0
Refused s outcome = (is_ok outcome.0 ≡ false) × (outcome.1 ≡ s)

pub authorize-refuses :
    (memory : Memory) (actor : Text)
    → text_eq (trim memory.owner) actor ≡ false
    → is_ok (authorize_memory_mutation memory actor) ≡ false
unfolding authorize_memory_mutation
authorize-refuses memory actor h = ground arith

try-Refused :
    {S A B : Type 0} (r : Result A) (next : A → Action S (Result B)) (s : S)
    → is_ok r ≡ false
    → Refused s (try r next s)
try-Refused (ok a) next s h = cc
try-Refused (err e) next s h = (refl, refl)

-- whichever way a test goes
if-Refused :
    {S A : Type 0} (b : Bool) (x y : Action S (Result A)) (s : S)
    → Refused s (x s)
    → Refused s (y s)
    → Refused s ((if b then x else y) s)
if-Refused true x y s h k = h
if-Refused false x y s h k = k

-- a guard that fails
guard-Refused :
    {S A : Type 0} (b : Bool) (x y : Action S (Result A)) (s : S)
    → b ≡ false
    → Refused s (x s)
    → Refused s ((if not b then x else y) s)
guard-Refused true x y s h k = cc
guard-Refused false x y s h k = k

text_eq_ne : (a b : Text) → a ≢ b → text_eq a b ≡ false
text_eq_ne a b h = elim (Bool-cases (text_eq a b)) [
  | inl e ↦ absurd (h ((text_eq_iff a b).0 e))
  | inr e ↦ e
]

module _ {S Float : Type 0} (db : Database S Float) (actor_ctx : Credentials)
    (memory : Memory) where
  -- A memory is archived, erased, patched or shared by nobody but its owner: for anybody else
  -- nothing is sent to the database, nor to the provider that embeds, and the call fails.
  pub only_owner_changes :
      (embed : Text → Action S (Fallible Text (List Float))) (in_range : Float → Bool)
      (id actor : Text) (params : MemoryUpdateParams Float) (s : S)
      → trim memory.owner ≢ mutation_actor actor_ctx memory actor
      → trim memory.owner ≢ mutation_actor actor_ctx memory params.actor
      → memory.owner ≢ trusted actor_ctx actor
      → Refused s (archive db actor_ctx id actor memory s)
        × Refused s (erase db actor_ctx id actor memory s)
        × Refused s (patch_memory embed in_range db actor_ctx params memory s)
        × Refused s (share db actor_ctx id actor memory s)
  unfolding archive erase patch_memory share
  only_owner_changes embed in_range id actor params s h k l =
      let own = text_eq_ne (trim memory.owner) (mutation_actor actor_ctx memory actor) h in
      let own_patch =
        text_eq_ne (trim memory.owner) (mutation_actor actor_ctx memory params.actor) k in
      let own_share = text_eq_ne memory.owner (trusted actor_ctx actor) l in
      (
        if-Refused (is_git memory) _ _ s (refl, refl)
            (try-Refused _ _ s (authorize-refuses memory _ own)),
        if-Refused (is_git memory) _ _ s (refl, refl) (guard-Refused _ _ _ s own (refl, refl)),
        if-Refused (is_git memory && changes_claim params) _ _ s (refl, refl)
            (try-Refused _ _ s (authorize-refuses memory _ own_patch)),
        guard-Refused _ _ _ s own_share (refl, refl),
      )
