-- ===== src/Governance/Update.antt =====
-- `update_memory` (crates/ibis-search/src/memory/mod.rs): a patch of some columns.
use ibis_assistant.Prelude.{
  Bool, true, false, Option, none, some, List, [], ◌∷◌, ◌++◌, ◌&&◌, ◌||◌, if◌then◌else◌,
}
use ibis_assistant.Effect.{Fallible, ok, err, Action, ◌>>=◌, pure}
use ibis_assistant.Text.{Text, str, is_empty}
use ibis_assistant.Text.Trim.{trim}
use ibis_assistant.Access.Actor.{Credentials}
use ibis_assistant.Governance.{
  Memory, git_owned, bad_confidence, no_embedding, Result, Value, text, float, vector, texts,
  Database, is_git, require_memory_record_id, authorize_memory_mutation, mutation_actor, try,
  with_db, memory_for_governance, run,
}

pub record MemoryUpdateParams (Float : Type 0) : Type 0 where
  pub id : Text
  pub content : Option Text
  pub title : Option Text
  pub kind : Option Text
  pub status : Option Text
  pub confidence : Option Float
  pub tags : Option (List Text)
  pub visibility : Option Text
  pub valid_until : Option Text
  pub actor : Text

abbrev pub is_some : {A : Type 0} → Option A → Bool
is_some none = false
is_some (some _) = true

-- what a claim in a repository does not let be changed
unfoldable pub changes_claim : {Float : Type 0} → MemoryUpdateParams Float → Bool
changes_claim params =
    is_some params.content
    || is_some params.title
    || is_some params.kind
    || is_some params.visibility

-- the assignments and their bindings
pub record Patch (Float : Type 0) : Type 0 where
  pub sets : List Text
  pub bindings : List (Text × Value Float)

-- `name = $name`
abbrev pub assign : {Float : Type 0} → Text → Value Float → Patch Float → Patch Float
assign name value patch = record {
  sets = patch.sets ++ (name ++ (str " = $" ++ name)) ∷ [];
  bindings = patch.bindings ++ (name, value) ∷ [];
}

abbrev pub assign_text : {Float : Type 0} → Text → Option Text → Patch Float → Patch Float
assign_text name none patch = patch
assign_text name (some value) patch = assign name (text value) patch

abbrev pub assign_float : {Float : Type 0} → Text → Option Float → Patch Float → Patch Float
assign_float name none patch = patch
assign_float name (some value) patch = assign name (float value) patch

abbrev pub assign_texts : {Float : Type 0} → Text → Option (List Text) → Patch Float → Patch Float
assign_texts name none patch = patch
assign_texts name (some values) patch = assign name (texts values) patch

unfoldable pub assign_valid_until : {Float : Type 0} → Option Text → Patch Float → Patch Float
assign_valid_until none patch = patch
assign_valid_until (some valid_until) patch =
    let value = trim valid_until in
    if is_empty value
    then record patch { sets = patch.sets ++ str "valid_until = NONE" ∷ [] }
    else record {
      sets = patch.sets ++ str "valid_until = type::datetime($valid_until)" ∷ [];
      bindings = patch.bindings ++ (str "valid_until", text value) ∷ [];
    }

-- the columns behind the content
unfoldable pub assign_rest : {Float : Type 0} → MemoryUpdateParams Float → Patch Float → Patch Float
unfolding assign_valid_until
assign_rest params patch = assign_valid_until params.valid_until (
    assign_text (str "visibility") params.visibility (
      assign_texts (str "tags") params.tags (
        assign_float (str "confidence") params.confidence (
          assign_text (str "status") params.status (
            assign_text (str "kind") params.kind (assign_text (str "title") params.title patch))))))

-- `sets.join(", ")`
unfoldable pub join_sets : List Text → Text
join_sets [] = []
join_sets (x ∷ []) = x
join_sets (x ∷ y ∷ xs) = x ++ (str ", " ++ join_sets (y ∷ xs))

unfoldable pub update_sql : Text → List Text → Text
unfolding join_sets
update_sql id sets = str "UPDATE " ++ (id ++ (str " SET " ++ (join_sets sets ++ str ";")))

abbrev pub first_patch : {Float : Type 0} → Patch Float
first_patch = record { sets = str "updated_at = time::now()" ∷ []; bindings = [] }

-- The provider's embedding of a text, and whether a confidence lies between 0 and 1.
module _ {S Float : Type 0} (memory_embedding : Text → Action S (Fallible Text (List Float)))
    (in_range : Float → Bool) where
  abbrev pub embedded : Text → Fallible Text (List Float) → Patch Float → Result (Patch Float)
  embedded content (err e) patch = err no_embedding
  embedded content (ok embedding) patch =
      ok (assign (str "embedding") (vector embedding) (assign (str "content") (text content) patch))

  unfoldable pub assign_content : Option Text → Patch Float → Action S (Result (Patch Float))
  assign_content none patch = pure (ok patch)
  assign_content (some content) patch = do
    embedding ← memory_embedding content
    pure (embedded content embedding patch)

  unfoldable pub validate_memory_confidence : Option Float → Result (Unit {0})
  validate_memory_confidence none = ok tt
  validate_memory_confidence (some confidence) =
      if in_range confidence then ok tt else err bad_confidence

  -- behind the look at the row
  unfoldable pub patch_memory :
      Database S Float
      → Credentials
      → MemoryUpdateParams Float
      → Memory
      → Action S (Result (Unit {0}))
  unfolding run assign_content assign_rest update_sql validate_memory_confidence
  patch_memory db actor_ctx params memory =
      if is_git memory && changes_claim params
      then pure (err (git_owned memory.id))
      else try (authorize_memory_mutation memory (mutation_actor actor_ctx memory params.actor))
          (λ _. try (validate_memory_confidence params.confidence) (λ _. (do
            begun ← assign_content params.content first_patch
            try begun (λ patch.
                run db (update_sql params.id (assign_rest params patch).sets)
                  (assign_rest params patch).bindings))))

  unfoldable pub update_memory :
      Option (Database S Float)
      → Credentials
      → MemoryUpdateParams Float
      → Action S (Result (Unit {0}))
  unfolding patch_memory memory_for_governance
  update_memory conn actor_ctx params = with_db conn (λ db.
      try (require_memory_record_id params.id) (λ _. (do
        memory ← memory_for_governance db params.id
        try memory (patch_memory db actor_ctx params))))
