-- ===== src/Governance.antt =====
-- crates/ibis-search/src/memory/mod.rs and share.rs: who may change, archive, delete or share a
-- memory. The database is a parameter; a statement is the text that is sent, with its bindings.
pub mod Update
pub mod Owners
pub mod Remote
mod Tests
use ibis_assistant.Prelude.{
  Bool, true, false, not, Option, none, some, List, [], ◌∷◌, ◌++◌, ◌&&◌, ◌||◌, if◌then◌else◌,
}
use ibis_assistant.Effect.{Fallible, ok, err, Action, ◌>>=◌, pure}
use ibis_assistant.Text.{Text, str, text_eq, is_empty}
use ibis_assistant.Text.Trim.{trim}
use ibis_assistant.Text.Split.{split}
use ibis_assistant.Records.{is_safe_record_id}
use ibis_assistant.Access.Actor.{Credentials, resolve_actor, trusted}

-- the columns of a memory that decide
pub record Memory : Type 0 where
  pub id : Text
  pub visibility : Text
  pub owner : Text
  pub store : Text

-- the errors, with the values that their messages show
pub data GovernanceError : Type 0 where
  database_not_connected : GovernanceError
  invalid_memory_id other_table not_found : Text → GovernanceError
  database : Text → GovernanceError
  git_owned : Text → GovernanceError
  personal_not_owner team_not_owner : Text → Text → GovernanceError
  hard_delete_not_owner : Text → Text → GovernanceError
  share_not_owner : Text → Text → GovernanceError
  only_to_team bad_confidence : GovernanceError
  no_embedding : GovernanceError

abbrev pub Result : Type 0 → Type 0
Result A = Fallible GovernanceError A

-- a value that a statement binds
pub data Value (Float : Type 0) : Type 0 where
  text : Text → Value Float
  float : Float → Value Float
  vector : List Float → Value Float
  texts : List Text → Value Float

-- The database: the first row of a memory, and a statement that is run.
pub record Database (S Float : Type 0) : Type 0 where
  pub memory_row : Text → Action S (Fallible Text (Option Memory))
  pub execute : Text → List (Text × Value Float) → Action S (Fallible Text (Unit {0}))

abbrev pub is_git : Memory → Bool
is_git memory = text_eq memory.store (str "git")

abbrev pub first_part : List Text → Text
first_part [] = []
first_part (x ∷ _) = x

unfoldable pub require_memory_record_id : Text → Result (Unit {0})
require_memory_record_id id =
    if not (is_safe_record_id id)
    then err (invalid_memory_id id)
    else if not (text_eq (first_part (split b':' id)) (str "memory"))
    then err (other_table id)
    else ok tt

unfoldable pub authorize_memory_mutation : Memory → Text → Result (Unit {0})
authorize_memory_mutation memory actor =
    if text_eq (trim memory.owner) actor
    then ok tt
    else if text_eq memory.visibility (str "personal")
    then err (personal_not_owner memory.id memory.owner)
    else err (team_not_owner memory.id memory.owner)

unfoldable pub mutation_actor : Credentials → Memory → Text → Text
mutation_actor actor_ctx memory explicit =
    if text_eq memory.visibility (str "personal")
    then trusted actor_ctx explicit
    else if actor_ctx.remote_untrusted
    then []
    else resolve_actor actor_ctx.actor explicit

-- the `?` of Rust, in calls that read and change a world
abbrev pub try : {S A B : Type 0} → Result A → (A → Action S (Result B)) → Action S (Result B)
try (err e) next = pure (err e)
try (ok a) next = next a

abbrev pub found_memory : Text → Fallible Text (Option Memory) → Result Memory
found_memory id (err e) = err (database e)
found_memory id (ok none) = err (not_found id)
found_memory id (ok (some memory)) = ok memory

abbrev pub ran : Fallible Text (Unit {0}) → Result (Unit {0})
ran (ok _) = ok tt
ran (err e) = err (database e)

-- `require_db`
abbrev pub with_db :
    {S Float B : Type 0}
    → Option (Database S Float)
    → (Database S Float → Action S (Result B))
    → Action S (Result B)
with_db none next = pure (err database_not_connected)
with_db (some db) next = next db

unfoldable pub hard_delete_sql : Text → Text
hard_delete_sql id =
    str "BEGIN TRANSACTION;\nDELETE supersedes WHERE in = "
    ++ (id
        ++ (str " OR out = "
            ++ (id
                ++ (str ";\nDELETE derived_from WHERE in = "
                    ++ (id
                        ++ (str ";\nDELETE part_of_workstream WHERE in = "
                            ++ (id
                                ++ (str ";\nDELETE " ++ (id ++ str ";\nCOMMIT TRANSACTION;")))))))))

abbrev pub answer : Text → Result (Unit {0}) → Result Text
answer t (ok _) = ok t
answer t (err e) = err e

module _ {S Float : Type 0} where
  unfoldable pub memory_for_governance : Database S Float → Text → Action S (Result Memory)
  memory_for_governance db id =
      try (require_memory_record_id id)
        (λ _. (do row ← db.memory_row id; pure (found_memory id row)))

  unfoldable pub run :
      Database S Float → Text → List (Text × Value Float) → Action S (Result (Unit {0}))
  run db sql bindings = do outcome ← db.execute sql bindings; pure (ran outcome)

  -- `delete_memory`, behind the look at the row
  unfoldable pub archive :
      Database S Float → Credentials → Text → Text → Memory → Action S (Result (Unit {0}))
  unfolding run
  archive db actor_ctx id explicit memory =
      if is_git memory
      then pure (err (git_owned memory.id))
      else try (authorize_memory_mutation memory (mutation_actor actor_ctx memory explicit)) (λ _.
        run db (str "UPDATE " ++ (id ++ str " SET status = 'archived', updated_at = time::now();"))
          [])

  unfoldable pub delete_memory :
      Option (Database S Float) → Credentials → Text → Text → Action S (Result (Unit {0}))
  unfolding archive memory_for_governance
  delete_memory conn actor_ctx id explicit = with_db conn (λ db.
      try (require_memory_record_id id) (λ _. (do
        memory ← memory_for_governance db id
        try memory (archive db actor_ctx id explicit))))

  -- `memory_delete` with `hard`, behind the look at the row
  unfoldable pub erase :
      Database S Float → Credentials → Text → Text → Memory → Action S (Result (Unit {0}))
  unfolding run hard_delete_sql
  erase db actor_ctx id actor memory =
      let resolved = mutation_actor actor_ctx memory actor in
      if is_git memory
      then pure (err (git_owned memory.id))
      else if not (text_eq (trim memory.owner) resolved)
      then pure (err (hard_delete_not_owner memory.owner resolved))
      else run db (hard_delete_sql id) []

  unfoldable pub memory_delete :
      Option (Database S Float) → Credentials → Text → Bool → Text → Action S (Result Text)
  unfolding erase delete_memory
  memory_delete conn actor_ctx id false actor = do
    archived ← delete_memory conn actor_ctx id actor
    pure (answer (str "archived") archived)
  memory_delete conn actor_ctx id true actor = with_db conn (λ db.
      try (require_memory_record_id id) (λ _. (do
        memory ← memory_for_governance db id
        erased ← try memory (erase db actor_ctx id actor)
        pure (answer (str "deleted") erased))))

  -- `share_memory`, behind the look at the row
  unfoldable pub share :
      Database S Float → Credentials → Text → Text → Memory → Action S (Result (Unit {0}))
  unfolding run
  share db actor_ctx id explicit memory =
      if not (text_eq memory.owner (trusted actor_ctx explicit))
      then pure (err (share_not_owner id memory.owner))
      else if text_eq memory.visibility (str "team")
      then pure (ok tt)
      else run db
          (str "UPDATE " ++ (id ++ str " SET visibility = 'team', updated_at = time::now();")) []

  unfoldable pub share_memory :
      Option (Database S Float) → Credentials → Text → Text → Action S (Result (Unit {0}))
  unfolding share memory_for_governance
  share_memory conn actor_ctx id explicit = with_db conn (λ db.
      if not (is_safe_record_id id)
      then pure (err (invalid_memory_id id))
      else (do memory ← memory_for_governance db id; try memory (share db actor_ctx id explicit)))

  unfoldable pub memory_share :
      Option (Database S Float) → Credentials → Text → List Text → Action S (Result (Unit {0}))
  unfolding share_memory
  memory_share conn actor_ctx id [] = share_memory conn actor_ctx id []
  memory_share conn actor_ctx id (actor ∷ []) = share_memory conn actor_ctx id actor
  memory_share conn actor_ctx id (visibility ∷ actor ∷ _) =
      if not (is_empty visibility) && not (text_eq visibility (str "team"))
      then pure (err only_to_team)
      else share_memory conn actor_ctx id actor
