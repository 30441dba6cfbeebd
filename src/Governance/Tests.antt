-- ===== src/Governance/Tests.antt =====
-- Runs of the governance of memories on concrete inputs.
use ibis_assistant.Prelude.{
  ◌≡◌, ◌≢◌, refl, ap, sym, Bool, true, false, Option, none, some, ℕ, ◌+◌, List, [], ◌∷◌,
  if◌then◌else◌,
}
use ibis_assistant.Effect.{Fallible, ok, err, Action}
use ibis_assistant.Text.{Text, str, text_eq, text_eq_iff, is_empty}
use ibis_assistant.Text.Run.{text_runs}
use ibis_assistant.Text.Trim.{trim}
use ibis_assistant.Records.{is_safe_record_id, table_matches, key_matches, key_body, key_rest}
use ibis_assistant.Access.Peer.{is_loopback_peer, split_peer_host, octet, v4_loopback}
use ibis_assistant.Access.Actor.{
  Credentials, Headers, inject_auth, resolve_trusted_actor, resolve_actor,
}
use ibis_assistant.Governance.{
  Memory, Value, Database, require_memory_record_id, memory_delete, hard_delete_not_owner,
  invalid_memory_id, other_table, authorize_memory_mutation, mutation_actor, archive, erase, share,
  memory_share,
}
use ibis_assistant.Governance.Update.{MemoryUpdateParams, patch_memory, update_memory}
use ibis_assistant.Governance.Owners.{Refused, only_owner_changes}
use ibis_assistant.Governance.Remote.{remote_writes_nothing}

abbrev ada_memory : Memory
ada_memory = record {
  id = str "memory:a";
  visibility = str "personal";
  owner = str "ada";
  store = [];
}

-- the world counts the statements; there is one memory
abbrev one_memory : Database ℕ ℕ
one_memory = record {
  memory_row = λ id s. (ok (if text_eq id (str "memory:a") then some ada_memory else none), s);
  execute = λ sql bindings s. (ok tt, s + 1);
}

abbrev local_as : Text → Credentials
local_as actor = record {
  redmine_key = none;
  jira_email = none;
  jira_api_token = none;
  azure_devops_pat = none;
  azure_devops_org = none;
  azure_devops_project = none;
  azure_devops_repo = none;
  git_token = none;
  actor = some actor;
  remote_untrusted = false;
}

abbrev new_title : MemoryUpdateParams ℕ
new_title = record {
  id = str "memory:a";
  content = none;
  title = some (str "t");
  kind = none;
  status = none;
  confidence = none;
  tags = none;
  visibility = none;
  valid_until = none;
  actor = str "ada";
}

abbrev embed_nothing : Text → Action ℕ (Fallible Text (List ℕ))
embed_nothing content s = (ok [], s)

abbrev any_value : ℕ → Bool
any_value _ = true

-- a table that is not memories, and a text that is no id
unsafe_ids :
    (require_memory_record_id (str "decision:a") ≡ err (other_table (str "decision:a")))
    × (require_memory_record_id (str "memory a") ≡ err (invalid_memory_id (str "memory a")))
unfolding require_memory_record_id is_safe_record_id text_runs table_matches key_matches key_body
    key_rest
unsafe_ids = (refl, refl)

-- the owner deletes with one statement, the others with none
hard_delete_by :
    (memory_delete (some one_memory) (local_as (str "ada")) (str "memory:a") true [] 0
      ≡ (ok (str "deleted"), 1))
    × (memory_delete (some one_memory) (local_as (str "bob")) (str "memory:a") true [] 0
        ≡ (err (hard_delete_not_owner (str "ada") (str "bob")), 0))
unfolding memory_delete require_memory_record_id is_safe_record_id text_runs table_matches
    key_matches key_body key_rest mutation_actor resolve_trusted_actor resolve_actor
hard_delete_by = (refl, refl)

-- what a remote peer may do to a memory without an owner
abbrev orphan : Memory
orphan = record { id = str "memory:a"; visibility = str "team"; owner = str " "; store = [] }

orphan_is_anybodys : authorize_memory_mutation orphan [] ≡ ok tt
unfolding authorize_memory_mutation text_runs
orphan_is_anybodys = refl

apart : (a b : Text) → text_eq a b ≡ false → a ≢ b
apart a b h e = cc ((text_eq_iff a b).1 e)

only_owner_changes_example :
    Refused 0 (archive one_memory (local_as (str "bob")) (str "memory:a") [] ada_memory 0)
    × Refused 0 (erase one_memory (local_as (str "bob")) (str "memory:a") [] ada_memory 0)
    × Refused 0 (
        patch_memory embed_nothing any_value one_memory
          (local_as (str "bob"))
          new_title
          ada_memory
          0)
    × Refused 0 (share one_memory (local_as (str "bob")) (str "memory:a") [] ada_memory 0)
unfolding mutation_actor resolve_trusted_actor resolve_actor text_runs
only_owner_changes_example =
    only_owner_changes one_memory (local_as (str "bob")) ada_memory embed_nothing any_value
      (str "memory:a") [] new_title 0 (apart _ _ refl) (apart _ _ refl) (apart _ _ refl)

abbrev one_row : Bool → Fallible Text (Option Memory)
one_row b = ok (if b then some ada_memory else none)

abbrev blank : Fallible Text (Option Memory) → Bool
blank (ok (some memory)) = is_empty (trim memory.owner)
blank _ = false

ada_owned :
    (b : Bool) (memory : Memory)
    → one_row b ≡ ok (some memory)
    → is_empty (trim memory.owner) ≡ false
unfolding is_empty text_runs
ada_owned true memory h = sym (ap blank h)
ada_owned false memory h = cc

abbrev no_headers : Headers
no_headers _ = none

abbrev explode : Text → List (Text × Value ℕ) → Action ℕ (Fallible Text (Unit {0}))
explode sql bindings s = (err (str "down"), s + 99)

abbrev no_v6 : Text → Option Bool
no_v6 _ = none

abbrev remote_caller : Credentials
remote_caller = inject_auth no_v6 (str "10.0.0.9:5") no_headers

remote_writes_nothing_example :
    (memory_delete (some one_memory) remote_caller (str "memory:a") true (str "ada") 0
      ≡ memory_delete
          (some (record one_memory { execute = explode }))
          remote_caller
          (str "memory:a")
          true
          (str "ada")
          0)
    × (memory_share (some one_memory) remote_caller (str "memory:a") (str "ada" ∷ []) 0
        ≡ memory_share
            (some (record one_memory { execute = explode }))
            remote_caller
            (str "memory:a")
            (str "ada" ∷ [])
            0)
    × (update_memory embed_nothing any_value (some one_memory) remote_caller new_title 0
        ≡ update_memory embed_nothing any_value
            (some (record one_memory { execute = explode }))
            remote_caller
            new_title
            0)
unfolding is_loopback_peer split_peer_host v4_loopback octet text_runs
remote_writes_nothing_example =
    remote_writes_nothing no_v6 (str "10.0.0.9:5") no_headers refl one_memory
      (λ id s. ada_owned (text_eq id (str "memory:a"))) explode embed_nothing any_value
      (str "memory:a") (str "ada") true (str "ada" ∷ []) new_title 0
