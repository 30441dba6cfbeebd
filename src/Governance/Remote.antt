-- ===== src/Governance/Remote.antt =====
-- What a peer from outside can do to the memories (crates/ibis-search/src/memory/mod.rs, share.rs,
-- with the credentials of crates/ibis-httpserver/src/auth.rs).
mod Guards
use ibis_assistant.Prelude.{[], ◌≡◌, refl, Bool, true, false, not, Option, some, List, ◌∷◌, ◌&&◌}
use ibis_assistant.Effect.{Fallible, ok, err, Action, ◌>>=◌, pure}
use ibis_assistant.Text.{Text, str, text_eq, is_empty}
use ibis_assistant.Text.Trim.{trim}
use ibis_assistant.Records.{is_safe_record_id}
use ibis_assistant.Access.Peer.{is_loopback_peer}
use ibis_assistant.Access.Actor.{Credentials, Headers, inject_auth, trusted, remote_has_no_actor}
use ibis_assistant.Governance.{
  Memory, Result, Value, Database, is_git, require_memory_record_id, mutation_actor, try,
  found_memory, memory_for_governance, archive, delete_memory, erase, memory_delete, share,
  share_memory, memory_share,
}
use ibis_assistant.Governance.Owners.{authorize-refuses}
use ibis_assistant.Governance.Update.{
  MemoryUpdateParams, changes_claim, patch_memory, update_memory,
}
use ibis_assistant.Governance.Remote.Guards.{
  if-same, guard-same, try-same, try-cong, found-same, text_eq_nil, trim_nonempty, if-const,
}

-- Every memory that the database knows has an owner.
abbrev pub IsOwned : {S Float : Type 0} → Database S Float → Type 0
IsOwned {S} db =
    (id : Text) (s : S) (memory : Memory)
    → (db.memory_row id s).0 ≡ ok (some memory)
    → is_empty (trim memory.owner) ≡ false

module _ (v6_loopback : Text → Option Bool) (peer : Text) (headers : Headers)
    (remote : is_loopback_peer v6_loopback peer ≡ false) where
  abbrev caller : Credentials
  caller = inject_auth v6_loopback peer headers

  mutation_actor-remote :
      (memory : Memory) (explicit : Text) → mutation_actor caller memory explicit ≡ []
  unfolding mutation_actor inject_auth
  mutation_actor-remote memory explicit =
      rw (remote_has_no_actor v6_loopback peer headers explicit remote, remote)
        (if-const (text_eq memory.visibility (str "personal")) [])

  not_owner :
      (memory : Memory) (explicit : Text)
      → is_empty (trim memory.owner) ≡ false
      → text_eq (trim memory.owner) (mutation_actor caller memory explicit) ≡ false
  not_owner memory explicit h =
      rw (mutation_actor-remote memory explicit) (text_eq_nil (trim memory.owner) h)

  not_sharer :
      (memory : Memory) (explicit : Text)
      → is_empty (trim memory.owner) ≡ false
      → text_eq memory.owner (trusted caller explicit) ≡ false
  not_sharer memory explicit h =
      rw (remote_has_no_actor v6_loopback peer headers explicit remote)
        (text_eq_nil memory.owner (trim_nonempty memory.owner h))

  module _ {S Float : Type 0} (db : Database S Float) (owned : IsOwned db)
      (execute : Text → List (Text × Value Float) → Action S (Fallible Text (Unit {0}))) where
    -- the same rows behind other statements
    abbrev other : Database S Float
    other = record db { execute = execute }

    archive-same :
        (id explicit : Text) (memory : Memory) (s : S)
        → is_empty (trim memory.owner) ≡ false
        → archive db caller id explicit memory s ≡ archive other caller id explicit memory s
    unfolding archive
    archive-same id explicit memory s h =
        if-same (is_git memory) _ _ _ s
          (try-same _ _ _ s (authorize-refuses memory _ (not_owner memory explicit h)))

    erase-same :
        (id explicit : Text) (memory : Memory) (s : S)
        → is_empty (trim memory.owner) ≡ false
        → erase db caller id explicit memory s ≡ erase other caller id explicit memory s
    unfolding erase
    erase-same id explicit memory s h =
        if-same (is_git memory) _ _ _ s (guard-same _ _ _ _ s (not_owner memory explicit h))

    share-same :
        (id explicit : Text) (memory : Memory) (s : S)
        → is_empty (trim memory.owner) ≡ false
        → share db caller id explicit memory s ≡ share other caller id explicit memory s
    unfolding share
    share-same id explicit memory s h = guard-same _ _ _ _ s (not_sharer memory explicit h)

    -- with the outcome of the check of the id
    row-same :
        {B : Type 0} (r : Result (Unit {0})) (id : Text) (f g : Memory → Action S (Result B))
        (s : S)
        → ((memory : Memory) (s' : S)
            → is_empty (trim memory.owner) ≡ false
            → f memory s' ≡ g memory s')
        → (try r (λ _. (do row ← db.memory_row id; pure (found_memory id row))) >>= λ memory.
              try memory f)
            s
          ≡ (try r (λ _. (do row ← db.memory_row id; pure (found_memory id row))) >>= λ memory.
                try memory g)
              s
    row-same (ok _) id f g s h =
        found-same id (db.memory_row id s).0 f g (db.memory_row id s).1
          (λ memory e. h memory (db.memory_row id s).1 (owned id s memory e))
    row-same (err e) id f g s h = refl

    looked_up-same :
        {B : Type 0} (id : Text) (f g : Memory → Action S (Result B)) (s : S)
        → ((memory : Memory) (s' : S)
            → is_empty (trim memory.owner) ≡ false
            → f memory s' ≡ g memory s')
        → (memory_for_governance db id >>= λ memory. try memory f) s
          ≡ (memory_for_governance other id >>= λ memory. try memory g) s
    unfolding memory_for_governance
    looked_up-same id f g s h = row-same (require_memory_record_id id) id f g s h

    delete_memory-same :
        (id explicit : Text) (s : S)
        → delete_memory (some db) caller id explicit s
          ≡ delete_memory (some other) caller id explicit s
    unfolding delete_memory
    delete_memory-same id explicit s =
        try-cong (require_memory_record_id id) _ _ s
          (λ _. looked_up-same id _ _ s (archive-same id explicit))

    share_memory-same :
        (id explicit : Text) (s : S)
        → share_memory (some db) caller id explicit s
          ≡ share_memory (some other) caller id explicit s
    unfolding share_memory
    share_memory-same id explicit s =
        if-same (not (is_safe_record_id id)) _ _ _ s
          (looked_up-same id _ _ s (share-same id explicit))

    patch_memory-same :
        (embed : Text → Action S (Fallible Text (List Float))) (in_range : Float → Bool)
        (params : MemoryUpdateParams Float) (memory : Memory) (s : S)
        → is_empty (trim memory.owner) ≡ false
        → patch_memory embed in_range db caller params memory s
          ≡ patch_memory embed in_range other caller params memory s
    unfolding patch_memory
    patch_memory-same embed in_range params memory s h =
        if-same (is_git memory && changes_claim params) _ _ _ s
          (try-same _ _ _ s (authorize-refuses memory _ (not_owner memory params.actor h)))

    update_memory-same :
        (embed : Text → Action S (Fallible Text (List Float))) (in_range : Float → Bool)
        (params : MemoryUpdateParams Float) (s : S)
        → update_memory embed in_range (some db) caller params s
          ≡ update_memory embed in_range (some other) caller params s
    unfolding update_memory
    update_memory-same embed in_range params s =
        try-cong (require_memory_record_id params.id) _ _ s
          (λ _. looked_up-same params.id _ _ s (patch_memory-same embed in_range params))

    memory_delete-same :
        (id actor : Text) (hard : Bool) (s : S)
        → memory_delete (some db) caller id hard actor s
          ≡ memory_delete (some other) caller id hard actor s
    unfolding memory_delete
    memory_delete-same id actor false s = rw (delete_memory-same id actor s)
    memory_delete-same id actor true s =
        try-cong (require_memory_record_id id) _ _ s
          (λ _. rw (looked_up-same id _ _ s (erase-same id actor)))

    memory_share-same :
        (id : Text) (args : List Text) (s : S)
        → memory_share (some db) caller id args s ≡ memory_share (some other) caller id args s
    unfolding memory_share
    memory_share-same id [] s = share_memory-same id [] s
    memory_share-same id (actor ∷ []) s = share_memory-same id actor s
    memory_share-same id (visibility ∷ actor ∷ rest) s =
        if-same (not (is_empty visibility) && not (text_eq visibility (str "team"))) _ _ _ s
          (share_memory-same id actor s)

    -- A peer that is not loopback changes no memory that has an owner, whoever it names: if every
    -- memory of the database has one, then deleting, sharing and updating give the same answer and
    -- leave the same world, whatever the statements that they would run do.
    pub remote_writes_nothing :
        (embed : Text → Action S (Fallible Text (List Float))) (in_range : Float → Bool)
        (id actor : Text) (hard : Bool) (args : List Text) (params : MemoryUpdateParams Float)
        (s : S)
        → (memory_delete (some db) caller id hard actor s
            ≡ memory_delete (some other) caller id hard actor s)
          × (memory_share (some db) caller id args s ≡ memory_share (some other) caller id args s)
          × (update_memory embed in_range (some db) caller params s
              ≡ update_memory embed in_range (some other) caller params s)
    remote_writes_nothing embed in_range id actor hard args params s = (
      memory_delete-same id actor hard s,
      memory_share-same id args s,
      update_memory-same embed in_range params s,
    )
