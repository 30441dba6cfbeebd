-- ===== src/Ai/Batch.antt =====
-- crates/ibis-ai/src/batch_manager.rs: the sweeps that cut pending commits into chunks and embed
-- pending chunks. The store, git, the directories and the embeddings are parameters, as in the code.
pub mod Chunks
pub mod Sweep
pub mod Commits
mod Tests
use ibis_assistant.Prelude.{
  ℕ, ◌+◌, Bool, true, false, not, Option, none, some, List, [], ◌∷◌, ◌++◌, length, take, ltb, leb,
  ◌==◌, ◌&&◌, if◌then◌else◌,
}
use ibis_assistant.Ai.{Result, ok, err, Action, ◌>>=◌, pure}
use ibis_assistant.Text.{Text, str, is_empty}
use ibis_assistant.Text.Bytes.{byte_len}
use ibis_assistant.Text.Split.{split}

abbrev pub batch_size : ℕ
batch_size = 100

abbrev pub default_max_delta_size : ℕ
default_max_delta_size = 8000

pub record PendingChunkRow : Type 0 where
  pub id : Option Text
  pub content : Option Text

pub record PendingCommitRow : Type 0 where
  pub id : Option Text
  pub hash : Text
  pub repo_name : Text
  pub message : Text
  pub date : Option Text

pub record CommitChunkWrite : Type 0 where
  pub commit_record : Text
  pub chunk_key : Text
  pub content : Text
  pub hash : Text
  pub date : Option Text

pub record CommitTxn : Type 0 where
  pub chunk_writes : List CommitChunkWrite
  pub completed_commits : List Text
  pub failed_commits : List (Text × Text)

pub record ChunkStore (S Vector : Type 0) : Type 0 where
  pub pending_chunks : Text → ℕ → Action S (Result (List PendingChunkRow))
  pub pending_commits : ℕ → Action S (Result (List PendingCommitRow))
  pub save_chunk_embeddings : List (Text × Vector) → Action S (Result (Unit {0}))
  pub apply_commit_txn : CommitTxn → Action S (Result (Unit {0}))

-- the half of `AIProvider` that is called
pub record Embedder (S Vector : Type 0) : Type 0 where
  pub is_functional : Action S Bool
  pub batch_embed_text : List Text → Action S (Result (List Vector))

-- a resolver of git directories, and `CommitPatchSource`
abbrev pub Resolver : Type 0 → Type 0 → Type 0
Resolver S Dir = Text → Action S (Option Dir)

pub record BatchManager (S Vector Dir : Type 0) : Type 0 where
  pub store : Option (ChunkStore S Vector)
  pub ai : Option (Embedder S Vector)
  pub commit_patch : Dir → Text → Action S (Result Text)
  pub resolve_git_dir : Resolver S Dir
  pub max_delta_size : ℕ

-- The loop of `chunk_string`: a chunk is closed in front of the line that it has no room for.
unfoldable pub is_full : ℕ → Text → Text → Bool
is_full max_len current line =
    ltb max_len (byte_len current + byte_len line + 1) && not (is_empty current)

unfoldable pub extend : Text → Text → Text
extend current line = if is_empty current then line else current ++ (b'\n' ∷ line)

unfoldable pub fill : ℕ → Text → List Text → List Text
unfolding is_full extend
fill max_len current [] = if is_empty current then [] else current ∷ []
fill max_len current (line ∷ lines) =
    let begun = fill max_len line lines in
    let longer = fill max_len (extend current line) lines in
    if is_full max_len current line then current ∷ begun else longer

unfoldable pub chunk_string : Text → ℕ → List Text
unfolding fill
chunk_string text max_len =
    if leb (byte_len text) max_len then text ∷ [] else fill max_len [] (split b'\n' text)

-- `filter(|s| !s.is_empty())`
abbrev pub filled : Option Text → Option Text
filled none = none
filled (some s) = if is_empty s then none else some s

-- a row with both goes to the ids and to the texts
unfoldable pub usable_row :
    Option Text → Option Text → List Text × List Text → List Text × List Text
usable_row (some id) (some content) (chunk_ids, texts) = (id ∷ chunk_ids, content ∷ texts)
usable_row _ _ rest = rest

-- the ids and the texts of the rows that have both
unfoldable pub usable : List PendingChunkRow → List Text × List Text
unfolding usable_row
usable [] = ([], [])
usable (row ∷ rows) = usable_row (filled row.id) (filled row.content) (usable rows)

abbrev pub found_rows : Result (List PendingChunkRow) → List PendingChunkRow
found_rows (ok rows) = rows
found_rows (err _) = []

abbrev pub zip : {A B : Type 0} → List A → List B → List (A × B)
zip (x ∷ xs) (y ∷ ys) = (x, y) ∷ zip xs ys
zip _ _ = []

module _ {S Vector : Type 0} where
  -- `found` are the rows of the tables before
  unfoldable pub fetch :
      ChunkStore S Vector → List Text → List PendingChunkRow → Action S (List PendingChunkRow)
  fetch store [] found = pure found
  fetch store (table ∷ tables) found = do
    more ← store.pending_chunks table batch_size
    let rows = found ++ found_rows more
    if leb batch_size (length rows) then pure (take batch_size rows) else fetch store tables rows

  unfoldable pub save : ChunkStore S Vector → List Text → Result (List Vector) → Action S (Unit {0})
  save store chunk_ids (err _) = pure tt
  save store chunk_ids (ok embeddings) =
      if length embeddings == length chunk_ids
      then (do _ ← store.save_chunk_embeddings (zip chunk_ids embeddings); pure tt)
      else pure tt

  unfoldable pub embed :
      ChunkStore S Vector → Embedder S Vector → List Text × List Text → Action S (Unit {0})
  unfolding save
  embed store ai ([], texts) = pure tt
  embed store ai (id ∷ chunk_ids, texts) = do
    embeddings ← ai.batch_embed_text texts
    save store (id ∷ chunk_ids) embeddings

  unfoldable pub sweep_chunks : ChunkStore S Vector → Embedder S Vector → Bool → Action S (Unit {0})
  unfolding fetch embed usable
  sweep_chunks store ai false = pure tt
  sweep_chunks store ai true = do
    rows ← fetch store (str "file_chunk" ∷ str "commit_chunk" ∷ []) []
    embed store ai (usable rows)

  unfoldable pub process_pending_chunks :
      {Dir : Type 0} → BatchManager S Vector Dir → Action S (Unit {0})
  unfolding sweep_chunks
  process_pending_chunks m = elim (m.store) [
    | none ↦ pure tt
    | some store ↦ elim (m.ai) [
      | none ↦ pure tt
      | some ai ↦ do functional ← ai.is_functional; sweep_chunks store ai functional
    ]
  ]
