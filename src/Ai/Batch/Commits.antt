-- ===== src/Ai/Batch/Commits.antt =====
-- The sweep over the pending commits (batch_manager.rs, `process_pending_commits`), and the
-- resolver that asks a second one.
pub mod Written
use ibis_assistant.Prelude.{
  ℕ, ◌+◌, Bool, true, false, Option, none, some, List, [], ◌∷◌, ◌++◌, ◌==◌, ◌&&◌, ◌||◌,
  if◌then◌else◌,
}
use ibis_assistant.Ai.{Result, ok, err, Action, ◌>>=◌, pure}
use ibis_assistant.Text.{Text, str, is_empty}
use ibis_assistant.Text.Trim.{trim}
use ibis_assistant.Text.Number.{pos, int_text}
use ibis_assistant.Ai.Batch.{
  PendingCommitRow, CommitChunkWrite, CommitTxn, ChunkStore, Resolver, BatchManager, batch_size,
  default_max_delta_size, chunk_string, filled,
}

abbrev pub no_commits : CommitTxn
no_commits = record { chunk_writes = []; completed_commits = []; failed_commits = [] }

-- `map(str::trim).filter(|s| !s.is_empty())`
abbrev pub filled_date : Option Text → Option Text
filled_date none = none
filled_date (some date) = filled (some (trim date))

unfoldable pub full_text : Text → Text → Text
full_text message patch = str "COMMIT MESSAGE:\n" ++ (message ++ (str "\n\nPATCH:\n" ++ patch))

unfoldable pub chunk_key : Text → ℕ → Text
unfolding int_text
chunk_key hash i = hash ++ (str "_chunk" ++ int_text (pos i))

-- the loop over the chunks, from the one with number `i` on
unfoldable pub chunk_writes_from : Text → PendingCommitRow → ℕ → List Text → List CommitChunkWrite
unfolding chunk_key
chunk_writes_from id row i [] = []
chunk_writes_from id row i (chunk ∷ chunks) =
    record {
      commit_record = id;
      chunk_key = chunk_key row.hash i;
      content = chunk;
      hash = row.hash;
      date = filled_date row.date;
    }
    ∷ chunk_writes_from id row (i + 1) chunks

unfoldable pub add_chunks : Text → PendingCommitRow → List Text → CommitTxn → CommitTxn
unfolding chunk_writes_from
add_chunks id row [] txn = txn
add_chunks id row (chunk ∷ chunks) txn = record txn {
  chunk_writes = txn.chunk_writes ++ chunk_writes_from id row 0 (chunk ∷ chunks);
  completed_commits = txn.completed_commits ++ id ∷ [];
}

abbrev pub max_delta : ℕ → ℕ
max_delta size = if size == 0 then default_max_delta_size else size

unfoldable pub with_patch : ℕ → Text → PendingCommitRow → Text → CommitTxn → CommitTxn
unfolding add_chunks full_text
with_patch size id row patch txn =
    if is_empty patch && is_empty row.message
    then record txn { completed_commits = txn.completed_commits ++ id ∷ [] }
    else add_chunks id row (chunk_string (full_text row.message patch) (max_delta size)) txn

-- the patch, if git gives it; else the commit stays pending
unfoldable pub after_patch : ℕ → Text → PendingCommitRow → Result Text → CommitTxn → CommitTxn
unfolding with_patch
after_patch size id row (err _) txn = txn
after_patch size id row (ok patch) txn = with_patch size id row patch txn

unfoldable pub fail_commit : Text → CommitTxn → CommitTxn
fail_commit id txn = record txn {
  failed_commits = txn.failed_commits ++ (id, str "unresolved_git_dir") ∷ [];
}

-- nothing is written where nothing was found out
unfoldable pub has_updates : CommitTxn → Bool
has_updates txn = elim (txn.chunk_writes) [
  | _ ∷ _ ↦ true
  | [] ↦ elim (txn.completed_commits) [
    | _ ∷ _ ↦ true
    | [] ↦ elim (txn.failed_commits) [ _ ∷ _ ↦ true | [] ↦ false ]
  ]
]

module _ {S Vector Dir : Type 0} (m : BatchManager S Vector Dir) where
  unfoldable pub with_dir : Text → PendingCommitRow → Option Dir → CommitTxn → Action S CommitTxn
  unfolding after_patch fail_commit
  with_dir id row none txn = pure (fail_commit id txn)
  with_dir id row (some repo_path) txn = do
    patch ← m.commit_patch repo_path row.hash
    pure (after_patch m.max_delta_size id row patch txn)

  unfoldable pub with_id : Option Text → PendingCommitRow → CommitTxn → Action S CommitTxn
  unfolding with_dir
  with_id none row txn = pure txn
  with_id (some id) row txn =
      if is_empty row.hash || is_empty row.repo_name
      then pure txn
      else (do dir ← m.resolve_git_dir row.repo_name; with_dir id row dir txn)

  unfoldable pub sweep_commits : List PendingCommitRow → CommitTxn → Action S CommitTxn
  unfolding with_id
  sweep_commits [] txn = pure txn
  sweep_commits (row ∷ rows) txn = do
    next ← with_id (filled row.id) row txn
    sweep_commits rows next

  unfoldable pub commit_rows :
      ChunkStore S Vector → Result (List PendingCommitRow) → Action S (Unit {0})
  unfolding sweep_commits has_updates
  commit_rows store (err _) = pure tt
  commit_rows store (ok rows) = do
    txn ← sweep_commits rows no_commits
    if has_updates txn then (do _ ← store.apply_commit_txn txn; pure tt) else pure tt

  unfoldable pub process_pending_commits : Action S (Unit {0})
  unfolding commit_rows
  process_pending_commits = elim (m.store) [
    | none ↦ pure tt
    | some store ↦ do rows ← store.pending_commits batch_size; commit_rows store rows
  ]

-- `ChainedGitDirResolver`; `is_git_dir` looks at the file system
module _ {S Dir : Type 0} (is_git_dir : Dir → Action S Bool) where
  unfoldable pub or_fallback : Resolver S Dir → Text → Option Dir → Action S (Option Dir)
  or_fallback fallback repo_name none = fallback repo_name
  or_fallback fallback repo_name (some path) = do
    found ← is_git_dir path
    if found then pure (some path) else fallback repo_name

  unfoldable pub chained : Resolver S Dir → Resolver S Dir → Resolver S Dir
  unfolding or_fallback
  chained primary fallback repo_name = do
    path ← primary repo_name
    or_fallback fallback repo_name path
