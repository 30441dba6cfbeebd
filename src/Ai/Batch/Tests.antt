-- ===== src/Ai/Batch/Tests.antt =====
-- Sweeps over small stores, and the theorems at concrete rows.
use ibis_assistant.Prelude.{ℕ, ◌≡◌, refl, false, none, some, List, [], ◌∷◌, ◌++◌, length, take, All}
use ibis_assistant.Ai.{ok}
use ibis_assistant.Text.{Text, str}
use ibis_assistant.Text.Run.{text_runs}
use ibis_assistant.Text.Split.{split}
use ibis_assistant.Text.Lines.{kept}
use ibis_assistant.Text.Bytes.{byte_len}
use ibis_assistant.Ai.Batch.{
  PendingChunkRow, PendingCommitRow, ChunkStore, BatchManager, chunk_string, process_pending_chunks,
}
use ibis_assistant.Ai.Batch.Chunks.{IsFitting, chunk_string-IsFitting, lines_of, chunk_string-lines}
use ibis_assistant.Ai.Batch.Sweep.{one_by_one, chunks_get_own_vector}
use ibis_assistant.Ai.Batch.Commits.{no_commits, sweep_commits, chained}
use ibis_assistant.Ai.Batch.Commits.Written.{IsConsistent, sweep_commits-IsConsistent}

long_line_alone :
    chunk_string (str "ab\ncd\nlonger line\ne") 5 ≡ str "ab\ncd" ∷ str "longer line" ∷ str "e" ∷ []
unfolding chunk_string byte_len text_runs
long_line_alone = refl

chunk_string-IsFitting_example : All (IsFitting 5) (chunk_string (str "ab\ncd\nlonger line\ne") 5)
chunk_string-IsFitting_example = chunk_string-IsFitting 5 (str "ab\ncd\nlonger line\ne")

chunk_string-lines_example :
    lines_of (chunk_string (str "ab\n\ncd\ne") 4) ≡ kept (split b'\n' (str "ab\n\ncd\ne"))
chunk_string-lines_example = chunk_string-lines 4 (str "ab\n\ncd\ne")

abbrev row : Text → Text → PendingChunkRow
row id content = record { id = some id; content = some content }

-- two rows, one without a content, are pending in each table
abbrev pending_rows : Text → List PendingChunkRow
pending_rows table = row table (str "ab") ∷ row (str "c:2") [] ∷ []

-- the world is what was saved
abbrev two_rows : ChunkStore (List (Text × ℕ)) ℕ
two_rows = record {
  pending_chunks = λ table limit s. (ok (take limit (pending_rows table)), s);
  pending_commits = λ limit s. (ok [], s);
  save_chunk_embeddings = λ updates s. (ok tt, s ++ updates);
  apply_commit_txn = λ txn s. (ok tt, s);
}

abbrev manager : BatchManager (List (Text × ℕ)) ℕ Text
manager = record {
  store = some two_rows;
  ai = some (one_by_one length (λ texts s. s));
  commit_patch = λ path hash s. (ok (str "+a\n"), s);
  resolve_git_dir = λ name s. (some name, s);
  max_delta_size = 0;
}

chunks_get_own_vector_example :
    (process_pending_chunks manager []).1 ≡ (str "file_chunk", 2) ∷ (str "commit_chunk", 2) ∷ []
unfolding text_runs
chunks_get_own_vector_example =
    chunks_get_own_vector two_rows pending_rows (λ table n s. refl) manager length (λ texts s. s) []
      refl refl

abbrev commit : PendingCommitRow
commit = record {
  id = some (str "commit:1");
  hash = str "ab12";
  repo_name = str "ibis";
  message = str "fix";
  date = none;
}

sweep_commits-IsConsistent_example :
    IsConsistent 2 (sweep_commits manager (commit ∷ commit ∷ []) no_commits []).0
sweep_commits-IsConsistent_example = sweep_commits-IsConsistent manager (commit ∷ commit ∷ []) []

fallback_used :
    (chained {S = ℕ}
      (λ path s. (false, s))
      (λ name s. (some (str "/a"), s))
      (λ name s. (some (str "/b"), s))
      (str "ibis")
      0).0
    ≡ some (str "/b")
unfolding chained
fallback_used = refl
