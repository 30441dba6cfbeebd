-- ===== src/Ai/Batch/Commits/Written.antt =====
-- What a sweep over the pending commits writes (batch_manager.rs, `process_pending_commits`).
use ibis_assistant.Prelude.{
  ℕ, ◌+◌, ◌≤◌, ◌≡◌, ◌≢◌, refl, sym, ◌∙◌, Bool, true, false, Option, none, some, List, [], ◌∷◌, ◌++◌,
  map, any, All, length, length-append, ◌||◌, ◌&&◌, arith, inl, inr, Bool-cases,
}
use ibis_assistant.Ai.{Result, ok, err}
use ibis_assistant.Text.{Text, str, text_eq, text_eq_refl, is_empty}
use ibis_assistant.Text.Split.{split}
use ibis_assistant.Text.Lines.{kept}
use ibis_assistant.Ai.Batch.{
  PendingCommitRow, CommitChunkWrite, CommitTxn, BatchManager, chunk_string, filled,
}
use ibis_assistant.Ai.Batch.Chunks.{lines_of, chunk_string-lines}
use ibis_assistant.Ai.Batch.Commits.{
  no_commits, full_text, chunk_writes_from, add_chunks, max_delta, with_patch, after_patch,
  fail_commit, with_dir, with_id, sweep_commits,
}

abbrev pub listed : Text → List Text → Bool
listed id ids = any (λ o. text_eq o id) ids

listed-append : (id : Text) (xs ys : List Text) → listed id xs ≡ true → listed id (xs ++ ys) ≡ true
listed-append id [] ys h = cc
listed-append id (x ∷ xs) ys h = ground (arith, listed-append id xs ys)

listed-concat : (id : Text) (xs : List Text) → listed id (xs ++ id ∷ []) ≡ true
listed-concat id [] = ground (arith, text_eq_refl id)
listed-concat id (x ∷ xs) = ground (arith, listed-concat id xs)

-- every chunk belongs to a commit that is completed
abbrev pub AreOfCompleted : List Text → List CommitChunkWrite → Type 0
AreOfCompleted completed writes = All (λ w. listed w.commit_record completed ≡ true) writes

AreOfCompleted-more :
    (completed more : List Text) (ws : List CommitChunkWrite)
    → AreOfCompleted completed ws
    → AreOfCompleted (completed ++ more) ws
AreOfCompleted-more completed more [] h = tt
AreOfCompleted-more completed more (w ∷ ws) h =
    (listed-append w.commit_record completed more h.0, AreOfCompleted-more completed more ws h.1)

AreOfCompleted-append :
    (completed : List Text) (xs ys : List CommitChunkWrite)
    → AreOfCompleted completed xs
    → AreOfCompleted completed ys
    → AreOfCompleted completed (xs ++ ys)
AreOfCompleted-append completed [] ys h k = k
AreOfCompleted-append completed (x ∷ xs) ys h k = (h.0, AreOfCompleted-append completed xs ys h.1 k)

chunk_writes_from-AreOfCompleted :
    (completed : List Text) (id : Text) (row : PendingCommitRow) (i : ℕ) (chunks : List Text)
    → listed id completed ≡ true
    → AreOfCompleted completed (chunk_writes_from id row i chunks)
unfolding chunk_writes_from
chunk_writes_from-AreOfCompleted completed id row i [] h = tt
chunk_writes_from-AreOfCompleted completed id row i (c ∷ cs) h =
    (h, chunk_writes_from-AreOfCompleted completed id row (i + 1) cs h)

-- a transaction for `n` rows
pub record IsConsistent (n : ℕ) (txn : CommitTxn) : Type 0 where
  pub written : AreOfCompleted txn.completed_commits txn.chunk_writes
  pub counted : length txn.completed_commits + length txn.failed_commits ≤ n

completed-IsConsistent :
    (n : ℕ) (txn : CommitTxn) (id : Text)
    → IsConsistent n txn
    → IsConsistent (n + 1) (record txn { completed_commits = txn.completed_commits ++ id ∷ [] })
completed-IsConsistent n txn id h = record {
  written = AreOfCompleted-more txn.completed_commits (id ∷ []) txn.chunk_writes h.written;
  counted = omega (arith, length-append txn.completed_commits (id ∷ []));
}

IsConsistent-le : (n k : ℕ) (txn : CommitTxn) → n ≤ k → IsConsistent n txn → IsConsistent k txn
IsConsistent-le n k txn le h = record { written = h.written; counted = omega arith }

unchanged-IsConsistent : (n : ℕ) (txn : CommitTxn) → IsConsistent n txn → IsConsistent (n + 1) txn
unchanged-IsConsistent n txn h = record { written = h.written; counted = omega arith }

add_chunks-IsConsistent :
    (n : ℕ) (id : Text) (row : PendingCommitRow) (chunks : List Text) (txn : CommitTxn)
    → IsConsistent n txn
    → IsConsistent (n + 1) (add_chunks id row chunks txn)
unfolding add_chunks
add_chunks-IsConsistent n id row [] txn h = unchanged-IsConsistent n txn h
add_chunks-IsConsistent n id row (c ∷ cs) txn h =
    let done = completed-IsConsistent n txn id h in
    record {
      written =
          AreOfCompleted-append (txn.completed_commits ++ id ∷ []) txn.chunk_writes
            (chunk_writes_from id row 0 (c ∷ cs)) done.written
            (chunk_writes_from-AreOfCompleted (txn.completed_commits ++ id ∷ []) id row 0 (c ∷ cs)
              (listed-concat id txn.completed_commits));
      counted = done.counted;
    }

after_patch-IsConsistent :
    (n size : ℕ) (id : Text) (row : PendingCommitRow) (patch : Result Text) (txn : CommitTxn)
    → IsConsistent n txn
    → IsConsistent (n + 1) (after_patch size id row patch txn)
unfolding after_patch with_patch
after_patch-IsConsistent n size id row (err _) txn h = unchanged-IsConsistent n txn h
after_patch-IsConsistent n size id row (ok patch) txn h =
    elim (Bool-cases (is_empty patch && is_empty row.message)) [
      | inl e ↦ rw e (completed-IsConsistent n txn id h)
      | inr e ↦ rw e (add_chunks-IsConsistent n id row _ txn h)
    ]

fail_commit-IsConsistent :
    (n : ℕ) (id : Text) (txn : CommitTxn)
    → IsConsistent n txn
    → IsConsistent (n + 1) (fail_commit id txn)
unfolding fail_commit
fail_commit-IsConsistent n id txn h = record {
  written = h.written;
  counted = omega (arith, length-append txn.failed_commits ((id, str "unresolved_git_dir") ∷ []));
}

module _ {S Vector Dir : Type 0} (m : BatchManager S Vector Dir) where
  with_dir-IsConsistent :
      (n : ℕ) (id : Text) (row : PendingCommitRow) (dir : Option Dir) (txn : CommitTxn) (s : S)
      → IsConsistent n txn
      → IsConsistent (n + 1) (with_dir m id row dir txn s).0
  unfolding with_dir
  with_dir-IsConsistent n id row none txn s h = fail_commit-IsConsistent n id txn h
  with_dir-IsConsistent n id row (some path) txn s h =
      after_patch-IsConsistent n m.max_delta_size id row _ txn h

  with_id-IsConsistent :
      (n : ℕ) (id : Option Text) (row : PendingCommitRow) (txn : CommitTxn) (s : S)
      → IsConsistent n txn
      → IsConsistent (n + 1) (with_id m id row txn s).0
  unfolding with_id
  with_id-IsConsistent n none row txn s h = unchanged-IsConsistent n txn h
  with_id-IsConsistent n (some id) row txn s h =
      elim (Bool-cases (is_empty row.hash || is_empty row.repo_name)) [
        | inl e ↦ rw e (unchanged-IsConsistent n txn h)
        | inr e ↦ rw e (with_dir-IsConsistent n id row _ txn _ h)
      ]

  sweep-IsConsistent :
      (n : ℕ) (rows : List PendingCommitRow) (txn : CommitTxn) (s : S)
      → IsConsistent n txn
      → IsConsistent (n + length rows) (sweep_commits m rows txn s).0
  unfolding sweep_commits
  sweep-IsConsistent n [] txn s h = IsConsistent-le n (n + 0) txn (omega arith) h
  sweep-IsConsistent n (row ∷ rows) txn s h =
      let next = with_id m (filled row.id) row txn s in
      let swept = sweep_commits m rows next.0 next.1 in
      IsConsistent-le (n + 1 + length rows) (n + length (row ∷ rows)) swept.0 (omega arith) (
        sweep-IsConsistent (n + 1) rows next.0 next.1
          (with_id-IsConsistent n (filled row.id) row txn s h))

  -- Whatever git and the file system give, the transaction of a sweep writes chunks only of commits
  -- that it completes, and completes or fails no more commits than there were rows.
  pub sweep_commits-IsConsistent :
      (rows : List PendingCommitRow) (s : S)
      → IsConsistent (length rows) (sweep_commits m rows no_commits s).0
  sweep_commits-IsConsistent rows s =
      IsConsistent-le (0 + length rows) (length rows) (sweep_commits m rows no_commits s).0
        (omega arith)
        (sweep-IsConsistent 0 rows no_commits s (record { written = tt; counted = omega arith }))

contents-chunk_writes_from :
    (id : Text) (row : PendingCommitRow) (i : ℕ) (chunks : List Text)
    → map (λ w. w.content) (chunk_writes_from id row i chunks) ≡ chunks
unfolding chunk_writes_from
contents-chunk_writes_from id row i [] = refl
contents-chunk_writes_from id row i (c ∷ cs) = rw (contents-chunk_writes_from id row (i + 1) cs)

-- the lines of the message and of the patch, with their headings
abbrev pub commit_lines : PendingCommitRow → Text → List Text
commit_lines row patch = kept (split b'\n' (full_text row.message patch))

heading-kept :
    (rest : Text)
    → kept (split b'\n' (str "COMMIT MESSAGE:\n" ++ rest))
      ≡ str "COMMIT MESSAGE:" ∷ kept (split b'\n' rest)
unfolding split kept is_empty
heading-kept rest = refl

added :
    (id : Text) (row : PendingCommitRow) (ls chunks : List Text)
    → lines_of chunks ≡ ls
    → ls ≢ []
    → (lines_of (map (λ w. w.content) (add_chunks id row chunks no_commits).chunk_writes) ≡ ls)
      × ((add_chunks id row chunks no_commits).completed_commits ≡ id ∷ [])
unfolding add_chunks
added id row ls [] h n = absurd (n (sym h ∙ unfold lines_of kept in refl))
added id row ls (c ∷ cs) h n = (rw (contents-chunk_writes_from id row 0 (c ∷ cs)) h, refl)

-- A commit with a message or a patch is completed, and the chunks that are written for it hold the
-- lines of both, each once and in order, blank lines aside.
with_patch-lines :
    (size : ℕ) (id : Text) (row : PendingCommitRow) (patch : Text)
    → (is_empty patch && is_empty row.message) ≡ false
    → (lines_of (map (λ w. w.content) (with_patch size id row patch no_commits).chunk_writes)
        ≡ commit_lines row patch)
      × ((with_patch size id row patch no_commits).completed_commits ≡ id ∷ [])
unfolding with_patch
with_patch-lines size id row patch h = rw h (
    added id row (commit_lines row patch)
      (chunk_string (full_text row.message patch) (max_delta size))
      (chunk_string-lines (max_delta size) (full_text row.message patch))
      (λ e. cc (e, headed row.message patch)))
  where
    headed :
        (message patch : Text)
        → kept (split b'\n' (full_text message patch))
          ≡ str "COMMIT MESSAGE:" ∷ kept (split b'\n' (message ++ (str "\n\nPATCH:\n" ++ patch)))
    headed message patch =
        unfold full_text in heading-kept (message ++ (str "\n\nPATCH:\n" ++ patch))
