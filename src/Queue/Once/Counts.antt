-- ===== src/Queue/Once/Counts.antt =====
-- How many jobs and calls of a callback there are (queue.rs).
use ibis_assistant.Prelude.{
  [], ℕ, ◌+◌, ◌≡◌, Bool, ◌&&◌, List, ◌∷◌, ◌++◌, ◌==◌, arith, if◌then◌else◌,
}
use ibis_assistant.Effect.{Fallible, ok, err}
use ibis_assistant.Queue.{
  DynamicError, IngestionJob, SyncOutcome, Event, sync_done, completed, Worker, syncing, processing,
  on_complete_with, synced, sync_outcome, sync_phase, Ingest, process_phase, process_result,
}

module _ (n : ℕ) where
  -- whether a job has the tag and a callback
  abbrev pub one : IngestionJob → ℕ
  one job = if job.on_complete && job.tag == n then 1 else 0

  -- how many jobs of a list do
  abbrev pub jobs : List IngestionJob → ℕ
  jobs [] = 0
  jobs (job ∷ js) = one job + jobs js

  pub jobs-append : (a b : List IngestionJob) → jobs (a ++ b) ≡ jobs a + jobs b
  jobs-append [] b = omega arith
  jobs-append (job ∷ a) b = omega (arith, jobs-append a b)

  abbrev pub busy : Worker → ℕ
  busy (syncing job) = one job
  busy (processing job _) = one job
  busy _ = 0

  module _ {E : Type 0} where
    abbrev pub call : Event E → ℕ
    call (sync_done _ _) = 0
    call (completed tag _) = if tag == n then 1 else 0

    -- how often the completion callback was called
    abbrev pub calls : List (Event E) → ℕ
    calls [] = 0
    calls (e ∷ es) = call e + calls es

    pub calls-append : (a b : List (Event E)) → calls (a ++ b) ≡ calls a + calls b
    calls-append [] b = omega arith
    calls-append (e ∷ a) b = omega (arith, calls-append a b)

    pub calls_complete :
        (r : Fallible (DynamicError E) (Unit {0})) (job : IngestionJob)
        → calls (on_complete_with r job) ≡ one job
    calls_complete r job = ground arith

    -- The callback is called in the sync phase, or the worker still has the job.
    pub calls-synced :
        (job : IngestionJob) (r : Fallible (DynamicError E) SyncOutcome)
        → calls (synced job r).0 + busy (synced job r).1 ≡ one job
    calls-synced job (ok outcome) = ground arith
    calls-synced job (err e) = ground arith

    pub calls-sync_phase :
        (c : Bool) (result : Fallible E SyncOutcome) (job : IngestionJob)
        → calls (sync_phase c result job).0 + busy (sync_phase c result job).1 ≡ one job
    unfolding sync_phase
    calls-sync_phase c result job = calls-synced job (sync_outcome c result)

    pub calls-process_phase :
        (result : Ingest E) (job : IngestionJob) → calls (process_phase result job) ≡ one job
    unfolding process_phase
    calls-process_phase result job = calls_complete (process_result result) job
