-- ===== src/Queue.antt =====
-- crates/ibis-ingest-dynamic/src/queue.rs: one worker for each project, fed by a bounded channel.
-- The channel is tokio's: its operations come from outside, with their documented behaviour as
-- laws. What syncing a workspace and ingesting it give is an input of the step that does it.
pub mod Steps
pub mod Lanes
pub mod Once
pub mod Order
pub mod Bound
pub mod Drain
mod Tests
use ibis_assistant.Prelude.{
  ℕ, Bool, true, false, Option, none, some, List, [], ◌∷◌, ◌++◌, if◌then◌else◌,
}
use ibis_assistant.Effect.{Fallible, ok, err}
use ibis_assistant.Text.{Text, text_eq}

abbrev pub job_channel_cap : ℕ
job_channel_cap = 100

-- `DynamicError`; `other` is one of the errors that syncing and ingesting give
pub data DynamicError (E : Type 0) : Type 0 where
  queue_full queue_closed manager_stopped ingest_timeout : DynamicError E
  other : E → DynamicError E

-- a job; `tag` tells the jobs apart, and the callbacks of one job are known by it
pub record IngestionJob : Type 0 where
  pub tag : ℕ
  pub project_name : Text
  pub origin_url : Text
  pub branch : Text
  pub commit : Text
  pub on_sync_done : Bool
  pub on_complete : Bool

pub record SyncOutcome : Type 0 where
  pub repo_path : Text
  pub actual_commit : Text
  pub is_aligned : Bool

pub record IngestionResult (E : Type 0) : Type 0 where
  pub actual_commit : Text
  pub is_aligned : Bool
  pub error : Option (DynamicError E)

-- a call of a callback, with the job that it belongs to
pub data Event (E : Type 0) : Type 0 where
  sync_done : ℕ → IngestionResult E → Event E
  completed : ℕ → Fallible (DynamicError E) (Unit {0}) → Event E

pub data SendResult (C : Type 0) : Type 0 where
  sent : C → SendResult C
  full closed : SendResult C

-- `mpsc::channel`, `try_send`, `recv` where a job waits, and the drop of the receiver
pub record Channel (C : Type 0) : Type 0 where
  pub channel : ℕ → C
  pub try_send : IngestionJob → C → SendResult C
  pub recv : C → Option (IngestionJob × C)
  pub close : C → C

-- a worker between its steps
pub data Worker : Type 0 where
  idle : Worker
  syncing : IngestionJob → Worker
  processing : IngestionJob → SyncOutcome → Worker
  stopped : Worker

-- One project: its channel and its worker.
pub record Lane (C : Type 0) : Type 0 where
  pub queue : C
  pub worker : Worker

-- the manager, the calls of callbacks so far, and the jobs that it was asked to do
pub record Manager (C E : Type 0) : Type 0 where
  pub lanes : List (Text × Lane C)
  pub cancelled : Bool
  pub events : List (Event E)
  pub requested : List IngestionJob

-- a lane in the place of the one with its name
unfoldable pub put : {V : Type 0} → Text → V → List (Text × V) → List (Text × V)
put k v [] = (k, v) ∷ []
put k v ((j, w) ∷ m) = let rest = put k v m in if text_eq j k then (j, v) ∷ m else (j, w) ∷ rest

module _ {E : Type 0} where
  -- the callback of a job, if it has one
  abbrev pub on_complete_with : Fallible (DynamicError E) (Unit {0}) → IngestionJob → List (Event E)
  on_complete_with r job = if job.on_complete then completed job.tag r ∷ [] else []

  abbrev pub on_sync_done_with : IngestionResult E → IngestionJob → List (Event E)
  on_sync_done_with r job = if job.on_sync_done then sync_done job.tag r ∷ [] else []

  abbrev pub sync_result : Fallible (DynamicError E) SyncOutcome → IngestionResult E
  sync_result (ok outcome) = record {
    actual_commit = outcome.actual_commit;
    is_aligned = outcome.is_aligned;
    error = none;
  }
  sync_result (err e) = record { actual_commit = []; is_aligned = false; error = some e }

  -- the sync phase is skipped once the manager is stopped
  unfoldable pub sync_outcome :
      Bool → Fallible E SyncOutcome → Fallible (DynamicError E) SyncOutcome
  sync_outcome true _ = err manager_stopped
  sync_outcome false (ok outcome) = ok outcome
  sync_outcome false (err e) = err (other e)

  -- what follows the sync phase: the callbacks, and the worker
  abbrev pub synced : IngestionJob → Fallible (DynamicError E) SyncOutcome → List (Event E) × Worker
  synced job (ok outcome) =
      (on_sync_done_with (sync_result (ok outcome)) job, processing job outcome)
  synced job (err e) =
      (on_sync_done_with (sync_result (err e)) job ++ on_complete_with (err e) job, idle)

  unfoldable pub sync_phase : Bool → Fallible E SyncOutcome → IngestionJob → List (Event E) × Worker
  sync_phase cancelled result job = synced job (sync_outcome cancelled result)

-- how the ingest closure ends: with a result, or not before the timeout; or there is none
pub data Ingest (E : Type 0) : Type 0 where
  finished : Fallible E (Unit {0}) → Ingest E
  timed_out not_wired : Ingest E

module _ {E : Type 0} where
  unfoldable pub process_result : Ingest E → Fallible (DynamicError E) (Unit {0})
  process_result (finished (ok _)) = ok tt
  process_result (finished (err e)) = err (other e)
  process_result timed_out = err ingest_timeout
  process_result not_wired = ok tt

  -- the second phase, and the notification behind it
  unfoldable pub process_phase : Ingest E → IngestionJob → List (Event E)
  process_phase result job = on_complete_with (process_result result) job
