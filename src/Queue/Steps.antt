-- ===== src/Queue/Steps.antt =====
-- The steps of the manager and its workers (queue.rs, `enqueue`, `stop`, `worker_task`,
-- `execute_job`).
use ibis_assistant.Prelude.{◌≡◌, true, false, Option, none, some, List, [], ◌∷◌, ◌++◌}
use ibis_assistant.Effect.{Fallible, err}
use ibis_assistant.Text.{Text}
use ibis_assistant.Text.Map.{lookup}
use ibis_assistant.Queue.{
  job_channel_cap, queue_full, queue_closed, IngestionJob, SyncOutcome, Event, SendResult, sent,
  full, closed, Channel, idle, syncing, processing, stopped, Lane, Manager, put, on_complete_with,
  sync_phase, Ingest, process_phase,
}

abbrev pub new_manager : {C E : Type 0} → Manager C E
new_manager = record { lanes = []; cancelled = false; events = []; requested = [] }

-- a project without a worker gets one
module _ {C : Type 0} (channel_ops : Channel C) where
  abbrev new_lane : Lane C
  new_lane = record { queue = channel_ops.channel job_channel_cap; worker = idle }

  abbrev pub or_new : Option (Lane C) → Lane C
  or_new none = new_lane
  or_new (some lane) = lane

-- a worker takes a job
abbrev pub took : {C : Type 0} → Lane C → IngestionJob → C → Lane C
took lane job q = record lane { queue = q; worker = syncing job }

module _ {C E : Type 0} where
  -- what becomes of the lane and which callbacks are called
  unfoldable pub offered : IngestionJob → Lane C → SendResult C → Lane C × List (Event E)
  offered job lane (sent q) = (record lane { queue = q }, [])
  offered job lane full = (lane, on_complete_with (err queue_full) job)
  offered job lane closed = (lane, on_complete_with (err queue_closed) job)

  abbrev pub with_lane : Text → Lane C → List (Event E) → Manager C E → Manager C E
  with_lane name lane events s = record s {
    lanes = put name lane s.lanes;
    events = s.events ++ events;
  }

module _ {C E : Type 0} (channel_ops : Channel C) where
  open channel_ops use {try_send, recv, close}

  unfoldable pub enqueue : IngestionJob → Manager C E → Manager C E
  unfolding offered
  enqueue job s =
      let lane = or_new channel_ops (lookup job.project_name s.lanes) in
      let (lane', events) = offered job lane (try_send job lane.queue) in
      let s' = with_lane job.project_name lane' events s in
      record s' { requested = s.requested ++ job ∷ [] }

  -- One step: a call of the manager, or a worker of a project that goes on. A worker that waits
  -- may leave as soon as the manager is stopped, though jobs wait.
  pub data Step : Manager C E → Manager C E → Type 0 where
    enqueued : {s : Manager C E} (job : IngestionJob) → Step s (enqueue job s)
    stop : {s : Manager C E} → Step s (record s { cancelled = true })
    take :
        {s : Manager C E} (name : Text) (lane : Lane C) (job : IngestionJob) (q : C)
        → lookup name s.lanes ≡ some lane
        → lane.worker ≡ idle
        → recv lane.queue ≡ some (job, q)
        → Step s (with_lane name (took lane job q) [] s)
    sync :
        {s : Manager C E} (name : Text) (lane : Lane C) (job : IngestionJob)
        (result : Fallible E SyncOutcome)
        → lookup name s.lanes ≡ some lane
        → lane.worker ≡ syncing job
        → Step s (
            with_lane name
              (record lane { worker = (sync_phase s.cancelled result job).1 })
              (sync_phase s.cancelled result job).0
              s)
    process :
        {s : Manager C E} (name : Text) (lane : Lane C) (job : IngestionJob) (outcome : SyncOutcome)
        (result : Ingest E)
        → lookup name s.lanes ≡ some lane
        → lane.worker ≡ processing job outcome
        → Step s (with_lane name (record lane { worker = idle }) (process_phase result job) s)
    leave :
        {s : Manager C E} (name : Text) (lane : Lane C)
        → lookup name s.lanes ≡ some lane
        → lane.worker ≡ idle
        → s.cancelled ≡ true
        → Step s (with_lane name (record lane { worker = stopped; queue = close lane.queue }) [] s)

  -- what steps lead to
  pub data Reachable : Manager C E → Type 0 where
    start : Reachable new_manager
    step : {s s' : Manager C E} → Reachable s → Step s s' → Reachable s'
