-- ===== src/Queue/Tests.antt =====
-- A channel that is a list, and a run of one project with it.
use ibis_assistant.Prelude.{
  ℕ, ◌+◌, ◌≡◌, ◌<◌, refl, Bool, true, false, not, Option, none, some, List, [], ◌∷◌, ◌++◌, length,
  ltb, arith, if◌then◌else◌,
}
use ibis_assistant.Effect.{ok}
use ibis_assistant.Text.{Text, str}
use ibis_assistant.Text.Run.{text_runs}
use ibis_assistant.Queue.{
  IngestionJob, SyncOutcome, Event, Channel, SendResult, sent, full, closed, Worker, idle, syncing,
  processing, Lane, Manager, put, sync_outcome, sync_phase, finished, process_phase,
}
use ibis_assistant.Queue.Steps.{
  new_manager, offered, enqueue, enqueued, take, sync, process, Reachable, start, step,
}
use ibis_assistant.Queue.Lanes.{ChannelLaws}
use ibis_assistant.Queue.Order.{accepted, ended, jobs_in_order}
use ibis_assistant.Queue.Drain.{Steps, calls_of, waiting_jobs_can_be_done}
use ibis_assistant.Text.Map.{lookup}
use ibis_assistant.Queue.Once.{pending, completed_once}
use ibis_assistant.Queue.Once.Counts.{calls}

record Chan : Type 0 where
  waits : List IngestionJob
  bound : ℕ
  is_open : Bool

abbrev send : IngestionJob → Chan → SendResult Chan
send job c =
    if not c.is_open
    then closed
    else if ltb (length c.waits) c.bound
    then sent (record c { waits = c.waits ++ job ∷ [] })
    else full

abbrev receive_from : Chan → List IngestionJob → Option (IngestionJob × Chan)
receive_from c [] = none
receive_from c (job ∷ js) = some (job, record c { waits = js })

abbrev list_channel : Channel Chan
list_channel = record {
  channel = λ n. record { waits = []; bound = n; is_open = true };
  try_send = send;
  recv = λ c. receive_from c c.waits;
  close = λ c. record c { waits = []; is_open = false };
}

send-view :
    (job : IngestionJob) (c c' : Chan)
    → send job c ≡ sent c'
    → (c'.waits ≡ c.waits ++ job ∷ []) × (c'.bound ≡ c.bound) × (length c.waits < c.bound)
send-view job c c' h = ground arith

receive_from-view :
    (c : Chan) (js : List IngestionJob) (job : IngestionJob) (c' : Chan)
    → c.waits ≡ js
    → receive_from c js ≡ some (job, c')
    → (c.waits ≡ job ∷ c'.waits) × (c'.bound ≡ c.bound)
receive_from-view c [] job c' e h = cc
receive_from-view c (j ∷ js) job c' e h = ground (arith, e)

receive_from-some :
    (c : Chan) (js : List IngestionJob) (job : IngestionJob) (rest : List IngestionJob)
    → js ≡ job ∷ rest
    → (c' : Chan) × (receive_from c js ≡ some (job, c'))
receive_from-some c [] job rest e = cc
receive_from-some c (j ∷ js) job rest e = (record c { waits = js }, ground (arith, e))

abbrev list_channel_laws : ChannelLaws list_channel
list_channel_laws = record {
  view = λ c. c.waits;
  capacity = λ c. c.bound;
  channel-view = λ n. refl;
  channel-capacity = λ n. refl;
  sent-view = λ job c c' h. (send-view job c c' h).0;
  sent-capacity = λ job c c' h. (send-view job c c' h).1;
  sent-room = λ job c c' h. (send-view job c c' h).2;
  recv-view = λ job c c' h. (receive_from-view c c.waits job c' refl h).0;
  recv-capacity = λ job c c' h. (receive_from-view c c.waits job c' refl h).1;
  recv-some = λ job js c h. receive_from-some c c.waits job js h;
  close-view = λ c. refl;
  close-capacity = λ c. refl;
}

abbrev job : ℕ → IngestionJob
job tag = record {
  tag = tag;
  project_name = str "p";
  origin_url = str "u";
  branch = str "main";
  commit = [];
  on_sync_done = true;
  on_complete = true;
}

abbrev outcome : SyncOutcome
outcome = record { repo_path = str "/r"; actual_commit = str "c"; is_aligned = true }

abbrev chan : List IngestionJob → Chan
chan js = record { waits = js; bound = 100; is_open = true }

abbrev lane : List IngestionJob → Worker → Lane Chan
lane js w = record { queue = chan js; worker = w }

abbrev asked : Manager Chan Text
asked = enqueue list_channel (job 2) (enqueue list_channel (job 1) new_manager)

abbrev with_p : Lane Chan → List (Event Text) → Manager Chan Text
with_p l events = record {
  lanes = (str "p", l) ∷ [];
  cancelled = false;
  events = events;
  requested = job 1 ∷ job 2 ∷ [];
}

abbrev after_sync : Manager Chan Text
after_sync =
    with_p (lane (job 2 ∷ []) (processing (job 1) outcome))
      (sync_phase false (ok outcome) (job 1)).0

abbrev done : Manager Chan Text
done =
    with_p (lane (job 2 ∷ []) idle)
      ((sync_phase false (ok outcome) (job 1)).0 ++ process_phase (finished (ok tt)) (job 1))

run_asked : Reachable list_channel asked
run_asked = step (step start (enqueued (job 1))) (enqueued (job 2))

run_synced : Reachable list_channel after_sync
unfolding enqueue offered put sync_phase sync_outcome text_runs
run_synced =
    step
      (step run_asked (
        take (str "p") (lane (job 1 ∷ job 2 ∷ []) idle) (job 1) (chan (job 2 ∷ [])) refl refl refl))
      (sync (str "p") (lane (job 2 ∷ []) (syncing (job 1))) (job 1) (ok outcome) refl refl)

run_done : Reachable list_channel done
unfolding put text_runs
run_done = step run_synced (
    process (str "p") (lane (job 2 ∷ []) (processing (job 1) outcome)) (job 1) outcome
      (finished (ok tt)) refl refl)

-- the first job was ended, and the second waits
jobs_in_order_example :
    accepted list_channel (str "p") run_done ≡ ended list_channel (str "p") run_done ++ job 2 ∷ []
unfolding text_runs
jobs_in_order_example =
    jobs_in_order list_channel list_channel_laws (str "p") done (lane (job 2 ∷ []) idle) run_done
      refl refl

completed_once_example :
    calls 1 done.events + pending list_channel list_channel_laws 1 done.lanes ≡ 1
completed_once_example = completed_once list_channel list_channel_laws 1 done run_done refl

waiting_jobs_can_be_done_example :
    (s' : Manager Chan Text) × Steps list_channel asked s'
    × (lane' : Lane Chan) × (lookup (str "p") s'.lanes ≡ some lane')
    × (lane'.worker ≡ idle)
    × (lane'.queue.waits ≡ [])
    × (s'.events ≡ calls_of Text outcome (job 1) ++ (calls_of Text outcome (job 2) ++ []))
unfolding enqueue offered put text_runs
waiting_jobs_can_be_done_example =
    waiting_jobs_can_be_done list_channel list_channel_laws (str "p") asked
      (lane (job 1 ∷ job 2 ∷ []) idle) outcome refl refl refl
