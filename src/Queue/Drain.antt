-- ===== src/Queue/Drain.antt =====
-- What waits can be done (queue.rs, `worker_task`, `execute_job`).
use ibis_assistant.Prelude.{
  ◌≡◌, refl, sym, ap, ◌∙◌, Bool, false, none, some, if◌then◌else◌, List, [], ◌∷◌, ◌++◌, arith,
}
use mathlib.Core.List.{append-nil, append_assoc}
use ibis_assistant.Effect.{ok}
use ibis_assistant.Text.{Text, text_eq_refl}
use ibis_assistant.Text.Map.{lookup}
use ibis_assistant.Queue.{
  IngestionJob, SyncOutcome, Event, Channel, idle, processing, Lane, Manager, sync_outcome,
  sync_phase, process_phase, process_result, finished, sync_done, completed,
}
use ibis_assistant.Queue.Steps.{with_lane, took, Step, take, sync, process}
use ibis_assistant.Queue.Lanes.{ChannelLaws, lookup-put}

sync_goes_on :
    (E : Type 0) (cancelled : Bool) (job : IngestionJob) (outcome : SyncOutcome)
    → cancelled ≡ false
    → (sync_phase {E = E} cancelled (ok outcome) job).1 ≡ processing job outcome
unfolding sync_phase sync_outcome
sync_goes_on E cancelled job outcome o = rw o

-- the callbacks of a job that is synced and ingested
abbrev pub calls_of : (E : Type 0) → SyncOutcome → IngestionJob → List (Event E)
calls_of E outcome job =
    (if job.on_sync_done
      then sync_done job.tag (record {
        actual_commit = outcome.actual_commit;
        is_aligned = outcome.is_aligned;
        error = none;
      })
        ∷ []
      else [])
    ++ (if job.on_complete then completed job.tag (ok tt) ∷ [] else [])

-- of one job after another
abbrev pub calls_of_all : (E : Type 0) → SyncOutcome → List IngestionJob → List (Event E)
calls_of_all E outcome [] = []
calls_of_all E outcome (job ∷ jobs) = calls_of E outcome job ++ calls_of_all E outcome jobs

-- the calls of the two phases
phases_call :
    (E : Type 0) (cancelled : Bool) (job : IngestionJob) (outcome : SyncOutcome)
    → cancelled ≡ false
    → (sync_phase {E = E} cancelled (ok outcome) job).0
        ++ process_phase {E = E} (finished (ok tt)) job
      ≡ calls_of E outcome job
unfolding sync_phase sync_outcome process_phase process_result
phases_call E cancelled job outcome o = rw o refl

events_append :
    {A : Type 0} (events a b calls : List A)
    → a ++ b ≡ calls
    → ((events ++ []) ++ a) ++ b ≡ events ++ calls
events_append events a b calls h =
    rw (append-nil events) (append_assoc events a b ∙ ap (λ l. events ++ l) h)

module _ {C E : Type 0} (ops : Channel C) where
  -- a sequence of steps
  pub data Steps : Manager C E → Manager C E → Type 0 where
    none_left : {s : Manager C E} → Steps s s
    and_then : {s s' s'' : Manager C E} → Step ops s s' → Steps s' s'' → Steps s s''

  append-Steps : {s s' s'' : Manager C E} → Steps s s' → Steps s' s'' → Steps s s''
  append-Steps none_left b = b
  append-Steps (and_then t a) b = and_then t (append-Steps a b)

  lookup-with_lane :
      (name : Text) (lane : Lane C) (events : List (Event E)) (s : Manager C E)
      → lookup name (with_lane name lane events s).lanes ≡ some lane
  lookup-with_lane name lane events s = lookup-put name name lane s.lanes ∙ rw (text_eq_refl name)

  -- An idle worker takes the job in front, syncs and ingests it, and is idle again.
  one_job :
      (s : Manager C E) (name : Text) (lane : Lane C) (job : IngestionJob) (q : C)
      (outcome : SyncOutcome)
      → lookup name s.lanes ≡ some lane
      → lane.worker ≡ idle
      → s.cancelled ≡ false
      → ops.recv lane.queue ≡ some (job, q)
      → (s' : Manager C E) × Steps s s'
        × (lookup name s'.lanes ≡ some (record (took lane job q) { worker = idle }))
        × (s'.cancelled ≡ false)
        × (s'.events ≡ s.events ++ calls_of E outcome job)
  one_job s name lane job q outcome l w o r =
      let lane1 = took lane job q in
      let s1 = with_lane name lane1 [] s in
      let phase = sync_phase s1.cancelled (ok outcome) job in
      let lane2 = record lane1 { worker = phase.1 } in
      let s2 = with_lane name lane2 phase.0 s1 in
      let lane3 = record lane1 { worker = idle } in
      let s3 = with_lane name lane3 (process_phase {E = E} (finished (ok tt)) job) s2 in
      (
        s3,
        and_then (take name lane job q l w r) (
            and_then (sync name lane1 job (ok outcome) (lookup-with_lane name lane1 [] s) refl) (
              and_then
                (process name lane2 job outcome (finished (ok tt))
                  (lookup-with_lane name lane2 phase.0 s1)
                  (sync_goes_on E s1.cancelled job outcome o))
                none_left)),
        lookup-with_lane name lane3 (process_phase {E = E} (finished (ok tt)) job) s2,
        o,
        events_append s.events phase.0 (process_phase {E = E} (finished (ok tt)) job)
            (calls_of E outcome job) (phases_call E s1.cancelled job outcome o),
      )

module _ {C E : Type 0} (ops : Channel C) (laws : ChannelLaws ops) (name : Text) where
  open laws use {view, recv-view, recv-some}

  -- the worker is idle, nothing waits for it, and so many calls were made
  abbrev IsDrained : List (Event E) → Manager C E → Type 0
  IsDrained events s =
      (lane : Lane C) × (lookup name s.lanes ≡ some lane)
      × (lane.worker ≡ idle)
      × (view lane.queue ≡ [])
      × (s.events ≡ events)

  drains :
      (js : List IngestionJob) (s : Manager C E) (lane : Lane C) (outcome : SyncOutcome)
      → lookup name s.lanes ≡ some lane
      → lane.worker ≡ idle
      → s.cancelled ≡ false
      → view lane.queue ≡ js
      → (s' : Manager C E) × Steps ops s s' × IsDrained (s.events ++ calls_of_all E outcome js) s'
  drains [] s lane outcome l w o v = (s, none_left, (lane, l, w, v, sym (append-nil s.events)))
  drains (job ∷ js) s lane outcome l w o v =
      let (q, r) = recv-some job js lane.queue v in
      let (s1, a, l1, o1, e1) = one_job ops s name lane job q outcome l w o r in
      let (s2, b, (lane2, l2, w2, v2, e2)) =
        drains js s1 (record (took lane job q) { worker = idle }) outcome l1 refl o1
          (tail_view lane.queue job q js v r) in
      (
        s2,
        append-Steps ops a b,
        (
          lane2,
          l2,
          w2,
          v2,
          e2
              ∙ (ap (λ l. l ++ calls_of_all E outcome js) e1
                  ∙ append_assoc s.events (calls_of E outcome job) (calls_of_all E outcome js)),
        ),
      )
    where
      tail_view :
          (c : C) (job : IngestionJob) (q : C) (js : List IngestionJob)
          → view c ≡ job ∷ js
          → ops.recv c ≡ some (job, q)
          → view q ≡ js
      tail_view c job q js v r = ground (arith, recv-view job c q r, v)

  -- Whatever waits for an idle worker can be done, as long as the manager is not stopped: there are
  -- steps after which the worker is idle again and nothing waits, and in which the callbacks of all
  -- the jobs that waited were called, and no others, one job after another in the order of the
  -- queue, with the outcome of the sync and then with success.
  pub waiting_jobs_can_be_done :
      (s : Manager C E) (lane : Lane C) (outcome : SyncOutcome)
      → lookup name s.lanes ≡ some lane
      → lane.worker ≡ idle
      → s.cancelled ≡ false
      → (s' : Manager C E) × Steps ops s s'
        × (lane' : Lane C) × (lookup name s'.lanes ≡ some lane')
        × (lane'.worker ≡ idle)
        × (view lane'.queue ≡ [])
        × (s'.events ≡ s.events ++ calls_of_all E outcome (view lane.queue))
  waiting_jobs_can_be_done s lane outcome l w o =
      let (s', a, (lane', l', w', v', e)) = drains (view lane.queue) s lane outcome l w o refl in
      (s', a, lane', l', w', v', e)
