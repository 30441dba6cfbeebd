-- ===== src/Queue/Order.antt =====
-- Jobs of a project are done in the order in which they were accepted (queue.rs).
use mathlib.Core.Path.{subst}
use mathlib.Core.List.{append-nil, append_assoc}
use ibis_assistant.Prelude.{
  ◌≡◌, refl, sym, ap, ◌∙◌, Bool, true, false, Option, none, some, List, [], ◌∷◌, ◌++◌, inl, inr,
  Bool-cases,
}
use ibis_assistant.Effect.{Fallible, ok, err}
use ibis_assistant.Text.{Text, text_eq, text_eq_iff}
use ibis_assistant.Text.Map.{lookup}
use ibis_assistant.Queue.{
  job_channel_cap, IngestionJob, SyncOutcome, Channel, SendResult, sent, full, closed, Worker, idle,
  syncing, processing, stopped, Lane, Manager, put, sync_outcome, sync_phase,
}
use ibis_assistant.Queue.Steps.{
  or_new, offered, enqueue, took, Step, enqueued, stop, take, sync, process, leave, Reachable,
  start, step,
}
use ibis_assistant.Queue.Lanes.{ChannelLaws, lookup-put}

abbrev pub is_stopped : Worker → Bool
is_stopped stopped = true
is_stopped _ = false

-- the job that a worker is at
abbrev pub in_hand : Worker → List IngestionJob
in_hand (syncing job) = job ∷ []
in_hand (processing job _) = job ∷ []
in_hand _ = []

abbrev only_if : Bool → List IngestionJob → List IngestionJob
only_if true jobs = jobs
only_if false jobs = []

-- a job whose sync fails is over, and so is one that is synced once the manager is stopped
abbrev over_at_sync :
    {E : Type 0} → Bool → Fallible E SyncOutcome → IngestionJob → List IngestionJob
over_at_sync true _ job = job ∷ []
over_at_sync false (ok _) job = []
over_at_sync false (err _) job = job ∷ []

abbrev accepted_by : {C : Type 0} → SendResult C → IngestionJob → List IngestionJob
accepted_by (sent _) job = job ∷ []
accepted_by full job = []
accepted_by closed job = []

module _ {C : Type 0} (ops : Channel C) (name : Text) where
  -- the queue that a job for a project is offered to
  abbrev queue_of : Option (Lane C) → C
  queue_of none = ops.channel job_channel_cap
  queue_of (some lane) = lane.queue

  -- What a sequence of steps says of the project: the jobs that its queue accepted, and those that
  -- were ended, by ingesting them or by a sync that failed; each in the order of the steps.
  abbrev pub accepted_in : {E : Type 0} {s s' : Manager C E} → Step ops s s' → List IngestionJob
  accepted_in {s = s} (enqueued job) =
      only_if (text_eq job.project_name name)
        (accepted_by (ops.try_send job (queue_of (lookup job.project_name s.lanes))) job)
  accepted_in _ = []

  abbrev pub ended_in : {E : Type 0} {s s' : Manager C E} → Step ops s s' → List IngestionJob
  ended_in {s = s} (sync at lane job result _ _) =
      only_if (text_eq at name) (over_at_sync s.cancelled result job)
  ended_in (process at lane job outcome result _ _) = only_if (text_eq at name) (job ∷ [])
  ended_in _ = []

  abbrev pub accepted : {E : Type 0} {s : Manager C E} → Reachable ops s → List IngestionJob
  accepted start = []
  accepted (step r t) = accepted r ++ accepted_in t

  abbrev pub ended : {E : Type 0} {s : Manager C E} → Reachable ops s → List IngestionJob
  ended start = []
  ended (step r t) = ended r ++ ended_in t

three_parts :
    (xs ys hand waits more : List IngestionJob)
    → xs ≡ ys ++ (hand ++ waits)
    → xs ++ more ≡ ys ++ (hand ++ (waits ++ more))
three_parts xs ys hand waits more h =
    ap (λ l. l ++ more) h
    ∙ (append_assoc ys (hand ++ waits) more ∙ ap (λ l. ys ++ l) (append_assoc hand waits more))

-- the sync phase keeps the job in hand, or ends it
sync-in_hand :
    (E : Type 0) (cancelled : Bool) (result : Fallible E SyncOutcome) (job : IngestionJob)
    → over_at_sync cancelled result job ++ in_hand (sync_phase cancelled result job).1 ≡ job ∷ []
unfolding sync_phase sync_outcome
sync-in_hand E true result job = refl
sync-in_hand E false (ok outcome) job = refl
sync-in_hand E false (err e) job = refl

only_none : (b : Bool) → only_if b [] ≡ []
only_none true = refl
only_none false = refl

module _ {C : Type 0} (ops : Channel C) (laws : ChannelLaws ops) (name : Text) where
  open laws use {view, channel-view, sent-view, recv-view}

  -- what the jobs so far are, by the lane of the project, if it has one yet
  abbrev InOrder : Option (Lane C) → List IngestionJob → List IngestionJob → Type 0
  InOrder none xs ys = (xs ≡ []) × (ys ≡ [])
  InOrder (some lane) xs ys =
      is_stopped lane.worker ≡ false → xs ≡ ys ++ (in_hand lane.worker ++ view lane.queue)

  new-InOrder :
      (o : Option (Lane C)) (xs ys : List IngestionJob)
      → InOrder o xs ys
      → InOrder (some (or_new ops o)) xs ys
  new-InOrder none xs ys h = λ _. rw (h.0, h.1, channel-view job_channel_cap) refl
  new-InOrder (some lane) xs ys h = h

  queue-or_new : (o : Option (Lane C)) → queue_of ops name o ≡ (or_new ops o).queue
  queue-or_new none = refl
  queue-or_new (some lane) = refl

  offered-InOrder :
      (E : Type 0) (job : IngestionJob) (lane : Lane C) (r : SendResult C)
      (xs ys : List IngestionJob)
      → ops.try_send job lane.queue ≡ r
      → InOrder (some lane) xs ys
      → InOrder (some (offered {E = E} job lane r).0) (xs ++ accepted_by r job) (ys ++ [])
  unfolding offered
  offered-InOrder E job lane full xs ys e h = λ o. rw (append-nil xs, append-nil ys) (h o)
  offered-InOrder E job lane closed xs ys e h = λ o. rw (append-nil xs, append-nil ys) (h o)
  offered-InOrder E job lane (sent q) xs ys e h = λ o.
      rw (append-nil ys, sent-view job lane.queue q e)
        (three_parts xs ys (in_hand lane.worker) (view lane.queue) (job ∷ []) (h o))

  -- A step that puts a lane in the place of one with its name.
  put-InOrder :
      (at : Text) (lane' : Lane C) (lanes : List (Text × Lane C))
      (xs ys xs' ys' : List IngestionJob)
      → InOrder (lookup name lanes) xs ys
      → (InOrder (lookup at lanes) xs ys → InOrder (some lane') (xs ++ xs') (ys ++ ys'))
      → InOrder
          (lookup name (put at lane' lanes))
          (xs ++ only_if (text_eq at name) xs')
          (ys ++ only_if (text_eq at name) ys')
  put-InOrder at lane' lanes xs ys xs' ys' h k = elim (Bool-cases (text_eq at name)) [
    | inl e ↦
        let same : at ≡ name = (text_eq_iff at name).0 e in
        rw (lookup-put at name lane' lanes, e)
          (k (subst (λ j. InOrder (lookup j lanes) xs ys) (sym same) h))
    | inr e ↦ rw (lookup-put at name lane' lanes, e, append-nil xs, append-nil ys) h
  ]

  -- of a lane that is there
  at_lane :
      (at : Text) (lane : Lane C) (lanes : List (Text × Lane C)) (xs ys : List IngestionJob)
      → lookup at lanes ≡ some lane
      → InOrder (lookup at lanes) xs ys
      → InOrder (some lane) xs ys
  at_lane at lane lanes xs ys l h = subst (λ o. InOrder o xs ys) l h

  -- A worker that goes on: what it ended follows what was ended before.
  went_on-InOrder :
      (at : Text) (lane lane' : Lane C) (lanes : List (Text × Lane C))
      (xs ys js : List IngestionJob)
      → lookup at lanes ≡ some lane
      → is_stopped lane.worker ≡ false
      → InOrder (lookup name lanes) xs ys
      → (xs ≡ ys ++ (in_hand lane.worker ++ view lane.queue) → InOrder (some lane') xs (ys ++ js))
      → InOrder (lookup name (put at lane' lanes)) (xs ++ []) (ys ++ only_if (text_eq at name) js)
  went_on-InOrder at lane lane' lanes xs ys js l o h k =
      subst
        (λ none_more.
          InOrder (lookup name (put at lane' lanes)) (xs ++ none_more)
            (ys ++ only_if (text_eq at name) js))
        (only_none (text_eq at name))
        (put-InOrder at lane' lanes xs ys [] js h (λ m.
          subst (λ zs. InOrder (some lane') zs (ys ++ js)) (sym (append-nil xs))
            (k (at_lane at lane lanes xs ys l m o))))

  -- and ended nothing
  kept-InOrder :
      (at : Text) (lane lane' : Lane C) (lanes : List (Text × Lane C)) (xs ys : List IngestionJob)
      → lookup at lanes ≡ some lane
      → is_stopped lane.worker ≡ false
      → InOrder (lookup name lanes) xs ys
      → (xs ≡ ys ++ (in_hand lane.worker ++ view lane.queue) → InOrder (some lane') xs ys)
      → InOrder (lookup name (put at lane' lanes)) (xs ++ []) (ys ++ [])
  kept-InOrder at lane lane' lanes xs ys l o h k =
      subst (λ none_more. InOrder (lookup name (put at lane' lanes)) (xs ++ []) (ys ++ none_more))
        (only_none (text_eq at name))
        (went_on-InOrder at lane lane' lanes xs ys [] l o h
          (λ m. subst (λ zs. InOrder (some lane') xs zs) (sym (append-nil ys)) (k m)))

  took-InOrder :
      (lane : Lane C) (job : IngestionJob) (q : C) (xs ys : List IngestionJob)
      → ops.recv lane.queue ≡ some (job, q)
      → lane.worker ≡ idle
      → xs ≡ ys ++ (in_hand lane.worker ++ view lane.queue)
      → InOrder (some (took lane job q)) xs ys
  took-InOrder lane job q xs ys r w h = λ _.
      h
      ∙ ap (λ l. ys ++ l) (ap (λ v. in_hand v ++ view lane.queue) w ∙ recv-view job lane.queue q r)

  synced-InOrder :
      (E : Type 0) (cancelled : Bool) (result : Fallible E SyncOutcome) (lane : Lane C)
      (job : IngestionJob) (xs ys : List IngestionJob)
      → lane.worker ≡ syncing job
      → xs ≡ ys ++ (in_hand lane.worker ++ view lane.queue)
      → InOrder
          (some (record lane { worker = (sync_phase cancelled result job).1 }))
          xs
          (ys ++ over_at_sync cancelled result job)
  synced-InOrder E cancelled result lane job xs ys w h = λ _.
      let over = over_at_sync cancelled result job in
      let hand = in_hand (sync_phase cancelled result job).1 in
      h
      ∙ (ap (λ l. ys ++ l)
            (ap (λ v. in_hand v ++ view lane.queue) w
              ∙ (ap (λ l. l ++ view lane.queue) (sym (sync-in_hand E cancelled result job))
                  ∙ append_assoc over hand (view lane.queue)))
          ∙ sym (append_assoc ys over (hand ++ view lane.queue)))

  processed-InOrder :
      (lane : Lane C) (job : IngestionJob) (outcome : SyncOutcome) (xs ys : List IngestionJob)
      → lane.worker ≡ processing job outcome
      → xs ≡ ys ++ (in_hand lane.worker ++ view lane.queue)
      → InOrder (some (record lane { worker = idle })) xs (ys ++ job ∷ [])
  processed-InOrder lane job outcome xs ys w h = λ _.
      h
      ∙ (ap (λ l. ys ++ l) (ap (λ v. in_hand v ++ view lane.queue) w)
          ∙ sym (append_assoc ys (job ∷ []) (view lane.queue)))

  step-InOrder :
      {E : Type 0} {s s' : Manager C E} (t : Step ops s s') (xs ys : List IngestionJob)
      → InOrder (lookup name s.lanes) xs ys
      → InOrder (lookup name s'.lanes) (xs ++ accepted_in ops name t) (ys ++ ended_in ops name t)
  unfolding enqueue
  step-InOrder {E = E} {s = s} (enqueued job) xs ys h =
      let o = lookup job.project_name s.lanes in
      let lane = or_new ops o in
      let r = ops.try_send job lane.queue in
      rw (queue-or_new o) (
        subst
          (λ more.
            InOrder (lookup name (put job.project_name (offered {E = E} job lane r).0 s.lanes))
              (xs ++ only_if (text_eq job.project_name name) (accepted_by r job)) (ys ++ more))
          (only_none (text_eq job.project_name name))
          (put-InOrder job.project_name (offered {E = E} job lane r).0 s.lanes xs ys
            (accepted_by r job) [] h
            (λ k. offered-InOrder E job lane r xs ys refl (new-InOrder o xs ys k))))
  step-InOrder stop xs ys h = rw (append-nil xs, append-nil ys) h
  step-InOrder {s = s} (take at lane job q l w r) xs ys h =
      kept-InOrder at lane (took lane job q) s.lanes xs ys l (ap is_stopped w) h
        (took-InOrder lane job q xs ys r w)
  step-InOrder {E = E} {s = s} (sync at lane job result l w) xs ys h =
      went_on-InOrder at lane (record lane { worker = (sync_phase s.cancelled result job).1 })
        s.lanes xs ys (over_at_sync s.cancelled result job) l (ap is_stopped w) h
        (synced-InOrder E s.cancelled result lane job xs ys w)
  step-InOrder {s = s} (process at lane job outcome result l w) xs ys h =
      went_on-InOrder at lane (record lane { worker = idle }) s.lanes xs ys (job ∷ []) l
        (ap is_stopped w) h (processed-InOrder lane job outcome xs ys w)
  step-InOrder {s = s} (leave at lane l w c) xs ys h =
      kept-InOrder at lane (record lane { worker = stopped; queue = ops.close lane.queue }) s.lanes
        xs ys l (ap is_stopped w) h (λ _ o. cc)

  Reachable-InOrder :
      {E : Type 0} {s : Manager C E} (r : Reachable ops s)
      → InOrder (lookup name s.lanes) (accepted ops name r) (ended ops name r)
  unfolding lookup
  Reachable-InOrder start = (refl, refl)
  Reachable-InOrder (step r t) =
      step-InOrder t (accepted ops name r) (ended ops name r) (Reachable-InOrder r)

  -- However calls and workers interleave, the jobs that a project's queue accepted are, in this
  -- order: those that its worker ended, the one that it has in hand, and those that wait; until the
  -- worker leaves. The channel gives what was sent to it, in order.
  pub jobs_in_order :
      {E : Type 0} (s : Manager C E) (lane : Lane C) (r : Reachable ops s)
      → lookup name s.lanes ≡ some lane
      → is_stopped lane.worker ≡ false
      → accepted ops name r ≡ ended ops name r ++ (in_hand lane.worker ++ view lane.queue)
  jobs_in_order s lane r l o =
      at_lane name lane s.lanes (accepted ops name r) (ended ops name r) l (Reachable-InOrder r) o
