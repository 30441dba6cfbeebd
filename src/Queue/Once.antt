-- ===== src/Queue/Once.antt =====
-- The completion callback of a job is called once (queue.rs).
pub mod Counts
use ibis_assistant.Prelude.{
  [], ℕ, ◌+◌, ◌≡◌, ◌≤◌, refl, sym, ap, ◌∙◌, false, Option, none, some, List, ◌∷◌, arith,
}
use ibis_assistant.Text.{Text}
use ibis_assistant.Text.Map.{lookup}
use ibis_assistant.Effect.{err}
use ibis_assistant.Queue.{
  job_channel_cap, queue_full, queue_closed, IngestionJob, Event, Channel, SendResult, sent, full,
  closed, idle, stopped, Lane, Manager, sync_phase, process_phase,
}
use ibis_assistant.Queue.Steps.{
  new_manager, or_new, offered, enqueue, with_lane, took, Step, enqueued, stop, take, sync, process,
  leave, Reachable, start, step,
}
use ibis_assistant.Queue.Lanes.{ChannelLaws, total, or_zero, total-put}
use ibis_assistant.Queue.Once.Counts.{
  one, jobs, jobs-append, busy, calls, calls-append, calls_complete, calls-sync_phase,
  calls-process_phase,
}

module _ {C : Type 0} (ops : Channel C) (laws : ChannelLaws ops) (n : ℕ) where
  open laws use {view, channel-view, sent-view, recv-view, close-view}

  -- the jobs of a lane that were accepted and are not done
  abbrev waiting : Lane C → ℕ
  waiting lane = jobs n (view lane.queue) + busy n lane.worker

  abbrev pub pending : List (Text × Lane C) → ℕ
  pending lanes = total waiting lanes

  waiting-or_new : (o : Option (Lane C)) → waiting (or_new ops o) ≡ or_zero waiting o
  waiting-or_new none = rw (channel-view job_channel_cap)
  waiting-or_new (some lane) = refl

  -- A job that is offered waits, or its callback is called at once.
  waiting-offered :
      (E : Type 0) (job : IngestionJob) (lane : Lane C) (r : SendResult C)
      → ops.try_send job lane.queue ≡ r
      → waiting (offered {E = E} job lane r).0 + calls n (offered {E = E} job lane r).1
        ≡ waiting lane + one n job
  unfolding offered
  waiting-offered E job lane (sent q) e = omega (
    arith,
    ap (jobs n) (sent-view job lane.queue q e),
    jobs-append n (view lane.queue) (job ∷ []),
  )
  waiting-offered E job lane full e = omega (arith, calls_complete n {E = E} (err queue_full) job)
  waiting-offered E job lane closed e =
      omega (arith, calls_complete n {E = E} (err queue_closed) job)

  waiting-took :
      (lane : Lane C) (job : IngestionJob) (q : C)
      → ops.recv lane.queue ≡ some (job, q)
      → lane.worker ≡ idle
      → waiting (took lane job q) ≡ waiting lane
  waiting-took lane job q e i =
      omega (arith, ap (jobs n) (recv-view job lane.queue q e), ap (busy n) i)

  -- how much is accounted for
  abbrev settled : {E : Type 0} → Manager C E → ℕ
  settled s = calls n s.events + pending s.lanes

  settled-with_lane :
      {E : Type 0} (s : Manager C E) (name : Text) (lane' : Lane C) (events : List (Event E))
      → settled (with_lane name lane' events s) + or_zero waiting (lookup name s.lanes)
        ≡ settled s + (waiting lane' + calls n events)
  settled-with_lane s name lane' events =
      omega (arith, total-put waiting name lane' s.lanes, calls-append n s.events events)

  settled-lane :
      {E : Type 0} (s : Manager C E) (name : Text) (lane lane' : Lane C) (events : List (Event E))
      → lookup name s.lanes ≡ some lane
      → waiting lane' + calls n events ≡ waiting lane
      → settled (with_lane name lane' events s) ≡ settled s
  settled-lane s name lane lane' events l b =
      omega (arith, settled-with_lane s name lane' events, ap (or_zero waiting) l, b)

  abbrev Accounted : {E : Type 0} → Manager C E → Type 0
  Accounted s =
      (settled s ≤ jobs n s.requested) × (s.cancelled ≡ false → settled s ≡ jobs n s.requested)

  same-Accounted :
      {E : Type 0} (s s' : Manager C E)
      → settled s' ≡ settled s
      → s'.requested ≡ s.requested
      → s'.cancelled ≡ s.cancelled
      → Accounted s
      → Accounted s'
  same-Accounted s s' e r c h =
      (omega (arith, e, ap (jobs n) r, h.0), λ o. omega (arith, e, ap (jobs n) r, h.1 (sym c ∙ o)))

  enqueue-Accounted :
      {E : Type 0} (s : Manager C E) (job : IngestionJob)
      → Accounted s
      → Accounted (enqueue ops job s)
  unfolding enqueue
  enqueue-Accounted {E = E} s job h =
      let lane = or_new ops (lookup job.project_name s.lanes) in
      let r = ops.try_send job lane.queue in
      let balance = settled_after E s job h in
      (
        omega (arith, balance, jobs-append n s.requested (job ∷ []), h.0),
        λ o. omega (arith, balance, jobs-append n s.requested (job ∷ []), h.1 o),
      )
    where
      settled_after :
          (E : Type 0) (s : Manager C E) (job : IngestionJob)
          → Accounted s
          → settled (enqueue ops job s) ≡ settled s + one n job
      settled_after E s job h =
          let lane = or_new ops (lookup job.project_name s.lanes) in
          let r = ops.try_send job lane.queue in
          omega (
            arith,
            settled-with_lane s job.project_name (offered {E = E} job lane r).0
                (offered {E = E} job lane r).1,
            waiting-offered E job lane r refl,
            waiting-or_new (lookup job.project_name s.lanes),
          )

  step-Accounted : {E : Type 0} {s s' : Manager C E} → Step ops s s' → Accounted s → Accounted s'
  step-Accounted {s = s} (enqueued job) h = enqueue-Accounted s job h
  step-Accounted stop h = (h.0, λ o. cc)
  step-Accounted {E = E} {s = s} (take name lane job q l w r) h =
      same-Accounted s (with_lane name (took lane job q) [] s)
        (settled-lane s name lane (took lane job q) [] l
          (omega (arith, waiting-took lane job q r w)))
        refl refl h
  step-Accounted {s = s} (sync name lane job result l w) h =
      let phase = sync_phase s.cancelled result job in
      same-Accounted s (with_lane name (record lane { worker = phase.1 }) phase.0 s)
        (settled-lane s name lane (record lane { worker = phase.1 }) phase.0 l
          (omega (arith, calls-sync_phase n s.cancelled result job, ap (busy n) w)))
        refl refl h
  step-Accounted {s = s} (process name lane job outcome result l w) h =
      same-Accounted s (with_lane name (record lane { worker = idle }) (process_phase result job) s)
        (settled-lane s name lane (record lane { worker = idle }) (process_phase result job) l
          (omega (arith, calls-process_phase n result job, ap (busy n) w)))
        refl refl h
  step-Accounted {E = E} {s = s} (leave name lane l w c) h =
      let lane' = record lane { worker = stopped; queue = ops.close lane.queue } in
      (
        omega (
          arith,
          settled-with_lane s name lane' [],
          ap (or_zero waiting) l,
          ap (jobs n) (close-view lane.queue),
          h.0,
        ),
        λ o. cc,
      )

  new_manager-Accounted : (E : Type 0) → Accounted {E = E} new_manager
  unfolding total
  new_manager-Accounted E = (omega arith, λ _. refl)

  Reachable-Accounted : {E : Type 0} {s : Manager C E} → Reachable ops s → Accounted s
  Reachable-Accounted {E = E} start = new_manager-Accounted E
  Reachable-Accounted (step r t) = step-Accounted t (Reachable-Accounted r)

  -- However calls and workers interleave, the completion callbacks of the jobs with a tag are called
  -- at most as often as such jobs were requested, those that still wait counted in.
  completed_at_most_once :
      {E : Type 0} (s : Manager C E)
      → Reachable ops s
      → calls n s.events + pending s.lanes ≤ jobs n s.requested
  completed_at_most_once s r = (Reachable-Accounted r).0

  -- Until the manager is stopped no job is lost: however calls and workers interleave, each job with
  -- a callback waits, is being worked on, or has had its callback called, and one of these only.
  pub completed_once :
      {E : Type 0} (s : Manager C E)
      → Reachable ops s
      → s.cancelled ≡ false
      → calls n s.events + pending s.lanes ≡ jobs n s.requested
  completed_once s r o = (Reachable-Accounted r).1 o
