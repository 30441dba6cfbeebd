-- ===== src/Queue/Bound.antt =====
-- No more jobs of a project wait than the bound of its channel (queue.rs).
use ibis_assistant.Prelude.{
  ◌≡◌, ◌≤◌, refl, ap, ◌∙◌, Option, none, some, [], ◌∷◌, length, length-append, arith,
}
use ibis_assistant.Text.{Text}
use ibis_assistant.Text.Map.{lookup}
use ibis_assistant.Queue.{
  job_channel_cap, IngestionJob, Channel, SendResult, sent, full, closed, idle, stopped, Lane,
  Manager, sync_phase,
}
use ibis_assistant.Queue.Steps.{
  new_manager, or_new, offered, enqueue, took, Step, enqueued, stop, take, sync, process, leave,
  Reachable, start, step,
}
use ibis_assistant.Queue.Lanes.{ChannelLaws, put-keeps}

module _ {C : Type 0} (ops : Channel C) (laws : ChannelLaws ops) where
  open laws use {
    view, capacity, channel-view, channel-capacity, sent-view, sent-capacity, sent-room, recv-view,
    recv-capacity, close-view, close-capacity,
  }

  abbrev IsBounded : Lane C → Type 0
  IsBounded lane =
      (capacity lane.queue ≡ job_channel_cap) × (length (view lane.queue) ≤ job_channel_cap)

  or_new-IsBounded :
      (o : Option (Lane C))
      → ((lane : Lane C) → o ≡ some lane → IsBounded lane)
      → IsBounded (or_new ops o)
  or_new-IsBounded none h =
      (channel-capacity job_channel_cap, rw (channel-view job_channel_cap) (omega arith))
  or_new-IsBounded (some lane) h = h lane refl

  offered-IsBounded :
      (E : Type 0) (job : IngestionJob) (lane : Lane C) (r : SendResult C)
      → ops.try_send job lane.queue ≡ r
      → IsBounded lane
      → IsBounded (offered {E = E} job lane r).0
  unfolding offered
  offered-IsBounded E job lane full e h = h
  offered-IsBounded E job lane closed e h = h
  offered-IsBounded E job lane (sent q) e h =
      let v = sent-view job lane.queue q e in
      let room = sent-room job lane.queue q e in
      (
        sent-capacity job lane.queue q e ∙ h.0,
        rw v (omega (arith, length-append (view lane.queue) (job ∷ []), room, h.0)),
      )

  took-IsBounded :
      (lane : Lane C) (job : IngestionJob) (q : C)
      → ops.recv lane.queue ≡ some (job, q)
      → IsBounded lane
      → IsBounded (took lane job q)
  took-IsBounded lane job q e h =
      let v = recv-view job lane.queue q e in
      (recv-capacity job lane.queue q e ∙ h.0, omega (arith, h.1, ap length v))

  abbrev AllBounded : {E : Type 0} → Manager C E → Type 0
  AllBounded s = (name : Text) (lane : Lane C) → lookup name s.lanes ≡ some lane → IsBounded lane

  step-AllBounded : {E : Type 0} {s s' : Manager C E} → Step ops s s' → AllBounded s → AllBounded s'
  unfolding enqueue
  step-AllBounded {E = E} {s = s} (enqueued job) h =
      let lane = or_new ops (lookup job.project_name s.lanes) in
      put-keeps IsBounded job.project_name
        (offered {E = E} job lane (ops.try_send job lane.queue)).0 s.lanes h
        (offered-IsBounded E job lane (ops.try_send job lane.queue) refl
          (or_new-IsBounded (lookup job.project_name s.lanes) (h job.project_name)))
  step-AllBounded stop h = h
  step-AllBounded {s = s} (take name lane job q l w r) h =
      put-keeps IsBounded name (took lane job q) s.lanes h
        (took-IsBounded lane job q r (h name lane l))
  step-AllBounded {s = s} (sync name lane job result l w) h =
      put-keeps IsBounded name (record lane { worker = (sync_phase s.cancelled result job).1 })
        s.lanes h (h name lane l)
  step-AllBounded {s = s} (process name lane job outcome result l w) h =
      put-keeps IsBounded name (record lane { worker = idle }) s.lanes h (h name lane l)
  step-AllBounded {s = s} (leave name lane l w c) h =
      put-keeps IsBounded name (record lane { worker = stopped; queue = ops.close lane.queue })
        s.lanes h
        (close-capacity lane.queue ∙ (h name lane l).0, rw (close-view lane.queue) (omega arith))

  new_manager-AllBounded : (E : Type 0) → AllBounded {E = E} new_manager
  unfolding lookup
  new_manager-AllBounded E name lane h = cc

  Reachable-AllBounded : {E : Type 0} {s : Manager C E} → Reachable ops s → AllBounded s
  Reachable-AllBounded {E = E} start = new_manager-AllBounded E
  Reachable-AllBounded (step r t) = step-AllBounded t (Reachable-AllBounded r)

  -- However calls and workers interleave, at most 100 jobs of a project wait.
  jobs_bounded :
      {E : Type 0} (s : Manager C E) (name : Text) (lane : Lane C)
      → Reachable ops s
      → lookup name s.lanes ≡ some lane
      → length (view lane.queue) ≤ job_channel_cap
  jobs_bounded s name lane r l = (Reachable-AllBounded r name lane l).1
