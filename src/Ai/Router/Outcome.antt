-- ===== src/Ai/Router/Outcome.antt =====
-- What a routed request returns (router.rs, `try_step` and `generate_content`).
use ibis_assistant.Prelude.{
  ◌≡◌, refl, ap, ◌⊎◌, inl, inr, true, false, none, some, List, arith, if◌then◌else◌,
}
use ibis_assistant.Text.{str, text_eq}
use ibis_assistant.Ai.{
  AiError, context_only, joined, Result, ok, err, is_ok, Action, GenerationConfig,
}
use ibis_assistant.Ai.Router.{
  Step, local, cloud, Runtime, ReasoningRouter, normal_hint, plan, ready, try_step, fall_back,
  after_first, run_plan, generate_content,
}
use ibis_assistant.Ai.Router.Plan.{plan_local_only, plan_both}

swap : {A B : Type 0} → A ⊎ B → B ⊎ A
swap (inl a) = inr a
swap (inr b) = inl b

module _ {S Float Content Candidate : Type 0} (rt : Runtime S) (contents : List Content)
    (cfg : GenerationConfig Float) where
  module _ (r r' : ReasoningRouter S Float Content Candidate) (same_local : r.local ≡ r'.local)
      (same_cfg : r.cfg ≡ r'.cfg) where
    try_step-local : try_step rt r local contents cfg ≡ try_step rt r' local contents cfg
    unfolding try_step
    try_step-local = cc

    after_first-none :
        (a : Result Candidate)
        → after_first rt r none a contents cfg ≡ after_first rt r' none a contents cfg
    unfolding after_first
    after_first-none (ok c) = refl
    after_first-none (err e) = cc

    run_plan-local_only :
        (s : S)
        → run_plan rt r (local, none) contents cfg s ≡ run_plan rt r' (local, none) contents cfg s
    unfolding run_plan
    run_plan-local_only s = rw try_step-local (
        let (a, s') = try_step rt r' local contents cfg s in
        ap (λ (m : Action S (Result Candidate)). m s') (after_first-none a))

    -- A `local_only` request never reaches the cloud: two routers that differ in nothing but what
    -- their clouds would generate give the same answer and leave the same world.
    pub local_only_never_leaks :
        ((s : S) → ready r.cloud s ≡ ready r'.cloud s)
        → normal_hint rt.to_lowercase cfg.route_hint ≡ str "local_only"
        → (s : S) → generate_content rt r contents cfg s ≡ generate_content rt r' contents cfg s
    unfolding generate_content
    local_only_never_leaks same_probe h s =
        rw (h, plan_local_only, plan_local_only, same_probe)
          (run_plan-local_only (ready r'.cloud s).1)

  module _ (r : ReasoningRouter S Float Content Candidate) where
    -- the step answers, whatever the world it is tried in
    abbrev pub Answers : Step → Type 0
    Answers step = (s : S) → is_ok (try_step rt r step contents cfg s).0 ≡ true

    run_plan_ok :
        (first second : Step)
        → Answers first ⊎ Answers second
        → (s : S) → is_ok (run_plan rt r (first, some second) contents cfg s).0 ≡ true
    unfolding run_plan after_first
    run_plan_ok first second (inl a) s = ground (arith, a s)
    run_plan_ok first second (inr a) s = ground (arith, a (try_step rt r first contents cfg s).1)

    run_plan_fails :
        (first second : Step) (s : S) (e : AiError)
        → (run_plan rt r (first, some second) contents cfg s).0 ≡ err e
        → let (a, s') = try_step rt r first contents cfg s in
          let (b, _) = try_step rt r second contents cfg s' in
          (x : AiError) × (y : AiError) × (a ≡ err x)
          × (b ≡ err y)
          × (e ≡ (if r.cfg.context_only then context_only else joined x y))
    unfolding run_plan after_first fall_back
    run_plan_fails first second s e h = ground arith

    -- If either provider answers whatever the world, so does the router, under every hint but
    -- `local_only`.
    pub Answers-if_either_does :
        text_eq (normal_hint rt.to_lowercase cfg.route_hint) (str "local_only") ≡ false
        → Answers local ⊎ Answers cloud
        → (s : S) → is_ok (generate_content rt r contents cfg s).0 ≡ true
    unfolding generate_content
    Answers-if_either_does h a s =
        elim (plan_both r.cfg (normal_hint rt.to_lowercase cfg.route_hint) (ready r.cloud s).0 h) [
          | inl e ↦ rw e (run_plan_ok cloud local (swap a) (ready r.cloud s).1)
          | inr e ↦ rw e (run_plan_ok local cloud a (ready r.cloud s).1)
        ]

    -- When a request with two steps fails, both steps were tried, the second in the world that the
    -- first left, and both failed. The answer is `context only` if the router is so configured, and
    -- else the two errors in the order of the steps.
    failure_reports_both :
        (s : S) (first second : Step) (e : AiError)
        → plan r.cfg (normal_hint rt.to_lowercase cfg.route_hint) (ready r.cloud s).0
          ≡ (first, some second)
        → (generate_content rt r contents cfg s).0 ≡ err e
        → let (a, s') = try_step rt r first contents cfg (ready r.cloud s).1 in
          let (b, _) = try_step rt r second contents cfg s' in
          (x : AiError) × (y : AiError) × (a ≡ err x)
          × (b ≡ err y)
          × (e ≡ (if r.cfg.context_only then context_only else joined x y))
    unfolding generate_content
    failure_reports_both s first second e p h =
        run_plan_fails first second (ready r.cloud s).1 e (rw p at h)
