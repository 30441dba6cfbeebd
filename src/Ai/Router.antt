-- ===== src/Ai/Router.antt =====
-- crates/ibis-ai/src/router.rs: the hybrid router between a local provider and the cloud.
pub mod Plan
pub mod Outcome
use ibis_assistant.Prelude.{
  ℕ, ◌*◌, Bool, true, false, ◌&&◌, ◌||◌, Option, none, some, List, ◌==◌, ltb, if◌then◌else◌,
}
use ibis_assistant.Text.{Text, str, text_eq, is_empty}
use ibis_assistant.Text.Trim.{trim}
use ibis_assistant.Ai.{
  AiError, context_only, cloud_unavailable, local_unavailable, deadline_exceeded, joined, Result,
  ok, err, Action, ◌>>=◌, pure, GenerationConfig, Provider,
}

-- a `Duration` is its nanoseconds
abbrev pub nanos_per_sec : ℕ
nanos_per_sec = 1000000000

pub record RouterConfig : Type 0 where
  pub use_cloud_when_no_gpu : Bool
  pub cpu_only : Bool
  pub local_timeout : ℕ
  pub context_only : Bool

unfoldable pub default_config : RouterConfig
default_config = record {
  use_cloud_when_no_gpu = false;
  cpu_only = false;
  local_timeout = 0;
  context_only = false;
}

pub data Step : Type 0 where
  local cloud : Step

-- What the router takes from outside: `str::to_lowercase` with its Unicode tables, and tokio's
-- `timeout`, which gives up on a call or returns what it returned.
pub record Runtime (S : Type 0) : Type 1 where
  pub to_lowercase : Text → Text
  pub timeout : (A : Type 0) → ℕ → Action S A → Action S (Option A)

pub record ReasoningRouter (S Float Content Candidate : Type 0) : Type 0 where
  pub local : Option (Provider S Float Content Candidate)
  pub cloud : Option (Provider S Float Content Candidate)
  pub cfg : RouterConfig

-- the route hint, trimmed and in lower case, `auto` for none
unfoldable pub normal_hint : (Text → Text) → Text → Text
normal_hint to_lowercase h =
    let hint = to_lowercase (trim h) in if is_empty hint then str "auto" else hint

unfoldable pub prefer_cloud : RouterConfig → Text → Bool
prefer_cloud cfg hint =
    text_eq hint (str "quality")
    || (text_eq hint (str "auto") && cfg.use_cloud_when_no_gpu && cfg.cpu_only)

-- which steps are tried, in order
unfoldable pub plan : RouterConfig → Text → Bool → Step × Option Step
unfolding prefer_cloud
plan cfg hint cloud_ready =
    if prefer_cloud cfg hint && cloud_ready
    then (cloud, some local)
    else if text_eq hint (str "local_only")
    then (local, none)
    else if text_eq hint (str "bulk") || text_eq hint (str "bulk_local")
    then (local, some cloud)
    else if prefer_cloud cfg hint
    then (cloud, some local)
    else (local, some cloud)

unfoldable pub context_only_or : RouterConfig → AiError → AiError
context_only_or cfg e = if cfg.context_only then context_only else e

abbrev pub expired : {Candidate : Type 0} → Option (Result Candidate) → Result Candidate
expired none = err deadline_exceeded
expired (some r) = r

module _ {S Float Content Candidate : Type 0} where
  -- `matches!(p, Some(c) if c.is_functional().await)`
  unfoldable pub ready : Option (Provider S Float Content Candidate) → Action S Bool
  ready none = pure false
  ready (some p) = p.is_functional

  unfoldable pub new :
      Option (Provider S Float Content Candidate)
      → Option (Provider S Float Content Candidate)
      → RouterConfig
      → ReasoningRouter S Float Content Candidate
  new l c cfg = record {
    local = l;
    cloud = c;
    cfg = record cfg {
      local_timeout = if cfg.local_timeout == 0 then 120 * nanos_per_sec else cfg.local_timeout;
    };
  }

module _ {S Float Content Candidate : Type 0} (rt : Runtime S) where
  unfoldable pub try_cloud :
      Option (Provider S Float Content Candidate)
      → List Content
      → GenerationConfig Float
      → Action S (Result Candidate)
  try_cloud none contents cfg = pure (err cloud_unavailable)
  try_cloud (some c) contents cfg = do
    functional ← c.is_functional
    if functional then c.generate_content contents cfg else pure (err cloud_unavailable)

  unfoldable pub try_local :
      ℕ
      → Option (Provider S Float Content Candidate)
      → List Content
      → GenerationConfig Float
      → Action S (Result Candidate)
  try_local limit none contents cfg = pure (err local_unavailable)
  try_local limit (some l) contents cfg = do
    functional ← l.is_functional
    if functional
        then (if ltb 0 limit
            then (do
              answer ← rt.timeout (Result Candidate) limit (l.generate_content contents cfg)
              pure (expired answer))
            else l.generate_content contents cfg)
        else pure (err local_unavailable)

  unfoldable pub try_step :
      ReasoningRouter S Float Content Candidate
      → Step
      → List Content
      → GenerationConfig Float
      → Action S (Result Candidate)
  unfolding try_cloud try_local
  try_step r cloud contents cfg = try_cloud r.cloud contents cfg
  try_step r local contents cfg = try_local r.cfg.local_timeout r.local contents cfg

  unfoldable pub is_functional : ReasoningRouter S Float Content Candidate → Action S Bool
  unfolding ready
  is_functional r = do functional ← ready r.local; if functional then pure true else ready r.cloud

  -- after the first step failed
  unfoldable pub fall_back :
      ReasoningRouter S Float Content Candidate
      → Option Step
      → AiError
      → List Content
      → GenerationConfig Float
      → Action S (Result Candidate)
  unfolding context_only_or
  fall_back r none first_err contents cfg = pure (err (context_only_or r.cfg first_err))
  fall_back r (some second) first_err contents cfg = do
    answer ← try_step r second contents cfg
    pure (elim answer [
      | ok cand ↦ ok cand
      | err second_err ↦ err (context_only_or r.cfg (joined first_err second_err))
    ])

  unfoldable pub after_first :
      ReasoningRouter S Float Content Candidate
      → Option Step
      → Result Candidate
      → List Content
      → GenerationConfig Float
      → Action S (Result Candidate)
  unfolding fall_back
  after_first r second (ok cand) contents cfg = pure (ok cand)
  after_first r second (err first_err) contents cfg = fall_back r second first_err contents cfg

  unfoldable pub run_plan :
      ReasoningRouter S Float Content Candidate
      → Step × Option Step
      → List Content
      → GenerationConfig Float
      → Action S (Result Candidate)
  run_plan r steps contents cfg = do
    answer ← try_step r steps.0 contents cfg
    after_first r steps.1 answer contents cfg

  unfoldable pub generate_content :
      ReasoningRouter S Float Content Candidate
      → List Content
      → GenerationConfig Float
      → Action S (Result Candidate)
  generate_content r contents cfg = do
    cloud_ready ← ready r.cloud
    run_plan r (plan r.cfg (normal_hint rt.to_lowercase cfg.route_hint) cloud_ready) contents cfg
