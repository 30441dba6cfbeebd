-- ===== src/Ai/Pool.antt =====
-- crates/ibis-ai/src/cloud_pool.rs: the cloud failover pool.
pub mod Failover
use ibis_assistant.Prelude.{
  Bool, true, false, not, Option, none, some, List, [], ◌∷◌, if◌then◌else◌,
}
use ibis_assistant.Text.{Text, text_eq, is_empty, str}
use ibis_assistant.Text.Trim.{trim}
use ibis_assistant.Text.Map.{lookup}
use ibis_assistant.Ai.{
  AiError, no_cloud_providers, cloud_pool_exhausted, Result, ok, err, Action, ◌>>=◌, pure, or_else,
  GenerationConfig, Provider,
}

module _ {V : Type 0} where
  -- the first name of `order` that is a key; the empty name if there is none
  unfoldable pub first_known : List (Text × V) → List Text → Text
  first_known clean [] = []
  first_known clean (name ∷ order) = elim (lookup name clean) [
    | some _ ↦ name
    | none ↦ first_known clean order
  ]

unfoldable pub get_or : Option AiError → AiError → AiError
get_or none d = d
get_or (some e) d = e

pub record CloudPool (S Float Content Candidate : Type 0) : Type 0 where
  pub primary : Text
  pub providers : List (Text × Provider S Float Content Candidate)
  pub order : List Text

-- the loop of `try_order` over `order`
unfoldable pub without : Text → List Text → List Text
without primary [] = []
without primary (name ∷ order) =
    let rest = without primary order in if text_eq name primary then rest else name ∷ rest

module _ {S Float Content Candidate : Type 0} where
  -- the loop of `new` over the providers
  unfoldable pub keep_functional :
      List (Text × Provider S Float Content Candidate)
      → Action S (List (Text × Provider S Float Content Candidate))
  keep_functional [] = pure []
  keep_functional ((name, provider) ∷ providers) = do
    functional ← provider.is_functional
    clean ← keep_functional providers
    pure (if functional then (name, provider) ∷ clean else clean)

  unfoldable pub new :
      Text
      → List Text
      → List (Text × Provider S Float Content Candidate)
      → Action S (CloudPool S Float Content Candidate)
  new primary order providers = do
    clean ← keep_functional providers
    pure (record {
      primary = if is_empty primary then first_known clean order else primary;
      providers = clean;
      order = order;
    })

  unfoldable pub has_any : CloudPool S Float Content Candidate → Bool
  has_any pool = elim pool.providers [ [] ↦ false | _ ↦ true ]

  unfoldable pub try_order : CloudPool S Float Content Candidate → List Text
  try_order pool =
      let rest = without pool.primary pool.order in
      if is_empty pool.primary then rest else pool.primary ∷ rest

  -- the loop of `generate_content`
  unfoldable pub try_names :
      List (Text × Provider S Float Content Candidate)
      → List Text
      → Option AiError
      → List Content
      → GenerationConfig Float
      → Action S (Result Candidate)
  try_names providers [] last_err contents cfg = pure (err (get_or last_err cloud_pool_exhausted))
  try_names providers (name ∷ names) last_err contents cfg = elim (lookup name providers) [
    | none ↦ try_names providers names last_err contents cfg
    | some provider ↦ do
      answer ← provider.generate_content contents cfg
      or_else answer (λ e. try_names providers names (some e) contents cfg)
  ]

  unfoldable pub generate_content :
      CloudPool S Float Content Candidate
      → List Content
      → GenerationConfig Float
      → Action S (Result Candidate)
  generate_content pool contents cfg =
      if not (has_any pool)
      then pure (err no_cloud_providers)
      else try_names pool.providers (try_order pool) none contents cfg

unfoldable pub normalize_cloud_name : (Text → Text) → Text → Text
normalize_cloud_name to_lowercase s =
    let name = to_lowercase (trim s) in
    if text_eq name (str "openai")
    then str "openai_compat"
    else if text_eq name (str "anthropic")
    then str "claude"
    else name
