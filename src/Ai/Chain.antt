-- ===== src/Ai/Chain.antt =====
-- crates/ibis-ai/src/fallback.rs: the ordered fallback chain.
pub mod Errors
use mathlib.Core.List.{reverse}
use ibis_assistant.Prelude.{Bool, true, false, List, [], ◌∷◌, ◌++◌, map, if◌then◌else◌}
use ibis_assistant.Text.{Text, str}
use ibis_assistant.Ai.{
  AiError, context_only, joined, wrapped, other, Result, ok, err, Action, ◌>>=◌, pure, or_else,
  GenerationConfig, Provider,
}

pub record FallbackChain (S Float Content Candidate : Type 0) : Type 0 where
  pub steps : List (Provider S Float Content Candidate)
  pub context_only : Bool

-- the `iter.fold` over the reversed errors
unfoldable pub fold_rev : AiError → List AiError → AiError
fold_rev acc [] = acc
fold_rev acc (e ∷ es) = fold_rev (joined e acc) es

unfoldable pub fold_reversed : List AiError → AiError
unfolding fold_rev
fold_reversed [] = other (str "no reasoning step attempted")
fold_reversed (last ∷ rest) = fold_rev last rest

unfoldable pub fold : List AiError → AiError
fold errors = fold_reversed (reverse errors)

module _ {S Float Content Candidate : Type 0} where
  unfoldable pub step_names : FallbackChain S Float Content Candidate → List Text
  step_names chain = map (λ p. p.name) chain.steps

  any_functional : List (Provider S Float Content Candidate) → Action S Bool
  any_functional [] = pure false
  any_functional (step ∷ steps) = do
    functional ← step.is_functional
    if functional then pure true else any_functional steps

  unfoldable pub is_functional : FallbackChain S Float Content Candidate → Action S Bool
  unfolding any_functional
  is_functional chain = any_functional chain.steps

  unavailable : Provider S Float Content Candidate → AiError
  unavailable step = wrapped (step.name ++ str " unavailable") (other (str "not connected"))

  -- one round of the loop of `generate_content`
  unfoldable pub try_step :
      Provider S Float Content Candidate
      → List Content
      → GenerationConfig Float
      → Action S (Result Candidate)
  unfolding unavailable
  try_step step contents config = do
    functional ← step.is_functional
    if functional
        then (do
          answer ← step.generate_content contents config
          pure (elim answer [ ok candidate ↦ ok candidate | err e ↦ err (wrapped step.name e) ]))
        else pure (err (unavailable step))

  unfoldable pub try_steps :
      Bool
      → List (Provider S Float Content Candidate)
      → List AiError
      → List Content
      → GenerationConfig Float
      → Action S (Result Candidate)
  try_steps only [] errors contents config = pure (err (if only then context_only else fold errors))
  try_steps only (step ∷ steps) errors contents config = do
    answer ← try_step step contents config
    or_else answer (λ e. try_steps only steps (errors ++ e ∷ []) contents config)

  unfoldable pub generate_content :
      FallbackChain S Float Content Candidate
      → List Content
      → GenerationConfig Float
      → Action S (Result Candidate)
  generate_content chain contents config =
      try_steps chain.context_only chain.steps [] contents config
