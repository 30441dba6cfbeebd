-- ===== src/Ai/Tests.antt =====
-- Concrete providers, and runs of the router, the pool and the chain on them.
use ibis_assistant.Prelude.{ℕ, suc, ◌≡◌, refl, Bool, true, false, some, List, [], ◌∷◌, map, inr}
use ibis_assistant.Text.{Text, str, ascii_lower}
use ibis_assistant.Text.Run.{text_runs}
use ibis_assistant.Ai.{
  AiError, joined, wrapped, other, Result, ok, err, is_ok, or_else, GenerationConfig, Provider,
}
use ibis_assistant.Ai.Router
use ibis_assistant.Ai.Router.{
  RouterConfig, Step, local, cloud, Runtime, ReasoningRouter, default_config, plan,
}
use ibis_assistant.Ai.Router.Outcome.{local_only_never_leaks, Answers-if_either_does}
use ibis_assistant.Ai.Pool
use ibis_assistant.Ai.Pool.{CloudPool, try_order}
use ibis_assistant.Ai.Pool.Failover.{failover_answers}
use ibis_assistant.Ai.Chain
use ibis_assistant.Ai.Chain.{FallbackChain}

-- the world counts the calls of `generate_content`
abbrev Stub : Type 0
Stub = Provider ℕ (Unit {0}) Text Text

abbrev stub : Text → Bool → Result Text → Stub
stub name functional answer = record {
  name = name;
  is_functional = λ s. (functional, s);
  generate_content = λ contents cfg s. (answer, suc s);
}

abbrev offline : Stub
offline = stub (str "ollama") true (err (other (str "offline")))

abbrev gemini : Stub
gemini = stub (str "gemini") true (ok (str "leaked"))

abbrev quota : Stub
quota = stub (str "claude") true (err (other (str "quota")))

abbrev asleep : Stub
asleep = stub (str "sampling") false (ok (str "never"))

abbrev runtime : Runtime ℕ
runtime = record {
  to_lowercase = map ascii_lower;
  timeout = λ A limit m s. let (a, s') = m s in (some a, s');
}

abbrev ask : Text → GenerationConfig (Unit {0})
ask hint = record { temperature = tt; max_output_tokens = 100; route_hint = hint }

abbrev router : Stub → Bool → ReasoningRouter ℕ (Unit {0}) Text Text
router c only = record {
  local = some offline;
  cloud = some c;
  cfg = record {
    use_cloud_when_no_gpu = true;
    cpu_only = false;
    local_timeout = 5;
    context_only = only;
  };
}

local_only_never_leaks_example :
    Router.generate_content runtime (router gemini false) [] (ask (str " Local_Only ")) 0
    ≡ Router.generate_content runtime (router quota false) [] (ask (str " Local_Only ")) 0
unfolding Router.ready Router.normal_hint text_runs
local_only_never_leaks_example =
    local_only_never_leaks runtime [] (ask (str " Local_Only ")) (router gemini false)
      (router quota false) refl refl (λ s. refl) refl 0

Answers-if_either_does_example :
    is_ok (Router.generate_content runtime (router gemini false) [] (ask (str "bulk")) 0).0 ≡ true
unfolding Router.try_step Router.normal_hint text_runs
Answers-if_either_does_example =
    Answers-if_either_does runtime [] (ask (str "bulk")) (router gemini false) refl
      (inr (λ s. refl)) 0

bulk_fails :
    (Router.generate_content runtime (router quota false) [] (ask (str "bulk")) 0).0
    ≡ err (joined (other (str "offline")) (other (str "quota")))
unfolding Router.generate_content Router.run_plan Router.after_first Router.try_step Router.ready
    Router.normal_hint Router.plan text_runs
bulk_fails = refl

abbrev pool : Text → CloudPool ℕ (Unit {0}) Text Text
pool primary = record {
  primary = primary;
  providers = (str "claude", quota) ∷ (str "gemini", gemini) ∷ [];
  order = str "gemini" ∷ str "openai_compat" ∷ str "claude" ∷ [];
}

failover_answers_example :
    is_ok (Pool.generate_content (pool (str "claude")) [] (ask (str "")) 0).0 ≡ true
unfolding Pool.try_order Pool.without text_runs
failover_answers_example =
    failover_answers [] (ask (str "")) (pool (str "claude")) (str "gemini") gemini refl refl
      (λ s. refl) 0

abbrev chain : List Stub → FallbackChain ℕ (Unit {0}) Text Text
chain steps = record { steps = steps; context_only = false }

abbrev chain_error : AiError
chain_error =
    joined (wrapped (str "sampling unavailable") (other (str "not connected")))
      (wrapped (str "ollama") (other (str "offline")))

chain_fails :
    (Chain.generate_content (chain (asleep ∷ offline ∷ [])) [] (ask (str "")) 0).0 ≡ err chain_error
unfolding Chain.generate_content Chain.try_steps Chain.try_step Chain.fold Chain.fold_reversed
    or_else
chain_fails = refl
