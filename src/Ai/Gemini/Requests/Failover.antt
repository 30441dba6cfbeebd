-- ===== src/Ai/Gemini/Requests/Failover.antt =====
-- Which model answers (gemini.rs, `do_generate`).
use ibis_assistant.Prelude.{◌≡◌, refl, List, [], ◌∷◌, ◌++◌, Option, some, All}
use ibis_assistant.Text.{Text}
use ibis_assistant.Ai.{AiError, Result}
use ibis_assistant.Ai.Gemini.Requests.{
  StepResult, Response, Client, answered, next_model, read_generate, generate_from, judge,
}

module _ {S Body Payload Vector Candidate : Type 0}
    (client : Client S Body Payload Vector Candidate) (payload : Payload)
    (reply : Text → Result (Response Body)) (log : Text → S → S)
    (replies : (model : Text) (s : S)
      → client.post model payload s ≡ (reply model, log model s)) where
  -- a model that is not there, or cannot be reached
  abbrev pub IsGone : Text → Type 0
  IsGone model = (e : AiError) × (read_generate client (reply model) ≡ next_model e)

  abbrev pub log_all : List Text → S → S
  log_all [] s = s
  log_all (model ∷ models) s = log_all models (log model s)

  -- The first model of the list that is there answers, whatever its answer is; those in front of it
  -- are asked once each, and those behind it are not.
  pub first_there_answers :
      (gone : List Text) (model : Text) (models : List Text) (last_err : Option AiError)
      (result : StepResult Candidate) (s : S)
      → All IsGone gone
      → read_generate client (reply model) ≡ answered result
      → generate_from client (gone ++ model ∷ models) last_err payload s
        ≡ (result, log model (log_all gone s))
  unfolding generate_from judge
  first_there_answers [] model models last_err result s g h = rw (replies model s, h) refl
  first_there_answers (m ∷ gone) model models last_err result s g h =
      rw (replies m s, g.0.1)
        (first_there_answers gone model models (some g.0.0) result (log m s) g.1 h)
