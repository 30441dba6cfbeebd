-- ===== src/Ai/Gemini/Requests.antt =====
-- What a worker sends, and how often (gemini.rs: `do_embed`, `do_generate`, `process_embed`,
-- `process_generate`). HTTP and JSON are parameters: a body is of a type `Body`, and what is read of
-- it is a function.
pub mod Attempts
pub mod Failover
use ibis_assistant.Prelude.{
  ℕ, zero, suc, ◌+◌, Bool, true, false, Option, none, some, List, [], ◌∷◌, ◌++◌, ◌==◌,
  if◌then◌else◌,
}
use ibis_assistant.Text.{Text, str}
use ibis_assistant.Text.Number.{pos, int_text}
use ibis_assistant.Ai.{AiError, cancelled, other, Result, Fallible, ok, err, Action, ◌>>=◌, pure}
use ibis_assistant.Ai.Gemini.{
  Outside, WorkerCfg, F64, SharedWorkerState, Wait, passed, interrupted, paused, wait_rate_limits,
}

-- a delay to wait for before another attempt, or an error that ends them
pub data StepErr : Type 0 where
  retry : ℕ → StepErr
  fatal : AiError → StepErr

abbrev pub StepResult : Type 0 → Type 0
StepResult A = Fallible StepErr A

-- a response with its status and its body, if it can be read
pub record Response (Body : Type 0) : Type 0 where
  pub status : ℕ
  pub body : Result Body

-- The HTTP client of the worker, with the URL of a model, and what is read of a body: the vectors,
-- the first candidate of those that a generation gives, the delay of an error, and the text.
pub record Client (S Body Payload Vector Candidate : Type 0) : Type 0 where
  pub post : Text → Payload → Action S (Result (Response Body))
  pub embeddings : Body → Fallible Text (List Vector)
  pub candidates : Body → Fallible Text (List Candidate)
  pub parse_retry_delay : Body → Option ℕ
  pub body_lossy : Body → Text

abbrev pub max_retries : ℕ
max_retries = 3

-- 5 seconds
abbrev pub default_delay : ℕ
default_delay = 5000000000

abbrev pub delay_or_default : Option ℕ → ℕ
delay_or_default none = default_delay
delay_or_default (some delay) = delay

abbrev pub embedding_model : Text
embedding_model = str "models/text-embedding-004"

abbrev pub generation_models : List Text
generation_models =
    str "models/gemini-3.1-pro-preview"
    ∷ str "models/gemini-3.6-flash"
    ∷ str "models/gemini-3.5-flash"
    ∷ str "models/gemini-2.5-flash"
    ∷ []

unfoldable pub api_error : ℕ → Text → AiError
api_error status text =
    other (str "gemini api error " ++ (int_text (pos status) ++ (str ": " ++ text)))

abbrev pub or_failed : Option AiError → AiError
or_failed none = other (str "gemini generation failed")
or_failed (some e) = e

abbrev pub first_candidate :
    {Candidate : Type 0} → Fallible Text (List Candidate) → StepResult Candidate
first_candidate (err e) = err (fatal (other (str "parsing error: " ++ e)))
first_candidate (ok []) = err (fatal (other (str "no candidates returned")))
first_candidate (ok (candidate ∷ _)) = ok candidate

abbrev pub vectors : {Vector : Type 0} → Fallible Text (List Vector) → StepResult (List Vector)
vectors (err e) = err (fatal (other (str "parsing error: " ++ e)))
vectors (ok found) = ok found

module _ {S Body Payload Vector Candidate : Type 0}
    (client : Client S Body Payload Vector Candidate) where
  unfoldable pub embed_reply : ℕ → Body → StepResult (List Vector)
  unfolding api_error
  embed_reply status body =
      if status == 200
      then vectors (client.embeddings body)
      else if status == 429
      then err (retry (delay_or_default (client.parse_retry_delay body)))
      else err (fatal (api_error status (client.body_lossy body)))

  abbrev pub read_embed : Result (Response Body) → StepResult (List Vector)
  read_embed (err e) = err (fatal e)
  read_embed (ok resp) = elim (resp.body) [
    | err e ↦ err (fatal e)
    | ok body ↦ embed_reply resp.status body
  ]

  unfoldable pub do_embed : Payload → Action S (StepResult (List Vector))
  unfolding embed_reply
  do_embed payload = do resp ← client.post embedding_model payload; pure (read_embed resp)

  -- what a model's response leads to: an end, or the next model with the error so far
  pub data Verdict : Type 0 where
    answered : StepResult Candidate → Verdict
    next_model : AiError → Verdict

  unfoldable pub generate_reply : ℕ → Body → Verdict
  unfolding api_error
  generate_reply status body =
      if status == 200
      then answered (first_candidate (client.candidates body))
      else if status == 429
      then answered (err (retry (delay_or_default (client.parse_retry_delay body))))
      else if status == 404
      then next_model (api_error status (client.body_lossy body))
      else answered (err (fatal (api_error status (client.body_lossy body))))

  unfoldable pub read_generate : Result (Response Body) → Verdict
  unfolding generate_reply
  read_generate (err e) = next_model e
  read_generate (ok resp) = elim (resp.body) [
    | err e ↦ answered (err (fatal e))
    | ok body ↦ generate_reply resp.status body
  ]

  unfoldable pub judge :
      (AiError → Action S (StepResult Candidate)) → Verdict → Action S (StepResult Candidate)
  judge next (answered result) = pure result
  judge next (next_model e) = next e

  -- the loop over the models
  unfoldable pub generate_from :
      List Text → Option AiError → Payload → Action S (StepResult Candidate)
  unfolding read_generate judge
  generate_from [] last_err payload = pure (err (fatal (or_failed last_err)))
  generate_from (model ∷ models) last_err payload = do
    resp ← client.post model payload
    judge (λ e. generate_from models (some e) payload) (read_generate resp)

  unfoldable pub do_generate : Payload → Action S (StepResult Candidate)
  unfolding generate_from
  do_generate payload = generate_from generation_models none payload

module _ {S : Type 0} (out : Outside S) where
  -- `later` are the attempts behind this one
  abbrev pub after_sleep : {A : Type 0} → Action S (Result A) → Bool → Action S (Result A)
  after_sleep later false = pure (err cancelled)
  after_sleep later true = later

  unfoldable pub after_call :
      {A : Type 0} → Action S (Result A) → StepResult A → Action S (Result A)
  after_call later (ok a) = pure (ok a)
  after_call later (err (fatal e)) = pure (err e)
  after_call later (err (retry delay)) = do
    slept ← out.sleep_or_shutdown delay
    after_sleep later slept

  unfoldable pub attempt :
      {A : Type 0} → Action S (Result A) → Action S (StepResult A) → Bool → Action S (Result A)
  unfolding after_call
  attempt later call true = pure (err cancelled)
  attempt later call false = do outcome ← call; after_call later outcome

  -- The loop over the attempts of a job. A sleep that the shutdown ends, ends it.
  unfoldable pub attempts : {A : Type 0} → ℕ → Action S (StepResult A) → Action S (Result A)
  unfolding attempt
  attempts zero call = pure (err cancelled)
  attempts (suc more) call = do
    stopping ← out.shutdown_triggered
    attempt (attempts more call) call stopping

  abbrev pub state_of : {F : Type 0} → Wait F → SharedWorkerState F
  state_of (passed st) = st
  state_of (interrupted st) = st
  state_of (paused st) = st

  -- `process_embed` and `process_generate`: the answer to a job, and the state of the worker behind it
  unfoldable pub process :
      {F A : Type 0}
      → F64 F
      → WorkerCfg F
      → ℕ
      → List Text
      → Action S (StepResult A)
      → SharedWorkerState F
      → Action S (Result A × SharedWorkerState F)
  unfolding attempts
  process f64 cfg rounds texts call st = do
    waited ← wait_rate_limits f64 out cfg rounds texts st
    result ← attempts (suc max_retries) call
    pure (result, state_of waited)
