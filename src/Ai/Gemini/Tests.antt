-- ===== src/Ai/Gemini/Tests.antt =====
-- Runs of a Gemini worker on a clock that a sleep moves on.
use ibis_assistant.Prelude.{
  ◌≡◌, refl, ℕ, ◌+◌, ◌-◌, ◌*◌, ◌/◌, ◌≤◌, true, false, none, [], ◌∷◌, ltb, leb, if◌then◌else◌, arith,
}
use ibis_assistant.Text.{Text, str, text_eq}
use ibis_assistant.Text.Run.{text_runs}
use ibis_assistant.Ai.{cancelled, Result, ok, err, Action}
use ibis_assistant.Ai.Gemini.{
  F64, Outside, WorkerCfg, SharedWorkerState, exhausted, roll_day_if_needed, sleep, throttle, pace,
  wait_rate_limits,
}
use ibis_assistant.Ai.Gemini.Limits.{IsClock}
use ibis_assistant.Ai.Gemini.Limits.Paced.{jobs_paced}
use ibis_assistant.Ai.Gemini.Limits.Ends.{IsCalendar, IsOver, wait_ends}
use ibis_assistant.Ai.Gemini.Requests.{
  retry, StepResult, Response, Client, read_generate, generate_reply, generate_from, judge,
  do_generate, attempts, api_error,
}
use ibis_assistant.Ai.Gemini.Requests.Attempts.{IsCount, rate_limited_is_cancelled}
use ibis_assistant.Ai.Gemini.Requests.Failover.{first_there_answers}

abbrev World : Type 0
World = ℕ × ℕ

-- each tick is a day of its own
abbrev outside : Outside World
outside = record {
  today = λ s. (s.0, s);
  now = λ s. (s.0, s);
  sleep_or_shutdown = λ d s. (true, (s.0 + d, s.1));
  shutdown_triggered = λ s. (false, s);
  save_usage = λ id n s. (tt, s);
}

abbrev f64 : F64 ℕ
f64 = record {
  of_nat = λ n. n;
  secs = λ n. n;
  nanos = λ n. n;
  plus = λ a b. a + b;
  minus = λ a b. a - b;
  times = λ a b. a * b;
  over = λ a b. a / b;
  more = λ a b. ltb b a;
  at_least = λ a b. leb b a;
}

abbrev cfg : WorkerCfg ℕ
cfg = record {
  cost_interval = 10;
  limit_tpm = 0;
  refill_rate = 0;
  max_bucket = 0;
  limit_rpd = 1;
  allow_overage = false;
  usage_id = λ day. [];
}

abbrev state : ℕ → ℕ → ℕ → SharedWorkerState ℕ
state next used day = record {
  tpm_bucket = 0;
  last_refill = 0;
  used_rpd = used;
  last_reset_rpd = day;
  usage_id = [];
  next_available = next;
}

ticking : IsClock outside (λ s. s.0)
ticking = record { reads = λ s. refl; sleeps = λ d s h. omega arith }

jobs_paced_example : 0 + 10 ≤ 10
unfolding wait_rate_limits roll_day_if_needed exhausted throttle pace sleep
jobs_paced_example =
    jobs_paced f64 outside cfg (λ s. s.0) ticking 0 0 [] [] (state 0 0 0) (state 10 1 0)
      (state 20 1 3) (0, 0) (0, 0) (3, 0) (10, 0) refl refl

days_pass : IsCalendar outside (λ s. 0)
days_pass = record { looks = λ s. refl; passes = λ s h. absurd (omega arith) }

-- the limit of the day is reached
wait_ends_example :
    IsOver (wait_rate_limits f64 outside cfg 1 (str "some text" ∷ []) (state 0 1 0) (0, 0)).0
wait_ends_example =
    wait_ends f64 outside cfg (λ s. 0) days_pass 1 (str "some text" ∷ []) (state 0 1 0) (0, 0)
      (omega arith)

-- the first model is not there, the second answers its own name
abbrev reply : Text → Result (Response Text)
reply model =
    if text_eq model (str "models/gemini-3.1-pro-preview")
    then ok (record { status = 404; body = ok [] })
    else ok (record { status = 200; body = ok model })

abbrev client : Client World Text (Unit {0}) ℕ Text
client = record {
  post = λ model payload s. (reply model, (s.0, s.1 + 1));
  embeddings = λ body. ok [];
  candidates = λ body. ok (body ∷ []);
  parse_retry_delay = λ body. none;
  body_lossy = λ body. body;
}

second_model_answers : (do_generate client tt (0, 0)) ≡ (ok (str "models/gemini-3.6-flash"), (0, 2))
unfolding do_generate generate_from judge read_generate generate_reply text_runs
second_model_answers = refl

first_there_answers_example :
    generate_from client
      (str "models/gemini-3.1-pro-preview"
        ∷ str "models/gemini-3.6-flash"
        ∷ str "models/gemini-3.5-flash"
        ∷ [])
      none
      tt
      (0, 0)
    ≡ (ok (str "models/gemini-3.6-flash"), (0, 2))
unfolding read_generate generate_reply text_runs
first_there_answers_example =
    first_there_answers client tt reply (λ model s. (s.0, s.1 + 1)) (λ model s. refl)
      (str "models/gemini-3.1-pro-preview" ∷ []) (str "models/gemini-3.6-flash")
      (str "models/gemini-3.5-flash" ∷ []) none (ok (str "models/gemini-3.6-flash")) (0, 0)
      ((api_error 404 [], refl), tt) refl

counted : IsCount outside (λ s. s.1)
counted = record { looks = λ s. refl; sleeps = λ d s. refl }

abbrev limited : Action World (StepResult ℕ)
limited s = (err (retry 5), (s.0, s.1 + 1))

rate_limited_is_cancelled_example :
    ((attempts outside 4 limited (0, 0)).0 ≡ err cancelled)
    × ((attempts outside 4 limited (0, 0)).1.1 ≡ 0 + 4)
rate_limited_is_cancelled_example =
    rate_limited_is_cancelled outside (λ s. s.1) counted 4 limited (λ s. 5) (0, 0)
      (λ s. (refl, refl)) (λ s. refl) (λ d s. refl)
