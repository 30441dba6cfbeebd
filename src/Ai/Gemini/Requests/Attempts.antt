-- ===== src/Ai/Gemini/Requests/Attempts.antt =====
-- How many requests a job sends, and what its caller is told (gemini.rs).
use ibis_assistant.Prelude.{
  ◌≡◌, refl, ◌∙◌, ℕ, zero, suc, ◌+◌, ◌≤◌, Bool, true, false, Option, none, some, List, [], ◌∷◌,
  length, arith,
}
use ibis_assistant.Text.{Text}
use ibis_assistant.Ai.{AiError, cancelled, Result, ok, err, Action}
use ibis_assistant.Ai.Gemini.{Outside}
use ibis_assistant.Ai.Gemini.Requests.{
  retry, fatal, StepResult, Client, generation_models, max_retries, Verdict, answered, next_model,
  read_generate, judge, generate_from, do_generate, after_sleep, after_call, attempt, attempts,
}

-- what a sleep and a look at the shutdown leave alone
pub record IsCount {S : Type 0} (out : Outside S) (sent : S → ℕ) : Type 0 where
  pub looks : (s : S) → sent (out.shutdown_triggered s).1 ≡ sent s
  pub sleeps : (d : ℕ) (s : S) → sent (out.sleep_or_shutdown d s).1 ≡ sent s

-- `k` as often as `n` says
abbrev pub most : ℕ → ℕ → ℕ
most zero k = 0
most (suc n) k = k + most n k

module _ {S : Type 0} (out : Outside S) (sent : S → ℕ) (count : IsCount out sent) where
  after_call-bounded :
      {A : Type 0} (b : ℕ) (later : Action S (Result A)) (outcome : StepResult A) (s : S)
      → ((s1 : S) → sent (later s1).1 ≤ sent s1 + b)
      → sent (after_call out later outcome s).1 ≤ sent s + b
  unfolding after_call
  after_call-bounded b later (ok a) s h = omega arith
  after_call-bounded b later (err (fatal e)) s h = omega arith
  after_call-bounded b later (err (retry delay)) s h =
      let awake = out.sleep_or_shutdown delay s in slept awake.0 awake.1 (count.sleeps delay s)
    where
      slept :
          (woken : Bool) (s1 : S)
          → sent s1 ≡ sent s
          → sent (after_sleep out later woken s1).1 ≤ sent s + b
      slept false s1 same = omega arith
      slept true s1 same = let m = h s1 in omega arith

  attempt-bounded :
      {A : Type 0} (k b : ℕ) (later : Action S (Result A)) (call : Action S (StepResult A))
      (stopping : Bool) (s : S)
      → ((s1 : S) → sent (call s1).1 ≤ sent s1 + k)
      → ((s1 : S) → sent (later s1).1 ≤ sent s1 + b)
      → sent (attempt out later call stopping s).1 ≤ sent s + (k + b)
  unfolding attempt
  attempt-bounded k b later call true s h l = omega arith
  attempt-bounded k b later call false s h l =
      let called = h s in
      let more = after_call-bounded b later (call s).0 (call s).1 l in omega arith

  attempts-bounded :
      {A : Type 0} (n k : ℕ) (call : Action S (StepResult A)) (s : S)
      → ((s1 : S) → sent (call s1).1 ≤ sent s1 + k)
      → sent (attempts out n call s).1 ≤ sent s + most n k
  unfolding attempts
  attempts-bounded zero k call s h = omega arith
  attempts-bounded (suc n) k call s h =
      let stopping = out.shutdown_triggered s in
      let same = count.looks s in
      let m =
        attempt-bounded k (most n k) (attempts out n call) call stopping.0 stopping.1 h
          (λ s1. attempts-bounded n k call s1 h) in
      omega arith

  module _ {Body Payload Vector Candidate : Type 0}
      (client : Client S Body Payload Vector Candidate)
      (posts : (model : Text) (payload : Payload) (s : S)
        → sent (client.post model payload s).1 ≡ sent s + 1) where
    generate_from-bounded :
        (models : List Text) (last_err : Option AiError) (payload : Payload) (s : S)
        → sent (generate_from client models last_err payload s).1 ≤ sent s + length models
    unfolding generate_from judge
    generate_from-bounded [] last_err payload s = omega arith
    generate_from-bounded (model ∷ models) last_err payload s =
        let resp = client.post model payload s in
        judged (λ e s1. generate_from-bounded models (some e) payload s1)
          (read_generate client resp.0) resp.1 (posts model payload s)
      where
        judged :
            ((e : AiError) (s1 : S)
              → sent (generate_from client models (some e) payload s1).1 ≤ sent s1 + length models)
            → (verdict : Verdict client) (s1 : S) → sent s1 ≡ sent s + 1
            → sent (judge client (λ e. generate_from client models (some e) payload) verdict s1).1
              ≤ sent s + suc (length models)
        judged later (answered result) s1 same = omega arith
        judged later (next_model e) s1 same = let m = later e s1 in omega arith

    -- One generation sends at most sixteen requests: four attempts, each with four models.
    generation_requests_bounded :
        (payload : Payload) (s : S)
        → sent (attempts out (suc max_retries) (do_generate client payload) s).1 ≤ sent s + 16
    unfolding do_generate
    generation_requests_bounded payload s =
        attempts-bounded (suc max_retries) 4 (do_generate client payload) s
          (λ s1. generate_from-bounded generation_models none payload s1)

  -- A job whose every attempt meets the rate limit is told that it was cancelled, though nothing was,
  -- once all its attempts were sent.
  pub rate_limited_is_cancelled :
      {A : Type 0} (n : ℕ) (call : Action S (StepResult A)) (delay : S → ℕ) (s : S)
      → ((s1 : S) → ((call s1).0 ≡ err (retry (delay s1))) × (sent (call s1).1 ≡ sent s1 + 1))
      → ((s1 : S) → (out.shutdown_triggered s1).0 ≡ false)
      → ((d : ℕ) (s1 : S) → (out.sleep_or_shutdown d s1).0 ≡ true)
      → ((attempts out n call s).0 ≡ err cancelled) × (sent (attempts out n call s).1 ≡ sent s + n)
  unfolding attempts attempt after_call
  rate_limited_is_cancelled zero call delay s h r w = (refl, omega arith)
  rate_limited_is_cancelled (suc n) call delay s h r w =
      let s1 = (out.shutdown_triggered s).1 in
      let s2 = (call s1).1 in
      let s3 = (out.sleep_or_shutdown (delay s1) s2).1 in
      let looked = count.looks s in
      let called = h s1 in
      let slept = count.sleeps (delay s1) s2 in
      let later = rate_limited_is_cancelled n call delay s3 h r w in
      rw (r s, called.0, w (delay s1) s2) (later.0, later.1 ∙ (let one = called.1 in omega arith))
