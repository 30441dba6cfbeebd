-- ===== src/Ai/Gemini.antt =====
-- crates/ibis-ai/src/gemini.rs: the worker of one key. A worker takes one job after another, waits
-- until the limits of its key let it through, and sends. The clock, the shutdown signal, the store of
-- the usage and the HTTP client are parameters; times are nanoseconds, a date is the number of its
-- day.
pub mod Limits
pub mod Requests
mod Tests
use ibis_assistant.Prelude.{
  ℕ, zero, suc, ◌+◌, ◌-◌, ◌/◌, Bool, true, false, not, Option, none, some, List, [], ◌∷◌, ltb, leb,
  ◌==◌, ◌&&◌, if◌then◌else◌,
}
use ibis_assistant.Text.{Text, is_empty}
use ibis_assistant.Text.Bytes.{byte_len}
use ibis_assistant.Effect.{Action, ◌>>=◌, pure}

abbrev pub rpd_pause : ℕ
rpd_pause = 600000000000

-- `estimate_tokens` (types.rs)
unfoldable pub estimate_tokens : Text → ℕ
estimate_tokens text = byte_len text / 3 + (if is_empty text then 0 else 1)

unfoldable pub estimate_all : List Text → ℕ
unfolding estimate_tokens
estimate_all [] = 0
estimate_all (text ∷ texts) = estimate_tokens text + estimate_all texts

-- the operations of `f64` and `Duration` that the token bucket uses
pub record F64 (F : Type 0) : Type 0 where
  pub of_nat : ℕ → F
  pub secs : ℕ → F
  pub nanos : F → ℕ
  pub plus : F → F → F
  pub minus : F → F → F
  pub times : F → F → F
  pub over : F → F → F
  pub more : F → F → Bool
  pub at_least : F → F → Bool

-- what is outside: a sleep is `false` where the shutdown ends it
pub record Outside (S : Type 0) : Type 0 where
  pub today : Action S ℕ
  pub now : Action S ℕ
  pub sleep_or_shutdown : ℕ → Action S Bool
  pub shutdown_triggered : Action S Bool
  pub save_usage : Text → ℕ → Action S (Unit {0})

-- the fields of `WorkerCfg` that the limits read; `usage_id` is `usage_id_for_key` of its key
pub record WorkerCfg (F : Type 0) : Type 0 where
  pub cost_interval : ℕ
  pub limit_tpm : ℕ
  pub refill_rate : F
  pub max_bucket : F
  pub limit_rpd : ℕ
  pub allow_overage : Bool
  pub usage_id : ℕ → Text

pub record SharedWorkerState (F : Type 0) : Type 0 where
  pub tpm_bucket : F
  pub last_refill : ℕ
  pub used_rpd : ℕ
  pub last_reset_rpd : ℕ
  pub usage_id : Text
  pub next_available : ℕ

-- how a wait ends: let through, ended by the shutdown, or still in its pause
pub data Wait (F : Type 0) : Type 0 where
  passed : SharedWorkerState F → Wait F
  interrupted : SharedWorkerState F → Wait F
  paused : SharedWorkerState F → Wait F

unfoldable pub exhausted : {F : Type 0} → WorkerCfg F → SharedWorkerState F → Bool
exhausted cfg st =
    not cfg.allow_overage && ltb 0 cfg.limit_rpd && ltb cfg.limit_rpd (st.used_rpd + 1)

-- the next wait, unless the last one ended otherwise
abbrev pub and_then :
    {S F : Type 0} → Wait F → (SharedWorkerState F → Action S (Wait F)) → Action S (Wait F)
and_then (passed st) next = next st
and_then (interrupted st) next = pure (interrupted st)
and_then (paused st) next = pure (paused st)

module _ {S F : Type 0} (f64 : F64 F) (out : Outside S) (cfg : WorkerCfg F) where
  unfoldable pub roll_day_if_needed : SharedWorkerState F → Action S (SharedWorkerState F)
  roll_day_if_needed st = do
    today ← out.today
    if today == st.last_reset_rpd then pure st else (do
      _ ← out.save_usage st.usage_id st.used_rpd
      pure (record st { used_rpd = 0; last_reset_rpd = today; usage_id = cfg.usage_id today }))

  -- the loop that waits for another day, for at most so many rounds
  unfoldable pub pause : ℕ → SharedWorkerState F → Action S (Wait F)
  unfolding exhausted roll_day_if_needed
  pause zero st = pure (paused st)
  pause (suc rounds) st = do
    slept ← out.sleep_or_shutdown rpd_pause
    elim slept [
      | false ↦ pure (interrupted st)
      | true ↦ do
        rolled ← roll_day_if_needed st
        elim (exhausted cfg rolled) [ true ↦ pause rounds rolled | false ↦ pure (passed rolled) ]
    ]

  -- a wait, if it is more than none
  unfoldable pub sleep : ℕ → Action S Bool
  sleep wait = if wait == 0 then pure true else out.sleep_or_shutdown wait

  -- an empty bucket after a sleep
  abbrev pub refilled : SharedWorkerState F → Bool → Action S (Wait F)
  refilled st false = pure (interrupted st)
  refilled st true = do
    now ← out.now
    pure (passed (record st { tpm_bucket = f64.of_nat 0; last_refill = now }))

  unfoldable pub sleep_for_tokens : ℕ → SharedWorkerState F → Action S (Wait F)
  sleep_for_tokens wait st =
      if wait == 0
      then pure (passed st)
      else (do slept ← out.sleep_or_shutdown wait; refilled st slept)

  -- what the bucket holds at a time
  unfoldable pub refill : ℕ → SharedWorkerState F → SharedWorkerState F
  refill now st =
      let bucket =
        f64.plus st.tpm_bucket (f64.times (f64.secs (now - st.last_refill)) cfg.refill_rate) in
      record st {
        tpm_bucket = if f64.more bucket cfg.max_bucket then cfg.max_bucket else bucket;
        last_refill = now;
      }

  unfoldable pub spend : F → SharedWorkerState F → Action S (Wait F)
  unfolding sleep_for_tokens
  spend cost st =
      if f64.at_least st.tpm_bucket cost
      then pure (passed (record st { tpm_bucket = f64.minus st.tpm_bucket cost }))
      else if f64.more cfg.refill_rate (f64.of_nat 0)
      then sleep_for_tokens (f64.nanos (f64.over (f64.minus cost st.tpm_bucket) cfg.refill_rate)) st
      else pure (passed st)

  unfoldable pub throttle : ℕ → SharedWorkerState F → Action S (Wait F)
  unfolding spend refill
  throttle estimated st =
      if cfg.limit_tpm == 0
      then pure (passed st)
      else (do now ← out.now; spend (f64.of_nat estimated) (refill now st))

  abbrev pub admit : SharedWorkerState F → Bool → Action S (Wait F)
  admit st false = pure (interrupted st)
  admit st true = do
    now ← out.now
    pure (
        passed (record st { next_available = now + cfg.cost_interval; used_rpd = st.used_rpd + 1 }))

  unfoldable pub pace : SharedWorkerState F → Action S (Wait F)
  unfolding sleep
  pace st = do
    now ← out.now
    slept ← sleep (if ltb now st.next_available then st.next_available - now else 0)
    admit st slept

  -- `rounds` bounds the pause of a key that is exhausted
  unfoldable pub wait_rate_limits : ℕ → List Text → SharedWorkerState F → Action S (Wait F)
  unfolding exhausted roll_day_if_needed pause throttle pace estimate_all
  wait_rate_limits rounds texts st = do
    rolled ← roll_day_if_needed st
    let_through ← (if exhausted cfg rolled then pause rounds rolled else pure (passed rolled))
    throttled ← and_then let_through (throttle (estimate_all texts))
    and_then throttled pace
