-- ===== src/Ai/Gemini/Limits.antt =====
-- What a worker's waits keep to (gemini.rs, `wait_rate_limits`).
pub mod Paced
pub mod Ends
pub mod Daily
use ibis_assistant.Prelude.{
  ◌≡◌, refl, ◌∙◌, ℕ, zero, suc, ◌+◌, ◌≤◌, Bool, true, false, ◌==◌, inl, inr, Bool-cases,
}
use ibis_assistant.Effect.{Action, ◌>>=◌, pure}
use ibis_assistant.Ai.Gemini.{
  F64, Outside, WorkerCfg, SharedWorkerState, Wait, passed, interrupted, paused, exhausted,
  rpd_pause, roll_day_if_needed, pause, refilled, sleep_for_tokens, refill, spend, throttle,
  and_then,
}

-- a clock that does not go back, and sleeps that are long enough
pub record IsClock {S : Type 0} (out : Outside S) (clock : S → ℕ) : Type 0 where
  pub reads : (s : S) → out.now s ≡ (clock s, s)
  pub sleeps :
      (d : ℕ) (s : S)
      → (out.sleep_or_shutdown d s).0 ≡ true
      → clock s + d ≤ clock (out.sleep_or_shutdown d s).1

-- of a wait that lets through
abbrev pub OnPass : {S F : Type 0} → (SharedWorkerState F → S → Type 0) → Wait F × S → Type 0
OnPass P (passed st, s) = P st s
OnPass P (interrupted st, s) = Unit
OnPass P (paused st, s) = Unit

-- what the waits in front of the pacing leave alone
abbrev pub Same : {F : Type 0} → SharedWorkerState F → SharedWorkerState F → Type 0
Same st st1 =
    (st1.next_available ≡ st.next_available)
    × (st1.used_rpd ≡ st.used_rpd)
    × (st1.last_reset_rpd ≡ st.last_reset_rpd)

-- room for one more request of the day
abbrev pub HasRoom : {F : Type 0} → WorkerCfg F → SharedWorkerState F → Type 0
HasRoom cfg st = exhausted cfg st ≡ false

-- ready to be paced, with a time to wait for
abbrev pub Ready : {S F : Type 0} → WorkerCfg F → ℕ → SharedWorkerState F → S → Type 0
Ready cfg next st s = (st.next_available ≡ next) × HasRoom cfg st

pub then-OnPass :
    {S F : Type 0} (P Q : SharedWorkerState F → S → Type 0) (w : Wait F × S)
    (next : SharedWorkerState F → Action S (Wait F))
    → OnPass P w
    → ((st : SharedWorkerState F) (s : S) → P st s → OnPass Q (next st s))
    → OnPass Q (and_then w.0 next w.1)
then-OnPass P Q (passed st, s) next h k = k st s h
then-OnPass P Q (interrupted st, s) next h k = tt
then-OnPass P Q (paused st, s) next h k = tt

pub map-OnPass :
    {S F : Type 0} (P Q : SharedWorkerState F → S → Type 0) (w : Wait F × S)
    → ((st : SharedWorkerState F) (s : S) → P st s → Q st s)
    → OnPass P w
    → OnPass Q w
map-OnPass P Q (passed st, s) k h = k st s h
map-OnPass P Q (interrupted st, s) k h = tt
map-OnPass P Q (paused st, s) k h = tt

module _ {S F : Type 0} (f64 : F64 F) (out : Outside S) (cfg : WorkerCfg F) where
  pub roll-next :
      (st : SharedWorkerState F) (s : S)
      → (roll_day_if_needed f64 out cfg st s).0.next_available ≡ st.next_available
  unfolding roll_day_if_needed
  roll-next st s = elim (Bool-cases ((out.today s).0 == st.last_reset_rpd)) [
    | inl e ↦ rw e refl
    | inr e ↦ rw e refl
  ]

  pub pause-OnPass :
      (rounds : ℕ) (st : SharedWorkerState F) (s : S)
      → OnPass (Ready cfg st.next_available) (pause f64 out cfg rounds st s)
  unfolding pause
  pause-OnPass zero st s = tt
  pause-OnPass (suc rounds) st s =
      let slept = out.sleep_or_shutdown rpd_pause s in
      awake (λ rolled s1. pause-OnPass rounds rolled s1) slept.0 slept.1
    where
      still :
          ((rolled : SharedWorkerState F) (s1 : S)
            → OnPass (Ready cfg rolled.next_available) (pause f64 out cfg rounds rolled s1))
          → (b : Bool) (rolled : SharedWorkerState F) (s2 : S) → exhausted cfg rolled ≡ b
          → rolled.next_available ≡ st.next_available
          → OnPass (Ready cfg st.next_available) (
              (elim b as (λ _. Action S (Wait F)) [
                | true ↦ pause f64 out cfg rounds rolled
                | false ↦ pure (passed rolled)
              ])
                s2)
      still later true rolled s2 e n =
          map-OnPass (Ready cfg rolled.next_available) (Ready cfg st.next_available)
            (pause f64 out cfg rounds rolled s2) (λ st1 s1 h. (h.0 ∙ n, h.1)) (later rolled s2)
      still later false rolled s2 e n = (n, e)

      awake :
          ((rolled : SharedWorkerState F) (s1 : S)
            → OnPass (Ready cfg rolled.next_available) (pause f64 out cfg rounds rolled s1))
          → (b : Bool) (s1 : S)
          → OnPass (Ready cfg st.next_available) (
              (elim b as (λ _. Action S (Wait F)) [
                | false ↦ pure (interrupted st)
                | true ↦
                    (roll_day_if_needed f64 out cfg st >>= λ rolled.
                    elim (exhausted cfg rolled) as (λ _. Action S (Wait F)) [
                      | true ↦ pause f64 out cfg rounds rolled
                      | false ↦ pure (passed rolled)
                    ])
              ])
                s1)
      awake later false s1 = tt
      awake later true s1 =
          let rolled = roll_day_if_needed f64 out cfg st s1 in
          still later (exhausted cfg rolled.0) rolled.0 rolled.1 refl (roll-next st s1)

  refilled-OnPass :
      (st : SharedWorkerState F) (slept : Bool) (s : S)
      → OnPass (λ st1 s1. Same st st1) (refilled f64 out cfg st slept s)
  refilled-OnPass st false s = tt
  refilled-OnPass st true s = (refl, refl, refl)

  tokens-OnPass :
      (wait : ℕ) (st : SharedWorkerState F) (s : S)
      → OnPass (λ st1 s1. Same st st1) (sleep_for_tokens f64 out cfg wait st s)
  unfolding sleep_for_tokens
  tokens-OnPass wait st s = elim (Bool-cases (wait == 0)) [
    | inl e ↦ rw e (refl, refl, refl)
    | inr e ↦ let slept = out.sleep_or_shutdown wait s in rw e (refilled-OnPass st slept.0 slept.1)
  ]

  spend-OnPass :
      (cost : F) (st : SharedWorkerState F) (s : S)
      → OnPass (λ st1 s1. Same st st1) (spend f64 out cfg cost st s)
  unfolding spend
  spend-OnPass cost st s = elim (Bool-cases (f64.at_least st.tpm_bucket cost)) [
    | inl e ↦ rw e (refl, refl, refl)
    | inr e ↦ elim (Bool-cases (f64.more cfg.refill_rate (f64.of_nat 0))) [
      | inl m ↦
          rw (e, m)
            (tokens-OnPass (f64.nanos (f64.over (f64.minus cost st.tpm_bucket) cfg.refill_rate)) st
              s)
      | inr m ↦ rw (e, m) (refl, refl, refl)
    ]
  ]

  pub throttle-OnPass :
      (estimated : ℕ) (st : SharedWorkerState F) (s : S)
      → OnPass (λ st1 s1. Same st st1) (throttle f64 out cfg estimated st s)
  unfolding throttle refill
  throttle-OnPass estimated st s = elim (Bool-cases (cfg.limit_tpm == 0)) [
    | inl e ↦ rw e (refl, refl, refl)
    | inr e ↦
        rw e
          (spend-OnPass (f64.of_nat estimated) (refill f64 out cfg (out.now s).0 st) (out.now s).1)
  ]
