-- ===== src/Ai/Gemini/Limits/Ends.antt =====
-- The pause of an exhausted key ends (gemini.rs).
use ibis_assistant.Prelude.{
  ◌≡◌, refl, sym, ap, ◌∙◌, ℕ, zero, suc, ◌-◌, ◌<◌, Bool, true, false, List, ltb, ◌==◌,
  if◌then◌else◌, arith, inl, inr, Bool-cases, ==_iff,
}
use mathlib.Core.Path.{subst}
use ibis_assistant.Text.{Text}
use ibis_assistant.Effect.{Action, ◌>>=◌, pure}
use ibis_assistant.Ai.Gemini.{
  F64, Outside, WorkerCfg, SharedWorkerState, Wait, passed, interrupted, paused, exhausted,
  rpd_pause, roll_day_if_needed, pause, sleep, sleep_for_tokens, refilled, spend, refill, throttle,
  admit, pace, and_then, wait_rate_limits, estimate_all,
}

-- With each pause that leaves the day as it was, fewer are left of it; looking at the date takes none.
pub record IsCalendar {S : Type 0} (out : Outside S) (left : S → ℕ) : Type 0 where
  pub looks : (s : S) → (out.today s).1 ≡ s
  pub passes :
      (s : S)
      → (out.today (out.sleep_or_shutdown rpd_pause s).1).0 ≡ (out.today s).0
      → left (out.sleep_or_shutdown rpd_pause s).1 < left s

-- a wait that is over
abbrev pub IsOver : {F : Type 0} → Wait F → Type 0
IsOver (passed st) = Unit
IsOver (interrupted st) = Unit
IsOver (paused st) = ⊥

module _ {S F : Type 0} (f64 : F64 F) (out : Outside S) (cfg : WorkerCfg F) (left : S → ℕ)
    (calendar : IsCalendar out left) where
  -- on the day of the counters
  abbrev IsToday : SharedWorkerState F → S → Type 0
  IsToday st s = (out.today s).0 ≡ st.last_reset_rpd

  roll-today :
      (st : SharedWorkerState F) (s : S)
      → IsToday st s
      → roll_day_if_needed f64 out cfg st s ≡ (st, s)
  unfolding roll_day_if_needed
  roll-today st s d =
      rw ((==_iff (out.today s).0 st.last_reset_rpd).1 d) (ap (λ s'. (st, s')) (calendar.looks s))

  roll-fresh :
      (st : SharedWorkerState F) (s : S)
      → ((out.today s).0 == st.last_reset_rpd) ≡ false
      → exhausted cfg (roll_day_if_needed f64 out cfg st s).0 ≡ false
  unfolding roll_day_if_needed exhausted
  roll-fresh st s d = rw d (ground arith)

  -- what the loop does once its sleep is over
  abbrev Later : ℕ → Type 0
  Later rounds =
      (st : SharedWorkerState F) (s : S)
      → IsToday st s
      → left s < rounds
      → IsOver (pause f64 out cfg rounds st s).0

  awake-IsOver :
      (rounds : ℕ) (st : SharedWorkerState F) (s : S)
      → Later rounds
      → (IsToday st s → left s < rounds)
      → (exhausted cfg (roll_day_if_needed f64 out cfg st s).0 ≡ true)
      → IsOver
          (pause f64 out cfg rounds
            (roll_day_if_needed f64 out cfg st s).0
            (roll_day_if_needed f64 out cfg st s).1).0
  awake-IsOver rounds st s later closer e =
      elim (Bool-cases ((out.today s).0 == st.last_reset_rpd)) [
        | inl q ↦
            let today = (==_iff (out.today s).0 st.last_reset_rpd).0 q in
            subst (λ r. IsOver (pause f64 out cfg rounds r.0 r.1).0) (sym (roll-today st s today))
              (later st s today (closer today))
        | inr q ↦ let fresh = roll-fresh st s q in absurd (cc)
      ]

  pause-IsOver :
      (rounds : ℕ) (st : SharedWorkerState F) (s : S)
      → IsToday st s
      → left s < rounds
      → IsOver (pause f64 out cfg rounds st s).0
  unfolding pause
  pause-IsOver zero st s d h = absurd (omega arith)
  pause-IsOver (suc rounds) st s d h =
      let slept = out.sleep_or_shutdown rpd_pause s in
      awake (λ st1 s1. pause-IsOver rounds st1 s1)
        (λ today. let less = calendar.passes s (today ∙ sym d) in omega arith) slept.0
    where
      still :
          (b : Bool) (rolled : SharedWorkerState F) (s2 : S)
          → exhausted cfg rolled ≡ b
          → (exhausted cfg rolled ≡ true → IsOver (pause f64 out cfg rounds rolled s2).0)
          → IsOver
              ((elim b as (λ _. Action S (Wait F)) [
                | true ↦ pause f64 out cfg rounds rolled
                | false ↦ pure (passed rolled)
              ])
                s2).0
      still true rolled s2 e k = k e
      still false rolled s2 e k = tt

      awake :
          Later rounds
          → (IsToday st (out.sleep_or_shutdown rpd_pause s).1
              → left (out.sleep_or_shutdown rpd_pause s).1 < rounds)
          → (b : Bool)
          → IsOver
              ((elim b as (λ _. Action S (Wait F)) [
                | false ↦ pure (interrupted st)
                | true ↦
                    (roll_day_if_needed f64 out cfg st >>= λ rolled.
                    elim (exhausted cfg rolled) as (λ _. Action S (Wait F)) [
                      | true ↦ pause f64 out cfg rounds rolled
                      | false ↦ pure (passed rolled)
                    ])
              ])
                (out.sleep_or_shutdown rpd_pause s).1).0
      awake later closer false = tt
      awake later closer true =
          let s1 = (out.sleep_or_shutdown rpd_pause s).1 in
          let rolled = roll_day_if_needed f64 out cfg st s1 in
          still (exhausted cfg rolled.0) rolled.0 rolled.1 refl
            (awake-IsOver rounds st s1 later closer)

  then-IsOver :
      (w : Wait F) (next : SharedWorkerState F → Action S (Wait F)) (s : S)
      → IsOver w
      → ((st : SharedWorkerState F) → IsOver (next st s).0)
      → IsOver (and_then w next s).0
  then-IsOver (passed st) next s h k = k st
  then-IsOver (interrupted st) next s h k = tt
  then-IsOver (paused st) next s h k = h

  if-IsOver :
      (b : Bool) (x y : Action S (Wait F)) (s : S)
      → IsOver (x s).0
      → IsOver (y s).0
      → IsOver ((if b then x else y) s).0
  if-IsOver true x y s h k = h
  if-IsOver false x y s h k = k

  refilled-IsOver :
      (st : SharedWorkerState F) (b : Bool) (s : S) → IsOver (refilled f64 out cfg st b s).0
  refilled-IsOver st false s = tt
  refilled-IsOver st true s = tt

  throttle-IsOver :
      (estimated : ℕ) (st : SharedWorkerState F) (s : S)
      → IsOver (throttle f64 out cfg estimated st s).0
  unfolding throttle spend sleep_for_tokens refill
  throttle-IsOver estimated st s =
      let start = refill f64 out cfg (out.now s).0 st in
      let wait =
        f64.nanos (f64.over (f64.minus (f64.of_nat estimated) start.tpm_bucket) cfg.refill_rate) in
      let slept = out.sleep_or_shutdown wait (out.now s).1 in
      if-IsOver (cfg.limit_tpm == 0) _ _ s tt (
        if-IsOver (f64.at_least start.tpm_bucket (f64.of_nat estimated)) _ _ (out.now s).1 tt (
          if-IsOver (f64.more cfg.refill_rate (f64.of_nat 0)) _ _ (out.now s).1
            (if-IsOver (wait == 0) _ _ (out.now s).1 tt (refilled-IsOver start slept.0 slept.1))
            tt))

  pace-IsOver : (st : SharedWorkerState F) (s : S) → IsOver (pace f64 out cfg st s).0
  unfolding pace
  pace-IsOver st s =
      let slept =
        sleep f64 out cfg
          (if ltb (out.now s).0 st.next_available then st.next_available - (out.now s).0 else 0)
          (out.now s).1 in
      admitted slept.0 slept.1
    where
      admitted : (b : Bool) (s1 : S) → IsOver (admit f64 out cfg st b s1).0
      admitted false s1 = tt
      admitted true s1 = tt

  behind-IsOver :
      (texts : List Text) (w : Wait F) (s : S)
      → IsOver w
      → IsOver
          ((and_then w (throttle f64 out cfg (estimate_all texts)) >>= λ throttled.
              and_then throttled (pace f64 out cfg))
            s).0
  behind-IsOver texts w s h =
      let throttled = and_then w (throttle f64 out cfg (estimate_all texts)) s in
      then-IsOver throttled.0 (pace f64 out cfg) throttled.1
        (then-IsOver w (throttle f64 out cfg (estimate_all texts)) s h
          (λ st. throttle-IsOver (estimate_all texts) st s))
        (λ st. pace-IsOver st throttled.1)

  -- A wait comes to an end, by letting its request through or by the shutdown, in at most as many
  -- pauses as there are left of the day: with each that finds the same day there are fewer.
  pub wait_ends :
      (rounds : ℕ) (texts : List Text) (st : SharedWorkerState F) (s : S)
      → left s < rounds
      → IsOver (wait_rate_limits f64 out cfg rounds texts st s).0
  unfolding wait_rate_limits
  wait_ends rounds texts st s h =
      let rolled = roll_day_if_needed f64 out cfg st s in
      elim (Bool-cases (exhausted cfg rolled.0)) [
        | inl e ↦
            let p = pause f64 out cfg rounds rolled.0 rolled.1 in
            rw e (
              behind-IsOver texts p.0 p.1
                (awake-IsOver rounds st s (λ st1 s1. pause-IsOver rounds st1 s1) (λ _. h) e))
        | inr e ↦ rw e (behind-IsOver texts (passed rolled.0) rolled.1 tt)
      ]
